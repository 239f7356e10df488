-- ===== src/Shim/Worker/Calls.antt =====
-- Where and how a call runs (src/rlbox_process_sandbox_shim.cpp): in a worker or in a child of its own.
use mathlib.Core.Bool.{◌||◌}
use mathlib.Core.List.{append-nil}
use rlbox_dynamic_sandbox.Common.{
  ℕ, ◌%◌, ◌^◌, ◌<◌, ◌≤◌, ◌≡◌, ◌∙◌, refl, sym, ap, arith, true, false, List, [], ◌++◌, none, some,
  length, map, Bool-cases, inl, inr, ltb, ◌==◌,
}
use rlbox_dynamic_sandbox.Meta.Types.{Host, i386, x86_64, pointer_bits}
use rlbox_dynamic_sandbox.Seccomp.{Mode, Headers, Kernel, apply_filter}
use rlbox_dynamic_sandbox.Abi.{
  Ffi, ArgType, k_max_args, convert_return, run_call, prepare, ffi_type_for_tag, do_ffi_call,
  sign_extend,
}
use rlbox_dynamic_sandbox.Shim.Pipe.{ReadEvent, WriteEvent, write_full}
use rlbox_dynamic_sandbox.Shim.Pipe.Gather.{carried, IsSound, read_full_short}
use rlbox_dynamic_sandbox.Shim.Pipe.Sent.{capacity, write_full_done}
use rlbox_dynamic_sandbox.Shim.Wire.{word_bytes}
use rlbox_dynamic_sandbox.Shim.Wire.RoundTrip.{length-word_bytes, read_word-word_bytes}
use rlbox_dynamic_sandbox.Shim.Worker.{
  Library, Child, running, died, child_ffi, Job, Link, send_job, read_result, run_job, end_call,
  run_filtered, worker_main,
}
use rlbox_dynamic_sandbox.Shim.Worker.Protocol.{IsWire, read_job-job_bytes, read_front}
use rlbox_dynamic_sandbox.Shim.Worker.Sending.{send_job-done, send_job-cut, read_job_cut}

-- A pipe brings the bytes that were written, in pieces, and no read of it fails.
pub record IsFaithful (arrive : List ℕ → List ReadEvent) : Type 0 where
  pub sound : (bytes : List ℕ) → IsSound (arrive bytes)
  pub brings : (bytes : List ℕ) → carried (arrive bytes) ≡ bytes

convert_return_bound : (h : Host) (t : ArgType) (buf : ℕ) → convert_return h t buf < 2 ^ 64
unfolding convert_return sign_extend
convert_return_bound i386 t buf = ground arith
convert_return_bound x86_64 t buf = ground arith

-- A read of a result that is a whole word.
pub read_result_back :
    (come_back : List ℕ → List ReadEvent) (ws : List WriteEvent) (r : ℕ)
    → IsFaithful come_back
    → 8 ≤ capacity ws
    → r < 2 ^ 64
    → read_result (come_back (write_full (word_bytes 8 r) ws).sent) ≡ r
unfolding read_result
read_result_back come_back ws r back room small =
    let bytes = word_bytes 8 r in
    let sent = (write_full_done bytes ws (omega (arith, length-word_bytes 8 r))).1 in
    let (pipe', reads, left, sound') =
      read_front 8 bytes [] (come_back bytes) (back.sound bytes) (length-word_bytes 8 r)
        (back.brings bytes ∙ sym (append-nil bytes)) in
    rw (sent, read_result, reads) (read_word-word_bytes 8 r small)

-- A pipe that nobody wrote into gives no result.
pub nothing_back :
    (come_back : List ℕ → List ReadEvent) → IsFaithful come_back → read_result (come_back []) ≡ 0
unfolding read_result
nothing_back come_back back =
    rw
      (
        read_result,
        read_full_short 8 (come_back []) (back.sound [])
            (omega (arith, ap length (back.brings []))),
      )
      refl

-- What a call comes to for the parent: a child that died has no result, and has written what it wrote.
abbrev pub settle : {M : Type 0} → ℕ → Child M → ℕ × M
settle r (running m) = (r, m)
settle r (died m) = (0, m)

module _ {N : Type 0} (h : Host) (ffi : Ffi N) where
  run_call_bound :
      (f : ℕ) (ret : ArgType) (args : List (ArgType × ℕ)) (m : N)
      → (run_call h ffi f ret args m).0 < 2 ^ 64
  unfolding run_call
  run_call_bound f ret args m =
      let (buf, m') = ffi.call f ret args m in
      elim (Bool-cases (ffi.prep_cif ret (map (λ (a : ArgType × ℕ). a.0) args))) [
        | inl prepared ↦ rw prepared (convert_return_bound h ret buf)
        | inr refused ↦ rw refused (ground arith)
      ]

  do_ffi_call_bound :
      (shm_base f tag : ℕ) (tags values : List ℕ) (m : N)
      → (do_ffi_call h ffi shm_base f tag tags values m).0 < 2 ^ 64
  unfolding do_ffi_call
  do_ffi_call_bound shm_base f tag tags values m =
      elim (Bool-cases ((shm_base == 0 || f == 0) || ltb k_max_args (length tags))) [
        | inl guarded ↦ rw guarded (ground arith)
        | inr open_ ↦
            rw open_
              (elim (prepare h tags values)
                as (λ prepared.
                  (elim prepared as (λ x. ℕ × N) [
                    | none ↦ (0, m)
                    | some args ↦ elim (ffi_type_for_tag tag) as (λ x. ℕ × N) [
                      | none ↦ (0, m)
                      | some ret ↦ run_call h ffi f ret args m
                    ]
                  ]).0
                  < 2 ^ 64) [
                    | none ↦ ground arith
                    | some args ↦
                        elim (ffi_type_for_tag tag)
                          as (λ known.
                            (elim known as (λ x. ℕ × N) [
                              | none ↦ (0, m)
                              | some ret ↦ run_call h ffi f ret args m
                            ]).0
                            < 2 ^ 64) [
                              | none ↦ ground arith
                              | some ret ↦ run_call_bound f ret args m
                            ]
                  ])
      ]

module _ {M K : Type 0} (h : Host) (library : Library M K) (headers : Headers) (kernel : Kernel K)
    (mode : Mode) (shm_base : ℕ) where
  pub run_job_bound :
      (k : K) (job : Job) (m : M)
      → (run_job h library headers kernel mode shm_base k job m).0 < 2 ^ 64
  unfolding run_job
  run_job_bound k job m =
      do_ffi_call_bound h (child_ffi library k) shm_base (job.func_addr % 2 ^ pointer_bits h)
        job.ret_tag job.arg_tags job.arg_values (running m)

  -- A child that has made a call whose result is a word: the parent gets what the call comes to, if the
  -- pipe takes eight bytes.
  pub end_call_back :
      (k : K) (ws : List WriteEvent) (come_back : List ℕ → List ReadEvent) (r : ℕ) (child : Child M)
      → IsFaithful come_back
      → 8 ≤ capacity ws
      → r < 2 ^ 64
      → let ended = end_call h library headers kernel mode shm_base k ws r child in
        (read_result (come_back ended.wrote), ended.memory) ≡ settle r child
  unfolding end_call
  end_call_back k ws come_back r (running m) back room small =
      ap (λ v. (v, m)) (read_result_back come_back ws r back room small)
  end_call_back k ws come_back r (died m) back room small =
      ap (λ v. (v, m)) (nothing_back come_back back)

  -- A worker that reads a job, and whose filter goes in.
  pub run_filtered_allowed :
      (job : Job) (ws : List WriteEvent) (m : M) (k : K)
      → (apply_filter headers h kernel mode k).0 ≡ true
      → let k' = (apply_filter headers h kernel mode k).1 in
        let (r, child) = run_job h library headers kernel mode shm_base k' job m in
        run_filtered h library headers kernel mode shm_base job ws m k
        ≡ end_call h library headers kernel mode shm_base k' ws r child
  unfolding run_filtered
  run_filtered_allowed job ws m k e = rw e refl

  pub run_filtered_refused :
      (job : Job) (ws : List WriteEvent) (m : M) (k : K)
      → (apply_filter headers h kernel mode k).0 ≡ false
      → run_filtered h library headers kernel mode shm_base job ws m k ≡ record {
        status = some 2;
        wrote = [];
        memory = m;
        thread = (apply_filter headers h kernel mode k).1;
      }
  unfolding run_filtered
  run_filtered_refused job ws m k e = rw e refl

  -- What a worker makes of a job that went into the pipe.
  pub worker_main-sent :
      (job : Job) (link : Link) (m : M) (k : K)
      → IsWire job
      → IsFaithful link.arrive
      → (send_job job link.writes).done ≡ true
      → worker_main h library headers kernel mode shm_base
          (link.arrive (send_job job link.writes).sent)
          link.answers
          m
          k
        ≡ run_filtered h library headers kernel mode shm_base job link.answers m k
  unfolding worker_main
  worker_main-sent job link m k w arrive done =
      let sent = (send_job job link.writes).sent in
      let reads =
        read_job-job_bytes job (link.arrive sent) w (arrive.sound sent)
          (arrive.brings sent ∙ send_job-done job link.writes done) in
      rw (worker_main, reads) refl

  pub worker_main-cut :
      (job : Job) (link : Link) (m : M) (k : K)
      → IsWire job
      → IsFaithful link.arrive
      → (send_job job link.writes).done ≡ false
      → worker_main h library headers kernel mode shm_base
          (link.arrive (send_job job link.writes).sent)
          link.answers
          m
          k
        ≡ record { status = some 1; wrote = []; memory = m; thread = k }
  unfolding worker_main
  worker_main-cut job link m k w arrive cut =
      let sent = (send_job job link.writes).sent in
      let (rest, whole, missing) = send_job-cut job link.writes cut in
      let reads =
        read_job_cut job (link.arrive sent) rest w (arrive.sound sent)
          (ap (λ t. t ++ rest) (arrive.brings sent) ∙ whole) missing in
      rw (worker_main, reads) refl
