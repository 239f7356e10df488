-- ===== src/Shim/Worker/Protocol.antt =====
-- The worker reads the job that was written for it (src/rlbox_process_sandbox_shim.cpp).
use rlbox_dynamic_sandbox.Common.{
  ℕ, ◌+◌, ◌*◌, ◌%◌, ◌^◌, ◌<◌, ◌≤◌, ◌≡◌, ◌∙◌, refl, sym, ap, ap₂, arith, false, List, [], ◌∷◌, ◌++◌,
  some, length, length-append, take, drop, All, Bool-cases, inl, inr, ltb, ◌==◌, if◌then◌else◌,
}
use mathlib.Core.List.{append-nil}
use rlbox_dynamic_sandbox.Abi.{k_max_args}
use rlbox_dynamic_sandbox.Shim.Pipe.{ReadEvent, read_full}
use rlbox_dynamic_sandbox.Shim.Pipe.Gather.{carried, IsSound, read_full_gathers}
use rlbox_dynamic_sandbox.Shim.Wire.{WireJobHeader, header_bytes, array_bytes, read_array}
use rlbox_dynamic_sandbox.Shim.Wire.RoundTrip.{
  take-append, drop-append_eq, length-array_bytes, read_array-array_bytes, length-header_bytes,
  read_header-header_bytes,
}
use rlbox_dynamic_sandbox.Shim.Worker.{Job, read_arguments, check_job, read_job, ◌>>=◌}

-- A job within the bounds of the wire: an address, 32-bit tags and 64-bit values, as many of the one as
-- of the other, and no more than a worker takes.
pub record IsWire (job : Job) : Type 0 where
  pub narrow_addr : job.func_addr < 2 ^ 64
  pub narrow_ret : job.ret_tag < 2 ^ 32
  pub narrow_tags : All (λ t. t < 256 ^ 4) job.arg_tags
  pub narrow_values : All (λ v. v < 256 ^ 8) job.arg_values
  pub paired : length job.arg_values ≡ length job.arg_tags
  pub few : length job.arg_tags ≤ k_max_args

-- The bytes of a job.
abbrev pub header_of : Job → WireJobHeader
header_of job = record {
  func_addr = job.func_addr;
  ret_tag = job.ret_tag;
  nargs = length job.arg_tags % 2 ^ 32;
}

abbrev pub job_bytes : Job → List ℕ
job_bytes job =
    header_bytes (header_of job)
    ++ (if length job.arg_tags == 0
        then []
        else array_bytes 4 job.arg_tags ++ array_bytes 8 job.arg_values)

-- A read of exactly the bytes in front.
pub read_front :
    (n : ℕ) (front rest : List ℕ) (pipe : List ReadEvent)
    → IsSound pipe
    → length front ≡ n
    → carried pipe ≡ front ++ rest
    → (pipe' : List ReadEvent) × (read_full n pipe ≡ some (front, pipe'))
      × (carried pipe' ≡ rest)
      × IsSound pipe'
read_front n front rest pipe sound len e =
    let total : length (carried pipe) ≡ length front + length rest =
      ap length e ∙ length-append front rest in
    let (pipe', reads, leaves, sound') = read_full_gathers n pipe sound (omega arith) in
    (
      pipe',
      reads ∙ ap (λ t. some (t, pipe')) (ap (take n) e ∙ take-append n front rest len),
      leaves ∙ ap (drop n) e ∙ drop-append_eq n front rest len,
      sound',
    )

read_arguments-array_bytes :
    (hdr : WireJobHeader) (tags values : List ℕ) (pipe : List ReadEvent)
    → IsSound pipe
    → hdr.nargs ≡ length tags
    → length values ≡ length tags
    → All (λ t. t < 256 ^ 4) tags
    → All (λ v. v < 256 ^ 8) values
    → carried pipe ≡ array_bytes 4 tags ++ array_bytes 8 values
    → read_arguments hdr pipe
      ≡ some (record {
        func_addr = hdr.func_addr;
        ret_tag = hdr.ret_tag;
        arg_tags = tags;
        arg_values = values;
      })
unfolding read_arguments
read_arguments-array_bytes hdr tags values pipe sound n m ts vs e =
    let (pipe1, reads_tags, left, sound1) =
      read_front (hdr.nargs * 4) (array_bytes 4 tags) (array_bytes 8 values) pipe sound
        (length-array_bytes 4 tags ∙ ap (λ k. k * 4) (sym n)) e in
    let (pipe2, reads_values, left2, sound2) =
      read_front (hdr.nargs * 8) (array_bytes 8 values) [] pipe1 sound1
        (length-array_bytes 8 values ∙ ap (λ k. k * 8) (m ∙ sym n))
        (left ∙ sym (append-nil (array_bytes 8 values))) in
    let tags_back : read_array 4 hdr.nargs (array_bytes 4 tags) ≡ tags =
      ap (λ k. read_array 4 k (array_bytes 4 tags)) n ∙ read_array-array_bytes 4 tags ts in
    let values_back : read_array 8 hdr.nargs (array_bytes 8 values) ≡ values =
      ap (λ k. read_array 8 k (array_bytes 8 values)) (n ∙ sym m)
      ∙ read_array-array_bytes 8 values vs in
    rw (reads_tags, ◌>>=◌, reads_values)
      (ap₂
        (λ t v. some (record {
          func_addr = hdr.func_addr;
          ret_tag = hdr.ret_tag;
          arg_tags = t;
          arg_values = v;
        }))
        tags_back values_back)

-- The header, with the count as it is.
abbrev pub exact_header : Job → WireJobHeader
exact_header job = record {
  func_addr = job.func_addr;
  ret_tag = job.ret_tag;
  nargs = length job.arg_tags;
}

pub header_of-exact : (job : Job) → IsWire job → header_of job ≡ exact_header job
header_of-exact job w =
    λ i. record { func_addr = job.func_addr; ret_tag = job.ret_tag; nargs = count i }
  where
    count : length job.arg_tags % 2 ^ 32 ≡ length job.arg_tags
    count = omega (arith, w.few)

-- What the rest of `read_job` makes of a header that is read, for the two arrays behind it.
check_job-arrays :
    (job : Job) (pipe : List ReadEvent)
    → IsWire job
    → IsSound pipe
    → carried pipe ≡ (
        if length job.arg_tags == 0
        then []
        else array_bytes 4 job.arg_tags ++ array_bytes 8 job.arg_values)
    → check_job (exact_header job) (read_arguments (exact_header job) pipe) ≡ some job
unfolding check_job
check_job-arrays job pipe w sound e =
    let within : ltb k_max_args (length job.arg_tags) ≡ false = ground (arith, w.few) in
    elim (Bool-cases (length job.arg_tags == 0)) [
      | inl none_given ↦
          rw (within, none_given)
            (λ i. some (record {
              func_addr = job.func_addr;
              ret_tag = job.ret_tag;
              arg_tags = empty job.arg_tags (ground arith) i;
              arg_values = empty job.arg_values (ground (arith, w.paired)) i;
            }))
      | inr given ↦
          rw (within, given)
            (read_arguments-array_bytes (exact_header job) job.arg_tags job.arg_values pipe sound
              refl w.paired w.narrow_tags w.narrow_values (e ∙ rw given))
    ]
  where
    empty : (xs : List ℕ) → length xs ≡ 0 → [] ≡ xs
    empty [] h = refl
    empty (x ∷ xs) h = absurd (omega arith)

-- A worker reads the job whose bytes the pipe carries, in whatever pieces they arrive. This is for a job
-- within the bounds of the wire, and a pipe on which no read fails.
pub read_job-job_bytes :
    (job : Job) (pipe : List ReadEvent)
    → IsWire job
    → IsSound pipe
    → carried pipe ≡ job_bytes job
    → read_job pipe ≡ some job
unfolding read_job
read_job-job_bytes job pipe w sound e =
    let hdr = header_of job in
    let (pipe', reads, leaves, sound') =
      read_front 16 (header_bytes hdr) _ pipe sound (length-header_bytes hdr) e in
    let back = read_header-header_bytes hdr w.narrow_addr w.narrow_ret (omega (arith, w.few)) in
    rw (reads, ◌>>=◌)
      (ap (λ hd. check_job hd (read_arguments hd pipe')) (back ∙ header_of-exact job w)
        ∙ check_job-arrays job pipe' w sound' leaves)
