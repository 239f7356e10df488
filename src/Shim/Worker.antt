-- ===== src/Shim/Worker.antt =====
-- How the shim runs a call in a child (src/rlbox_process_sandbox_shim.cpp): a pre-forked worker that
-- reads one job from a pipe, installs its system-call filter, runs the job and writes the result, or a
-- child that is forked for the call.
--
-- `M` is what the parent sees of a call: the shared memory. What a call changes elsewhere is gone with
-- the child. `K` is the kernel's state for the child's thread, its filter included; what the library
-- does in a child may depend on it (`Library`), and a child may die in a call. Pipes are lists of results of `read` and
-- `write` (`Pipe`); how bytes that one side writes arrive at the other is a field of `Link`.
pub mod Protocol
pub mod Sending
pub mod Calls
pub mod Dispatch
mod Tests
use mathlib.Core.Bool.{not, ◌||◌}
use rlbox_dynamic_sandbox.Common.{
  ℕ, ◌*◌, ◌%◌, ◌^◌, Bool, true, false, List, [], ◌∷◌, ◌++◌, Option, none, some, length, ltb, ◌==◌,
  if◌then◌else◌,
}
use rlbox_dynamic_sandbox.Meta.Types.{Host, pointer_bits}
use rlbox_dynamic_sandbox.Seccomp.{Mode, Headers, Kernel, apply_filter}
use rlbox_dynamic_sandbox.Abi.{Ffi, ArgType, k_max_args, do_ffi_call}
use rlbox_dynamic_sandbox.Shim.Pipe.{ReadEvent, read_full, WriteEvent, Written, write_full}
use rlbox_dynamic_sandbox.Shim.Wire.{
  WireJobHeader, header_size, word_bytes, read_word, array_bytes, read_array, header_bytes,
  read_header,
}

infixl 5 ◌>>=◌
abbrev pub ◌>>=◌ {ℓ κ} : {A : Type ℓ} {B : Type κ} → Option A → (A → Option B) → Option B
none >>= f = none
some a >>= f = f a

-- One call, as `handle_invoke` gets it.
pub record Job : Type 0 where
  pub func_addr : ℕ
  pub ret_tag : ℕ
  pub arg_tags : List ℕ
  pub arg_values : List ℕ

-- The two arrays of a job that has arguments.
unfoldable pub read_arguments : WireJobHeader → List ReadEvent → Option Job
unfolding read_array
read_arguments hdr pipe = do
  (tags, rest) ← read_full (hdr.nargs * 4) pipe
  (values, _) ← read_full (hdr.nargs * 8) rest
  some (record {
    func_addr = hdr.func_addr;
    ret_tag = hdr.ret_tag;
    arg_tags = read_array 4 hdr.nargs tags;
    arg_values = read_array 8 hdr.nargs values;
  })

-- The checks of the header. A job with no arguments has no arrays.
unfoldable pub check_job : WireJobHeader → Option Job → Option Job
check_job hdr with_arguments =
    if ltb k_max_args hdr.nargs
    then none
    else if hdr.nargs == 0
    then some (record {
      func_addr = hdr.func_addr;
      ret_tag = hdr.ret_tag;
      arg_tags = [];
      arg_values = [];
    })
    else with_arguments

-- What `worker_main` reads; `none` is `_exit(1)`.
unfoldable pub read_job : List ReadEvent → Option Job
unfolding read_header read_arguments check_job
read_job pipe = do
  (bytes, rest) ← read_full header_size pipe
  let hdr = read_header bytes
  check_job hdr (read_arguments hdr rest)

-- The library and libffi in a child, by the state of the child's thread: what a function leaves in the
-- buffer for its result and in the memory. `none` is a child that dies in the function, by a crash or by
-- a system call that its filter kills; the memory has what the function wrote before.
pub record Library (M K : Type 0) : Type 0 where
  pub prep_cif : ArgType → List ArgType → Bool
  pub call : K → ℕ → ArgType → List (ArgType × ℕ) → M → Option ℕ × M

-- The memory, with a child that runs or one that died.
pub data Child (M : Type 0) : Type 0 where
  running died : M → Child M

abbrev pub returned : {M : Type 0} → Option ℕ → M → ℕ × Child M
returned none m = (0, died m)
returned (some buf) m = (buf, running m)

abbrev pub call_in_child :
    {M K : Type 0} → Library M K → K → ℕ → ArgType → List (ArgType × ℕ) → Child M → ℕ × Child M
call_in_child library k f ret args (died m) = (0, died m)
call_in_child library k f ret args (running m) =
    let (buf, m') = library.call k f ret args m in returned buf m'

abbrev pub child_ffi : {M K : Type 0} → Library M K → K → Ffi (Child M)
child_ffi library k = record { prep_cif = library.prep_cif; call = call_in_child library k }

-- The exit status of a child, `none` for one that a signal ended, what it wrote into its pipe, and what
-- it left.
pub record Ended (M K : Type 0) : Type 0 where
  pub status : Option ℕ
  pub wrote : List ℕ
  pub memory : M
  pub thread : K

-- The writes of `dispatch_to_worker`: the header, and the arrays if there are arguments.
unfoldable pub send_job : Job → List WriteEvent → Written
unfolding header_bytes array_bytes
send_job job ws =
    let hdr : WireJobHeader = record {
      func_addr = job.func_addr;
      ret_tag = job.ret_tag;
      nargs = length job.arg_tags % 2 ^ 32;
    } in
    let first = write_full (header_bytes hdr) ws in
    let second = write_full (array_bytes 4 job.arg_tags) first.writes in
    let third = write_full (array_bytes 8 job.arg_values) second.writes in
    if not first.done || length job.arg_tags == 0
    then first
    else if not second.done
    then record second { sent = first.sent ++ second.sent }
    else record third { sent = first.sent ++ (second.sent ++ third.sent) }

-- The two pipes of a worker: the results of the parent's and the worker's writes, and the results of
-- the reads at the other end, for the bytes that were written.
pub record Link : Type 0 where
  pub writes : List WriteEvent
  pub arrive : List ℕ → List ReadEvent
  pub answers : List WriteEvent
  pub come_back : List ℕ → List ReadEvent

-- The child of the fallback: `pipe` fails, `fork` fails, or a child with its one pipe.
pub data Fallback (K : Type 0) : Type 0 where
  no_pipe no_fork : Fallback K
  forked : K → List WriteEvent → (List ℕ → List ReadEvent) → Fallback K

-- The eight bytes of a result, or 0.
unfoldable pub read_result : List ReadEvent → ℕ
unfolding read_word
read_result pipe = elim (read_full 8 pipe) [ none ↦ 0 | some (bytes, _) ↦ read_word bytes ]

module _ {M K : Type 0} (h : Host) (library : Library M K) (headers : Headers) (kernel : Kernel K)
    (mode : Mode) (shm_base : ℕ) where
  -- `do_ffi_call` on a job's arguments.
  unfoldable pub run_job : K → Job → M → ℕ × Child M
  run_job k job m =
      do_ffi_call h (child_ffi library k) shm_base (job.func_addr % 2 ^ pointer_bits h) job.ret_tag
        job.arg_tags job.arg_values (running m)

  -- After `do_ffi_call`: the result is written, if the child is there to do so.
  unfoldable pub end_call : K → List WriteEvent → ℕ → Child M → Ended M K
  unfolding word_bytes
  end_call k ws result (running m) = record {
    status = some 0;
    wrote = (write_full (word_bytes 8 result) ws).sent;
    memory = m;
    thread = k;
  }
  end_call k ws result (died m) = record { status = none; wrote = []; memory = m; thread = k }

  unfoldable pub run_filtered : Job → List WriteEvent → M → K → Ended M K
  unfolding run_job end_call
  run_filtered job ws m k =
      let (filtered, k') = apply_filter headers h kernel mode k in
      let (result, child) = run_job k' job m in
      if filtered
      then end_call k' ws result child
      else record { status = some 2; wrote = []; memory = m; thread = k' }

  unfoldable pub worker_main : List ReadEvent → List WriteEvent → M → K → Ended M K
  unfolding read_job run_filtered
  worker_main pipe ws m k = elim (read_job pipe) [
    | none ↦ record { status = some 1; wrote = []; memory = m; thread = k }
    | some job ↦ run_filtered job ws m k
  ]

  unfoldable pub dispatch_to_worker : Link → K → Job → M → ℕ × M
  unfolding send_job worker_main read_result
  dispatch_to_worker link k job m =
      let sent = send_job job link.writes in
      let worker = worker_main (link.arrive sent.sent) link.answers m k in
      (if sent.done then read_result (link.come_back worker.wrote) else 0, worker.memory)

  -- The child that is forked for the call.
  unfoldable pub invoke_inline : Fallback K → Job → M → ℕ × M
  unfolding run_job end_call read_result
  invoke_inline no_pipe job m = (0, m)
  invoke_inline no_fork job m = (0, m)
  invoke_inline (forked k ws come_back) job m =
      let (result, child) = run_job k job m in
      let ended = end_call k ws result child in (read_result (come_back ended.wrote), ended.memory)

  -- `handle_invoke`; the worker is the one that `try_acquire_worker` gives, with its thread.
  unfoldable pub handle_invoke : Option (Link × K) → Fallback K → Job → M → ℕ × M
  unfolding dispatch_to_worker invoke_inline
  handle_invoke worker fallback job m =
      if (shm_base == 0 || job.func_addr == 0)
        || (not (length job.arg_tags == length job.arg_values)
            || ltb k_max_args (length job.arg_tags))
      then (0, m)
      else elim worker [
        | some (link, k) ↦ dispatch_to_worker link k job m
        | none ↦ invoke_inline fallback job m
      ]
