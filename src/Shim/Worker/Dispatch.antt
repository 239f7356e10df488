-- ===== src/Shim/Worker/Dispatch.antt =====
-- What a call through the shim comes to (src/rlbox_process_sandbox_shim.cpp): in a worker, and in a
-- child that is forked for it.
use mathlib.Core.Bool.{not, ◌||◌, ◌&&◌}
use rlbox_dynamic_sandbox.Common.{
  ℕ, ◌≤◌, ◌≡◌, ◌≢◌, refl, ap, arith, false, List, none, some, length, Bool-cases, inl, inr, ltb,
  ◌==◌, if◌then◌else◌,
}
use rlbox_dynamic_sandbox.Meta.Types.{Host}
use rlbox_dynamic_sandbox.Seccomp.{Mode, Headers, Kernel, apply_filter}
use rlbox_dynamic_sandbox.Abi.{k_max_args}
use rlbox_dynamic_sandbox.Shim.Pipe.{ReadEvent, WriteEvent}
use rlbox_dynamic_sandbox.Shim.Pipe.Sent.{capacity}
use rlbox_dynamic_sandbox.Shim.Worker.{
  Library, Job, Link, Fallback, forked, send_job, run_job, dispatch_to_worker, invoke_inline,
  handle_invoke,
}
use rlbox_dynamic_sandbox.Shim.Worker.Protocol.{IsWire}
use rlbox_dynamic_sandbox.Shim.Worker.Calls.{
  IsFaithful, settle, nothing_back, end_call_back, run_job_bound, run_filtered_allowed,
  run_filtered_refused, worker_main-sent, worker_main-cut,
}

module _ {M K : Type 0} (h : Host) (library : Library M K) (headers : Headers) (kernel : Kernel K)
    (mode : Mode) (shm_base : ℕ) where
  -- A call in a child whose thread has the state `k`.
  abbrev pub call_in : K → Job → M → ℕ × M
  call_in k job m =
      let (r, child) = run_job h library headers kernel mode shm_base k job m in settle r child

  dispatch_to_worker_runs :
      (job : Job) (link : Link) (k : K) (m : M)
      → IsWire job
      → IsFaithful link.arrive
      → IsFaithful link.come_back
      → 8 ≤ capacity link.answers
      → let (filtered, k') = apply_filter headers h kernel mode k in
        dispatch_to_worker h library headers kernel mode shm_base link k job m
        ≡ (if (send_job job link.writes).done && filtered then call_in k' job m else (0, m))
  unfolding dispatch_to_worker
  dispatch_to_worker_runs job link k m w arrive back room =
      elim (Bool-cases (send_job job link.writes).done) [
        | inr cut ↦
            rw
              (
                dispatch_to_worker,
                worker_main-cut h library headers kernel mode shm_base job link m k w arrive cut,
                cut,
              )
              refl
        | inl done ↦
            let worker =
              worker_main-sent h library headers kernel mode shm_base job link m k w arrive done in
            let k' = (apply_filter headers h kernel mode k).1 in
            let (r, child) = run_job h library headers kernel mode shm_base k' job m in
            elim (Bool-cases (apply_filter headers h kernel mode k).0) [
              | inl filtered ↦
                  rw
                    (
                      dispatch_to_worker,
                      worker,
                      run_filtered_allowed h library headers kernel mode shm_base job link.answers m
                          k filtered,
                      done,
                      filtered,
                    )
                    (end_call_back h library headers kernel mode shm_base k' link.answers
                      link.come_back r child back room
                      (run_job_bound h library headers kernel mode shm_base k' job m))
              | inr refused ↦
                  rw
                    (
                      dispatch_to_worker,
                      worker,
                      run_filtered_refused h library headers kernel mode shm_base job link.answers m
                          k refused,
                      done,
                      refused,
                    )
                    (ap (λ r. (r, m)) (nothing_back link.come_back back))
            ]
      ]

  -- A job within the bounds of the wire passes the guards of `handle_invoke`.
  guards_pass :
      (job : Job)
      → IsWire job
      → shm_base ≢ 0
      → job.func_addr ≢ 0
      → ((shm_base == 0 || job.func_addr == 0)
          || (not (length job.arg_tags == length job.arg_values)
              || ltb k_max_args (length job.arg_tags)))
        ≡ false
  guards_pass job w mapped named = ground (arith, w.paired, w.few)

  -- `handle_invoke` with a worker at hand, for an address that is not 0 and a job within the bounds of
  -- the wire, over pipes that carry what is written and on which no read fails, where the pipe back
  -- takes eight bytes. If the job is sent whole and the filter goes in, the function runs under the
  -- filter: the call returns what `do_ffi_call` returns, or 0 if the child dies in the function, and the
  -- shared memory is what the function left, up to its death. In every other case the function is not
  -- called, the result is 0 and the memory is as it was.
  pub handle_invoke_worker :
      (job : Job) (link : Link) (k : K) (fallback : Fallback K) (m : M)
      → IsWire job
      → shm_base ≢ 0
      → job.func_addr ≢ 0
      → IsFaithful link.arrive
      → IsFaithful link.come_back
      → 8 ≤ capacity link.answers
      → let (filtered, k') = apply_filter headers h kernel mode k in
        handle_invoke h library headers kernel mode shm_base (some (link, k)) fallback job m
        ≡ (if (send_job job link.writes).done && filtered then call_in k' job m else (0, m))
  unfolding handle_invoke
  handle_invoke_worker job link k fallback m w mapped named arrive back room =
      rw (guards_pass job w mapped named) (dispatch_to_worker_runs job link k m w arrive back room)

  -- `handle_invoke` with no worker at hand and a child that is forked for the call, for an address that
  -- is not 0 and a job within the bounds of the wire, over a pipe that carries what is written, on which
  -- no read fails and which takes eight bytes. The function runs in a thread in the state in which it was
  -- forked: no filter is put in, whatever the mode and whether or not one can be installed. The call
  -- returns what `do_ffi_call` returns, or 0 if the child dies in the function, and the shared memory is
  -- what the function left, up to its death.
  pub handle_invoke_unfiltered :
      (job : Job) (k : K) (ws : List WriteEvent) (come_back : List ℕ → List ReadEvent) (m : M)
      → IsWire job
      → shm_base ≢ 0
      → job.func_addr ≢ 0
      → IsFaithful come_back
      → 8 ≤ capacity ws
      → handle_invoke h library headers kernel mode shm_base none (forked k ws come_back) job m
        ≡ call_in k job m
  unfolding handle_invoke invoke_inline
  handle_invoke_unfiltered job k ws come_back m w mapped named back room =
      let (r, child) = run_job h library headers kernel mode shm_base k job m in
      rw (guards_pass job w mapped named) (
        end_call_back h library headers kernel mode shm_base k ws come_back r child back room
          (run_job_bound h library headers kernel mode shm_base k job m))
