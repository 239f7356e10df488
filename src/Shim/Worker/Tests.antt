-- ===== src/Shim/Worker/Tests.antt =====
-- The theorems about calls through the shim at a concrete call: the library adds its arguments up and
-- counts its calls, makes at address 72 a system call that a filter kills, and the pipes bring one byte at a time.
use rlbox_dynamic_sandbox.Common.{
  ℕ, ◌+◌, ◌%◌, ◌^◌, ◌≡◌, refl, arith, true, false, [], ◌∷◌, none, some, if◌then◌else◌, ltb, ◌==◌,
}
use mathlib.Core.Bool.{◌&&◌}
use rlbox_dynamic_sandbox.Meta.Types.{x86_64}
use rlbox_dynamic_sandbox.Seccomp.{Kernel, enforce, apply_filter}
use rlbox_dynamic_sandbox.Abi.{do_ffi_call, run_call, prepare}
use rlbox_dynamic_sandbox.Shim.Pipe.{write_full, accepts, broken}
use rlbox_dynamic_sandbox.Shim.Worker.{
  Library, Job, Link, no_fork, forked, send_job, run_job, handle_invoke,
}
use rlbox_dynamic_sandbox.Shim.Testbed.{
  by_bytes, by_bytes-IsFaithful, adder, headers, answers, link,
}
use rlbox_dynamic_sandbox.Shim.Worker.Protocol.{IsWire}
use rlbox_dynamic_sandbox.Shim.Worker.Dispatch.{
  call_in, handle_invoke_worker, handle_invoke_unfiltered,
}

abbrev library : Library ℕ ℕ
library = record {
  prep_cif = λ ret types. true;
  call = λ filters f ret args m.
      (if (f == 72) && ltb 0 filters then none else some (adder args % 2 ^ 64), m + 1);
}

-- A kernel with filters, whose state counts them, and one without.
abbrev with_seccomp : Kernel ℕ
with_seccomp = record { set_no_new_privs = λ k. (0, k); set_mode_filter = λ prog k. (0, k + 1) }

abbrev without_seccomp : Kernel ℕ
without_seccomp = record { set_no_new_privs = λ k. (0, k); set_mode_filter = λ prog k. (1, k) }

abbrev job : Job
job = record { func_addr = 64; ret_tag = 1; arg_tags = 1 ∷ 3 ∷ []; arg_values = 7 ∷ 5 ∷ [] }

abbrev killed_job : Job
killed_job = record job { func_addr = 72 }

job-IsWire : IsWire job
job-IsWire = record {
  narrow_addr = omega arith;
  narrow_ret = omega arith;
  narrow_tags = (omega arith, (omega arith, tt));
  narrow_values = (omega arith, (omega arith, tt));
  paired = refl;
  few = omega arith;
}

-- The worker is gone before the values are sent.
abbrev cut_link : Link
cut_link = record {
  writes = accepts 20 ∷ accepts 9 ∷ broken ∷ [];
  arrive = by_bytes;
  answers = answers;
  come_back = by_bytes;
}

handle_invoke_worker_example :
    handle_invoke x86_64 library headers with_seccomp enforce 4096 (some (link, 0)) no_fork job 3
    ≡ (if (send_job job link.writes).done && (apply_filter headers x86_64 with_seccomp enforce 0).0
        then call_in x86_64 library headers with_seccomp enforce 4096
            (apply_filter headers x86_64 with_seccomp enforce 0).1
            job
            3
        else (0, 3))
handle_invoke_worker_example =
    handle_invoke_worker x86_64 library headers with_seccomp enforce 4096 job link 0 no_fork 3
      job-IsWire (omega arith) (omega arith) by_bytes-IsFaithful by_bytes-IsFaithful (omega arith)

-- The two ends of the condition, and a kernel that takes no filter.
sent_whole : (send_job job link.writes).done ≡ true
unfolding send_job write_full
sent_whole = refl

not_sent_whole : (send_job job cut_link.writes).done ≡ false
unfolding send_job write_full
not_sent_whole = refl

filter_goes_in : (apply_filter headers x86_64 with_seccomp enforce 0).0 ≡ true
unfolding apply_filter
filter_goes_in = refl

call_of_7_and_5 : call_in x86_64 library headers with_seccomp enforce 4096 1 job 3 ≡ (12, 4)
unfolding run_job do_ffi_call run_call prepare
call_of_7_and_5 = refl

-- The filter kills the worker in the function: there is no result, and the call was counted.
killed_under_filter :
    call_in x86_64 library headers with_seccomp enforce 4096 1 killed_job 3 ≡ (0, 4)
unfolding run_job do_ffi_call run_call prepare
killed_under_filter = refl

lives_without_filter :
    call_in x86_64 library headers with_seccomp enforce 4096 0 killed_job 3 ≡ (12, 4)
unfolding run_job do_ffi_call run_call prepare
lives_without_filter = refl

-- The filter cannot be installed, and the forked child runs the function all the same.
handle_invoke_unfiltered_example :
    handle_invoke x86_64 library headers without_seccomp enforce 4096 none
      (forked 0 answers by_bytes)
      job
      3
    ≡ call_in x86_64 library headers without_seccomp enforce 4096 0 job 3
handle_invoke_unfiltered_example =
    handle_invoke_unfiltered x86_64 library headers without_seccomp enforce 4096 job 0 answers
      by_bytes 3 job-IsWire (omega arith) (omega arith) by_bytes-IsFaithful (omega arith)
