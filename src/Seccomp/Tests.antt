-- ===== src/Seccomp/Tests.antt =====
-- The theorems about the system-call filter on x86_64 Linux, and on a machine that runs such programs.
use rlbox_dynamic_sandbox.Common.{
  ℕ, suc, zero, ◌≡◌, refl, arith, Bool, true, false, Option, some, none, List, [], ◌∷◌, drop, leb,
  ◌==◌, if◌then◌else◌,
}
use rlbox_dynamic_sandbox.Meta.Types.{Host, i386, x86_64}
use rlbox_dynamic_sandbox.Seccomp.{
  SockFilter, Headers, Kernel, Syscall, read, write, writev, close, mmap, mprotect, munmap, madvise,
  brk, futex, rt_sigaction, rt_sigprocmask, rt_sigreturn, sigaltstack, exit, exit_group, getpid,
  gettid, clock_gettime, clock_nanosleep, nanosleep, getrandom, restart_syscall, sched_yield,
  bpf_stmt, bpf_jump, filter, terminal, enforce, apply_filter,
}
use rlbox_dynamic_sandbox.Seccomp.Verdict.{SeccompData, RunsBpf, verdict, filter-verdict}
use rlbox_dynamic_sandbox.Seccomp.Apply.{FiltersThread, apply_filter_enforces}

abbrev linux_number : Syscall → ℕ
linux_number read = 0
linux_number write = 1
linux_number writev = 20
linux_number close = 3
linux_number mmap = 9
linux_number mprotect = 10
linux_number munmap = 11
linux_number madvise = 28
linux_number brk = 12
linux_number futex = 202
linux_number rt_sigaction = 13
linux_number rt_sigprocmask = 14
linux_number rt_sigreturn = 15
linux_number sigaltstack = 131
linux_number exit = 60
linux_number exit_group = 231
linux_number getpid = 39
linux_number gettid = 186
linux_number clock_gettime = 228
linux_number clock_nanosleep = 230
linux_number nanosleep = 35
linux_number getrandom = 318
linux_number restart_syscall = 219
linux_number sched_yield = 24

abbrev linux_arch : Host → ℕ
linux_arch i386 = 1073741827
linux_arch x86_64 = 3221225534

abbrev linux : Headers
linux = record {
  bpf_ld_w_abs = 32;
  bpf_jmp_jeq_k = 21;
  bpf_jmp_jge_k = 53;
  bpf_ret_k = 6;
  offset_arch = 4;
  offset_nr = 0;
  audit_arch = linux_arch;
  seccomp_ret_kill_process = 2147483648;
  seccomp_ret_allow = 2147418112;
  seccomp_ret_log = 2147221504;
  number = linux_number;
}

-- Runs a program after passing over some instructions. An instruction that it does not know, or the
-- end of the program, kills.
unfoldable machine : ℕ → List SockFilter → ℕ → SeccompData → ℕ
machine passed [] acc d = 2147483648
machine (suc passed) (f ∷ rest) acc d = machine passed rest acc d
machine zero (f ∷ rest) acc d =
    let loaded = machine 0 rest (d f.k) d in
    let jumped_eq = machine (if acc == f.k then f.jt else f.jf) rest acc d in
    let jumped_ge = machine (if leb f.k acc then f.jt else f.jf) rest acc d in
    if f.code == 32
    then loaded
    else if f.code == 21
    then jumped_eq
    else if f.code == 53
    then jumped_ge
    else if f.code == 6
    then f.k
    else 2147483648

machine-drop :
    (n : ℕ) (prog : List SockFilter) (acc : ℕ) (d : SeccompData)
    → machine n prog acc d ≡ machine 0 (drop n prog) acc d
unfolding machine
machine-drop zero prog acc d = refl
machine-drop (suc n) [] acc d = refl
machine-drop (suc n) (f ∷ rest) acc d = machine-drop n rest acc d

machine-RunsBpf : RunsBpf linux (machine 0)
unfolding machine bpf_stmt bpf_jump
machine-RunsBpf = record {
  runs_ld = λ k acc rest d. refl;
  runs_jeq = λ k jt jf acc rest d. machine-drop (if acc == k then jt else jf) rest acc d;
  runs_jge = λ k jt jf acc rest d. machine-drop (if leb k acc then jt else jf) rest acc d;
  runs_ret = λ k acc rest d. refl;
}

-- A call of the number on x86_64.
abbrev call : ℕ → SeccompData
call nr zero = nr
call nr (suc i) = 3221225534

filter-verdict_example :
    machine 0 (filter linux x86_64 7) 0 (call 2) ≡ verdict linux x86_64 7 (call 2)
filter-verdict_example = filter-verdict linux machine-RunsBpf x86_64 7 0 (call 2)

-- `open` is not on the list, `write` is.
open_is_terminal :
    (verdict linux x86_64 7 (call 2) ≡ 7) × (verdict linux x86_64 7 (call 1) ≡ 2147418112)
unfolding verdict
open_is_terminal = (refl, refl)

-- A thread is the program that it installed; the second install fails.
abbrev thread_kernel : Kernel (Option (List SockFilter))
thread_kernel = record {
  set_no_new_privs = λ k. (0, k);
  set_mode_filter = λ (len, prog) k. elim k [ none ↦ (0, some prog) | some old ↦ (1, some old) ];
}

abbrev has_filter : Option (List SockFilter) → Bool
has_filter none = false
has_filter (some prog) = true

abbrev decides : Option (List SockFilter) → SeccompData → ℕ
decides none d = 2147418112
decides (some prog) d = machine 0 prog 0 d

thread : FiltersThread thread_kernel (machine 0) has_filter decides
thread = record {
  privs_keep_filters = λ k. refl;
  privs_keep_decisions = λ k d. refl;
  installs = λ prog k d h e. ground arith;
  failure_keeps = λ prog k d e. ground arith;
}

apply_filter_enforces_example :
    decides (some (filter linux x86_64 2147483648)) (call 2)
    ≡ verdict linux x86_64 2147483648 (call 2)
unfolding terminal
apply_filter_enforces_example =
    apply_filter_enforces linux x86_64 thread_kernel machine-RunsBpf thread enforce none
      (some (filter linux x86_64 2147483648)) (call 2) (λ e. cc) refl (unfold apply_filter in refl)
