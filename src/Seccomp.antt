-- ===== src/Seccomp.antt =====
-- The system-call filter of a worker: src/rlbox_seccomp_filter.hpp. The classic BPF program is built
-- as the source builds it, instruction by instruction.
--
-- The opcodes, offsets, actions and numbers are macros of the kernel's headers, hence fields of
-- `Headers`; the calls into the kernel are fields of `Kernel`.
pub mod Verdict
pub mod Apply
mod Tests
use rlbox_dynamic_sandbox.Common.{
  ℕ, ◌%◌, ◌^◌, Bool, true, false, List, [], ◌∷◌, ◌++◌, length, ltb, ◌==◌, if◌then◌else◌,
}
use rlbox_dynamic_sandbox.Meta.Types.{Host, i386, x86_64}

-- `Mode`
pub data Mode : Type 0 where
  off audit enforce : Mode

-- `sock_filter`
pub record SockFilter : Type 0 where
  pub code : ℕ
  pub jt : ℕ
  pub jf : ℕ
  pub k : ℕ

-- The system calls that the source names.
pub data Syscall : Type 0 where
  read write writev close mmap mprotect munmap madvise brk futex : Syscall
  rt_sigaction rt_sigprocmask rt_sigreturn sigaltstack exit exit_group getpid gettid : Syscall
  clock_gettime clock_nanosleep nanosleep getrandom restart_syscall sched_yield : Syscall

-- The macros of the kernel's headers.
pub record Headers : Type 0 where
  pub bpf_ld_w_abs : ℕ
  pub bpf_jmp_jeq_k : ℕ
  pub bpf_jmp_jge_k : ℕ
  pub bpf_ret_k : ℕ
  pub offset_arch : ℕ
  pub offset_nr : ℕ
  pub audit_arch : Host → ℕ
  pub seccomp_ret_kill_process : ℕ
  pub seccomp_ret_allow : ℕ
  pub seccomp_ret_log : ℕ
  pub number : Syscall → ℕ

-- The two calls into the kernel, on its state for this thread. A result that is not 0 is a failure.
pub record Kernel (K : Type 0) : Type 0 where
  pub set_no_new_privs : K → ℕ × K
  pub set_mode_filter : ℕ × List SockFilter → K → ℕ × K

unfoldable pub bpf_stmt : ℕ → ℕ → SockFilter
bpf_stmt code k = record { code = code; jt = 0; jf = 0; k = k }

unfoldable pub bpf_jump : ℕ → ℕ → ℕ → ℕ → SockFilter
bpf_jump code k jt jf = record { code = code; jt = jt; jf = jf; k = k }

abbrev pub k_max : ℕ
k_max = 96

-- The lambda `push`: a full program takes no more.
unfoldable pub push : SockFilter → List SockFilter → List SockFilter
push f prog = if ltb (length prog) k_max then prog ++ (f ∷ []) else prog

abbrev pub allowlist : List Syscall
allowlist =
    read ∷ write ∷ writev ∷ close ∷ mmap ∷ mprotect ∷ munmap ∷ madvise ∷ brk ∷ futex ∷ rt_sigaction
    ∷ rt_sigprocmask ∷ rt_sigreturn ∷ sigaltstack ∷ exit ∷ exit_group ∷ getpid ∷ gettid
    ∷ clock_gettime ∷ clock_nanosleep ∷ nanosleep ∷ getrandom ∷ restart_syscall ∷ sched_yield ∷ []

module _ (headers : Headers) (host : Host) where
  open headers use {
    bpf_ld_w_abs, bpf_jmp_jeq_k, bpf_jmp_jge_k, bpf_ret_k, offset_arch, offset_nr, audit_arch,
    seccomp_ret_kill_process, seccomp_ret_allow, seccomp_ret_log, number,
  }

  -- The lambda `allow_eq`.
  unfoldable pub allow_eq : ℕ → List SockFilter → List SockFilter
  unfolding push bpf_stmt bpf_jump
  allow_eq nr prog =
      push (bpf_stmt bpf_ret_k seccomp_ret_allow) (push (bpf_jump bpf_jmp_jeq_k nr 0 1) prog)

  unfoldable pub allow_all : List Syscall → List SockFilter → List SockFilter
  unfolding allow_eq
  allow_all [] prog = prog
  allow_all (s ∷ rest) prog = allow_all rest (allow_eq (number s) prog)

  -- Parts (1) and (2): the gates on the ABI, and on x32 where the host is x86_64.
  unfoldable pub gates : List SockFilter
  unfolding push bpf_stmt bpf_jump
  gates =
      let loaded = push (bpf_stmt bpf_ld_w_abs offset_nr) (
        push (bpf_stmt bpf_ret_k seccomp_ret_kill_process) (
          push (bpf_jump bpf_jmp_jeq_k (audit_arch host) 1 0)
            (push (bpf_stmt bpf_ld_w_abs offset_arch) []))) in
      elim host [
        | i386 ↦ loaded
        | x86_64 ↦
            push (bpf_stmt bpf_ret_k seccomp_ret_kill_process)
              (push (bpf_jump bpf_jmp_jge_k (2 ^ 30) 0 1) loaded)
      ]

  -- The program that `install_filter` builds.
  unfoldable pub filter : ℕ → List SockFilter
  unfolding push bpf_stmt gates allow_all
  filter terminal_action = push (bpf_stmt bpf_ret_k terminal_action) (allow_all allowlist gates)

  module _ {K : Type 0} (kernel : Kernel K) where
    unfoldable pub install_filter : ℕ → K → Bool × K
    unfolding filter
    install_filter terminal_action k =
        let prog = filter terminal_action in
        let (rc, k') = kernel.set_mode_filter (length prog % 2 ^ 16, prog) k in (rc == 0, k')

    unfoldable pub terminal : Mode → ℕ
    terminal off = seccomp_ret_kill_process
    terminal audit = seccomp_ret_log
    terminal enforce = seccomp_ret_kill_process

    unfoldable pub apply_filter : Mode → K → Bool × K
    unfolding install_filter terminal
    apply_filter mode k =
        let (rc, k') = kernel.set_no_new_privs k in
        let installed = install_filter (terminal mode) k' in
        let guarded = if rc == 0 then installed else (false, k') in
        elim mode [ off ↦ (true, k) | audit ↦ guarded | enforce ↦ guarded ]
