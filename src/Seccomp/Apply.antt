-- ===== src/Seccomp/Apply.antt =====
-- What `apply_filter` of src/rlbox_seccomp_filter.hpp leaves on the thread.
use rlbox_dynamic_sandbox.Common.{
  ℕ, ◌^◌, ◌%◌, ◌≡◌, ◌≢◌, ◌∙◌, refl, sym, subst, ap, arith, Bool, true, false, List, length, inl,
  inr, Bool-cases, ◌==◌, ==_iff, if◌then◌else◌,
}
use rlbox_dynamic_sandbox.Meta.Types.{Host, i386, x86_64}
use rlbox_dynamic_sandbox.Seccomp.{
  Mode, off, audit, enforce, SockFilter, Headers, Kernel, filter, push, gates, allow_eq, allow_all,
  install_filter, terminal, apply_filter,
}
use rlbox_dynamic_sandbox.Seccomp.Verdict.{SeccompData, RunsBpf, verdict, filter-verdict}

-- The documented effect of the two calls on a thread: what is decided on a system call changes only
-- when a filter goes in, and the first filter that goes in decides by its program.
pub record FiltersThread {K : Type 0} (kernel : Kernel K)
    (run : List SockFilter → ℕ → SeccompData → ℕ) (has_filter : K → Bool)
    (decides : K → SeccompData → ℕ) : Type 0 where
  pub privs_keep_filters : (k : K) → has_filter (kernel.set_no_new_privs k).1 ≡ has_filter k
  pub privs_keep_decisions :
      (k : K) (d : SeccompData) → decides (kernel.set_no_new_privs k).1 d ≡ decides k d
  pub installs :
      (prog : List SockFilter) (k : K) (d : SeccompData)
      → has_filter k ≡ false
      → (kernel.set_mode_filter (length prog, prog) k).0 ≡ 0
      → decides (kernel.set_mode_filter (length prog, prog) k).1 d ≡ run prog 0 d
  pub failure_keeps :
      (prog : ℕ × List SockFilter) (k : K) (d : SeccompData)
      → (kernel.set_mode_filter prog k).0 ≢ 0
      → decides (kernel.set_mode_filter prog k).1 d ≡ decides k d

length-filter :
    (headers : Headers) (host : Host) (action : ℕ)
    → length (filter headers host action) % 2 ^ 16 ≡ length (filter headers host action)
unfolding filter gates allow_all allow_eq push
length-filter headers i386 action = refl
length-filter headers x86_64 action = refl

module _ (headers : Headers) (host : Host) {K : Type 0} (kernel : Kernel K)
    {run : List SockFilter → ℕ → SeccompData → ℕ} {has_filter : K → Bool}
    {decides : K → SeccompData → ℕ} (bpf : RunsBpf headers run)
    (thread : FiltersThread kernel run has_filter decides) where
  install_filter-decides :
      (action : ℕ) (k k' : K) (d : SeccompData)
      → has_filter k ≡ false
      → install_filter headers host kernel action k ≡ (true, k')
      → decides k' d ≡ verdict headers host action d
  unfolding install_filter
  install_filter-decides action k k' d unfiltered e =
      let prog = filter headers host action in
      let (rc, k1) = kernel.set_mode_filter (length prog, prog) k in
      let e' : ◌≡◌ {A = Bool × K} (rc == 0, k1) (true, k') =
        subst
          (λ n.
            ◌≡◌ {A = Bool × K}
              ((kernel.set_mode_filter (n, prog) k).0 == 0, (kernel.set_mode_filter (n, prog) k).1)
              (true, k'))
          (length-filter headers host action) e in
      let zero_rc : rc ≡ 0 = (==_iff rc 0).0 (ap (λ (t : Bool × K). t.0) e') in
      ap (λ (x : K). decides x d) (sym (ap (λ (t : Bool × K). t.1) e'))
      ∙ thread.installs prog k d unfiltered zero_rc
      ∙ filter-verdict headers bpf host action 0 d

  install_filter_failed :
      (action : ℕ) (k k' : K) (d : SeccompData)
      → install_filter headers host kernel action k ≡ (false, k')
      → decides k' d ≡ decides k d
  unfolding install_filter
  install_filter_failed action k k' d e =
      let prog = filter headers host action in
      let (rc, k1) = kernel.set_mode_filter (length prog % 2 ^ 16, prog) k in
      ap (λ (x : K). decides x d) (sym (ap (λ (t : Bool × K). t.1) e))
      ∙ thread.failure_keeps (length prog % 2 ^ 16, prog) k d
          (λ z. absurd (ground (arith, ap (λ (t : Bool × K). t.0) e)))

  guarded_enforces :
      (action : ℕ) (k k' : K) (d : SeccompData)
      → has_filter k ≡ false
      → (if (kernel.set_no_new_privs k).0 == 0
          then install_filter headers host kernel action (kernel.set_no_new_privs k).1
          else (false, (kernel.set_no_new_privs k).1))
        ≡ (true, k')
      → decides k' d ≡ verdict headers host action d
  guarded_enforces action k k' d unfiltered e =
      let (rc, k1) = kernel.set_no_new_privs k in
      elim (Bool-cases (rc == 0)) [
        | inl granted ↦
            install_filter-decides action k1 k' d (thread.privs_keep_filters k ∙ unfiltered)
              (rw granted at e)
        | inr denied ↦ absurd (ground arith)
      ]

  guarded_failed :
      (action : ℕ) (k k' : K) (d : SeccompData)
      → (if (kernel.set_no_new_privs k).0 == 0
          then install_filter headers host kernel action (kernel.set_no_new_privs k).1
          else (false, (kernel.set_no_new_privs k).1))
        ≡ (false, k')
      → decides k' d ≡ decides k d
  guarded_failed action k k' d e =
      let (rc, k1) = kernel.set_no_new_privs k in
      elim (Bool-cases (rc == 0)) [
        | inl granted ↦
            install_filter_failed action k1 k' d (rw granted at e) ∙ thread.privs_keep_decisions k d
        | inr denied ↦
            let same : ◌≡◌ {A = Bool × K} (false, k1) (false, k') = rw denied at e in
            ap (λ (x : K). decides x d) (sym (ap (λ (t : Bool × K). t.1) same))
            ∙ thread.privs_keep_decisions k d
      ]

  -- When `apply_filter` succeeds in a mode that is not off, on a thread that has no filter yet, every
  -- system call of the thread is decided by the policy, with the log action for the rest in audit mode
  -- and the kill action in enforce mode.
  pub apply_filter_enforces :
      (mode : Mode) (k k' : K) (d : SeccompData)
      → mode ≢ off
      → has_filter k ≡ false
      → apply_filter headers host kernel mode k ≡ (true, k')
      → decides k' d ≡ verdict headers host (terminal headers host kernel mode) d
  unfolding apply_filter terminal
  apply_filter_enforces off k k' d on unfiltered e = absurd (on refl)
  apply_filter_enforces audit k k' d on unfiltered e =
      guarded_enforces headers.seccomp_ret_log k k' d unfiltered e
  apply_filter_enforces enforce k k' d on unfiltered e =
      guarded_enforces headers.seccomp_ret_kill_process k k' d unfiltered e

  -- When `apply_filter` fails, at either call, no system call is decided otherwise than before, and the
  -- mode was not off.
  pub apply_filter_failed :
      (mode : Mode) (k k' : K) (d : SeccompData)
      → apply_filter headers host kernel mode k ≡ (false, k')
      → (decides k' d ≡ decides k d) × (mode ≢ off)
  unfolding apply_filter terminal
  apply_filter_failed off k k' d e = absurd (ground arith)
  apply_filter_failed audit k k' d e = (guarded_failed headers.seccomp_ret_log k k' d e, λ z. cc)
  apply_filter_failed enforce k k' d e =
      (guarded_failed headers.seccomp_ret_kill_process k k' d e, λ z. cc)
