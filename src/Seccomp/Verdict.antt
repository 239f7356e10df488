-- ===== src/Seccomp/Verdict.antt =====
-- What the filter program of src/rlbox_seccomp_filter.hpp decides, by the documented meaning of the
-- four BPF instructions that it uses.
use rlbox_dynamic_sandbox.Common.{
  ℕ, ◌^◌, ◌≡◌, ap, ◌∙◌, refl, Bool, false, ◌||◌, List, [], ◌∷◌, drop, leb, ◌==◌, if◌then◌else◌,
  Bool-cases, inl, inr,
}
use rlbox_dynamic_sandbox.Meta.Types.{Host, i386, x86_64}
use rlbox_dynamic_sandbox.Seccomp.{
  SockFilter, Headers, Syscall, allowlist, bpf_stmt, bpf_jump, push, allow_eq, allow_all, gates,
  filter,
}

-- The words of a `seccomp_data`, by their offset.
abbrev pub SeccompData : Type 0
SeccompData = ℕ → ℕ

-- The documented meaning of the instructions, for a machine that runs the rest of a program from an
-- accumulator: a load, two conditional jumps over instructions, and a return.
pub record RunsBpf (headers : Headers) (run : List SockFilter → ℕ → SeccompData → ℕ) : Type 0 where
  pub runs_ld :
      (k acc : ℕ) (rest : List SockFilter) (d : SeccompData)
      → run (bpf_stmt headers.bpf_ld_w_abs k ∷ rest) acc d ≡ run rest (d k) d
  pub runs_jeq :
      (k jt jf acc : ℕ) (rest : List SockFilter) (d : SeccompData)
      → run (bpf_jump headers.bpf_jmp_jeq_k k jt jf ∷ rest) acc d
        ≡ run (drop (if acc == k then jt else jf) rest) acc d
  pub runs_jge :
      (k jt jf acc : ℕ) (rest : List SockFilter) (d : SeccompData)
      → run (bpf_jump headers.bpf_jmp_jge_k k jt jf ∷ rest) acc d
        ≡ run (drop (if leb k acc then jt else jf) rest) acc d
  pub runs_ret :
      (k acc : ℕ) (rest : List SockFilter) (d : SeccompData)
      → run (bpf_stmt headers.bpf_ret_k k ∷ rest) acc d ≡ k

module _ (headers : Headers) where
  open headers use {
    bpf_ld_w_abs, bpf_jmp_jeq_k, bpf_jmp_jge_k, bpf_ret_k, offset_arch, offset_nr, audit_arch,
    seccomp_ret_kill_process, seccomp_ret_allow, number,
  }

  unfoldable pub is_allowed : List Syscall → ℕ → Bool
  is_allowed [] nr = false
  is_allowed (s ∷ rest) nr = (nr == number s) || is_allowed rest nr

  -- The bit that marks an x32 call.
  unfoldable pub is_x32 : Host → ℕ → Bool
  is_x32 i386 nr = false
  is_x32 x86_64 nr = leb (2 ^ 30) nr

  -- The policy that the filter stands for.
  unfoldable pub verdict : Host → ℕ → SeccompData → ℕ
  unfolding is_allowed is_x32
  verdict host terminal d =
      if d offset_arch == audit_arch host
      then if is_x32 host (d offset_nr)
        then seccomp_ret_kill_process
        else if is_allowed allowlist (d offset_nr)
        then seccomp_ret_allow
        else terminal
      else seccomp_ret_kill_process

  -- The instructions that the pushes append.
  unfoldable allow_pairs : List Syscall → List SockFilter → List SockFilter
  allow_pairs [] tail = tail
  allow_pairs (s ∷ rest) tail =
      bpf_jump bpf_jmp_jeq_k (number s) 0 1
      ∷ bpf_stmt bpf_ret_k seccomp_ret_allow
      ∷ allow_pairs rest tail

  unfoldable x32_gate : Host → List SockFilter → List SockFilter
  x32_gate i386 tail = tail
  x32_gate x86_64 tail =
      bpf_jump bpf_jmp_jge_k (2 ^ 30) 0 1 ∷ bpf_stmt bpf_ret_k seccomp_ret_kill_process ∷ tail

  unfoldable gated : Host → List SockFilter → List SockFilter
  unfolding x32_gate
  gated host tail =
      bpf_stmt bpf_ld_w_abs offset_arch
      ∷ bpf_jump bpf_jmp_jeq_k (audit_arch host) 1 0
      ∷ bpf_stmt bpf_ret_k seccomp_ret_kill_process
      ∷ bpf_stmt bpf_ld_w_abs offset_nr
      ∷ x32_gate host tail

  -- No instruction is lost to the bound on the program.
  filter_layout :
      (host : Host) (terminal : ℕ)
      → filter headers host terminal
        ≡ gated host (allow_pairs allowlist (bpf_stmt bpf_ret_k terminal ∷ []))
  unfolding filter gates allow_all allow_eq push allow_pairs gated x32_gate
  filter_layout i386 terminal = refl
  filter_layout x86_64 terminal = refl

  module _ {run : List SockFilter → ℕ → SeccompData → ℕ} (bpf : RunsBpf headers run) where
    run-allow_pairs :
        (ss : List Syscall) (tail : List SockFilter) (acc : ℕ) (d : SeccompData)
        → run (allow_pairs ss tail) acc d
          ≡ (if is_allowed ss acc then seccomp_ret_allow else run tail acc d)
    unfolding allow_pairs is_allowed
    run-allow_pairs [] tail acc d = refl
    run-allow_pairs (s ∷ rest) tail acc d = elim (Bool-cases (acc == number s)) [
      | inl hit ↦
          bpf.runs_jeq (number s) 0 1 acc _ d
          ∙ (rw hit (bpf.runs_ret seccomp_ret_allow acc (allow_pairs rest tail) d))
      | inr miss ↦ bpf.runs_jeq (number s) 0 1 acc _ d ∙ (rw miss (run-allow_pairs rest tail acc d))
    ]

    run-x32_gate :
        (host : Host) (tail : List SockFilter) (acc : ℕ) (d : SeccompData)
        → run (x32_gate host tail) acc d
          ≡ (if is_x32 host acc then seccomp_ret_kill_process else run tail acc d)
    unfolding x32_gate is_x32
    run-x32_gate i386 tail acc d = refl
    run-x32_gate x86_64 tail acc d = elim (Bool-cases (leb (2 ^ 30) acc)) [
      | inl hit ↦
          bpf.runs_jge (2 ^ 30) 0 1 acc _ d
          ∙ (rw hit (bpf.runs_ret seccomp_ret_kill_process acc tail d))
      | inr miss ↦ bpf.runs_jge (2 ^ 30) 0 1 acc _ d ∙ (rw miss refl)
    ]

    run-allowlist :
        (host : Host) (terminal acc : ℕ) (d : SeccompData)
        → run (x32_gate host (allow_pairs allowlist (bpf_stmt bpf_ret_k terminal ∷ []))) acc d ≡ (
            if is_x32 host acc
            then seccomp_ret_kill_process
            else if is_allowed allowlist acc
            then seccomp_ret_allow
            else terminal)
    run-allowlist host terminal acc d =
        rw
          (
            run-x32_gate host (allow_pairs allowlist (bpf_stmt bpf_ret_k terminal ∷ [])) acc d,
            run-allow_pairs allowlist (bpf_stmt bpf_ret_k terminal ∷ []) acc d,
            bpf.runs_ret terminal acc [] d,
          )
          refl

    -- The program that `install_filter` builds returns the policy's verdict on every system call: it
    -- kills a call of another ABI, and an x32 call on x86_64, allows what is on the list, and takes
    -- the terminal action for the rest. This is for any machine that gives the four instructions
    -- their documented meaning.
    pub filter-verdict :
        (host : Host) (terminal acc : ℕ) (d : SeccompData)
        → run (filter headers host terminal) acc d ≡ verdict host terminal d
    unfolding verdict is_x32 gated
    filter-verdict host terminal acc d =
        let listed = x32_gate host (allow_pairs allowlist (bpf_stmt bpf_ret_k terminal ∷ [])) in
        let checked =
          ap (λ prog. run prog acc d) (filter_layout host terminal)
          ∙ bpf.runs_ld offset_arch acc _ d
          ∙ bpf.runs_jeq (audit_arch host) 1 0 (d offset_arch) _ d in
        elim (Bool-cases (d offset_arch == audit_arch host)) [
          | inl native ↦
              checked
              ∙ (rw native (
                  bpf.runs_ld offset_nr (d offset_arch) listed d
                  ∙ run-allowlist host terminal (d offset_nr) d))
          | inr foreign ↦
              checked ∙ (rw foreign (bpf.runs_ret seccomp_ret_kill_process (d offset_arch) _ d))
        ]
