-- ===== src/Process/Callbacks/Again.antt =====
-- The callback loop of an object that is created again (include/rlbox_process_sandbox.hpp).
use rlbox_dynamic_sandbox.Common.{
  ℕ, ◌≡◌, ◌∙◌, refl, sym, ap, Bool, true, List, [], ◌∷◌, Option, none, some, Map, insert,
  Option-cases, inl, inr,
}
use rlbox_dynamic_sandbox.Meta.Types.{Host}
use rlbox_dynamic_sandbox.Process.{
  Sandbox, World, Os, create_memory, create_channels, create_child, connect, create_sandbox,
  destroy_sandbox, put_object,
}
use rlbox_dynamic_sandbox.Process.Entries.{insert_self}
use rlbox_dynamic_sandbox.Process.Callbacks.{callback_loop}

module _ {K : Type 0} (h : Host) (os : Os K) where
  stop_kept :
      (this : ℕ) (t : Sandbox) (objects : Map Sandbox) (b : Bool)
      → t.callback_thread_stop ≡ b
      → (s1 : Sandbox) → insert this t objects this ≡ some s1
      → s1.callback_thread_stop ≡ b
  stop_kept this t objects b e s1 at_this =
      ap (λ (o : Option Sandbox). elim o [ none ↦ b | some s ↦ s.callback_thread_stop ])
        (sym at_this ∙ insert_self this t objects)
      ∙ e

  create_keeps_stop :
      (this : ℕ) (s s1 : Sandbox) (w : World K)
      → (create_sandbox h os this s w).1.objects this ≡ some s1
      → s1.callback_thread_stop ≡ s.callback_thread_stop
  unfolding create_sandbox connect put_object
  create_keeps_stop this s s1 w at_this =
      let k1 = (create_memory h os w.kernel).1 in
      elim (Option-cases (create_memory h os w.kernel).0) [
        | inl unmapped ↦
            stop_kept this _ w.objects _ refl s1 (rw (create_sandbox, unmapped) at at_this)
        | inr ((fd, base), mapped) ↦ elim (Option-cases (create_channels h os fd k1).0) [
          | inl unpaired ↦
              stop_kept this _ w.objects _ refl s1
                (rw (create_sandbox, mapped, connect, unpaired) at at_this)
          | inr (channels, paired) ↦
              elim (Option-cases (create_child h os fd channels (create_channels h os fd k1).1).0) [
                | inl childless ↦
                    stop_kept this _ w.objects _ refl s1
                      (rw (create_sandbox, mapped, connect, paired, childless) at at_this)
                | inr (pid, started) ↦
                    stop_kept this _ w.objects _ refl s1
                      (rw (create_sandbox, mapped, connect, paired, started) at at_this)
              ]
        ]
      ]

  -- When an object has been destroyed and is created again, its callback loop answers no message.
  pub created_again_deaf :
      {M : Type 0} (call_host : ℕ → List ℕ → ℕ × ℕ → M → ℕ × M) (this : ℕ) (s0 s s1 : Sandbox)
      (w0 w : World K) (messages : List (ℕ × List ℕ)) (thread_locals : ℕ × ℕ) (m : M)
      → (destroy_sandbox h os this s0 w0).objects this ≡ some s
      → (create_sandbox h os this s w).1.objects this ≡ some s1
      → callback_loop h call_host this s1 messages thread_locals m ≡ some ([], m)
  unfolding callback_loop destroy_sandbox put_object
  created_again_deaf call_host this s0 s s1 w0 w [] thread_locals m destroyed created = refl
  created_again_deaf call_host this s0 s s1 w0 w ((key, args) ∷ messages) thread_locals m destroyed
        created =
      let stops : s.callback_thread_stop ≡ true =
        stop_kept this _ w0.objects true refl s destroyed in
      rw (callback_loop, create_keeps_stop this s s1 w created ∙ stops) refl
