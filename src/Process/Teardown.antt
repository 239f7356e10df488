-- ===== src/Process/Teardown.antt =====
-- `impl_destroy_sandbox` after `impl_create_sandbox` (include/rlbox_process_sandbox.hpp).
use rlbox_dynamic_sandbox.Common.{
  ap₂, subst, All, ℕ, ◌≡◌, ◌≢◌, ◌∙◌, refl, sym, ap, arith, Bool, true, false, not, ◌&&◌, ◌||◌, some,
  Map, insert, Option-cases, Bool-cases, inl, inr, ◌==◌,
}
use rlbox_dynamic_sandbox.Meta.Types.{Host}
use rlbox_dynamic_sandbox.Process.{
  unregister, Os, Sandbox, World, Channels, create_memory, create_channels, create_child, connect,
  create_sandbox, close_channel, stop_child, destroy_sandbox, put_object,
}
use rlbox_dynamic_sandbox.Process.Descriptors.{TracksDescriptors}
use rlbox_dynamic_sandbox.Process.Register.{unregister-register}
use rlbox_dynamic_sandbox.Process.Balance.{
  create_memory-some, create_channels-some, create_child-some, apart, create_sandbox_started,
  running, registered,
}

module _ {K : Type 0} (h : Host) (os : Os K) {is_open : K → ℕ → Bool}
    (tracks : TracksDescriptors os is_open) where
  stop_child_same : (pid : ℕ) (k : K) (x : ℕ) → is_open (stop_child h os pid k) x ≡ is_open k x
  unfolding stop_child
  stop_child_same pid k x = elim (Bool-cases (pid == 0)) [
    | inl childless ↦ rw (stop_child, childless) refl
    | inr child ↦
        rw (stop_child, child)
          (tracks.reap_same pid (os.terminate pid k) x ∙ tracks.terminate_same pid k x)
  ]

  close_channel_closes :
      (fd : ℕ) (k : K) (x : ℕ)
      → is_open (close_channel h os (some fd) k) x ≡ (not (x == fd) && is_open k x)
  unfolding close_channel
  close_channel_closes fd k x =
      tracks.close_closes fd (os.shutdown fd k) x
      ∙ ap (λ b. not (x == fd) && b) (tracks.shutdown_same fd k x)

  destroy_closes :
      (this a c : ℕ) (s : Sandbox) (w : World K) (x : ℕ)
      → s.request_fd ≡ some a
      → s.callback_fd ≡ some c
      → is_open (destroy_sandbox h os this s w).kernel x
        ≡ (not (x == c) && (not (x == a) && is_open w.kernel x))
  unfolding destroy_sandbox put_object stop_child close_channel
  destroy_closes this a c s w x request callback =
      let k1 = close_channel h os (some a) w.kernel in
      let k2 = close_channel h os (some c) k1 in
      rw (request, callback)
        (stop_child_same s.child_process_handle k2 x
          ∙ close_channel_closes c k1 x
          ∙ ap (λ b. not (x == c) && b) (close_channel_closes a w.kernel x))

  -- A creation that succeeds has come through its three stages.
  pub create_sandbox_stages :
      (this : ℕ) (s : Sandbox) (w : World K)
      → (create_sandbox h os this s w).0 ≡ true
      → (fd : ℕ) × (base : ℕ) × (channels : Channels) × (pid : ℕ) × ((create_memory h os w.kernel).0
          ≡ some (fd, base))
        × ((create_channels h os fd (create_memory h os w.kernel).1).0 ≡ some channels)
        × ((create_child h os fd channels
              (create_channels h os fd (create_memory h os w.kernel).1).1).0
            ≡ some pid)
  unfolding create_sandbox connect
  create_sandbox_stages this s w e =
      let k1 = (create_memory h os w.kernel).1 in
      elim (Option-cases (create_memory h os w.kernel).0) [
        | inl unmapped ↦ absurd (cc (rw (create_sandbox, unmapped) at e))
        | inr ((fd, base), mapped) ↦
            let k2 = (create_channels h os fd k1).1 in
            elim (Option-cases (create_channels h os fd k1).0) [
              | inl unpaired ↦ absurd (cc (rw (create_sandbox, mapped, connect, unpaired) at e))
              | inr (channels, paired) ↦ elim (Option-cases (create_child h os fd channels k2).0) [
                | inl childless ↦
                    absurd (cc (rw (create_sandbox, mapped, connect, paired, childless) at e))
                | inr (pid, started) ↦ (fd, base, channels, pid, mapped, paired, started)
              ]
            ]
      ]

  -- The memory's descriptor, the child's two ends and the parent's two, opened and closed.
  all_closed :
      (x fd a b c d : ℕ) (before k1 k2 k3 : Bool)
      → (before ≡ true → (x ≢ fd) × (x ≢ a) × (x ≢ b) × (x ≢ c) × (x ≢ d))
      → k1 ≡ ((x == fd) || before)
      → k2 ≡ (((x == c) || (x == d)) || (((x == a) || (x == b)) || k1))
      → k3 ≡ (not (x == d) && (not (x == b) && (not (x == fd) && k2)))
      → (not (x == c) && (not (x == a) && k3)) ≡ before
  all_closed x fd a b c d true k1 k2 k3 apart_from e1 e2 e3 = ground (arith, apart_from refl)
  all_closed x fd a b c d false k1 k2 k3 apart_from e1 e2 e3 = ground arith

  pub insert_self :
      (this : ℕ) (s : Sandbox) (objects : Map Sandbox) → insert this s objects this ≡ some s
  insert_self this s objects = ground arith

  pub some_injective : {a b : Sandbox} → some a ≡ some b → a ≡ b
  some_injective e = cc

  -- Where a creation that succeeds came through, and what it leaves.
  created :
      (this : ℕ) (s s1 : Sandbox) (w w1 : World K)
      → create_sandbox h os this s w ≡ (true, w1)
      → w1.objects this ≡ some s1
      → (fd : ℕ) × (base : ℕ) × (channels : Channels) × (pid : ℕ) × ((create_memory h os w.kernel).0
          ≡ some (fd, base))
        × ((create_channels h os fd (create_memory h os w.kernel).1).0 ≡ some channels)
        × ((create_child h os fd channels
              (create_channels h os fd (create_memory h os w.kernel).1).1).0
            ≡ some pid)
        × (registered h os tracks this
              (running h os tracks base pid channels s)
              base
              w
              (create_child h os fd channels
                (create_channels h os fd (create_memory h os w.kernel).1).1).1
            ≡ w1)
        × (running h os tracks base pid channels s ≡ s1)
  unfolding put_object
  created this s s1 w w1 e at_this =
      let (fd, base, channels, pid, mapped, paired, started) =
        create_sandbox_stages this s w (ap (λ (r : Bool × World K). r.0) e) in
      let k3 =
        (create_child h os fd channels
          (create_channels h os fd (create_memory h os w.kernel).1).1).1 in
      let s2 = running h os tracks base pid channels s in
      let made : registered h os tracks this s2 base w k3 ≡ w1 =
        ap (λ (r : Bool × World K). r.1)
          (sym (
              create_sandbox_started h os tracks this s w fd base pid channels mapped paired
                started)
            ∙ e) in
      let same : s2 ≡ s1 = some_injective (
        sym (insert_self this s2 w.objects)
        ∙ ap (λ (v : World K). v.objects this) made
        ∙ at_this) in
      (fd, base, channels, pid, mapped, paired, started, made, same)

  -- Once `impl_create_sandbox` returns true, `impl_destroy_sandbox` on the object takes back what the
  -- creation took: the open descriptors and the registry are those from before both. This is for
  -- memory at a base that was not registered, and system calls with their documented effect on the
  -- open descriptors.
  pub destroy-create_sandbox :
      (this : ℕ) (s s1 : Sandbox) (w w1 : World K) (x : ℕ)
      → create_sandbox h os this s w ≡ (true, w1)
      → w1.objects this ≡ some s1
      → All (λ (e : ℕ × ℕ). e.0 ≢ s1.shared_memory_local_base) w.global_registry
      → (is_open (destroy_sandbox h os this s1 w1).kernel x ≡ is_open w.kernel x)
        × ((destroy_sandbox h os this s1 w1).global_registry ≡ w.global_registry)
  unfolding destroy_sandbox put_object
  destroy-create_sandbox this s s1 w w1 x e at_this unused =
      let (fd, base, channels, pid, mapped, paired, started, made, same) =
        created this s s1 w w1 e at_this in
      let k1 = (create_memory h os w.kernel).1 in
      let k2 = (create_channels h os fd k1).1 in
      let ends = create_channels-some h os tracks fd channels k1 x paired in
      let (fresh, opened1) = create_memory-some h os tracks w.kernel x fd base mapped in
      let at_base : base ≡ s1.shared_memory_local_base =
        ap (λ (t : Sandbox). t.shared_memory_local_base) same in
      (
        destroy_closes this channels.req_pair.0 channels.cb_pair.0 s1 w1 x
              (ap (λ (t : Sandbox). t.request_fd) (sym same))
              (ap (λ (t : Sandbox). t.callback_fd) (sym same))
            ∙ all_closed x fd channels.req_pair.0 channels.req_pair.1 channels.cb_pair.0
                channels.cb_pair.1 (is_open w.kernel x) (is_open k1 x) (is_open k2 x)
                (is_open w1.kernel x)
                (λ before.
                  let still : is_open k1 x ≡ true = ground arith in
                  (
                    apart h os tracks w.kernel fd x fresh before,
                    apart h os tracks k1 channels.req_pair.0 x ends.2 still,
                    apart h os tracks k1 channels.req_pair.1 x ends.3 still,
                    apart h os tracks k1 channels.cb_pair.0 x ends.4 still,
                    apart h os tracks k1 channels.cb_pair.1 x ends.5 still,
                  ))
                opened1 ends.10
                (ap (λ (v : World K). is_open v.kernel x) (sym made)
                  ∙ create_child-some h os tracks fd pid channels k2 x started),
        ap₂ (λ b registry. unregister b registry) (sym at_base)
              (ap (λ (v : World K). v.global_registry) (sym made))
            ∙ unregister-register base this w.global_registry (
                subst (λ b. All (λ (e' : ℕ × ℕ). e'.0 ≢ b) w.global_registry) (sym at_base) unused),
      )
