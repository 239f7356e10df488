-- ===== src/Process/Balance.antt =====
-- Whether the descriptors that a sandbox opens are closed again (include/rlbox_process_sandbox.hpp).
use rlbox_dynamic_sandbox.Common.{
  ℕ, ◌≡◌, ◌≢◌, ◌∙◌, refl, sym, subst, ap, arith, Bool, true, false, not, ◌&&◌, ◌||◌, none, some,
  Option-cases, inl, inr, ◌==◌,
}
use rlbox_dynamic_sandbox.Meta.Types.{Host}
use rlbox_dynamic_sandbox.Process.{
  Os, Sandbox, World, Channels, memory_size, create_memory, create_channels, create_child, connect,
  create_sandbox, put_object, register,
}
use rlbox_dynamic_sandbox.Process.Descriptors.{
  TracksDescriptors, create_memory_tracks, create_channels_tracks, create_child_tracks,
  MemoryDescriptors, ChannelDescriptors, ChildDescriptors,
}

module _ {K : Type 0} (h : Host) (os : Os K) {is_open : K → ℕ → Bool}
    (tracks : TracksDescriptors os is_open) where
  -- The descriptor of the memory, opened and closed.
  shut_fresh :
      (k k1 k2 : K) (x fd : ℕ)
      → (is_open k fd ≡ false) × (is_open k1 x ≡ ((x == fd) || is_open k x))
      → is_open k2 x ≡ (not (x == fd) && is_open k1 x)
      → is_open k2 x ≡ is_open k x
  shut_fresh k k1 k2 x fd (fresh, opened) shut = ground arith

  create_memory-none :
      (k : K) (x : ℕ)
      → (create_memory h os k).0 ≡ none
      → is_open (create_memory h os k).1 x ≡ is_open k x
  create_memory-none k x e =
      subst (λ r. MemoryDescriptors h os tracks k x (r, (create_memory h os k).1)) e
        (create_memory_tracks h os tracks k x)

  pub create_memory-some :
      (k : K) (x fd base : ℕ)
      → (create_memory h os k).0 ≡ some (fd, base)
      → (is_open k fd ≡ false) × (is_open (create_memory h os k).1 x ≡ ((x == fd) || is_open k x))
  create_memory-some k x fd base e =
      subst (λ r. MemoryDescriptors h os tracks k x (r, (create_memory h os k).1)) e
        (create_memory_tracks h os tracks k x)

  create_channels-none :
      (fd : ℕ) (k : K) (x : ℕ)
      → (create_channels h os fd k).0 ≡ none
      → is_open (create_channels h os fd k).1 x ≡ (not (x == fd) && is_open k x)
  create_channels-none fd k x e =
      subst (λ r. ChannelDescriptors h os tracks k fd x (r, (create_channels h os fd k).1)) e
        (create_channels_tracks h os tracks fd k x)

  pub create_channels-some :
      (fd : ℕ) (channels : Channels) (k : K) (x : ℕ)
      → (create_channels h os fd k).0 ≡ some channels
      → ChannelDescriptors h os tracks k fd x (some channels, (create_channels h os fd k).1)
  create_channels-some fd channels k x e =
      subst (λ r. ChannelDescriptors h os tracks k fd x (r, (create_channels h os fd k).1)) e
        (create_channels_tracks h os tracks fd k x)

  pub create_child-some :
      (fd pid : ℕ) (channels : Channels) (k : K) (x : ℕ)
      → (create_child h os fd channels k).0 ≡ some pid
      → ChildDescriptors h os tracks k fd channels x (some pid, (create_child h os fd channels k).1)
  create_child-some fd pid channels k x e =
      subst
        (λ r. ChildDescriptors h os tracks k fd channels x (r, (create_child h os fd channels k).1))
        e (create_child_tracks h os tracks fd channels k x)

  create_child-none :
      (fd : ℕ) (channels : Channels) (k : K) (x : ℕ)
      → (create_child h os fd channels k).0 ≡ none
      → is_open (create_child h os fd channels k).1 x ≡ (not (x == fd) && is_open k x)
  create_child-none fd channels k x e =
      subst
        (λ r. ChildDescriptors h os tracks k fd channels x (r, (create_child h os fd channels k).1))
        e (create_child_tracks h os tracks fd channels k x)

  no_child :
      (fd : ℕ) (channels : Channels) (k : K)
      → ((j : K) → (os.fork j).0 ≡ none)
      → (create_child h os fd channels k).0 ≡ none
  unfolding create_child
  no_child fd channels k never = rw (create_child, never k) refl

  no_fork_no_child :
      (fd : ℕ) (channels : Channels) (k : K)
      → (create_child h os fd channels k).0 ≡ none
      → (os.fork k).0 ≡ none
  unfolding create_child
  no_fork_no_child fd channels k e = elim (Option-cases (os.fork k).0) [
    | inl failed ↦ failed
    | inr (pid, forked) ↦ absurd (ground arith)
  ]

  -- An open descriptor and a closed one are two.
  pub apart : (k : K) (a b : ℕ) → is_open k a ≡ false → is_open k b ≡ true → b ≢ a
  apart k a b closed opened e = absurd (cc (sym closed ∙ ap (is_open k) (sym e) ∙ opened))

  -- The descriptor of the memory is none of the four ends.
  ends_apart :
      (fd : ℕ) (channels : Channels) (k : K)
      → is_open k fd ≡ true
      → (create_channels h os fd k).0 ≡ some channels
      → (fd ≢ channels.req_pair.0)
        × (fd ≢ channels.req_pair.1)
        × (fd ≢ channels.cb_pair.0)
        × (fd ≢ channels.cb_pair.1)
  ends_apart fd channels k opened paired =
      let ends = create_channels-some fd channels k fd paired in
      (
        apart k channels.req_pair.0 fd ends.2 opened,
        apart k channels.req_pair.1 fd ends.3 opened,
        apart k channels.cb_pair.0 fd ends.4 opened,
        apart k channels.cb_pair.1 fd ends.5 opened,
      )

  memory_open :
      (k : K) (fd base : ℕ)
      → (create_memory h os k).0 ≡ some (fd, base)
      → is_open (create_memory h os k).1 fd ≡ true
  memory_open k fd base mapped = ground (arith, (create_memory-some k fd fd base mapped).1)

  -- The object once its child runs, and the world with it.
  abbrev pub running : ℕ → ℕ → Channels → Sandbox → Sandbox
  running base pid channels s = record s {
    shared_memory_size = memory_size;
    shared_memory_local_base = base;
    child_process_handle = pid;
    request_fd = some channels.req_pair.0;
    callback_fd = some channels.cb_pair.0;
    callback_thread = true;
  }

  abbrev pub registered : ℕ → Sandbox → ℕ → World K → K → World K
  registered this s base w k = put_object h os this s (record w {
    thread_local_sandbox = this;
    global_registry = register base this w.global_registry;
    kernel = k;
  })

  pub create_sandbox_started :
      (this : ℕ) (s : Sandbox) (w : World K) (fd base pid : ℕ) (channels : Channels)
      → (create_memory h os w.kernel).0 ≡ some (fd, base)
      → (create_channels h os fd (create_memory h os w.kernel).1).0 ≡ some channels
      → (create_child h os fd channels
          (create_channels h os fd (create_memory h os w.kernel).1).1).0
        ≡ some pid
      → create_sandbox h os this s w ≡ (
        true,
        registered this
            (running base pid channels s)
            base
            w
            (create_child h os fd channels
              (create_channels h os fd (create_memory h os w.kernel).1).1).1,
      )
  unfolding create_sandbox connect
  create_sandbox_started this s w fd base pid channels mapped paired started =
      rw (create_sandbox, mapped, connect, paired, started) refl

  create_sandbox_childless :
      (this : ℕ) (s : Sandbox) (w : World K) (fd base : ℕ) (channels : Channels)
      → (create_memory h os w.kernel).0 ≡ some (fd, base)
      → (create_channels h os fd (create_memory h os w.kernel).1).0 ≡ some channels
      → (create_child h os fd channels
          (create_channels h os fd (create_memory h os w.kernel).1).1).0
        ≡ none
      → create_sandbox h os this s w ≡ (
        false,
        registered this
            (record s { shared_memory_size = memory_size; shared_memory_local_base = base })
            base
            w
            (create_child h os fd channels
              (create_channels h os fd (create_memory h os w.kernel).1).1).1,
      )
  unfolding create_sandbox connect
  create_sandbox_childless this s w fd base channels mapped paired childless =
      rw (create_sandbox, mapped, connect, paired, childless) refl

  -- If `impl_create_sandbox` fails, and not because `fork` does, then the descriptors that are open are
  -- those that were open before.
  pub create_sandbox_failure :
      (this : ℕ) (s : Sandbox) (w : World K) (x : ℕ)
      → ((k : K) → (os.fork k).0 ≢ none)
      → (create_sandbox h os this s w).0 ≡ false
      → is_open (create_sandbox h os this s w).1.kernel x ≡ is_open w.kernel x
  unfolding create_sandbox connect put_object
  create_sandbox_failure this s w x forks e =
      let k1 = (create_memory h os w.kernel).1 in
      elim (Option-cases (create_memory h os w.kernel).0) [
        | inl unmapped ↦ rw (create_sandbox, unmapped) (create_memory-none w.kernel x unmapped)
        | inr ((fd, base), mapped) ↦
            let k2 = (create_channels h os fd k1).1 in
            elim (Option-cases (create_channels h os fd k1).0) [
              | inl unpaired ↦
                  rw (create_sandbox, mapped, connect, unpaired)
                    (shut_fresh w.kernel k1 k2 x fd (create_memory-some w.kernel x fd base mapped)
                      (create_channels-none fd k1 x unpaired))
              | inr (channels, paired) ↦ elim (Option-cases (create_child h os fd channels k2).0) [
                | inl childless ↦ absurd (forks k2 (no_fork_no_child fd channels k2 childless))
                | inr (pid, started) ↦ absurd (
                    cc (
                      e,
                      ap (λ (r : Bool × World K). r.0)
                          (create_sandbox_started this s w fd base pid channels mapped paired
                            started),
                    ))
              ]
            ]
      ]

  -- If `fork` fails once the memory and both socket pairs are there, `impl_create_sandbox` returns false
  -- and the four ends of the socket pairs stay open.
  pub create_sandbox_leaks :
      (this : ℕ) (s : Sandbox) (w : World K) (fd base : ℕ) (channels : Channels)
      → (create_memory h os w.kernel).0 ≡ some (fd, base)
      → (create_channels h os fd (create_memory h os w.kernel).1).0 ≡ some channels
      → ((k : K) → (os.fork k).0 ≡ none)
      → (x : ℕ)
      → ((create_sandbox h os this s w).0 ≡ false)
        × (is_open (create_sandbox h os this s w).1.kernel x ≡ (
            ((x == channels.cb_pair.0) || (x == channels.cb_pair.1))
            || (((x == channels.req_pair.0) || (x == channels.req_pair.1)) || is_open w.kernel x)))
  unfolding put_object
  create_sandbox_leaks this s w fd base channels mapped paired never x =
      let k1 = (create_memory h os w.kernel).1 in
      let k2 = (create_channels h os fd k1).1 in
      let childless = no_child fd channels k2 never in
      let (d_a, d_b, d_c, d_d) =
        ends_apart fd channels k1 (memory_open w.kernel fd base mapped) paired in
      let (fresh, opened1) = create_memory-some w.kernel x fd base mapped in
      let opened2 = (create_channels-some fd channels k1 x paired).10 in
      let shut = create_child-none fd channels k2 x childless in
      rw (create_sandbox_childless this s w fd base channels mapped paired childless)
        (refl, ground arith)
