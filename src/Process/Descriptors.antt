-- ===== src/Process/Descriptors.antt =====
-- Which descriptors `impl_create_sandbox` and `impl_destroy_sandbox` leave open
-- (include/rlbox_process_sandbox.hpp).
use rlbox_dynamic_sandbox.Common.{
  ℕ, ◌+◌, ◌-◌, ◌%◌, ◌^◌, ◌≡◌, ◌≢◌, ◌∙◌, refl, ap, arith, Bool, true, false, not, ◌&&◌, ◌||◌, List,
  [], ◌∷◌, Option, none, some, Option-cases, Bool-cases, inl, inr, ltb, ◌==◌, if◌then◌else◌,
}
use rlbox_dynamic_sandbox.Meta.Types.{Host, i386, x86_64, pointer_bits}
use rlbox_dynamic_sandbox.Mem.{align_up, os_mmap_aligned, trim}
use rlbox_dynamic_sandbox.Process.{
  Os, Channels, memory_size, k_hint_addrs, reserve_at_hints, reserve_memory, create_memory,
  create_channels, create_child,
}

-- The documented effect of the calls on the open descriptors: a call that makes descriptors gives fresh
-- ones, `close` closes one, and the other calls open and close none.
pub record TracksDescriptors {K : Type 0} (os : Os K) (is_open : K → ℕ → Bool) : Type 0 where
  pub memfd_fails :
      (k : K) (x : ℕ) → (os.memfd_create k).0 ≡ none → is_open (os.memfd_create k).1 x ≡ is_open k x
  pub memfd_opens :
      (k : K) (x fd : ℕ)
      → (os.memfd_create k).0 ≡ some fd
      → (is_open k fd ≡ false) × (is_open (os.memfd_create k).1 x ≡ ((x == fd) || is_open k x))
  pub socketpair_fails :
      (k : K) (x : ℕ) → (os.socketpair k).0 ≡ none → is_open (os.socketpair k).1 x ≡ is_open k x
  pub socketpair_opens :
      (k : K) (x a b : ℕ)
      → (os.socketpair k).0 ≡ some (a, b)
      → (a ≢ b)
        × (is_open k a ≡ false)
        × (is_open k b ≡ false)
        × (is_open (os.socketpair k).1 x ≡ (((x == a) || (x == b)) || is_open k x))
  pub close_closes :
      (fd : ℕ) (k : K) (x : ℕ) → is_open (os.close fd k) x ≡ (not (x == fd) && is_open k x)
  pub ftruncate_same : (fd n : ℕ) (k : K) (x : ℕ) → is_open (os.ftruncate fd n k) x ≡ is_open k x
  pub mmap_same : (n : ℕ) (k : K) (x : ℕ) → is_open (os.memory.mmap n k).1 x ≡ is_open k x
  pub munmap_same : (a n : ℕ) (k : K) (x : ℕ) → is_open (os.memory.munmap a n k) x ≡ is_open k x
  pub reserve_at_same : (a n : ℕ) (k : K) (x : ℕ) → is_open (os.reserve_at a n k).1 x ≡ is_open k x
  pub map_shared_same :
      (a n fd : ℕ) (k : K) (x : ℕ) → is_open (os.map_shared a n fd k).1 x ≡ is_open k x
  pub fork_same : (k : K) (x : ℕ) → is_open (os.fork k).1 x ≡ is_open k x
  pub shutdown_same : (fd : ℕ) (k : K) (x : ℕ) → is_open (os.shutdown fd k) x ≡ is_open k x
  pub terminate_same : (pid : ℕ) (k : K) (x : ℕ) → is_open (os.terminate pid k) x ≡ is_open k x
  pub reap_same : (pid : ℕ) (k : K) (x : ℕ) → is_open (os.reap pid k) x ≡ is_open k x

module _ {K : Type 0} (h : Host) (os : Os K) {is_open : K → ℕ → Bool}
    (tracks : TracksDescriptors os is_open) where
  open tracks use {
    memfd_fails, memfd_opens, socketpair_fails, socketpair_opens, close_closes, ftruncate_same,
    mmap_same, munmap_same, reserve_at_same, map_shared_same, fork_same, shutdown_same,
    terminate_same, reap_same,
  }

  reserve_at_hints_same :
      (hints : List ℕ) (k : K) (x : ℕ) → is_open (reserve_at_hints h os hints k).1 x ≡ is_open k x
  unfolding reserve_at_hints
  reserve_at_hints_same [] k x = refl
  reserve_at_hints_same (hint ∷ hints) k x =
      let (res, k1) = os.reserve_at hint memory_size k in
      elim (Option-cases (os.reserve_at hint memory_size k).0) [
        | inl failed ↦
            rw (reserve_at_hints, failed)
              (reserve_at_hints_same hints k1 x ∙ reserve_at_same hint memory_size k x)
        | inr (addr, found) ↦ elim (Bool-cases (addr == hint)) [
          | inl there ↦ rw (reserve_at_hints, found, there) (reserve_at_same hint memory_size k x)
          | inr elsewhere ↦
              rw (reserve_at_hints, found, elsewhere)
                (reserve_at_hints_same hints (os.memory.munmap addr memory_size k1) x
                  ∙ munmap_same addr memory_size k1 x
                  ∙ reserve_at_same hint memory_size k x)
        ]
      ]

  unmap_if_same :
      (b : Bool) (a n : ℕ) (k : K) (x : ℕ)
      → is_open (if b then os.memory.munmap a n k else k) x ≡ is_open k x
  unmap_if_same true a n k x = munmap_same a n k x
  unmap_if_same false a n k x = refl

  trim_same :
      (n a padded addr : ℕ) (k : K) (x : ℕ)
      → is_open (trim h os.memory n a padded addr k).1 x ≡ is_open k x
  unfolding trim
  trim_same n a padded addr k x =
      let aligned = align_up h os.memory addr a in
      let front = aligned - addr in
      let back = padded - front - n in
      unmap_if_same (ltb 0 back) (aligned + n) back
        (if ltb 0 front then os.memory.munmap addr front k else k) x
      ∙ unmap_if_same (ltb 0 front) addr front k x

  os_mmap_aligned_same :
      (n a : ℕ) (k : K) (x : ℕ) → is_open (os_mmap_aligned h os.memory n a k).1 x ≡ is_open k x
  unfolding os_mmap_aligned
  os_mmap_aligned_same n a k x =
      let padded = (n + a) % 2 ^ pointer_bits h in
      let (mapped, k1) = os.memory.mmap padded k in
      elim (Option-cases (os.memory.mmap padded k).0) [
        | inl failed ↦ rw (os_mmap_aligned, failed) (mmap_same padded k x)
        | inr (addr, found) ↦
            rw (os_mmap_aligned, found) (trim_same n a padded addr k1 x ∙ mmap_same padded k x)
      ]

  reserve_memory_same : (k : K) (x : ℕ) → is_open (reserve_memory h os k).1 x ≡ is_open k x
  unfolding reserve_memory
  reserve_memory_same k x =
      elim h
        as (λ host.
          is_open
            (elim host as (λ z. ℕ × K) [
              | i386 ↦ reserve_at_hints h os k_hint_addrs k
              | x86_64 ↦ os_mmap_aligned h os.memory memory_size (2 ^ 32) k
            ]).1
            x
          ≡ is_open k x) [
            | i386 ↦ reserve_at_hints_same k_hint_addrs k x
            | x86_64 ↦ os_mmap_aligned_same memory_size (2 ^ 32) k x
          ]

  -- Closing the one descriptor that was opened.
  close_opened :
      (k k' : K) (x fd : ℕ)
      → is_open k fd ≡ false
      → is_open k' x ≡ ((x == fd) || is_open k x)
      → is_open (os.close fd k') x ≡ is_open k x
  close_opened k k' x fd fresh opened = ground (arith, close_closes fd k' x)

  -- What `create_memory` opens: the descriptor that it returns, which was not open.
  abbrev pub MemoryDescriptors : K → ℕ → Option (ℕ × ℕ) × K → Type 0
  MemoryDescriptors k x (none, k') = is_open k' x ≡ is_open k x
  MemoryDescriptors k x (some (fd, base), k') =
      (is_open k fd ≡ false) × (is_open k' x ≡ ((x == fd) || is_open k x))

  pub create_memory_tracks : (k : K) (x : ℕ) → MemoryDescriptors k x (create_memory h os k)
  unfolding create_memory
  create_memory_tracks k x =
      let k1 = (os.memfd_create k).1 in
      elim (Option-cases (os.memfd_create k).0) [
        | inl failed ↦ rw (create_memory, failed) (memfd_fails k x failed)
        | inr (fd, found) ↦
            let k2 = os.ftruncate fd memory_size k1 in
            let addr = (reserve_memory h os k2).0 in
            let k3 = (reserve_memory h os k2).1 in
            let k4 = (os.map_shared addr memory_size fd k3).1 in
            let (fresh, opened) = memfd_opens k x fd found in
            let opened3 = reserve_memory_same k2 x ∙ ftruncate_same fd memory_size k1 x ∙ opened in
            elim (Bool-cases (addr == 0)) [
              | inl unreserved ↦
                  rw (create_memory, found, unreserved) (close_opened k k3 x fd fresh opened3)
              | inr reserved ↦ elim (Option-cases (os.map_shared addr memory_size fd k3).0) [
                | inl unmapped ↦
                    rw (create_memory, found, reserved, unmapped)
                      (close_opened k (os.memory.munmap addr memory_size k4) x fd fresh (
                        munmap_same addr memory_size k4 x
                        ∙ map_shared_same addr memory_size fd k3 x
                        ∙ opened3))
                | inr (base, mapped) ↦
                    rw (create_memory, found, reserved, mapped)
                      (fresh, map_shared_same addr memory_size fd k3 x ∙ opened3)
              ]
            ]
      ]

  -- What `create_channels` opens: two pairs, and without both of them the descriptor of the memory is
  -- closed.
  abbrev pub ChannelDescriptors : K → ℕ → ℕ → Option Channels × K → Type 0
  ChannelDescriptors k fd x (none, k') = is_open k' x ≡ (not (x == fd) && is_open k x)
  ChannelDescriptors k fd x (some channels, k') =
      (channels.req_pair.0 ≢ channels.req_pair.1)
      × (channels.cb_pair.0 ≢ channels.cb_pair.1)
      × (is_open k channels.req_pair.0 ≡ false)
      × (is_open k channels.req_pair.1 ≡ false)
      × (is_open k channels.cb_pair.0 ≡ false)
      × (is_open k channels.cb_pair.1 ≡ false)
      × (channels.cb_pair.0 ≢ channels.req_pair.0)
      × (channels.cb_pair.0 ≢ channels.req_pair.1)
      × (channels.cb_pair.1 ≢ channels.req_pair.0)
      × (channels.cb_pair.1 ≢ channels.req_pair.1)
      × (is_open k' x ≡ (
          ((x == channels.cb_pair.0) || (x == channels.cb_pair.1))
          || (((x == channels.req_pair.0) || (x == channels.req_pair.1)) || is_open k x)))

  pub create_channels_tracks :
      (fd : ℕ) (k : K) (x : ℕ) → ChannelDescriptors k fd x (create_channels h os fd k)
  unfolding create_channels
  create_channels_tracks fd k x =
      let k1 = (os.socketpair k).1 in
      let k2 = (os.socketpair k1).1 in
      elim (Option-cases (os.socketpair k).0) [
        | inl failed ↦
            rw (create_channels, failed)
              (close_closes fd k1 x ∙ ap (λ b. not (x == fd) && b) (socketpair_fails k x failed))
        | inr ((a, b), paired) ↦
            let (ne, fresh_a, fresh_b, opened) = socketpair_opens k x a b paired in
            elim (Option-cases (os.socketpair k1).0) [
              | inl failed ↦
                  rw (create_channels, paired, failed)
                    (ground (
                      arith,
                      close_closes fd (os.close b (os.close a k2)) x,
                      close_closes b (os.close a k2) x,
                      close_closes a k2 x,
                      socketpair_fails k1 x failed,
                    ))
              | inr ((c, d), paired') ↦
                  let (ne', fresh_c, fresh_d, opened') = socketpair_opens k1 x c d paired' in
                  let at_c = (socketpair_opens k c a b paired).3 in
                  let at_d = (socketpair_opens k d a b paired).3 in
                  rw (create_channels, paired, paired')
                    (
                      ne,
                      ne',
                      fresh_a,
                      fresh_b,
                      ground (arith, at_c),
                      ground (arith, at_d),
                      ground (arith, at_c),
                      ground (arith, at_c),
                      ground (arith, at_d),
                      ground (arith, at_d),
                      opened' ∙ ap (λ o. ((x == c) || (x == d)) || o) opened,
                    )
            ]
      ]

  -- What is open once the child is there: the parent's ends.
  abbrev pub ChildDescriptors : K → ℕ → Channels → ℕ → Option ℕ × K → Type 0
  ChildDescriptors k fd channels x (none, k') = is_open k' x ≡ (not (x == fd) && is_open k x)
  ChildDescriptors k fd channels x (some pid, k') = is_open k' x ≡ (
      not (x == channels.cb_pair.1)
      && (not (x == channels.req_pair.1) && (not (x == fd) && is_open k x)))

  pub create_child_tracks :
      (fd : ℕ) (channels : Channels) (k : K) (x : ℕ)
      → ChildDescriptors k fd channels x (create_child h os fd channels k)
  unfolding create_child
  create_child_tracks fd channels k x =
      let k1 = (os.fork k).1 in
      let shut = close_closes fd k1 x ∙ ap (λ b. not (x == fd) && b) (fork_same k x) in
      elim (Option-cases (os.fork k).0) [
        | inl failed ↦ rw (create_child, failed) shut
        | inr (pid, forked) ↦
            rw (create_child, forked)
              (close_closes channels.cb_pair.1 (os.close channels.req_pair.1 (os.close fd k1)) x
                ∙ ap (λ b. not (x == channels.cb_pair.1) && b)
                    (close_closes channels.req_pair.1 (os.close fd k1) x
                      ∙ ap (λ b. not (x == channels.req_pair.1) && b) shut))
      ]
