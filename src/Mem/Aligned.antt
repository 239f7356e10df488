-- ===== src/Mem/Aligned.antt =====
-- What `os_mmap_aligned` of include/rlbox_process_mem.hpp reserves.
use native.Mathlib.Nat.{mul_assoc, mod-eq_of_lt}
use rlbox_dynamic_sandbox.Common.{
  ℕ, ◌+◌, ◌-◌, ◌*◌, ◌/◌, ◌%◌, ◌^◌, ◌<◌, ◌≤◌, ◌≡◌, ◌∙◌, refl, sym, subst, ap, ap₂, arith, Bool, true,
  false, ◌&&◌, ◌||◌, not, Option, none, some, bit_and, bit_and-mask, pow_pos, ltb, leb,
  if◌then◌else◌,
}
use rlbox_dynamic_sandbox.Meta.Types.{Host, pointer_bits}
use rlbox_dynamic_sandbox.Mem.{Os, align_up, trim, os_mmap_aligned}

-- The documented effect of the two calls on what is mapped: a new mapping lies where nothing was, and
-- whole pages can be given back.
pub record MapsMemory {K : Type 0} (os : Os K) (is_mapped : K → ℕ → Bool) : Type 0 where
  pub mmap_maps :
      (n addr i : ℕ) (s s' : K)
      → os.mmap n s ≡ (some addr, s')
      → is_mapped s' i ≡ (is_mapped s i || leb addr i && ltb i (addr + n))
  pub mmap_fresh :
      (n addr i : ℕ) (s s' : K)
      → os.mmap n s ≡ (some addr, s')
      → addr ≤ i
      → i < addr + n
      → is_mapped s i ≡ false
  pub munmap_unmaps :
      (addr n i : ℕ) (s : K)
      → addr % 4096 ≡ 0
      → n % 4096 ≡ 0
      → is_mapped (os.munmap addr n s) i ≡ (is_mapped s i && not (leb addr i && ltb i (addr + n)))

and_assoc : (a b c : Bool) → ((a && b) && c) ≡ (a && (b && c))
and_assoc true b c = refl
and_assoc false b c = refl

-- Of a fresh mapping, what is left after both ends are given back is the block.
kept_block :
    (b : Bool) (addr p len a i : ℕ)
    → addr ≤ p
    → p < addr + a
    → (addr ≤ i → i < addr + (len + a) → b ≡ false)
    → ((b || leb addr i && ltb i (addr + (len + a)))
        && (not (leb addr i && ltb i p) && not (leb (p + len) i && ltb i (addr + (len + a)))))
      ≡ (b || leb p i && ltb i (p + len))
kept_block true addr p len a i lo hi fresh = ground arith
kept_block false addr p len a i lo hi fresh = ground arith

-- A multiple of a power of two that is whole pages is whole pages.
multiple_of_pages : (q a : ℕ) → a % 4096 ≡ 0 → (q * a) % 4096 ≡ 0
multiple_of_pages q a whole =
    let c = a / 4096 in
    let pages : a ≡ c * 4096 = omega arith in
    let product : q * a ≡ q * c * 4096 = ap (λ n. q * n) pages ∙ sym (mul_assoc q c 4096) in
    omega arith

module _ (h : Host) {K : Type 0} (os : Os K) {is_mapped : K → ℕ → Bool}
    (kernel : MapsMemory os is_mapped) where
  -- The next multiple of a power of two, for an address that leaves room for it.
  align_up_next :
      (k j addr : ℕ)
      → k + j ≡ pointer_bits h
      → addr + 2 ^ k ≤ 2 ^ pointer_bits h
      → (q : ℕ) × (align_up h os addr (2 ^ k) ≡ q * 2 ^ k)
        × (addr ≤ q * 2 ^ k)
        × (q * 2 ^ k < addr + 2 ^ k)
  unfolding align_up
  align_up_next k j addr e room =
      let w = pointer_bits h in
      let x = addr + (2 ^ k - 1) in
      let positive = pow_pos k in
      let top : 2 ^ (k + j) ≡ 2 ^ w = ap (λ n. 2 ^ n) e in
      let whole : x % 2 ^ w ≡ x = mod-eq_of_lt {n = x} {m = 2 ^ w} (omega arith) in
      let mask : 2 ^ w - 1 - (2 ^ k - 1) ≡ 2 ^ (k + j) - 2 ^ k = omega arith in
      let (q, masked, lo, hi) = bit_and-mask k j x (omega arith) in
      (q, ap₂ bit_and whole mask ∙ masked, omega arith, omega arith)

  -- Giving back what lies in front of the aligned block and behind it.
  trim-region :
      (len a p addr i : ℕ) (s : K)
      → align_up h os addr a ≡ p
      → addr ≤ p
      → p < addr + a
      → addr % 4096 ≡ 0
      → p % 4096 ≡ 0
      → len % 4096 ≡ 0
      → a % 4096 ≡ 0
      → let (r, s') = trim h os len a (len + a) addr s in
        (r ≡ p)
        × (is_mapped s' i ≡ (
            is_mapped s i
            && (not (leb addr i && ltb i p) && not (leb (p + len) i && ltb i (addr + (len + a))))))
  unfolding trim
  trim-region len a p addr i s aligned lo hi addr_pages p_pages len_pages a_pages =
      let front = p - addr in
      let back = len + a - front - len in
      let s1 = if ltb 0 front then os.munmap addr front s else s in
      let in_front : is_mapped s1 i ≡ (is_mapped s i && not (leb addr i && ltb i p)) =
        ground (arith, kernel.munmap_unmaps addr front i s addr_pages (omega arith)) in
      let some_back : ltb 0 back ≡ true = ground arith in
      let behind = kernel.munmap_unmaps (p + len) back i s1 (omega arith) (omega arith) in
      let ending : p + len + back ≡ addr + (len + a) = omega arith in
      let kept = is_mapped s i in
      let b1 = not (leb addr i && ltb i p) in
      (
        aligned,
        rw (aligned, some_back)
            (behind
              ∙ ap₂ (λ x n. x && not (leb (p + len) i && ltb i n)) in_front ending
              ∙ and_assoc kept b1 (not (leb (p + len) i && ltb i (addr + (len + a))))),
      )

  -- The rest of a reservation once the padded length is known.
  abbrev reserve_padded : ℕ → ℕ → ℕ → Option ℕ × K → ℕ × K
  reserve_padded len a n (mapped, s) = elim mapped [
    | none ↦ (0, s)
    | some addr ↦ trim h os len a n addr s
  ]

  -- A successful reservation returns a multiple of the alignment, and leaves mapped what was mapped
  -- and the block of the requested length at that address, and nothing else. This is for a length of
  -- whole pages and an alignment that is a power of two of whole pages, together within the address
  -- space.
  pub os_mmap_aligned-region :
      (len k j addr i : ℕ) (s s1 : K)
      → k + j ≡ pointer_bits h
      → 2 ^ k % 4096 ≡ 0
      → len % 4096 ≡ 0
      → os.mmap (len + 2 ^ k) s ≡ (some addr, s1)
      → addr % 4096 ≡ 0
      → addr + (len + 2 ^ k) < 2 ^ pointer_bits h
      → let (p, s') = os_mmap_aligned h os len (2 ^ k) s in
        (q : ℕ) × (p ≡ q * 2 ^ k) × (is_mapped s' i ≡ (is_mapped s i || leb p i && ltb i (p + len)))
  unfolding os_mmap_aligned
  os_mmap_aligned-region len k j addr i s s1 e whole pages made at room =
      let a = 2 ^ k in
      let padded : (len + a) % 2 ^ pointer_bits h ≡ len + a =
        mod-eq_of_lt {n = len + a} {m = 2 ^ pointer_bits h} (omega arith) in
      let (q, aligned, lo, hi) = align_up_next k j addr e (omega arith) in
      let p_pages = multiple_of_pages q a whole in
      let trimmed = trim-region len a (q * a) addr i s1 aligned lo hi at p_pages pages whole in
      let fresh = kernel.mmap_fresh (len + a) addr i s s1 made in
      let mapped = kernel.mmap_maps (len + a) addr i s s1 made in
      let block : is_mapped (trim h os len a (len + a) addr s1).1 i
          ≡ (is_mapped s i || leb (q * a) i && ltb i (q * a + len)) =
        trimmed.1
        ∙ ap
            (λ x.
              x
              && (not (leb addr i && ltb i (q * a))
                  && not (leb (q * a + len) i && ltb i (addr + (len + a)))))
            mapped
        ∙ kept_block (is_mapped s i) addr (q * a) len a i lo hi fresh in
      let run : os_mmap_aligned h os len a s ≡ trim h os len a (len + a) addr s1 =
        ap (λ n. reserve_padded len a n (os.mmap n s)) padded
        ∙ ap (reserve_padded len a (len + a)) made in
      subst
        (λ (x : ℕ × K).
          (q : ℕ) × (x.0 ≡ q * a)
          × (is_mapped x.1 i ≡ (is_mapped s i || leb x.0 i && ltb i (x.0 + len))))
        (sym run)
        (
          q,
          trimmed.0,
          block ∙ ap (λ n. is_mapped s i || leb n i && ltb i (n + len)) (sym trimmed.0),
        )
