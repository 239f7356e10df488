-- ===== src/Mem/Tests.antt =====
-- The theorem about aligned reservations at a kernel that always maps at 2 ^ 20, on x86_64.
use rlbox_dynamic_sandbox.Common.{
  if◌then◌else◌, ℕ, ◌+◌, ◌*◌, ◌^◌, ◌≡◌, refl, arith, Bool, true, false, ◌&&◌, ◌||◌, not, some, none,
  leb, ltb,
}
use rlbox_dynamic_sandbox.Meta.Types.{x86_64}
use rlbox_dynamic_sandbox.Mem.{Os, os_mmap_aligned}
use rlbox_dynamic_sandbox.Mem.Aligned.{MapsMemory, os_mmap_aligned-region}

-- One mapping can be made; its bytes are kept as a test.
abbrev Space : Type 0
Space = Bool × (ℕ → Bool)

abbrev once : Os Space
once = record {
  mmap = λ n (used, f).
      if used
      then (none, (used, f))
      else (some (2 ^ 20), (true, λ i. leb (2 ^ 20) i && ltb i (2 ^ 20 + n)));
  munmap = λ addr n (used, f). (used, λ i. f i && not (leb addr i && ltb i (addr + n)));
}

abbrev is_mapped : Space → ℕ → Bool
is_mapped (used, f) i = used && f i

once-MapsMemory : MapsMemory once is_mapped
once-MapsMemory = record {
  mmap_maps = λ n addr i s s' e. maps n addr i s s' e;
  mmap_fresh = λ n addr i s s' e lo hi. fresh n addr i s s' e;
  munmap_unmaps = λ addr n i s p q. unmaps addr n i s;
}
  where
    maps :
        (n addr i : ℕ) (s s' : Space)
        → once.mmap n s ≡ (some addr, s')
        → is_mapped s' i ≡ (is_mapped s i || leb addr i && ltb i (addr + n))
    maps n addr i (true, f) s' e = absurd (ground arith)
    maps n addr i (false, f) s' e = ground arith

    fresh : (n addr i : ℕ) (s s' : Space) → once.mmap n s ≡ (some addr, s') → is_mapped s i ≡ false
    fresh n addr i (true, f) s' e = absurd (ground arith)
    fresh n addr i (false, f) s' e = refl

    unmaps :
        (addr n i : ℕ) (s : Space)
        → is_mapped (once.munmap addr n s) i
          ≡ (is_mapped s i && not (leb addr i && ltb i (addr + n)))
    unmaps addr n i (true, f) = refl
    unmaps addr n i (false, f) = refl

-- 64 KiB at an alignment of 64 KiB.
os_mmap_aligned-region_example :
    let (p, s') = os_mmap_aligned x86_64 once (2 ^ 16) (2 ^ 16) (false, λ i. false) in
    (q : ℕ) × (p ≡ q * 2 ^ 16) × (is_mapped s' 5 ≡ (false || leb p 5 && ltb 5 (p + 2 ^ 16)))
os_mmap_aligned-region_example =
    os_mmap_aligned-region x86_64 once once-MapsMemory (2 ^ 16) 16 48 (2 ^ 20) 5 (false, λ i. false)
      (true, λ i. leb (2 ^ 20) i && ltb i (2 ^ 20 + 2 ^ 17)) (omega arith) (omega arith)
      (omega arith) refl (omega arith) (omega arith)
