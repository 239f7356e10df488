-- ===== src/Shim/Words.antt =====
-- Words in the byte memory of a process, least significant byte first.
use native.Mathlib.Nat.{pow-suc}
use rlbox_dynamic_sandbox.Common.{
  ℕ, zero, suc, ◌+◌, ◌-◌, ◌*◌, ◌/◌, ◌%◌, ◌^◌, ◌<◌, ◌≤◌, ◌≡◌, refl, arith, ◌==◌, if◌then◌else◌, leb,
  ltb, ◌&&◌,
}

abbrev pub Bytes : Type 0
Bytes = ℕ → ℕ

-- `memset(p, v, n)` and `memcpy(p, q, n)`, on memory areas that do not overlap.
unfoldable pub memset : ℕ → ℕ → ℕ → Bytes → Bytes
memset p v n mem a = if leb p a && ltb a (p + n) then v else mem a

unfoldable pub memcpy : ℕ → ℕ → ℕ → Bytes → Bytes
memcpy p q n mem a = if leb p a && ltb a (p + n) then mem (q + (a - p)) else mem a

unfoldable pub load_word : ℕ → ℕ → Bytes → ℕ
load_word zero a mem = 0
load_word (suc n) a mem = mem a + 256 * load_word n (a + 1) mem

unfoldable pub store_word : ℕ → ℕ → ℕ → Bytes → Bytes
store_word zero a v mem i = mem i
store_word (suc n) a v mem i = if a == i then v % 256 else store_word n (a + 1) (v / 256) mem i

load_word-agree :
    (n a : ℕ) (mem mem' : Bytes)
    → ((i : ℕ) → a ≤ i → mem i ≡ mem' i)
    → load_word n a mem ≡ load_word n a mem'
unfolding load_word
load_word-agree zero a mem mem' same = refl
load_word-agree (suc n) a mem mem' same =
    omega (
      arith,
      same a (omega arith),
      load_word-agree n (a + 1) mem mem' (λ i h. same i (omega arith)),
    )

-- A word that fits is read back.
pub load_word-store_word :
    (n a v : ℕ) (mem : Bytes) → v < 256 ^ n → load_word n a (store_word n a v mem) ≡ v
unfolding load_word store_word
load_word-store_word zero a v mem h = omega arith
load_word-store_word (suc n) a v mem h =
    let rest = store_word n (a + 1) (v / 256) mem in
    let pow : 256 ^ suc n ≡ 256 ^ n * 256 = pow-suc 256 n in
    let above = load_word-store_word n (a + 1) (v / 256) mem (omega arith) in
    let tail : load_word n (a + 1) (store_word (suc n) a v mem) ≡ load_word n (a + 1) rest =
      load_word-agree n (a + 1) (store_word (suc n) a v mem) rest
        (λ i h. unfold store_word in ground arith) in
    let head : store_word (suc n) a v mem a ≡ v % 256 = ground arith in
    omega (arith, head, tail, above)

-- The bytes around the word stay.
pub store_word_ne : (n a v i : ℕ) (mem : Bytes) → i < a → store_word n a v mem i ≡ mem i
unfolding store_word
store_word_ne zero a v i mem h = refl
store_word_ne (suc n) a v i mem h =
    ground (arith, store_word_ne n (a + 1) (v / 256) i mem (omega arith))

pub store_word_above : (n a v i : ℕ) (mem : Bytes) → a + n ≤ i → store_word n a v mem i ≡ mem i
unfolding store_word
store_word_above zero a v i mem h = refl
store_word_above (suc n) a v i mem h =
    ground (arith, store_word_above n (a + 1) (v / 256) i mem (omega arith))
