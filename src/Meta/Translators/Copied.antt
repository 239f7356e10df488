-- ===== src/Meta/Translators/Copied.antt =====
-- The walk over the fields of a struct copies each of them (include/rlbox_meta_sandbox.hpp).
use native.Mathlib.Nat.{pow-suc, mod-lt}
use rlbox_dynamic_sandbox.Abi.{sign_extend}
use rlbox_dynamic_sandbox.Common.{
  ℕ, zero, suc, ◌+◌, ◌*◌, ◌^◌, ◌<◌, ◌≤◌, ◌≡◌, ◌⊎◌, ◌∙◌, inl, inr, refl, ap, arith, Bool, List, [],
  ◌∷◌, All, if◌then◌else◌,
}
use rlbox_dynamic_sandbox.Shim.Words.{
  Bytes, load_word, store_word, load_word-store_word, store_word_ne, store_word_above,
}
use rlbox_dynamic_sandbox.Meta.Casts.{cast}
use rlbox_dynamic_sandbox.Meta.Translators.{Move, copy_field, copy_fields}

-- Two words share no byte.
abbrev pub AreSeparate : ℕ → ℕ → ℕ → ℕ → Type 0
AreSeparate a n b m = (a + n ≤ b) ⊎ (b + m ≤ a)

load_word-cong :
    (n a : ℕ) (mem mem' : Bytes)
    → ((i : ℕ) → a ≤ i → i < a + n → mem i ≡ mem' i)
    → load_word n a mem ≡ load_word n a mem'
unfolding load_word
load_word-cong zero a mem mem' same = refl
load_word-cong (suc n) a mem mem' same = omega (
  arith,
  same a (omega arith) (omega arith),
  load_word-cong n (a + 1) mem mem' (λ i l u. same i (omega arith) (omega arith)),
)

-- A store leaves a word alone that is separate from it.
load_word-store_separate :
    (n a m b v : ℕ) (mem : Bytes)
    → AreSeparate a n b m
    → load_word n a (store_word m b v mem) ≡ load_word n a mem
load_word-store_separate n a m b v mem (inl below) =
    load_word-cong n a (store_word m b v mem) mem (λ i l u. store_word_ne m b v i mem (omega arith))
load_word-store_separate n a m b v mem (inr above) =
    load_word-cong n a (store_word m b v mem) mem
      (λ i l u. store_word_above m b v i mem (omega arith))

-- What is copied to is separate from the word.
abbrev pub Avoids : ℕ → ℕ → Move → Type 0
Avoids a n f = AreSeparate a n f.dst f.dst_size

-- No field is copied onto another's place, nor onto a field that is still to be copied.
abbrev pub AreMoves : List Move → Type 0
AreMoves [] = Unit
AreMoves (f ∷ fs) =
    All (λ g. Avoids f.dst f.dst_size g) fs
    × All (λ g. AreSeparate g.src g.src_size f.dst f.dst_size) fs
    × AreMoves fs

copy_fields_avoid :
    (n a : ℕ) (fs : List Move) (mem : Bytes)
    → All (Avoids a n) fs
    → load_word n a (copy_fields fs mem) ≡ load_word n a mem
unfolding copy_fields copy_field
copy_fields_avoid n a [] mem avoid = refl
copy_fields_avoid n a (f ∷ fs) mem (apart, avoid) =
    copy_fields_avoid n a fs (copy_field f mem) avoid
    ∙ load_word-store_separate n a f.dst_size f.dst
        (cast f.signed f.src_size f.dst_size (load_word f.src_size f.src mem)) mem apart

-- The field's place has the value of the other place, cast.
abbrev pub IsCopied : Bytes → Bytes → Move → Type 0
IsCopied mem mem' f =
    load_word f.dst_size f.dst mem'
    ≡ cast f.signed f.src_size f.dst_size (load_word f.src_size f.src mem)

positive : (n : ℕ) → 0 < 256 ^ n
positive zero = omega arith
positive (suc n) = omega (arith, pow-suc 256 n, positive n)

cast_small : (signed : Bool) (from to v : ℕ) → cast signed from to v < 256 ^ to
unfolding cast
cast_small signed from to v =
    mod-lt (if signed then sign_extend (8 * from) (8 * to) v else v) (positive to)

IsCopied-before :
    (mem mem0 mem' : Bytes) (fs : List Move)
    → All (λ f. load_word f.src_size f.src mem0 ≡ load_word f.src_size f.src mem) fs
    → All (IsCopied mem0 mem') fs
    → All (IsCopied mem mem') fs
IsCopied-before mem mem0 mem' [] same copied = tt
IsCopied-before mem mem0 mem' (f ∷ fs) (s, same) (c, copied) =
    (c ∙ ap (cast f.signed f.src_size f.dst_size) s, IsCopied-before mem mem0 mem' fs same copied)

sources_kept :
    (f : Move) (mem : Bytes) (v : ℕ) (fs : List Move)
    → All (λ g. AreSeparate g.src g.src_size f.dst f.dst_size) fs
    → All
        (λ g.
          load_word g.src_size g.src (store_word f.dst_size f.dst v mem)
          ≡ load_word g.src_size g.src mem)
        fs
sources_kept f mem v [] apart = tt
sources_kept f mem v (g ∷ fs) (s, apart) = (
  load_word-store_separate g.src_size g.src f.dst_size f.dst v mem s,
  sources_kept f mem v fs apart,
)

-- Every field is copied, from what its source was at the start.
pub copy_fields_copies :
    (fs : List Move) (mem : Bytes) → AreMoves fs → All (IsCopied mem (copy_fields fs mem)) fs
unfolding copy_fields copy_field
copy_fields_copies [] mem moves = tt
copy_fields_copies (f ∷ fs) mem (avoid, sources, moves) =
    let v = cast f.signed f.src_size f.dst_size (load_word f.src_size f.src mem) in
    let mem1 = store_word f.dst_size f.dst v mem in
    (
      copy_fields_avoid f.dst_size f.dst fs mem1 avoid
          ∙ load_word-store_word f.dst_size f.dst v mem
              (cast_small f.signed f.src_size f.dst_size (load_word f.src_size f.src mem)),
      IsCopied-before mem mem1 (copy_fields fs mem1) fs (sources_kept f mem v fs sources)
          (copy_fields_copies fs mem1 moves),
    )
