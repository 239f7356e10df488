-- ===== src/Shim/Wire.antt =====
-- A job on the pipe to a worker of src/rlbox_process_sandbox_shim.cpp: the header, the tags and the
-- values, as little-endian words. The header has no padding on either host.
pub mod RoundTrip
use rlbox_dynamic_sandbox.Common.{
  ℕ, zero, suc, ◌+◌, ◌*◌, ◌/◌, ◌%◌, List, [], ◌∷◌, ◌++◌, take, drop, length,
}

-- A word of `n` bytes, and the word that bytes stand for.
unfoldable pub word_bytes : ℕ → ℕ → List ℕ
word_bytes zero v = []
word_bytes (suc n) v = v % 256 ∷ word_bytes n (v / 256)

unfoldable pub read_word : List ℕ → ℕ
read_word [] = 0
read_word (b ∷ bs) = b + 256 * read_word bs

-- An array of words of `n` bytes.
unfoldable pub array_bytes : ℕ → List ℕ → List ℕ
unfolding word_bytes
array_bytes n [] = []
array_bytes n (v ∷ vs) = word_bytes n v ++ array_bytes n vs

unfoldable pub read_array : ℕ → ℕ → List ℕ → List ℕ
unfolding read_word
read_array n zero bytes = []
read_array n (suc count) bytes = read_word (take n bytes) ∷ read_array n count (drop n bytes)

-- `WireJobHeader`
pub record WireJobHeader : Type 0 where
  pub func_addr : ℕ
  pub ret_tag : ℕ
  pub nargs : ℕ

-- `sizeof(WireJobHeader)`
abbrev pub header_size : ℕ
header_size = 16

unfoldable pub header_bytes : WireJobHeader → List ℕ
unfolding word_bytes
header_bytes hdr =
    word_bytes 8 hdr.func_addr ++ (word_bytes 4 hdr.ret_tag ++ word_bytes 4 hdr.nargs)

unfoldable pub read_header : List ℕ → WireJobHeader
unfolding read_word
read_header bytes = record {
  func_addr = read_word (take 8 bytes);
  ret_tag = read_word (take 4 (drop 8 bytes));
  nargs = read_word (take 4 (drop 12 bytes));
}
