-- ===== src/Shim/Memory.antt =====
-- `malloc`, `free`, `calloc` and `realloc` of the sandboxed process, and the allocation requests of the
-- host (src/rlbox_process_sandbox_shim.cpp).
--
-- dlmalloc is another project's: its calls on an mspace are fields of `Dlmalloc`. A call that the source
-- makes on a null mspace is outside dlmalloc's contract, and the result is `none`. The bytes of the
-- process are a function from addresses.
pub mod Bootstrap
pub mod Reallocate
pub mod Region
mod Tests
use rlbox_dynamic_sandbox.Common.{
  ℕ, ◌+◌, ◌-◌, ◌*◌, ◌/◌, ◌%◌, ◌^◌, Bool, true, false, ◌&&◌, ◌||◌, not, Option, some, none, ltb, leb,
  ◌==◌, if◌then◌else◌,
}
use mathlib.Core.Option.{map as map_option}
use rlbox_dynamic_sandbox.Meta.Types.{Host, pointer_bits}
use rlbox_dynamic_sandbox.Shim.Words.{Bytes, memset, memcpy, load_word, store_word}

-- The calls on an mspace with state `S`. A block whose address is 0 is none.
pub record Dlmalloc (S : Type 0) : Type 0 where
  pub create_mspace_with_base : S → ℕ → ℕ → Bool × S
  pub mspace_malloc : S → ℕ → ℕ × S
  pub mspace_free : S → ℕ → S
  pub mspace_calloc : S → Bytes → ℕ → ℕ → ℕ × S × Bytes
  pub mspace_realloc : S → Bytes → ℕ → ℕ → ℕ × S × Bytes

-- What the process is started with: the host, the address of `g_bootstrap_buf`, the size and base that
-- the environment names for the shared memory, and whether it can be mapped there.
pub record Setup (S : Type 0) : Type 0 where
  pub host : Host
  pub bootstrap_buf : ℕ
  pub shm_env : Option (ℕ × ℕ)
  pub maps_at : ℕ → ℕ → Bool
  pub dlmalloc : Dlmalloc S

-- The globals of the allocator; `mspace` says whether `g_mspace` is set, `callback_keys` is the
-- address of the slots, `shm_base` that of the shared memory, or 0.
pub record Allocator (S : Type 0) : Type 0 where
  pub in_init : Bool
  pub init_done : Bool
  pub shm_base : ℕ
  pub shm_size : ℕ
  pub mspace : Bool
  pub space : S
  pub bootstrap_offset : ℕ
  pub callback_keys : ℕ
  pub bytes : Bytes

abbrev pub k_callback_slots : ℕ
k_callback_slots = 64

-- `sizeof g_bootstrap_buf`
abbrev pub bootstrap_size : ℕ
bootstrap_size = 4096

-- `sizeof(size_t)`
abbrev pub word_bytes : Host → ℕ
word_bytes h = pointer_bits h / 8

-- Arithmetic on `size_t`.
abbrev pub wrap : Host → ℕ → ℕ
wrap h n = n % 2 ^ pointer_bits h

module _ {S : Type 0} (setup : Setup S) where
  open setup use {host, bootstrap_buf, dlmalloc}

  unfoldable pub init_shared_callback_keys : Allocator S → Allocator S
  unfolding memset
  init_shared_callback_keys g =
      let n = word_bytes host * k_callback_slots in
      let (mem, s) = dlmalloc.mspace_malloc g.space n in
      if not (g.callback_keys == 0) || not g.mspace
      then g
      else if mem == 0
      then record g { space = s }
      else record g { space = s; callback_keys = mem; bytes = memset mem 0 n g.bytes }

  -- `std::call_once(g_init_once, init_shm)`
  unfoldable pub init_shm : Allocator S → Allocator S
  unfolding init_shared_callback_keys
  init_shm g = elim setup.shm_env [
    | none ↦ record g { init_done = true }
    | some (size, base) ↦
        let (made, s) = dlmalloc.create_mspace_with_base g.space base size in
        if setup.maps_at base size
        then init_shared_callback_keys (record g {
          init_done = true;
          shm_size = size;
          shm_base = base;
          mspace = made;
          space = s;
        })
        else record g { init_done = true; shm_size = size; shm_base = 0 }
  ]

  -- `((size + 7) & ~7) + sizeof(size_t)`
  unfoldable pub total_needed : ℕ → ℕ
  total_needed size = wrap host (wrap host (size + 7) / 8 * 8 + word_bytes host)

  -- An allocation out of the bootstrap buffer, with its size in front.
  unfoldable pub bootstrap_malloc : ℕ → Allocator S → ℕ × Allocator S
  unfolding total_needed store_word
  bootstrap_malloc size g =
      let raw = bootstrap_buf + g.bootstrap_offset in
      if ltb bootstrap_size (wrap host (g.bootstrap_offset + total_needed size)) then (0, g) else (
        raw + word_bytes host,
        record g {
          bootstrap_offset = wrap host (g.bootstrap_offset + total_needed size);
          bytes = store_word (word_bytes host) raw size g.bytes;
        },
      )

  unfoldable pub mspace_malloc : ℕ → Allocator S → Option (ℕ × Allocator S)
  mspace_malloc size g =
      let (p, s) = dlmalloc.mspace_malloc g.space size in
      if g.mspace then some (p, record g { space = s }) else none

  unfoldable pub malloc : ℕ → Allocator S → Option (ℕ × Allocator S)
  unfolding init_shm bootstrap_malloc mspace_malloc
  malloc size g =
      let ready = if g.init_done then g else init_shm g in
      if size == 0
      then some (0, g)
      else if not g.mspace && not g.in_init
      then if ready.mspace then mspace_malloc size ready else some (bootstrap_malloc size ready)
      else mspace_malloc size g

  -- Whether the address lies in `g_bootstrap_buf`.
  unfoldable pub is_bootstrap : ℕ → Bool
  is_bootstrap ptr = leb bootstrap_buf ptr && ltb ptr (bootstrap_buf + bootstrap_size)

  unfoldable pub free : ℕ → Allocator S → Allocator S
  unfolding is_bootstrap
  free ptr g =
      if ptr == 0 || is_bootstrap ptr
      then g
      else if g.mspace
      then record g { space = dlmalloc.mspace_free g.space ptr }
      else g

  unfoldable pub calloc : ℕ → ℕ → Allocator S → Option (ℕ × Allocator S)
  unfolding malloc memset
  calloc nmemb size g =
      let (p, s, bytes) = dlmalloc.mspace_calloc g.space g.bytes nmemb size in
      let total = wrap host (nmemb * size) in
      if not (nmemb == 0) && ltb ((2 ^ pointer_bits host - 1) / nmemb) size
      then some (0, g)
      else if g.mspace
      then some (p, record g { space = s; bytes = bytes })
      else map_option
          (λ (ptr, g').
            if ptr == 0 then (0, g') else (ptr, record g' { bytes = memset ptr 0 total g'.bytes }))
          (malloc total g)

  unfoldable pub realloc : ℕ → ℕ → Allocator S → Option (ℕ × Allocator S)
  unfolding malloc free is_bootstrap load_word memcpy
  realloc ptr size g =
      let old_size = load_word (word_bytes host) (ptr - word_bytes host) g.bytes in
      let copied = if ltb old_size size then old_size else size in
      let (p, s, bytes) = dlmalloc.mspace_realloc g.space g.bytes ptr size in
      if ptr == 0
      then malloc size g
      else if size == 0
      then some (0, free ptr g)
      else if is_bootstrap ptr
      then map_option
          (λ (new_ptr, g').
            if new_ptr == 0
            then (0, g')
            else (new_ptr, record g' { bytes = memcpy new_ptr ptr copied g'.bytes }))
          (malloc size g)
      else some (if g.mspace then (p, record g { space = s; bytes = bytes }) else (0, g))

  -- Requests of the host.
  unfoldable pub handle_allocate : ℕ → Allocator S → Option (ℕ × Allocator S)
  unfolding malloc free
  handle_allocate size g =
      map_option
        (λ (ptr, g').
          if ptr == 0 || g'.shm_base == 0
          then (0, g')
          else if ltb ptr g'.shm_base
              || ltb (wrap host (g'.shm_base + g'.shm_size)) (wrap host (ptr + size))
          then (0, free ptr g')
          else (ptr, g'))
        (malloc size g)

  unfoldable pub handle_release : ℕ → Allocator S → Allocator S
  unfolding free
  handle_release abs_addr g = if abs_addr == 0 then g else free abs_addr g
