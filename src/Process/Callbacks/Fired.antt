-- ===== src/Process/Callbacks/Fired.antt =====
-- What becomes of a callback that the sandboxed library calls (src/rlbox_process_sandbox_shim.cpp,
-- include/rlbox_process_sandbox.hpp).
use rlbox_dynamic_sandbox.Common.{
  ℕ, ◌<◌, ◌≤◌, ◌≡◌, ◌≢◌, refl, arith, true, false, List, [], ◌∷◌, none, some, length, set, get_or,
  get_or-set_self, ◌==◌,
}
use rlbox_dynamic_sandbox.Meta.Types.{Host}
use rlbox_dynamic_sandbox.Abi.{CppType, unpack_slot}
use rlbox_dynamic_sandbox.Shim.Slots.{Slots, fired_key, handle_register_callback}
use rlbox_dynamic_sandbox.Shim.Slots.Keys.{register_takes_slot}
use rlbox_dynamic_sandbox.Process.{Callback, Sandbox}
use rlbox_dynamic_sandbox.Process.Callbacks.{
  Words, trampoline_impl, unpack_arguments, pack_result, add_callback, invoke_callback_unpacked,
  dispatch_callback,
}

-- Each parameter with the word at its position.
abbrev pub unpacked : Host → List CppType → List ℕ → List ℕ
unpacked h [] args = []
unpacked h (c ∷ params) [] = []
unpacked h (c ∷ params) (v ∷ args) = unpack_slot h c v ∷ unpacked h params args

unpack_arguments_enough :
    (h : Host) (params : List CppType) (args : List ℕ)
    → length params ≤ length args
    → unpack_arguments h params args ≡ some (unpacked h params args)
unfolding unpack_arguments
unpack_arguments_enough h [] args few = refl
unpack_arguments_enough h (c ∷ params) [] few = absurd (omega arith)
unpack_arguments_enough h (c ∷ params) (v ∷ args) few =
    rw (unpack_arguments_enough h params args (omega arith)) refl

unpack_arguments_beyond :
    (h : Host) (params : List CppType) (args : List ℕ)
    → length args < length params
    → unpack_arguments h params args ≡ none
unfolding unpack_arguments
unpack_arguments_beyond h [] args many = absurd (omega arith)
unpack_arguments_beyond h (c ∷ params) [] many = refl
unpack_arguments_beyond h (c ∷ params) (v ∷ args) many =
    rw (unpack_arguments_beyond h params args (omega arith)) refl

abbrev pub word_list : Words → List ℕ
word_list words = words.a ∷ words.b ∷ words.c ∷ words.d ∷ []

sends_key :
    (keys : List ℕ) (i key : ℕ) (slots : Slots) (words : Words)
    → slots ≡ some keys
    → get_or keys i 0 ≡ key
    → (key == 0) ≡ false
    → trampoline_impl slots true i words ≡ some (key, word_list words)
unfolding trampoline_impl fired_key
sends_key keys i key slots words at_slots held nonnull =
    rw (at_slots, trampoline_impl, fired_key, held, nonnull) refl

module _ {M : Type 0} (h : Host) (call_host : ℕ → List ℕ → ℕ × ℕ → M → ℕ × M) where
  dispatch_registered :
      (this key : ℕ) (callback : Callback) (s : Sandbox) (args : List ℕ) (thread_locals : ℕ × ℕ)
      (m : M)
      → length callback.params ≤ length args
      → let (r, m') = call_host callback.function (unpacked h callback.params args) (this, key) m in
        dispatch_callback h call_host this (add_callback key callback s) key args thread_locals m
        ≡ some (record {
          result = pack_result h callback.ret r;
          thread_locals = (0, 0);
          host_memory = m';
        })
  unfolding dispatch_callback add_callback invoke_callback_unpacked
  dispatch_registered this key callback s args thread_locals m few =
      let found : (add_callback key callback s).callback_map key ≡ some callback = ground arith in
      rw
        (
          dispatch_callback,
          found,
          invoke_callback_unpacked,
          unpack_arguments_enough h callback.params args few,
        )
        refl

  -- A callback that is registered under a key on both sides, and whose trampoline the library calls: the
  -- trampoline that the registration returned is that of one slot, which sends the key and the four
  -- words; the host's loop then calls the interceptor with each parameter's word, narrowed to its type,
  -- while the thread-local variables hold the sandbox and the key, answers with the packed result, and
  -- clears the variables. This is for a key that is not 0, a registration that is not refused, and a
  -- callback of at most four parameters.
  pub callback_fires :
      (this key a : ℕ) (callback : Callback) (s : Sandbox) (keys : List ℕ) (slots : Slots)
      (trampoline : ℕ → ℕ) (thread_locals : ℕ × ℕ) (m : M)
      → key ≢ 0
      → handle_register_callback trampoline key (some keys) ≡ (a, slots)
      → a ≢ 0
      → length callback.params ≤ 4
      → (i : ℕ) × (a ≡ trampoline i)
        × ((words : Words)
            → let (r, m') =
                call_host callback.function
                  (unpacked h callback.params (word_list words))
                  (this, key)
                  m in
              (trampoline_impl slots true i words ≡ some (key, word_list words))
              × (dispatch_callback h call_host this
                    (add_callback key callback s)
                    key
                    (word_list words)
                    thread_locals
                    m
                  ≡ some (record {
                    result = pack_result h callback.ret r;
                    thread_locals = (0, 0);
                    host_memory = m';
                  })))
  callback_fires this key a callback s keys slots trampoline thread_locals m nonnull e granted few =
      let (i, within, at_i, free, sets) =
        register_takes_slot trampoline key a keys slots e granted in
      let held : get_or (set keys i key) i 0 ≡ key = get_or-set_self keys i key 0 within in
      let some_key : (key == 0) ≡ false = ground arith in
      (
        i,
        at_i,
        (λ words. (
          sends_key (set keys i key) i key slots words sets held some_key,
          dispatch_registered this key callback s (word_list words) thread_locals m few,
        )),
      )

  -- A callback of more than four parameters: the host's loop reads words that no trampoline sends.
  pub callback_overruns :
      (this key : ℕ) (callback : Callback) (s : Sandbox) (words : Words) (thread_locals : ℕ × ℕ)
      (m : M)
      → 4 < length callback.params
      → dispatch_callback h call_host this
          (add_callback key callback s)
          key
          (word_list words)
          thread_locals
          m
        ≡ none
  unfolding dispatch_callback add_callback invoke_callback_unpacked
  callback_overruns this key callback s words thread_locals m many =
      let found : (add_callback key callback s).callback_map key ≡ some callback = ground arith in
      rw
        (
          dispatch_callback,
          found,
          invoke_callback_unpacked,
          unpack_arguments_beyond h callback.params (word_list words) many,
        )
        refl
