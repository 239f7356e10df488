-- ===== src/Meta/Invoke.antt =====
-- One call through the meta-sandbox (`impl_invoke_with_func_ptr` of include/rlbox_meta_sandbox.hpp): the
-- policy's choice, its override by the owners of the pointer arguments, the translation of the
-- arguments for wasm, the call itself, and the sample that is recorded when the call is over.
--
-- The clock readings are arguments. Arguments are translated from left to right. A backend's call
-- changes that backend only: callbacks that come back into this sandbox during the call are not
-- part of the model.
pub mod Pinning
pub mod Route
pub mod Result
pub mod Ownership
pub mod Structs
mod Tests
use rlbox_dynamic_sandbox.Common.{
  ℕ, ◌+◌, ◌%◌, ◌^◌, Bool, true, false, not, ◌&&◌, ◌||◌, List, [], ◌∷◌, ◌++◌, Option, none, some,
  String, lookup, adjust, map, leb, ◌==◌, if◌then◌else◌, emplace,
}
use rlbox_dynamic_sandbox.Meta.Types.{
  MetaBackend, process, wasm, Host, pointer_bits, size_inc, Float, Outcome, ok, aborts, ◌>>=◌,
  Abort, spans_both_backends, no_wasm_binding, unknown_handle,
}
use rlbox_dynamic_sandbox.Meta.Tag.{tag_strip, tag_wasm}
use rlbox_dynamic_sandbox.Meta.Casts.{cast}
use rlbox_dynamic_sandbox.Meta.Latency.{push}
use rlbox_dynamic_sandbox.Meta.State.{Backend, SymbolRecord, StructTranslation, Meta, Env}
use rlbox_dynamic_sandbox.Meta.Symbols.{invoke_context}
use rlbox_dynamic_sandbox.Meta.Alloc.{owner_of}
use rlbox_dynamic_sandbox.Meta.Callbacks.{find_callback}

-- An argument after rlbox's conversion: one whose type is `T_PointerType`, or any other.
pub data Arg : Type 0 where
  pointer scalar : ℕ → Arg

abbrev pub arg_value : Arg → ℕ
arg_value (pointer v) = v
arg_value (scalar v) = v

-- A return type that is no pointer: its size in bytes in wasm, in the sandboxed process and as rlbox
-- converts it for the host (`T_Ret_conv`), and whether it is signed. The sizes of `void` are 0.
pub record ResultSizes : Type 0 where
  pub wasm_size : ℕ
  pub process_size : ℕ
  pub converted_size : ℕ
  pub signed : Bool

-- Whether the function's return type is a pointer.
pub data ReturnType : Type 0 where
  returns_pointer : ReturnType
  returns_other : ResultSizes → ReturnType

abbrev pub same_backend : MetaBackend → MetaBackend → Bool
same_backend process process = true
same_backend wasm wasm = true
same_backend _ _ = false

-- The value of `pinned` that stands for a backend.
abbrev pub pin_code : MetaBackend → ℕ
pin_code process = 1
pin_code wasm = 2

module _ {D : Type 0} where
  -- The sample goes to the ring of the backend that ran.
  unfoldable pub push_sample : Host → MetaBackend → D → SymbolRecord D → SymbolRecord D
  push_sample h process ms rec = record rec { process_latency = push h ms rec.process_latency }
  push_sample h wasm ms rec = record rec { wasm_latency = push h ms rec.wasm_latency }

  -- The pin state; `consecutive_same_picks` is a `uint32_t`.
  unfoldable pub update_pin : ℕ → MetaBackend → SymbolRecord D → SymbolRecord D
  update_pin threshold which rec =
      let n = (rec.consecutive_same_picks + 1) % 2 ^ 32 in
      if threshold == 0
      then rec
      else if same_backend rec.last_pick which
      then record rec {
        consecutive_same_picks = n;
        pinned = if leb threshold n then pin_code which else rec.pinned;
      }
      else record rec { consecutive_same_picks = 1; last_pick = which }

  -- `~sample_pusher`
  unfoldable pub record_sample : Host → ℕ → MetaBackend → D → SymbolRecord D → SymbolRecord D
  record_sample h threshold which ms rec = update_pin threshold which (push_sample h which ms rec)

module _ {P W D Q : Type 0} (env : Env P W D Q) where
  open env use {host, float, process_ops, wasm_ops}

  -- Does the argument belong to the backend, by the registry? (`inspect`)
  unfoldable pub arg_owned_by : Meta P W D Q → MetaBackend → Arg → Bool
  arg_owned_by m b (scalar v) = false
  arg_owned_by m b (pointer p) =
      let (found, owner) = owner_of env m p in not (p == 0) && (found && same_backend owner b)

  -- `saw_process_ptr`, `saw_wasm_ptr`
  unfoldable pub saw_ptr : Meta P W D Q → MetaBackend → List Arg → Bool
  saw_ptr m b [] = false
  saw_ptr m b (a ∷ args) = arg_owned_by m b a || saw_ptr m b args

  -- The owner of the pointer arguments wins over the policy; owners on both sides have no route.
  unfoldable pub override : Meta P W D Q → List Arg → MetaBackend → Outcome MetaBackend
  override m args choice =
      let saw_process = saw_ptr m process args in
      let saw_wasm = saw_ptr m wasm args in
      if saw_process && saw_wasm
      then aborts spans_both_backends
      else ok (if saw_process then process else if saw_wasm then wasm else choice)

  -- `translate` of a pointer that no translator takes: a callback handle becomes the wasm slot, and
  -- any other pointer loses its tag.
  unfoldable pub translate_plain : Meta P W D Q → ℕ → ℕ
  translate_plain m val =
      if val == 0 then tag_strip host val else elim (find_callback val m.callback_registry) [
        | some rec ↦ rec.wasm_slot
        | none ↦ tag_strip host val
      ]

  -- The translator of a live struct allocation, if it has one.
  unfoldable pub struct_translator : Meta P W D Q → ℕ → Option ℕ
  struct_translator m val =
      if val == 0
      then none
      else elim (m.struct_allocs val) [ none ↦ none | some info ↦ info.translator ]

  -- The arguments for wasm, the clean-ups in order, and the state that the translators left.
  unfoldable pub translate_args :
      String
      → List Arg
      → Meta P W D Q
      → Outcome (List ℕ × List (Meta P W D Q → Meta P W D Q) × Meta P W D Q)
  translate_args sym [] m = ok ([], [], m)
  translate_args sym (scalar v ∷ args) m = do
    (vs, cleanups, m') ← translate_args sym args m
    ok (v ∷ vs, cleanups, m')
  translate_args sym (pointer val ∷ args) m =
      let plain = do
        (vs, cleanups, m') ← translate_args sym args m
        ok (translate_plain m val ∷ vs, cleanups, m')
      in let translated = λ (t : ℕ). do
        (x, m1) ← env.translate_struct t m sym val
        (vs, cleanups, m2) ← translate_args sym args m1
        ok (x.wasm_scratch ∷ vs, elim x.cleanup [ none ↦ cleanups | some c ↦ c ∷ cleanups ], m2)
        in elim (struct_translator m val) [ none ↦ plain | some t ↦ translated t ]

  unfoldable pub run_cleanups : List (Meta P W D Q → Meta P W D Q) → Meta P W D Q → Meta P W D Q
  run_cleanups [] m = m
  run_cleanups (c ∷ cs) m = run_cleanups cs (c m)

  -- `alloc_owner.emplace` of a pointer result that is not null
  unfoldable pub adopt : MetaBackend → ReturnType → ℕ → Meta P W D Q → Meta P W D Q
  adopt b (returns_other t) r m = m
  adopt b returns_pointer r m =
      if r == 0 then m else record m { alloc_owner = emplace r b m.alloc_owner }

  -- The value handed back: wasm pointers are tagged, other results are cast to the converted type.
  unfoldable pub wasm_result : ReturnType → ℕ → ℕ
  unfolding cast
  wasm_result (returns_other t) r = cast t.signed t.wasm_size t.converted_size r
  wasm_result returns_pointer r = if r == 0 then 0 else tag_wasm host (r % 2 ^ pointer_bits host)

  unfoldable pub process_result : ReturnType → ℕ → ℕ
  unfolding cast
  process_result (returns_other t) r = cast t.signed t.process_size t.converted_size r
  process_result returns_pointer r = r

  -- The sample of the call, on the record as it is then.
  unfoldable pub finish : String → MetaBackend → D → Meta P W D Q → Meta P W D Q
  finish sym which ms m = elim (lookup sym m.symbol_cache) [
    | none ↦ m
    | some rec ↦ record m {
      symbol_cache = adjust sym (record_sample host m.pin_threshold which ms rec) m.symbol_cache;
    }
  ]

  unfoldable pub invoke_on_process :
      SymbolRecord D → String → ReturnType → List Arg → D → Meta P W D Q → ℕ × Meta P W D Q
  invoke_on_process rec sym ret args ms m =
      let (r, s) =
        process_ops.invoke_with_func_ptr m.process_sbx rec.process_sym (map arg_value args) in
      (
        process_result ret r,
        finish sym process ms (
            adopt process ret r (record m {
              process_sbx = s;
              invokes_on_process = size_inc host m.invokes_on_process;
            })),
      )

  -- After the call the result is adopted, then the clean-ups run, then the sample is recorded.
  unfoldable pub invoke_on_wasm :
      SymbolRecord D
      → String
      → ReturnType
      → List Arg
      → D
      → Meta P W D Q
      → Outcome (ℕ × Meta P W D Q)
  invoke_on_wasm rec sym ret args ms m =
      let counted = record m { invokes_on_wasm = size_inc host m.invokes_on_wasm } in
      let call = do
        (vs, cleanups, m1) ← translate_args sym args counted
        let (raw, w) = wasm_ops.invoke_with_func_ptr m1.wasm_sbx rec.wasm_sym vs
        let r = wasm_result ret raw
        let m2 = adopt wasm ret r (record m1 { wasm_sbx = w })
        ok (r, finish sym wasm ms (run_cleanups cleanups m2))
      in if rec.wasm_sym == 0 then aborts no_wasm_binding else call

  unfoldable pub dispatch :
      SymbolRecord D
      → String
      → ReturnType
      → List Arg
      → D
      → Meta P W D Q
      → MetaBackend
      → Outcome (ℕ × Meta P W D Q)
  dispatch rec sym ret args ms m process = ok (invoke_on_process rec sym ret args ms m)
  dispatch rec sym ret args ms m wasm = invoke_on_wasm rec sym ret args ms m

  -- The call of the symbol with that handle, started at `t0` and over at `t1`.
  unfoldable pub invoke :
      String → ReturnType → List Arg → D → D → Meta P W D Q → Outcome (ℕ × Meta P W D Q)
  invoke sym ret args t0 t1 m = elim (lookup sym m.symbol_cache) [
    | none ↦ aborts unknown_handle
    | some rec ↦
        let (choice, q) = env.decide m.policy (invoke_context env m rec) in
        let m' = record m { policy = q } in
        override m' args choice >>= λ b. dispatch rec sym ret args (float.sub t1 t0) m' b
  ]
