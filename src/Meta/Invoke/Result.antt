-- ===== src/Meta/Invoke/Result.antt =====
-- What a call through include/rlbox_meta_sandbox.hpp leaves behind: the arguments as the backend sees
-- them, the owner of a returned pointer, and the sample.
use rlbox_dynamic_sandbox.Common.{
  ℕ, ◌+◌, ◌%◌, ◌≡◌, ◌≢◌, ◌∙◌, ap, if◌then◌else◌, refl, arith, false, List, [], ◌∷◌, map, All, none,
  some, String, lookup, adjust, lookup-adjust_self, lookup-adjust_ne, str_eq, ◌==◌, Bool-cases, inl,
  inr,
}
use rlbox_dynamic_sandbox.Meta.Types.{MetaBackend, process, wasm, ok, size_inc}
use rlbox_dynamic_sandbox.Meta.Casts.{cast}
use rlbox_dynamic_sandbox.Meta.Tag.{meta_tag_wasm}
use rlbox_dynamic_sandbox.Meta.Tag.Laws.{IsWord, tag_strip_mod, tag_wasm_mod}
use rlbox_dynamic_sandbox.Meta.Latency.{LatencyRing, push}
use rlbox_dynamic_sandbox.Meta.Callbacks.{find_callback}
use rlbox_dynamic_sandbox.Meta.State.{SymbolRecord, Meta, Env}
use rlbox_dynamic_sandbox.Meta.Invoke.{
  Arg, pointer, scalar, arg_value, ReturnType, returns_pointer, returns_other, record_sample,
  push_sample, update_pin, same_backend, process_result, translate_plain, struct_translator,
  translate_args, run_cleanups, adopt, wasm_result, finish, invoke_on_process, invoke_on_wasm,
}

abbrev pub other_backend : MetaBackend → MetaBackend
other_backend process = wasm
other_backend wasm = process

module _ {P W D Q : Type 0} (env : Env P W D Q) where
  open env use {host, process_ops, wasm_ops}

  -- No live struct allocation with a translator is among the arguments.
  abbrev pub PassesNoStruct : Meta P W D Q → Arg → Type 0
  PassesNoStruct m (scalar v) = Unit {0}
  PassesNoStruct m (pointer p) = struct_translator env m p ≡ none

  -- How wasm sees an argument that no translator takes.
  abbrev pub plain_arg : Meta P W D Q → Arg → ℕ
  plain_arg m (scalar v) = v
  plain_arg m (pointer p) = translate_plain env m p

  translate_args_plain :
      (sym : String) (args : List Arg) (m : Meta P W D Q)
      → All (PassesNoStruct m) args
      → translate_args env sym args m ≡ ok (map (plain_arg m) args, [], m)
  unfolding translate_args
  translate_args_plain sym [] m h = refl
  translate_args_plain sym (scalar v ∷ args) m h = rw (translate_args_plain sym args m h.1)
  translate_args_plain sym (pointer p ∷ args) m h =
      rw (h.0, translate_args, translate_args_plain sym args m h.1)

  -- The sample lands in the called symbol's record, and no other record changes.
  finish-lookup :
      (sym other : String) (b : MetaBackend) (ms : D) (m : Meta P W D Q) (rec : SymbolRecord D)
      → lookup sym m.symbol_cache ≡ some rec
      → str_eq sym other ≡ false
      → let m' = finish env sym b ms m in
        (lookup sym m'.symbol_cache ≡ some (record_sample host m.pin_threshold b ms rec))
        × (lookup other m'.symbol_cache ≡ lookup other m.symbol_cache)
  unfolding finish
  finish-lookup sym other b ms m rec cached differs =
      let new = record_sample host m.pin_threshold b ms rec in
      rw (cached, finish)
        (
          lookup-adjust_self sym new rec m.symbol_cache cached,
          lookup-adjust_ne sym other new m.symbol_cache differs,
        )

  pub finish_cached :
      (sym : String) (b : MetaBackend) (ms : D) (m : Meta P W D Q) (rec : SymbolRecord D)
      → lookup sym m.symbol_cache ≡ some rec
      → finish env sym b ms m ≡ record m {
        symbol_cache = adjust sym (record_sample host m.pin_threshold b ms rec) m.symbol_cache;
      }
  unfolding finish
  finish_cached sym b ms m rec cached = rw (cached, finish)

  pub adopt_only :
      (b : MetaBackend) (ret : ReturnType) (r : ℕ) (m : Meta P W D Q)
      → adopt env b ret r m ≡ record m { alloc_owner = (adopt env b ret r m).alloc_owner }
  unfolding adopt
  adopt_only b (returns_other t) r m = refl
  adopt_only b returns_pointer r m = elim (Bool-cases (r == 0)) [ inl e ↦ rw e | inr e ↦ rw e ]

  -- What the host gets, in terms of numbers: a pointer of wasm's is its part below the tag bit with the
  -- bit added, and null stays null.
  abbrev pub handed_back : MetaBackend → ReturnType → ℕ → ℕ
  handed_back b (returns_other t) raw =
      cast t.signed (if same_backend b wasm then t.wasm_size else t.process_size) t.converted_size
        raw
  handed_back process returns_pointer raw = raw
  handed_back wasm returns_pointer raw =
      if raw == 0 then 0 else raw % meta_tag_wasm host + meta_tag_wasm host

  -- `wasm_result` and `process_result`
  abbrev pub backend_result : MetaBackend → ReturnType → ℕ → ℕ
  backend_result process = process_result env
  backend_result wasm = wasm_result env

  pub result_handed_back :
      (b : MetaBackend) (ret : ReturnType) (raw : ℕ)
      → backend_result b ret raw ≡ handed_back b ret raw
  unfolding wasm_result process_result
  result_handed_back process (returns_other t) raw = refl
  result_handed_back process returns_pointer raw = refl
  result_handed_back wasm (returns_other t) raw = refl
  result_handed_back wasm returns_pointer raw = rw (tag_wasm_mod host raw)

  -- The two rings of a record.
  abbrev ring_of : MetaBackend → SymbolRecord D → LatencyRing D
  ring_of process rec = rec.process_latency
  ring_of wasm rec = rec.wasm_latency

  record_sample_rings :
      (b : MetaBackend) (ms : D) (threshold : ℕ) (rec : SymbolRecord D)
      → let rec' = record_sample host threshold b ms rec in
        (ring_of b rec' ≡ push host ms (ring_of b rec))
        × (ring_of (other_backend b) rec' ≡ ring_of (other_backend b) rec)
  unfolding record_sample push_sample update_pin
  record_sample_rings process ms threshold rec = ground arith
  record_sample_rings wasm ms threshold rec = ground arith

  -- A call on the process backend passes the arguments as they are, hands a returned pointer back as it
  -- is and any other result cast to the converted type, leaves the wasm backend alone and counts once on
  -- its own side. In the called symbol's record the time goes into the process ring, the wasm ring stays,
  -- and the pin state is updated; no other record changes.
  pub process_call :
      (rec : SymbolRecord D) (sym other : String) (ret : ReturnType) (args : List Arg) (ms : D)
      (m : Meta P W D Q)
      → lookup sym m.symbol_cache ≡ some rec
      → str_eq sym other ≡ false
      → let (raw, s) =
          process_ops.invoke_with_func_ptr m.process_sbx rec.process_sym (map arg_value args) in
        let (r, m') = invoke_on_process env rec sym ret args ms m in
        let rec' = record_sample host m.pin_threshold process ms rec in
        (r ≡ handed_back process ret raw)
        × (m'.process_sbx ≡ s)
        × (m'.wasm_sbx ≡ m.wasm_sbx)
        × (m'.invokes_on_process ≡ size_inc host m.invokes_on_process)
        × (m'.invokes_on_wasm ≡ m.invokes_on_wasm)
        × (lookup sym m'.symbol_cache ≡ some rec')
        × (rec'.process_latency ≡ push host ms rec.process_latency)
        × (rec'.wasm_latency ≡ rec.wasm_latency)
        × (lookup other m'.symbol_cache ≡ lookup other m.symbol_cache)
  unfolding invoke_on_process
  process_call rec sym other ret args ms m cached differs =
      let (raw, s) =
        process_ops.invoke_with_func_ptr m.process_sbx rec.process_sym (map arg_value args) in
      let called = record m {
        process_sbx = s;
        invokes_on_process = size_inc host m.invokes_on_process;
      } in
      let new = record_sample host m.pin_threshold process ms rec in
      let (timed, kept) = record_sample_rings process ms m.pin_threshold rec in
      rw (adopt_only process ret raw called) (
        rw
          (finish_cached sym process ms
            (record called { alloc_owner = (adopt env process ret raw called).alloc_owner }) rec
            cached)
          (
            result_handed_back process ret raw,
            refl,
            refl,
            refl,
            refl,
            lookup-adjust_self sym new rec m.symbol_cache cached,
            timed,
            kept,
            lookup-adjust_ne sym other new m.symbol_cache differs,
          ))

  -- The state after a call on wasm with no struct among the arguments.
  abbrev pub after_wasm :
      SymbolRecord D → String → ReturnType → List Arg → D → Meta P W D Q → Meta P W D Q
  after_wasm rec sym ret args ms m =
      let (raw, w) =
        wasm_ops.invoke_with_func_ptr m.wasm_sbx rec.wasm_sym (map (plain_arg m) args) in
      record m {
        wasm_sbx = w;
        invokes_on_wasm = size_inc host m.invokes_on_wasm;
        alloc_owner = (adopt env wasm ret (wasm_result env ret raw) m).alloc_owner;
        symbol_cache = adjust sym (record_sample host m.pin_threshold wasm ms rec) m.symbol_cache;
      }

  adopt_owner :
      (b : MetaBackend) (ret : ReturnType) (r : ℕ) (m m' : Meta P W D Q)
      → m'.alloc_owner ≡ m.alloc_owner
      → (adopt env b ret r m').alloc_owner ≡ (adopt env b ret r m).alloc_owner
  unfolding adopt
  adopt_owner b (returns_other t) r m m' e = e
  adopt_owner b returns_pointer r m m' e = elim (Bool-cases (r == 0)) [
    | inl z ↦ rw z e
    | inr z ↦ rw z (rw e)
  ]

  pub invoke_on_wasm_plain :
      (rec : SymbolRecord D) (sym : String) (ret : ReturnType) (args : List Arg) (ms : D)
      (m : Meta P W D Q)
      → rec.wasm_sym ≢ 0
      → lookup sym m.symbol_cache ≡ some rec
      → All (PassesNoStruct m) args
      → invoke_on_wasm env rec sym ret args ms m
        ≡ ok (
          wasm_result env ret
              (wasm_ops.invoke_with_func_ptr m.wasm_sbx rec.wasm_sym (map (plain_arg m) args)).0,
          after_wasm rec sym ret args ms m,
        )
  unfolding invoke_on_wasm run_cleanups struct_translator translate_plain
  invoke_on_wasm_plain rec sym ret args ms m bound cached plain =
      let counted = record m { invokes_on_wasm = size_inc host m.invokes_on_wasm } in
      let (raw, w) =
        wasm_ops.invoke_with_func_ptr m.wasm_sbx rec.wasm_sym (map (plain_arg m) args) in
      let called = record counted { wasm_sbx = w } in
      let r = wasm_result env ret raw in
      let is_bound : (rec.wasm_sym == 0) ≡ false = ground arith in
      rw (is_bound, translate_args_plain sym args counted plain)
        (rw (adopt_only wasm ret r called) (
          rw
            (finish_cached sym wasm ms
              (record called { alloc_owner = (adopt env wasm ret r called).alloc_owner }) rec
              cached)
            (rw (adopt_owner wasm ret r m called refl))))

  -- How wasm sees an argument, in terms of numbers: a callback's handle as the callback's slot, any other
  -- pointer as its part below the tag bit.
  abbrev pub seen_by_wasm : Meta P W D Q → Arg → ℕ
  seen_by_wasm m (scalar v) = v
  seen_by_wasm m (pointer p) = elim (if p == 0 then none else find_callback p m.callback_registry) [
    | some rec ↦ rec.wasm_slot
    | none ↦ p % meta_tag_wasm host
  ]

  abbrev pub IsWordArg : Arg → Type 0
  IsWordArg (scalar v) = Unit {0}
  IsWordArg (pointer p) = IsWord host p

  plain_arg_seen : (m : Meta P W D Q) (a : Arg) → IsWordArg a → plain_arg m a ≡ seen_by_wasm m a
  unfolding translate_plain
  plain_arg_seen m (scalar v) w = refl
  plain_arg_seen m (pointer p) w = ground (arith, tag_strip_mod host p w)

  plain_args_seen :
      (m : Meta P W D Q) (args : List Arg)
      → All IsWordArg args
      → map (plain_arg m) args ≡ map (seen_by_wasm m) args
  plain_args_seen m [] w = refl
  plain_args_seen m (a ∷ args) w = rw (plain_arg_seen m a w.0, plain_args_seen m args w.1)

  -- A call on the wasm backend whose arguments need no struct translation, of a bound symbol, succeeds,
  -- for pointers that are words of the host. A callback's handle goes to wasm as the callback's slot, any
  -- other pointer as its part below the tag bit. A returned pointer that is not null comes back with the
  -- tag bit set, null as null, and any other result cast to the converted type. The call leaves the
  -- process backend alone and counts once on its own side. In the called symbol's record the time goes
  -- into the wasm ring, the process ring stays, and the pin state is updated; no other record changes.
  pub wasm_call :
      (rec : SymbolRecord D) (sym other : String) (ret : ReturnType) (args : List Arg) (ms : D)
      (m : Meta P W D Q)
      → rec.wasm_sym ≢ 0
      → lookup sym m.symbol_cache ≡ some rec
      → str_eq sym other ≡ false
      → All (PassesNoStruct m) args
      → All IsWordArg args
      → let (raw, w) =
          wasm_ops.invoke_with_func_ptr m.wasm_sbx rec.wasm_sym (map (seen_by_wasm m) args) in
        let rec' = record_sample host m.pin_threshold wasm ms rec in
        (m' : Meta P W D Q) × (invoke_on_wasm env rec sym ret args ms m
          ≡ ok (handed_back wasm ret raw, m'))
        × (m'.wasm_sbx ≡ w)
        × (m'.process_sbx ≡ m.process_sbx)
        × (m'.invokes_on_wasm ≡ size_inc host m.invokes_on_wasm)
        × (m'.invokes_on_process ≡ m.invokes_on_process)
        × (lookup sym m'.symbol_cache ≡ some rec')
        × (rec'.wasm_latency ≡ push host ms rec.wasm_latency)
        × (rec'.process_latency ≡ rec.process_latency)
        × (lookup other m'.symbol_cache ≡ lookup other m.symbol_cache)
  wasm_call rec sym other ret args ms m bound cached differs plain words =
      let new = record_sample host m.pin_threshold wasm ms rec in
      let called = wasm_ops.invoke_with_func_ptr m.wasm_sbx rec.wasm_sym in
      let seen = plain_args_seen m args words in
      let m' = after_wasm rec sym ret args ms m in
      let (timed, kept) = record_sample_rings wasm ms m.pin_threshold rec in
      (
        m',
        invoke_on_wasm_plain rec sym ret args ms m bound cached plain
            ∙ ap (λ r. ok (r, m'))
                (result_handed_back wasm ret (called (map (plain_arg m) args)).0
                  ∙ ap (λ vs. handed_back wasm ret (called vs).0) seen),
        ap (λ vs. (called vs).1) seen,
        refl,
        refl,
        refl,
        lookup-adjust_self sym new rec m.symbol_cache cached,
        timed,
        kept,
        lookup-adjust_ne sym other new m.symbol_cache differs,
      )
