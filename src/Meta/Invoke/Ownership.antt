-- ===== src/Meta/Invoke/Ownership.antt =====
-- Who owns the pointers that calls return and take (include/rlbox_meta_sandbox.hpp).
use rlbox_dynamic_sandbox.Common.{
  ℕ, ◌%◌, ◌^◌, ◌<◌, ◌≡◌, ◌≢◌, ◌∙◌, refl, sym, arith, true, subst, List, All, some, String, lookup,
  inl, inr, Option-cases, Bool-cases, map, ◌==◌,
}
use rlbox_dynamic_sandbox.Meta.Types.{
  MetaBackend, pointer_bits, process, wasm, size_inc, ok, ok-injective,
}
use rlbox_dynamic_sandbox.Meta.Tag.{meta_tag_wasm, tag_owner, tag_wasm}
use rlbox_dynamic_sandbox.Meta.Tag.Laws.{tag_round_trip, tag_owner-tag_wasm}
use rlbox_dynamic_sandbox.Meta.State.{SymbolRecord, Meta, Env}
use rlbox_dynamic_sandbox.Meta.Alloc.{owner_of}
use rlbox_dynamic_sandbox.Meta.Alloc.Registry.{IsCoherent}
use rlbox_dynamic_sandbox.Meta.Invoke.{
  Arg, arg_value, returns_pointer, adopt, process_result, wasm_result, invoke_on_process,
  invoke_on_wasm, dispatch,
}
use rlbox_dynamic_sandbox.Meta.Invoke.Result.{
  PassesNoStruct, plain_arg, after_wasm, adopt_only, finish_cached, invoke_on_wasm_plain,
}

module _ {P W D Q : Type 0} (env : Env P W D Q) where
  open env use {host, process_ops, wasm_ops}

  -- In a coherent registry an adopted pointer ends up with the owner that its tag names.
  adopt_registers :
      (b : MetaBackend) (r : ℕ) (m : Meta P W D Q)
      → IsCoherent env m
      → tag_owner host r ≡ b
      → r ≢ 0
      → (adopt env b returns_pointer r m).alloc_owner r ≡ some b
  unfolding adopt
  adopt_registers b r m v tagged nonnull = elim (Option-cases (m.alloc_owner r)) [
    | inl fresh ↦ ground arith
    | inr (c, old) ↦ ground (arith, v.owner_tagged r c old)
  ]

  -- The entry of the adopted pointer survives the rest of the call.
  owner_of_recorded :
      (r : ℕ) (b : MetaBackend) (m : Meta P W D Q)
      → m.alloc_owner r ≡ some b
      → owner_of env m r ≡ (true, b)
  unfolding owner_of
  owner_of_recorded r b m e = rw (e, owner_of)

  process_owner :
      (rec : SymbolRecord D) (name : String) (args : List Arg) (ms : D) (m : Meta P W D Q)
      → IsCoherent env m
      → lookup name m.symbol_cache ≡ some rec
      → let (r, m') = invoke_on_process env rec name returns_pointer args ms m in
        r < meta_tag_wasm host
        → r ≢ 0
        → (m'.alloc_owner r ≡ some process) × (tag_owner host r ≡ process)
  unfolding invoke_on_process process_result
  process_owner rec name args ms m v cached low nonnull =
      let (r, s) =
        process_ops.invoke_with_func_ptr m.process_sbx rec.process_sym (map arg_value args) in
      let called = record m {
        process_sbx = s;
        invokes_on_process = size_inc host m.invokes_on_process;
      } in
      let v' : IsCoherent env called = record {
        owner_tagged = v.owner_tagged;
        scratch_owned = v.scratch_owned;
      } in
      let tagged = (tag_round_trip host r low).0 in
      let own = adopt_registers process r called v' tagged nonnull in
      (
        rw
            (finish_cached env name process ms (adopt env process returns_pointer r called) rec
              (rw (adopt_only env process returns_pointer r called) cached))
            own,
        tagged,
      )

  wasm_owner :
      (m : Meta P W D Q) (raw : ℕ)
      → IsCoherent env m
      → wasm_result env returns_pointer raw ≢ 0
      → ((adopt env wasm returns_pointer (wasm_result env returns_pointer raw) m).alloc_owner
            (wasm_result env returns_pointer raw)
          ≡ some wasm)
        × (tag_owner host (wasm_result env returns_pointer raw) ≡ wasm)
  unfolding wasm_result
  wasm_owner m raw v nonnull = elim (Bool-cases (raw == 0)) [
    | inl z ↦ absurd (nonnull (rw z))
    | inr z ↦
        let (tagged, above) = tag_owner-tag_wasm host raw in
        rw z (
          adopt_registers wasm (tag_wasm host (raw % 2 ^ pointer_bits host)) m v tagged above,
          tagged,
        )
  ]

  unbound_aborts :
      (rec : SymbolRecord D) (name : String) (args : List Arg) (ms : D) (m : Meta P W D Q) {r : ℕ}
      {m' : Meta P W D Q}
      → (rec.wasm_sym == 0) ≡ true
      → ¬ (dispatch env rec name returns_pointer args ms m wasm ≡ ok (r, m'))
  unfolding dispatch invoke_on_wasm
  unbound_aborts rec name args ms m unbound e = ground arith

  -- A pointer that a call returns, not null, belongs from then on to the backend that ran the call: the
  -- registry and the tag say so. This is for a coherent registry, a cached symbol, arguments that need no
  -- struct translation, and, if the process backend ran the call, a returned address that leaves the tag
  -- bit free.
  pub returned_pointer_owner :
      (rec : SymbolRecord D) (name : String) (args : List Arg) (ms : D) (m : Meta P W D Q)
      (b : MetaBackend) {r : ℕ} {m' : Meta P W D Q}
      → IsCoherent env m
      → lookup name m.symbol_cache ≡ some rec
      → All (PassesNoStruct env m) args
      → dispatch env rec name returns_pointer args ms m b ≡ ok (r, m')
      → (b ≡ process → r < meta_tag_wasm host)
      → r ≢ 0
      → (owner_of env m' r ≡ (true, b)) × (tag_owner host r ≡ b)
  unfolding dispatch
  returned_pointer_owner rec name args ms m process {r} {m'} v cached plain e low nonnull =
      let out : invoke_on_process env rec name returns_pointer args ms m ≡ (r, m') =
        ok-injective e in
      let o =
        subst
          (λ (x : ℕ × Meta P W D Q).
            x.0 < meta_tag_wasm host
            → x.0 ≢ 0
            → (x.1.alloc_owner x.0 ≡ some process) × (tag_owner host x.0 ≡ process))
          out (process_owner rec name args ms m v cached) (low refl) nonnull in
      (owner_of_recorded r process m' o.0, o.1)
  returned_pointer_owner rec name args ms m wasm {r} {m'} v cached plain e low nonnull =
      elim (Bool-cases (rec.wasm_sym == 0)) [
        | inl unbound ↦ absurd (unbound_aborts rec name args ms m unbound e)
        | inr bound ↦
            let vs = map (plain_arg env m) args in
            let raw = (wasm_ops.invoke_with_func_ptr m.wasm_sbx rec.wasm_sym vs).0 in
            let call =
              invoke_on_wasm_plain env rec name returns_pointer args ms m (ground arith) cached
                plain in
            let out : (
              wasm_result env returns_pointer raw,
              after_wasm env rec name returns_pointer args ms m,
            )
                ≡ (r, m') =
              ok-injective (sym call ∙ e) in
            let o =
              subst
                (λ (x : ℕ × Meta P W D Q).
                  x.0 ≢ 0 → (x.1.alloc_owner x.0 ≡ some wasm) × (tag_owner host x.0 ≡ wasm))
                out (wasm_owner m raw v) nonnull in
            (owner_of_recorded r wasm m' o.0, o.1)
      ]
