-- ===== src/Meta/Invoke/Tests.antt =====
-- The theorems about calls at a concrete sandbox.
use rlbox_dynamic_sandbox.Common.{
  ℕ, ◌+◌, ◌-◌, ◌^◌, ◌≡◌, refl, arith, true, some, [], ◌∷◌, lookup, Bool-cases, ==_iff, ◌==◌, subst,
  insert, inl, inr,
}
use rlbox_dynamic_sandbox.Meta.Types.{
  MetaBackend, process, wasm, x86_64, ok, aborts, size_inc, spans_both_backends,
}
use rlbox_dynamic_sandbox.Meta.Tag.{tag_owner, has_tag}
use rlbox_dynamic_sandbox.Meta.State.{Meta, SymbolRecord}
use rlbox_dynamic_sandbox.Meta.Policy.{AdaptiveState, adaptive_policy}
use rlbox_dynamic_sandbox.Meta.Testbed.{env, adaptive, meta_at, crunch, wasm_ops}
use rlbox_dynamic_sandbox.Meta.Symbols.{invoke_context}
use rlbox_dynamic_sandbox.Meta.Alloc.{owner_of}
use rlbox_dynamic_sandbox.Meta.Alloc.Registry.{IsCoherent}
use rlbox_dynamic_sandbox.Meta.Invoke.{
  pointer, scalar, ResultSizes, returns_pointer, returns_other, saw_ptr, arg_owned_by, dispatch,
  invoke, invoke_on_process, invoke_on_wasm, record_sample, struct_translator, process_result,
  wasm_result,
}
use rlbox_dynamic_sandbox.Meta.Invoke.Pinning.{record_samples, record_samples_other}
use rlbox_dynamic_sandbox.Meta.Invoke.Route.{invoke_owner_wins, invoke_spans_both}
use rlbox_dynamic_sandbox.Meta.Invoke.Result.{handed_back, process_call, wasm_call}
use rlbox_dynamic_sandbox.Meta.Invoke.Ownership.{returned_pointer_owner}
use rlbox_dynamic_sandbox.Meta.Casts.{cast}
use rlbox_dynamic_sandbox.Abi.{sign_extend}
use rlbox_dynamic_sandbox.Meta.Latency.{push}

abbrev Sandbox : Type 0
Sandbox = Meta ℕ ℕ ℕ (AdaptiveState ℕ)

-- A sandbox with an allocation on each side; the wasm one is a struct with a scratch.
abbrev both : Sandbox
both = record (meta_at process) {
  alloc_owner = insert 4096 process (insert (2 ^ 63 + 64) wasm (meta_at process).alloc_owner);
  struct_allocs =
      insert (2 ^ 63 + 64) (record { wasm_scratch = 88; translator = some 0 })
        (meta_at process).struct_allocs;
}

owner_of-both :
    (owner_of env both 4096 ≡ (true, process)) × (owner_of env both (2 ^ 63 + 64) ≡ (true, wasm))
unfolding owner_of
owner_of-both = (refl, refl)

-- `long`
abbrev long_result : ResultSizes
long_result = record { wasm_size = 4; process_size = 8; converted_size = 8; signed = true }

-- -1 of wasm's `long`, and of the host's.
minus_one_widened :
    (wasm_result env (returns_other long_result) (2 ^ 32 - 1) ≡ 2 ^ 64 - 1)
    × (process_result env (returns_other long_result) (2 ^ 64 - 1) ≡ 2 ^ 64 - 1)
unfolding wasm_result process_result cast sign_extend
minus_one_widened = (refl, refl)

-- The policy left by one decision for `crunch`.
abbrev next_policy : AdaptiveState ℕ
next_policy = (adaptive_policy adaptive both.policy (invoke_context env both crunch)).1

invoke_owner_wins_example :
    invoke env "crunch" (returns_other long_result) (scalar 3 ∷ pointer (2 ^ 63 + 64) ∷ []) 5 9 both
    ≡ dispatch env crunch "crunch"
        (returns_other long_result)
        (scalar 3 ∷ pointer (2 ^ 63 + 64) ∷ [])
        4
        (record both { policy = next_policy })
        wasm
unfolding adaptive_policy
invoke_owner_wins_example =
    invoke_owner_wins env "crunch" (returns_other long_result)
      (scalar 3 ∷ pointer (2 ^ 63 + 64) ∷ []) 5 9 both crunch wasm (2 ^ 63 + 64)
      (unfold lookup in refl) (omega arith) owner_of-both.1 (inr (inl refl))
      (unfold saw_ptr arg_owned_by owner_of in refl)

invoke_spans_both_example :
    invoke env "crunch"
      (returns_other long_result)
      (pointer 4096 ∷ pointer (2 ^ 63 + 64) ∷ [])
      5
      9
      both
    ≡ aborts spans_both_backends
invoke_spans_both_example =
    invoke_spans_both env "crunch" (returns_other long_result)
      (pointer 4096 ∷ pointer (2 ^ 63 + 64) ∷ []) 5 9 both crunch 4096 (2 ^ 63 + 64)
      (unfold lookup in refl) (omega arith) owner_of-both.0 (inl refl) (omega arith) owner_of-both.1
      (inr (inl refl))

-- A symbol that is pinned to wasm, under a policy that picks process.
abbrev pinned_crunch : SymbolRecord ℕ
pinned_crunch = record crunch { pinned = 2 }

abbrev pinned_meta : Sandbox
pinned_meta = record (meta_at process) { symbol_cache = ("crunch", pinned_crunch) ∷ [] }

process_call_example :
    let (r, m') =
      invoke_on_process env crunch "crunch" (returns_other long_result) (scalar 3 ∷ []) 4 both in
    let rec' = record_sample x86_64 3 process 4 crunch in
    (r ≡ handed_back env process (returns_other long_result) (2 ^ 20))
    × (m'.process_sbx ≡ 2 ^ 20 + 1)
    × (m'.wasm_sbx ≡ 64)
    × (m'.invokes_on_process ≡ size_inc x86_64 0)
    × (m'.invokes_on_wasm ≡ 0)
    × (lookup "crunch" m'.symbol_cache ≡ some rec')
    × (rec'.process_latency ≡ push x86_64 4 crunch.process_latency)
    × (rec'.wasm_latency ≡ crunch.wasm_latency)
    × (lookup "wrapper" m'.symbol_cache ≡ lookup "wrapper" both.symbol_cache)
process_call_example =
    process_call env crunch "crunch" "wrapper" (returns_other long_result) (scalar 3 ∷ []) 4 both
      (unfold lookup in refl) refl

-- A tagged pointer goes to wasm without its tag, and the pointer 64 comes back with it.
wasm_call_example :
    let rec' = record_sample x86_64 3 wasm 4 crunch in
    let (raw, w) = wasm_ops.invoke_with_func_ptr 64 200 (32 ∷ []) in
    (m' : Sandbox) × (invoke_on_wasm env crunch "crunch" returns_pointer
        (pointer (2 ^ 63 + 32) ∷ [])
        4
        both
      ≡ ok (2 ^ 63 + 64, m'))
    × (m'.wasm_sbx ≡ w)
    × (m'.process_sbx ≡ 2 ^ 20)
    × (m'.invokes_on_wasm ≡ size_inc x86_64 0)
    × (m'.invokes_on_process ≡ 0)
    × (lookup "crunch" m'.symbol_cache ≡ some rec')
    × (rec'.wasm_latency ≡ push x86_64 4 crunch.wasm_latency)
    × (rec'.process_latency ≡ crunch.process_latency)
    × (lookup "wrapper" m'.symbol_cache ≡ lookup "wrapper" both.symbol_cache)
wasm_call_example =
    wasm_call env crunch "crunch" "wrapper" returns_pointer (pointer (2 ^ 63 + 32) ∷ []) 4 both
      (omega arith) (unfold lookup in refl) refl ((unfold struct_translator in refl), tt)
      (omega arith, tt)

-- With threshold 1 the first call on wasm does not pin.
record_samples_other_example :
    let rec' = record_samples x86_64 1 wasm (4 ∷ []) crunch in
    (rec'.consecutive_same_picks ≡ 1) × (rec'.pinned ≡ 0)
record_samples_other_example =
    record_samples_other x86_64 1 wasm (4 ∷ []) crunch (omega arith) (λ e. cc) (omega arith)
      (omega arith)

tagged-both : (p : ℕ) (b : MetaBackend) → both.alloc_owner p ≡ some b → tag_owner x86_64 p ≡ b
tagged-both p b h = elim (Bool-cases (4096 == p)) [
  | inl low ↦
      subst (λ q. tag_owner x86_64 q ≡ b) ((==_iff 4096 p).0 low)
        (unfold tag_owner has_tag in ground arith)
  | inr other ↦ elim (Bool-cases ((2 ^ 63 + 64) == p)) [
    | inl high ↦
        subst (λ q. tag_owner x86_64 q ≡ b) ((==_iff (2 ^ 63 + 64) p).0 high)
          (unfold tag_owner has_tag in ground arith)
    | inr neither ↦ absurd (ground arith)
  ]
]

both-IsCoherent : IsCoherent env both
both-IsCoherent = record { owner_tagged = tagged-both; scratch_owned = λ p h. ground arith }

returned_pointer_owner_example :
    let m' = (invoke_on_process env crunch "crunch" returns_pointer (scalar 3 ∷ []) 4 both).1 in
    (owner_of env m' (2 ^ 20) ≡ (true, process)) × (tag_owner x86_64 (2 ^ 20) ≡ process)
returned_pointer_owner_example =
    returned_pointer_owner env crunch "crunch" (scalar 3 ∷ []) 4 both process {r = 2 ^ 20}
      {m' = (invoke_on_process env crunch "crunch" returns_pointer (scalar 3 ∷ []) 4 both).1}
      both-IsCoherent (unfold lookup in refl) (tt, tt)
      (unfold dispatch invoke_on_process process_result in refl) (λ same. omega arith) (omega arith)
