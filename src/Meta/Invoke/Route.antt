-- ===== src/Meta/Invoke/Route.antt =====
-- Which backend runs a call through include/rlbox_meta_sandbox.hpp.
use rlbox_dynamic_sandbox.Common.{
  ℕ, ◌≡◌, ◌≢◌, ◌⊎◌, refl, arith, true, false, List, [], ◌∷◌, some, none, Bool-cases, String, lookup,
  inl, inr, ◌∙◌,
}
use rlbox_dynamic_sandbox.Meta.Types.{
  MetaBackend, process, wasm, PolicyContext, ok, aborts, spans_both_backends,
}
use rlbox_dynamic_sandbox.Meta.State.{SymbolRecord, Meta, Env}
use rlbox_dynamic_sandbox.Meta.Symbols.{invoke_context}
use rlbox_dynamic_sandbox.Meta.Alloc.{owner_of}
use rlbox_dynamic_sandbox.Meta.Policy.{Adaptive, AdaptiveState, adaptive_policy}
use rlbox_dynamic_sandbox.Meta.Policy.Routing.{adaptive_policy_unbound}
use rlbox_dynamic_sandbox.Meta.Invoke.Result.{other_backend}
use rlbox_dynamic_sandbox.Meta.Invoke.{
  Arg, pointer, scalar, ReturnType, arg_owned_by, saw_ptr, override, dispatch, invoke,
  invoke_on_process,
}

-- The pointer is among the arguments.
abbrev pub Passes : ℕ → List Arg → Type 0
Passes p [] = ⊥
Passes p (a ∷ args) = (a ≡ pointer p) ⊎ Passes p args

module _ {P W D Q : Type 0} (env : Env P W D Q) where
  open env use {float}

  -- The policy's state has no say in who owns a pointer.
  saw_ptr-policy :
      (m : Meta P W D Q) (q : Q) (b : MetaBackend) (args : List Arg)
      → saw_ptr env (record m { policy = q }) b args ≡ saw_ptr env m b args
  unfolding saw_ptr arg_owned_by owner_of
  saw_ptr-policy m q b [] = refl
  saw_ptr-policy m q b (scalar v ∷ args) = saw_ptr-policy m q b args
  saw_ptr-policy m q b (pointer p ∷ args) = rw (saw_ptr-policy m q b args)

  saw_ptr-Passes :
      (m : Meta P W D Q) (b : MetaBackend) (p : ℕ) (args : List Arg)
      → p ≢ 0
      → owner_of env m p ≡ (true, b)
      → Passes p args
      → saw_ptr env m b args ≡ true
  unfolding saw_ptr arg_owned_by
  saw_ptr-Passes m b p [] nonnull owned h = absurd h
  saw_ptr-Passes m process p (a ∷ args) nonnull owned (inl e) = rw e (ground arith)
  saw_ptr-Passes m wasm p (a ∷ args) nonnull owned (inl e) = rw e (ground arith)
  saw_ptr-Passes m b p (a ∷ args) nonnull owned (inr h) =
      ground (arith, saw_ptr-Passes m b p args nonnull owned h)

  override_one :
      (m : Meta P W D Q) (args : List Arg) (choice b : MetaBackend)
      → saw_ptr env m b args ≡ true
      → saw_ptr env m (other_backend b) args ≡ false
      → override env m args choice ≡ ok b
  unfolding override
  override_one m args choice process mine theirs = rw (mine, theirs)
  override_one m args choice wasm mine theirs = rw (mine, theirs)

  -- The owner of a pointer argument decides where the call runs, whatever the policy and the pin say,
  -- if no argument belongs to the other backend.
  pub invoke_owner_wins :
      (sym : String) (ret : ReturnType) (args : List Arg) (t0 t1 : D) (m : Meta P W D Q)
      (rec : SymbolRecord D) (b : MetaBackend) (p : ℕ)
      → lookup sym m.symbol_cache ≡ some rec
      → p ≢ 0
      → owner_of env m p ≡ (true, b)
      → Passes p args
      → saw_ptr env m (other_backend b) args ≡ false
      → invoke env sym ret args t0 t1 m
        ≡ dispatch env rec sym ret args
            (float.sub t1 t0)
            (record m { policy = (env.decide m.policy (invoke_context env m rec)).1 })
            b
  unfolding invoke
  invoke_owner_wins sym ret args t0 t1 m rec b p cached nonnull owned passes clean =
      let (choice, q) = env.decide m.policy (invoke_context env m rec) in
      let mine = saw_ptr-policy m q b args ∙ saw_ptr-Passes m b p args nonnull owned passes in
      let theirs = saw_ptr-policy m q (other_backend b) args ∙ clean in
      rw (cached, invoke, override_one (record m { policy = q }) args choice b mine theirs)

  -- A call with pointers of both backends has no route: it aborts, whatever the policy says.
  pub invoke_spans_both :
      (sym : String) (ret : ReturnType) (args : List Arg) (t0 t1 : D) (m : Meta P W D Q)
      (rec : SymbolRecord D) (p q : ℕ)
      → lookup sym m.symbol_cache ≡ some rec
      → p ≢ 0
      → owner_of env m p ≡ (true, process)
      → Passes p args
      → q ≢ 0
      → owner_of env m q ≡ (true, wasm)
      → Passes q args
      → invoke env sym ret args t0 t1 m ≡ aborts spans_both_backends
  unfolding invoke override
  invoke_spans_both sym ret args t0 t1 m rec p q cached np op pp nq oq pq =
      let s = (env.decide m.policy (invoke_context env m rec)).1 in
      let one = saw_ptr-policy m s process args ∙ saw_ptr-Passes m process p args np op pp in
      let two = saw_ptr-policy m s wasm args ∙ saw_ptr-Passes m wasm q args nq oq pq in
      rw (cached, invoke, one, two)

  -- Without a pointer argument that either backend owns, the call runs where the policy says, whatever
  -- the symbol's pin says.
  pub invoke_follows_policy :
      (sym : String) (ret : ReturnType) (args : List Arg) (t0 t1 : D) (m : Meta P W D Q)
      (rec : SymbolRecord D)
      → lookup sym m.symbol_cache ≡ some rec
      → saw_ptr env m process args ≡ false
      → saw_ptr env m wasm args ≡ false
      → let (b, q) = env.decide m.policy (invoke_context env m rec) in
        invoke env sym ret args t0 t1 m
        ≡ dispatch env rec sym ret args (float.sub t1 t0) (record m { policy = q }) b
  unfolding invoke override
  invoke_follows_policy sym ret args t0 t1 m rec cached no_process no_wasm =
      let q = (env.decide m.policy (invoke_context env m rec)).1 in
      let one = saw_ptr-policy m q process args ∙ no_process in
      let two = saw_ptr-policy m q wasm args ∙ no_wasm in rw (cached, invoke, one, two)

module _ {P W D G : Type 0} (env : Env P W D (AdaptiveState G)) (a : Adaptive D G) where
  -- Under the adaptive policy, a call of a symbol with no wasm binding, with no argument that wasm owns,
  -- never aborts: it runs on the process backend.
  pub invoke_adaptive_unbound :
      (sym : String) (ret : ReturnType) (args : List Arg) (t0 t1 : D)
      (m : Meta P W D (AdaptiveState G)) (rec : SymbolRecord D)
      → ((s : AdaptiveState G) (ctx : PolicyContext D) → env.decide s ctx ≡ adaptive_policy a s ctx)
      → lookup sym m.symbol_cache ≡ some rec
      → rec.wasm_sym ≡ 0
      → saw_ptr env m wasm args ≡ false
      → let q = (adaptive_policy a m.policy (invoke_context env m rec)).1 in
        invoke env sym ret args t0 t1 m
        ≡ ok
            (invoke_on_process env rec sym ret args (env.float.sub t1 t0) (record m { policy = q }))
  unfolding invoke override dispatch invoke_context
  invoke_adaptive_unbound sym ret args t0 t1 m rec adaptive cached unbound no_wasm =
      let ctx = invoke_context env m rec in
      let d = adaptive_policy a m.policy ctx in
      let pick = adaptive_policy_unbound a m.policy ctx (named rec) (has_no_wasm rec unbound) in
      let two = saw_ptr-policy env m d.1 wasm args ∙ no_wasm in
      rw (cached, invoke, adaptive m.policy ctx, pick, two)
        (elim (Bool-cases (saw_ptr env (record m { policy = d.1 }) process args)) [
          | inl e ↦ rw e
          | inr e ↦ rw e
        ])
    where
      named : (rec : SymbolRecord D) → (invoke_context env m rec).func_name ≢ none
      named rec = λ e. cc

      has_no_wasm :
          (rec : SymbolRecord D) → rec.wasm_sym ≡ 0 → (invoke_context env m rec).has_wasm ≡ false
      has_no_wasm rec e = ground arith
