-- ===== src/Shim/Pool/Acquire.antt =====
-- What a call gets out of the worker pool (src/rlbox_process_sandbox_shim.cpp).
use rlbox_dynamic_sandbox.Common.{
  ℕ, ◌≡◌, ◌∙◌, refl, sym, ap, subst, arith, true, false, List, [], ◌∷◌, Option, none, some, length,
  All, ltb,
}
use rlbox_dynamic_sandbox.Shim.Pool.{
  Worker, waiting, spawning, Pool, take_first, try_acquire_worker, refill_wait,
}
use rlbox_dynamic_sandbox.Shim.Pool.Steps.{IsNew, AreDistinct, Reachable, Reachable-IsPool}

-- What a call takes.
acquired :
    (p q : Pool) (w : Worker)
    → try_acquire_worker p ≡ (some w, q)
    → (rest : List Worker) × (p.workers ≡ w ∷ rest)
      × (q ≡ record p { workers = rest; busy = w ∷ p.busy })
unfolding try_acquire_worker take_first
acquired p q w e = go p.workers refl e
  where
    some_injective : {a b : Worker} → some a ≡ some b → a ≡ b
    some_injective h = cc

    go :
        (ws : List Worker)
        → p.workers ≡ ws
        → (elim (take_first ws) as (λ o. Option Worker × Pool) [
          | none ↦ (none, p)
          | some (v, rest) ↦ (some v, record p { workers = rest; busy = v ∷ p.busy })
        ])
          ≡ (some w, q)
        → (rest : List Worker) × (p.workers ≡ w ∷ rest)
          × (q ≡ record p { workers = rest; busy = w ∷ p.busy })
    go [] at e' = absurd (cc (ap (λ (r : Option Worker × Pool). r.0) e'))
    go (v ∷ rest) at e' =
        let same : v ≡ w = some_injective (ap (λ (r : Option Worker × Pool). r.0) e') in
        (
          rest,
          at ∙ ap (λ u. u ∷ rest) same,
          sym (ap (λ (r : Option Worker × Pool). r.1) e')
              ∙ ap (λ (u : Worker). record p { workers = rest; busy = u ∷ p.busy }) same,
        )

-- A worker that a call takes out of the pool is in no other place: neither in the pool that is left, nor
-- out for another call.
pub acquired_once :
    (target : ℕ) (p q : Pool) (w : Worker)
    → Reachable target p
    → try_acquire_worker p ≡ (some w, q)
    → IsNew w.pid q.workers × IsNew w.pid p.busy
acquired_once target p q w reached e =
    let ok = Reachable-IsPool target p reached in
    let (rest, at, took) = acquired p q w e in
    (
      subst (IsNew w.pid) (ap (λ (r : Pool). r.workers) (sym took))
          (subst AreDistinct at ok.distinct).0,
      (subst (All (λ (v : Worker). IsNew v.pid p.busy)) at ok.apart).0,
    )

-- A call that takes a worker leaves room: the refill thread, if it is at its wait, goes on to spawn.
pub acquire_wakes :
    (target : ℕ) (p q : Pool) (w : Worker)
    → Reachable target p
    → p.refill ≡ waiting
    → p.shutdown ≡ false
    → try_acquire_worker p ≡ (some w, q)
    → (refill_wait q).refill ≡ spawning
unfolding refill_wait
acquire_wakes target p q w reached at up e =
    let ok = Reachable-IsPool target p reached in
    let (rest, at_workers, took) = acquired p q w e in
    let room : ltb (length q.workers) q.target ≡ true = ground (
      arith,
      ok.bounded,
      ap length at_workers,
      ap (λ (r : Pool). length r.workers) took,
      ap (λ (r : Pool). r.target) took,
    ) in
    rw (room, ap (λ (r : Pool). r.shutdown) took, up) refl
