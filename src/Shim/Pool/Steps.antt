-- ===== src/Shim/Pool/Steps.antt =====
-- What holds of the worker pool in every order of its steps (src/rlbox_process_sandbox_shim.cpp).
use rlbox_dynamic_sandbox.Common.{
  ℕ, ◌+◌, ◌≤◌, ◌≡◌, ◌≢◌, refl, sym, ap, subst, arith, Bool, true, false, List, [], ◌∷◌, ◌++◌,
  Option, none, some, length, length-append, All, Bool-cases, inl, inr, ltb, ◌==◌, if◌then◌else◌,
  ◌||◌,
}
use rlbox_dynamic_sandbox.Shim.Pool.{
  Worker, Refill, waiting, spawning, ended, Pool, take_first, try_acquire_worker, without, reap,
  refill_wait, refill_push, started,
}

-- No worker of the list has the process id.
abbrev pub IsNew : ℕ → List Worker → Type 0
IsNew pid ws = All (λ (w : Worker). w.pid ≢ pid) ws

-- A child has an id that no other child has.
abbrev pub IsNewChild : Option Worker → Pool → Type 0
IsNewChild none p = Unit
IsNewChild (some w) p = IsNew w.pid p.workers × IsNew w.pid p.busy

pub data Step : Pool → Pool → Type 0 where
  acquires : (p : Pool) → Step p (try_acquire_worker p).1
  reaps : (pid : ℕ) (p : Pool) → Step p (reap pid p)
  looks : (p : Pool) → p.refill ≡ waiting → Step p (refill_wait p)
  pushes :
      (child : Option Worker) (p : Pool)
      → p.refill ≡ spawning
      → IsNewChild child p
      → Step p (refill_push child p)

-- What the pool can come to from its start.
pub data Reachable : ℕ → Pool → Type 0 where
  starts : (target : ℕ) → Reachable target (started target)
  moves : (target : ℕ) (p q : Pool) → Reachable target p → Step p q → Reachable target q

-- The worker that the refill thread is about to push, counted.
abbrev pub coming : Refill → ℕ
coming waiting = 0
coming spawning = 1
coming ended = 0

abbrev pub AreDistinct : List Worker → Type 0
AreDistinct [] = Unit
AreDistinct (w ∷ ws) = IsNew w.pid ws × AreDistinct ws

-- The pool has its target, no more workers than that, and no process id twice.
pub record IsPool (target : ℕ) (p : Pool) : Type 0 where
  pub aims : p.target ≡ target
  pub bounded : length p.workers + coming p.refill ≤ p.target
  pub distinct : AreDistinct p.workers
  pub busy_distinct : AreDistinct p.busy
  pub apart : All (λ (w : Worker). IsNew w.pid p.busy) p.workers

IsNew-without : (pid gone : ℕ) (ws : List Worker) → IsNew pid ws → IsNew pid (without gone ws)
unfolding without
IsNew-without pid gone [] new = tt
IsNew-without pid gone (w ∷ ws) (ne, new) = elim (Bool-cases (w.pid == gone)) [
  | inl same ↦ rw (without, same) (IsNew-without pid gone ws new)
  | inr other ↦ rw (without, other) (ne, IsNew-without pid gone ws new)
]

AreDistinct-without : (gone : ℕ) (ws : List Worker) → AreDistinct ws → AreDistinct (without gone ws)
unfolding without
AreDistinct-without gone [] d = tt
AreDistinct-without gone (w ∷ ws) (new, d) = elim (Bool-cases (w.pid == gone)) [
  | inl same ↦ rw (without, same) (AreDistinct-without gone ws d)
  | inr other ↦ rw (without, other) (IsNew-without w.pid gone ws new, AreDistinct-without gone ws d)
]

apart-without :
    (gone : ℕ) (ws busy : List Worker)
    → All (λ (w : Worker). IsNew w.pid busy) ws
    → All (λ (w : Worker). IsNew w.pid (without gone busy)) ws
apart-without gone [] busy all = tt
apart-without gone (w ∷ ws) busy (new, all) =
    (IsNew-without w.pid gone busy new, apart-without gone ws busy all)

IsNew-append :
    (pid : ℕ) (ws : List Worker) (w : Worker)
    → IsNew pid ws
    → w.pid ≢ pid
    → IsNew pid (ws ++ (w ∷ []))
IsNew-append pid [] w new ne = (ne, tt)
IsNew-append pid (v ∷ ws) w (n, new) ne = (n, IsNew-append pid ws w new ne)

AreDistinct-append :
    (ws : List Worker) (w : Worker) → AreDistinct ws → IsNew w.pid ws → AreDistinct (ws ++ (w ∷ []))
AreDistinct-append [] w d new = (tt, tt)
AreDistinct-append (v ∷ ws) w (n, d) (ne, new) =
    (IsNew-append v.pid ws w n (λ e. ne (sym e)), AreDistinct-append ws w d new)

apart-append :
    (ws busy : List Worker) (w : Worker)
    → All (λ (v : Worker). IsNew v.pid busy) ws
    → IsNew w.pid busy
    → All (λ (v : Worker). IsNew v.pid busy) (ws ++ (w ∷ []))
apart-append [] busy w all new = (new, tt)
apart-append (v ∷ ws) busy w (n, all) new = (n, apart-append ws busy w all new)

-- A worker that is taken is in none of the others' places.
apart-taken :
    (w : Worker) (ws busy : List Worker)
    → IsNew w.pid ws
    → All (λ (v : Worker). IsNew v.pid busy) ws
    → All (λ (v : Worker). IsNew v.pid (w ∷ busy)) ws
apart-taken w [] busy new all = tt
apart-taken w (v ∷ ws) busy (ne, new) (n, all) =
    (((λ e. ne (sym e)), n), apart-taken w ws busy new all)

acquires-IsPool : (target : ℕ) (p : Pool) → IsPool target p → IsPool target (try_acquire_worker p).1
unfolding try_acquire_worker take_first
acquires-IsPool target p ok = go p.workers refl
  where
    go :
        (ws : List Worker)
        → p.workers ≡ ws
        → IsPool target
            (elim (take_first ws) as (λ o. Option Worker × Pool) [
              | none ↦ (none, p)
              | some (w, rest) ↦ (some w, record p { workers = rest; busy = w ∷ p.busy })
            ]).1
    go [] e = ok
    go (w ∷ ws) e =
        let d = subst AreDistinct e ok.distinct in
        let a = subst (All (λ (v : Worker). IsNew v.pid p.busy)) e ok.apart in
        record {
          aims = ok.aims;
          bounded = omega (arith, ok.bounded, ap length e);
          distinct = d.1;
          busy_distinct = (a.0, ok.busy_distinct);
          apart = apart-taken w ws p.busy d.0 a.1;
        }

settled : (b : Bool) → coming (if b then ended else waiting) ≡ 0
settled true = refl
settled false = refl

woken_bounded :
    (b : Bool) (n target : ℕ)
    → (ltb n target || b) ≡ true
    → n ≤ target
    → n + coming (if b then ended else spawning) ≤ target
woken_bounded true n target woken within = omega (arith, within)
woken_bounded false n target woken within = ground arith

looks-IsPool :
    (target : ℕ) (p : Pool) → p.refill ≡ waiting → IsPool target p → IsPool target (refill_wait p)
unfolding refill_wait
looks-IsPool target p at ok = elim (Bool-cases (ltb (length p.workers) p.target || p.shutdown)) [
  | inr full ↦ rw full ok
  | inl woken ↦ rw woken (record {
    aims = ok.aims;
    bounded =
        woken_bounded p.shutdown (length p.workers) p.target woken (omega (arith, ok.bounded));
    distinct = ok.distinct;
    busy_distinct = ok.busy_distinct;
    apart = ok.apart;
  })
]

pushes-IsPool :
    (target : ℕ) (child : Option Worker) (p : Pool)
    → p.refill ≡ spawning
    → IsNewChild child p
    → IsPool target p
    → IsPool target (refill_push child p)
unfolding refill_push
pushes-IsPool target none p at new ok = record {
  aims = ok.aims;
  bounded = omega (arith, ok.bounded, settled p.shutdown);
  distinct = ok.distinct;
  busy_distinct = ok.busy_distinct;
  apart = ok.apart;
}
pushes-IsPool target (some w) p at (new, new_busy) ok = record {
  aims = ok.aims;
  bounded =
      omega (arith, ok.bounded, settled p.shutdown, ap coming at, length-append p.workers (w ∷ []));
  distinct = AreDistinct-append p.workers w ok.distinct new;
  busy_distinct = ok.busy_distinct;
  apart = apart-append p.workers p.busy w ok.apart new_busy;
}

-- In every order of the steps of the refill thread and of the calls, the pool holds at most its target of
-- workers, the one that is being spawned included, and no process id stands twice among the workers in
-- the pool and those that are out for a call. This is for a kernel that gives a child an id that no
-- other of these children has.
pub Reachable-IsPool : (target : ℕ) (p : Pool) → Reachable target p → IsPool target p
unfolding reap
Reachable-IsPool target p (starts t) = record {
  aims = refl;
  bounded = omega arith;
  distinct = tt;
  busy_distinct = tt;
  apart = tt;
}
Reachable-IsPool target p (moves t q r reached step) =
    step_keeps target q r step (Reachable-IsPool target q reached)
  where
    step_keeps : (t : ℕ) (q r : Pool) → Step q r → IsPool t q → IsPool t r
    step_keeps t q r (acquires p) ok = acquires-IsPool t q ok
    step_keeps t q r (reaps pid p) ok = record {
      aims = ok.aims;
      bounded = ok.bounded;
      distinct = ok.distinct;
      busy_distinct = AreDistinct-without pid q.busy ok.busy_distinct;
      apart = apart-without pid q.workers q.busy ok.apart;
    }
    step_keeps t q r (looks p at) ok = looks-IsPool t q at ok
    step_keeps t q r (pushes child p at new) ok = pushes-IsPool t child q at new ok
