-- ===== src/Shim/Pool.antt =====
-- The pool of pre-forked workers of src/rlbox_process_sandbox_shim.cpp: the thread that refills it, and
-- the calls that take workers out. Each takes the pool's lock, so their steps alternate in any order;
-- between the refill thread's look at the pool and its push the lock is free.
pub mod Steps
pub mod Acquire
pub mod Spawn
mod Tests
use rlbox_dynamic_sandbox.Common.{
  ℕ, ◌-◌, ◌^◌, Bool, true, false, List, [], ◌∷◌, ◌++◌, Option, none, some, length, ltb, ◌==◌,
  if◌then◌else◌, ◌||◌,
}
use rlbox_dynamic_sandbox.Meta.Types.{Host, pointer_bits}

-- `Worker`
pub record Worker : Type 0 where
  pub pid : ℕ
  pub req_fd : ℕ
  pub resp_fd : ℕ

-- Where the refill thread is: at its wait, past it, or at its end.
pub data Refill : Type 0 where
  waiting spawning ended : Refill

-- The globals of the pool, the refill thread, and the workers that are out for a call.
pub record Pool : Type 0 where
  pub workers : List Worker
  pub target : ℕ
  pub shutdown : Bool
  pub refill : Refill
  pub busy : List Worker

-- `try_acquire_worker`: the first worker, if there is one.
unfoldable pub take_first : List Worker → Option (Worker × List Worker)
take_first [] = none
take_first (w ∷ rest) = some (w, rest)

unfoldable pub try_acquire_worker : Pool → Option Worker × Pool
unfolding take_first
try_acquire_worker p = elim (take_first p.workers) [
  | none ↦ (none, p)
  | some (w, rest) ↦ (some w, record p { workers = rest; busy = w ∷ p.busy })
]

-- `waitpid` at the end of `dispatch_to_worker`.
unfoldable pub without : ℕ → List Worker → List Worker
without pid [] = []
without pid (w ∷ ws) = let rest = without pid ws in if w.pid == pid then rest else w ∷ rest

unfoldable pub reap : ℕ → Pool → Pool
unfolding without
reap pid p = record p { busy = without pid p.busy }

-- The wait of `refill_loop` under the lock; a thread whose condition is false stays.
unfoldable pub refill_wait : Pool → Pool
refill_wait p =
    if ltb (length p.workers) p.target || p.shutdown
    then record p { refill = if p.shutdown then ended else spawning }
    else p

-- The rest of a turn, for what `spawn_worker` returns, up to the test of the loop.
unfoldable pub refill_push : Option Worker → Pool → Pool
refill_push none p = record p { refill = if p.shutdown then ended else waiting }
refill_push (some w) p = record p {
  workers = p.workers ++ (w ∷ []);
  refill = if p.shutdown then ended else waiting;
}

-- `pipe`, `fork` as the parent sees it, and `close`.
pub record PipeOs (K : Type 0) : Type 0 where
  pub pipe : K → Option (ℕ × ℕ) × K
  pub fork : K → Option ℕ × K
  pub close : ℕ → K → K

-- `spawn_worker` in the parent.
unfoldable pub spawn_worker : {K : Type 0} → PipeOs K → K → Option Worker × K
spawn_worker os k =
    let (req, k1) = os.pipe k in
    let (resp, k2) = os.pipe k1 in
    let (child, k3) = os.fork k2 in
    elim req [
      | none ↦ (none, k1)
      | some (req0, req1) ↦ elim resp [
        | none ↦ (none, os.close req1 (os.close req0 k2))
        | some (resp0, resp1) ↦ elim child [
          | none ↦ (none, os.close resp1 (os.close resp0 (os.close req1 (os.close req0 k3))))
          | some pid ↦ (
            some (record { pid = pid; req_fd = req1; resp_fd = resp0 }),
            os.close resp1 (os.close req0 k3),
          )
        ]
      ]
    ]

-- `start_worker_pool`: the target of the pool, if one is started. The second argument is the value that
-- `strtol` finds in the environment, as a pattern of a `long`.
unfoldable pub start_worker_pool : Host → Bool → Option ℕ → Option ℕ
start_worker_pool h mspace size_env =
    let target : ℕ = elim size_env [
      | none ↦ 4
      | some parsed ↦ if ltb parsed (2 ^ (pointer_bits h - 1)) then parsed else 0
    ] in
    if mspace then if target == 0 then none else some target else none

abbrev pub started : ℕ → Pool
started target = record {
  workers = [];
  target = target;
  shutdown = false;
  refill = waiting;
  busy = [];
}
