-- ===== src/Shim/Pool/Tests.antt =====
-- The theorems about the worker pool at concrete values. The kernel of these runs has the open
-- descriptors for its state.
use rlbox_dynamic_sandbox.Common.{
  ℕ, suc, ◌+◌, ◌≡◌, ◌<◌, refl, arith, Bool, false, not, ◌&&◌, ◌||◌, List, [], ◌∷◌, some, ◌==◌,
  if◌then◌else◌,
}
use rlbox_dynamic_sandbox.Shim.Pool.{
  Worker, Pool, waiting, spawning, started, refill_wait, refill_push, PipeOs, spawn_worker,
}
use rlbox_dynamic_sandbox.Shim.Pool.Steps.{
  IsPool, Reachable, starts, moves, looks, pushes, Reachable-IsPool,
}
use rlbox_dynamic_sandbox.Shim.Pool.Spawn.{TracksPipes, WorkerDescriptors, spawn_worker_balance}

abbrev sum : List ℕ → ℕ
sum [] = 0
sum (x ∷ xs) = x + sum xs

abbrev next : List ℕ → ℕ
next k = suc (sum k)

abbrev is_open : List ℕ → ℕ → Bool
is_open [] x = false
is_open (y ∷ k) x = (x == y) || is_open k x

abbrev shut : ℕ → List ℕ → List ℕ
shut fd [] = []
shut fd (y ∷ k) = if y == fd then shut fd k else y ∷ shut fd k

abbrev os : PipeOs (List ℕ)
os = record {
  pipe = λ k. (some (next k, suc (next k)), next k ∷ suc (next k) ∷ k);
  fork = λ k. (some 100, k);
  close = shut;
}

above : (k : List ℕ) (x : ℕ) → sum k < x → is_open k x ≡ false
above [] x high = refl
above (y ∷ k) x high = ground (arith, above k x (omega arith))

shut_shuts : (fd : ℕ) (k : List ℕ) (x : ℕ) → is_open (shut fd k) x ≡ (not (x == fd) && is_open k x)
shut_shuts fd [] x = ground arith
shut_shuts fd (y ∷ k) x = ground (arith, shut_shuts fd k x)

os-TracksPipes : TracksPipes os is_open
os-TracksPipes = record {
  pipe_fails = λ k x e. cc;
  pipe_opens = λ k x a b e. (
    ground arith,
    ground (arith, above k (next k) (omega arith)),
    ground (arith, above k (suc (next k)) (omega arith)),
    ground arith,
  );
  fork_same = λ k x. refl;
  close_closes = shut_shuts;
}

spawn_worker_balance_example : WorkerDescriptors is_open (3 ∷ []) 5 (spawn_worker os (3 ∷ []))
spawn_worker_balance_example = spawn_worker_balance os os-TracksPipes (3 ∷ []) 5

abbrev first : Worker
first = record { pid = 100; req_fd = 5; resp_fd = 9 }

-- The pool of two, with its first worker.
abbrev one_up : Pool
one_up = record { workers = first ∷ []; target = 2; shutdown = false; refill = waiting; busy = [] }

abbrev looked : Pool
looked = record (started 2) { refill = spawning }

one_up-Reachable : Reachable 2 one_up
unfolding refill_wait refill_push
one_up-Reachable =
    moves 2 looked one_up (moves 2 (started 2) looked (starts 2) (looks (started 2) refl))
      (pushes (some first) looked refl (tt, tt))

Reachable-IsPool_example : IsPool 2 one_up
Reachable-IsPool_example = Reachable-IsPool 2 one_up one_up-Reachable

abbrev taken : Pool
taken = record one_up { workers = []; busy = first ∷ [] }
