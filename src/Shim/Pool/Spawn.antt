-- ===== src/Shim/Pool/Spawn.antt =====
-- Which descriptors `spawn_worker` leaves open (src/rlbox_process_sandbox_shim.cpp).
use rlbox_dynamic_sandbox.Common.{
  ℕ, ◌≡◌, ◌≢◌, arith, Bool, false, not, ◌&&◌, ◌||◌, Option, none, some, Option-cases, inl, inr,
  ◌==◌,
}
use rlbox_dynamic_sandbox.Shim.Pool.{Worker, PipeOs, spawn_worker}

-- The documented effect of the calls on the open descriptors.
pub record TracksPipes {K : Type 0} (os : PipeOs K) (is_open : K → ℕ → Bool) : Type 0 where
  pub pipe_fails : (k : K) (x : ℕ) → (os.pipe k).0 ≡ none → is_open (os.pipe k).1 x ≡ is_open k x
  pub pipe_opens :
      (k : K) (x a b : ℕ)
      → (os.pipe k).0 ≡ some (a, b)
      → (a ≢ b)
        × (is_open k a ≡ false)
        × (is_open k b ≡ false)
        × (is_open (os.pipe k).1 x ≡ (((x == a) || (x == b)) || is_open k x))
  pub fork_same : (k : K) (x : ℕ) → is_open (os.fork k).1 x ≡ is_open k x
  pub close_closes :
      (fd : ℕ) (k : K) (x : ℕ) → is_open (os.close fd k) x ≡ (not (x == fd) && is_open k x)

-- What is open after a spawn, for its result: the two ends of the worker more, or nothing.
abbrev pub WorkerDescriptors : {K : Type 0} → (K → ℕ → Bool) → K → ℕ → Option Worker × K → Type 0
WorkerDescriptors is_open k x (none, k') = is_open k' x ≡ is_open k x
WorkerDescriptors is_open k x (some w, k') =
    (w.req_fd ≢ w.resp_fd)
    × (is_open k w.req_fd ≡ false)
    × (is_open k w.resp_fd ≡ false)
    × (is_open k' x ≡ (((x == w.req_fd) || (x == w.resp_fd)) || is_open k x))

module _ {K : Type 0} (os : PipeOs K) {is_open : K → ℕ → Bool}
    (tracks : TracksPipes os is_open) where
  open tracks use {pipe_fails, pipe_opens, fork_same, close_closes}

  -- On every path of `spawn_worker` the descriptors are accounted for: with a worker, its two ends are
  -- open, which are two and were not open before, and nothing else changes; without one, the open
  -- descriptors are those that were open before.
  pub spawn_worker_balance : (k : K) (x : ℕ) → WorkerDescriptors is_open k x (spawn_worker os k)
  unfolding spawn_worker
  spawn_worker_balance k x =
      let k1 = (os.pipe k).1 in
      let k2 = (os.pipe k1).1 in
      let k3 = (os.fork k2).1 in
      let forked = fork_same k2 x in
      elim (Option-cases (os.pipe k).0) [
        | inl failed ↦ rw (spawn_worker, failed) (pipe_fails k x failed)
        | inr ((a, b), req) ↦
            let (ne, fresh_a, fresh_b, opened) = pipe_opens k x a b req in
            elim (Option-cases (os.pipe k1).0) [
              | inl failed ↦
                  rw (spawn_worker, req, failed)
                    (ground (
                      arith,
                      close_closes b (os.close a k2) x,
                      close_closes a k2 x,
                      pipe_fails k1 x failed,
                    ))
              | inr ((c, d), resp) ↦
                  let (ne', fresh_c, fresh_d, opened') = pipe_opens k1 x c d resp in
                  let at_c = (pipe_opens k c a b req).3 in
                  let at_d = (pipe_opens k d a b req).3 in
                  elim (Option-cases (os.fork k2).0) [
                    | inl failed ↦
                        rw (spawn_worker, req, resp, failed)
                          (ground (
                            arith,
                            close_closes d (os.close c (os.close b (os.close a k3))) x,
                            close_closes c (os.close b (os.close a k3)) x,
                            close_closes b (os.close a k3) x,
                            close_closes a k3 x,
                          ))
                    | inr (pid, child) ↦
                        rw (spawn_worker, req, resp, child)
                          (
                            ground arith,
                            fresh_b,
                            ground arith,
                            ground (arith, close_closes d (os.close a k3) x, close_closes a k3 x),
                          )
                  ]
            ]
      ]
