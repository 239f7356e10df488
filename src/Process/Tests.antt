-- ===== src/Process/Tests.antt =====
-- The theorems about the process backend at concrete values. The kernel of these runs has the open
-- descriptors for its state.
use rlbox_dynamic_sandbox.Common.{
  ℕ, suc, ◌+◌, ◌^◌, ◌<◌, ◌≡◌, ◌≢◌, ◌↔◌, refl, ap, arith, Bool, true, false, not, ◌&&◌, ◌||◌, List,
  [], ◌∷◌, Option, none, some, no_entries, insert, All, ◌==◌, if◌then◌else◌,
}
use rlbox_dynamic_sandbox.Meta.Types.{x86_64}
use rlbox_dynamic_sandbox.Mem.{os_mmap_aligned, trim, align_up}
use rlbox_dynamic_sandbox.Process.{
  Os, Sandbox, World, Channels, fresh_sandbox, memory_size, create_sandbox, destroy_sandbox,
  delete_object, create_memory, create_channels, create_child, connect, reserve_memory, put_object,
  is_in_same_sandbox,
}
use rlbox_dynamic_sandbox.Process.Descriptors.{TracksDescriptors}
use rlbox_dynamic_sandbox.Process.Balance.{create_sandbox_failure, create_sandbox_leaks}
use rlbox_dynamic_sandbox.Process.Teardown.{destroy-create_sandbox}
use rlbox_dynamic_sandbox.Process.Registry.{LiesIn, IsRegistry, is_in_same_sandbox_regions}
use rlbox_dynamic_sandbox.Process.Entries.{IsFreshMemory, create_sandbox-IsRegistry}
use rlbox_dynamic_sandbox.Process.Callbacks.{callback_loop}
use rlbox_dynamic_sandbox.Process.Callbacks.Again.{created_again_deaf}
use rlbox_dynamic_sandbox.Process.Stale.{is_in_same_sandbox_stale}

abbrev sum : List ℕ → ℕ
sum [] = 0
sum (x ∷ xs) = x + sum xs

-- A descriptor above all that are open.
abbrev next : List ℕ → ℕ
next k = suc (sum k)

abbrev is_open : List ℕ → ℕ → Bool
is_open [] x = false
is_open (y ∷ k) x = (x == y) || is_open k x

abbrev shut : ℕ → List ℕ → List ℕ
shut fd [] = []
shut fd (y ∷ k) = if y == fd then shut fd k else y ∷ shut fd k

abbrev map_base : ℕ
map_base = 2 ^ 33

-- Whether there are socket pairs, and what `fork` gives, are arguments.
abbrev os : Bool → Option ℕ → Os (List ℕ)
os pairs forked = record {
  memory = record { mmap = λ n k. (some map_base, k); munmap = λ a n k. k };
  memfd_create = λ k. (some (next k), next k ∷ k);
  ftruncate = λ fd n k. k;
  reserve_at = λ a n k. (some a, k);
  map_shared = λ a n fd k. (some a, k);
  socketpair =
      λ k. if pairs then (some (next k, suc (next k)), next k ∷ suc (next k) ∷ k) else (none, k);
  fork = λ k. (forked, k);
  shutdown = λ fd k. k;
  close = shut;
  terminate = λ pid k. k;
  reap = λ pid k. k;
}

above : (k : List ℕ) (x : ℕ) → sum k < x → is_open k x ≡ false
above [] x high = refl
above (y ∷ k) x high = ground (arith, above k x (omega arith))

shut_shuts : (fd : ℕ) (k : List ℕ) (x : ℕ) → is_open (shut fd k) x ≡ (not (x == fd) && is_open k x)
shut_shuts fd [] x = ground arith
shut_shuts fd (y ∷ k) x = ground (arith, shut_shuts fd k x)

os-TracksDescriptors :
    (pairs : Bool) (forked : Option ℕ) → TracksDescriptors (os pairs forked) is_open
os-TracksDescriptors pairs forked = record {
  memfd_fails = λ k x e. cc;
  memfd_opens = λ k x fd e. (ground (arith, above k (next k) (omega arith)), ground arith);
  socketpair_fails = pair_fails pairs;
  socketpair_opens = pair_opens pairs;
  close_closes = shut_shuts;
  ftruncate_same = λ fd n k x. refl;
  mmap_same = λ n k x. refl;
  munmap_same = λ a n k x. refl;
  reserve_at_same = λ a n k x. refl;
  map_shared_same = λ a n fd k x. refl;
  fork_same = λ k x. refl;
  shutdown_same = λ fd k x. refl;
  terminate_same = λ pid k x. refl;
  reap_same = λ pid k x. refl;
}
  where
    pair_fails :
        (p : Bool) (k : List ℕ) (x : ℕ)
        → ((os p forked).socketpair k).0 ≡ none
        → is_open ((os p forked).socketpair k).1 x ≡ is_open k x
    pair_fails true k x e = cc
    pair_fails false k x e = refl

    pair_opens :
        (p : Bool) (k : List ℕ) (x a b : ℕ)
        → ((os p forked).socketpair k).0 ≡ some (a, b)
        → (a ≢ b)
          × (is_open k a ≡ false)
          × (is_open k b ≡ false)
          × (is_open ((os p forked).socketpair k).1 x ≡ (((x == a) || (x == b)) || is_open k x))
    pair_opens true k x a b e = (
      ground arith,
      ground (arith, above k (next k) (omega arith)),
      ground (arith, above k (suc (next k)) (omega arith)),
      ground arith,
    )
    pair_opens false k x a b e = absurd (cc e)

-- Another sandbox is up, whose object is at 7.
abbrev neighbour : Sandbox
neighbour = record fresh_sandbox {
  shared_memory_local_base = 2 ^ 34;
  shared_memory_size = memory_size;
}

abbrev world : World (List ℕ)
world = record {
  global_registry = (2 ^ 34, 7) ∷ [];
  objects = insert 7 neighbour no_entries;
  thread_local_sandbox = 0;
  thread_local_callback_key = 0;
  kernel = 3 ∷ [];
}

create_sandbox_failure_example :
    is_open (create_sandbox x86_64 (os false (some 100)) 9 fresh_sandbox world).1.kernel 4 ≡ false
create_sandbox_failure_example =
    create_sandbox_failure x86_64 (os false (some 100)) (os-TracksDescriptors false (some 100)) 9
      fresh_sandbox world 4 (λ k e. cc e)
      (unfold create_sandbox create_memory reserve_memory os_mmap_aligned trim align_up connect
          create_channels create_child in
        refl)

abbrev pairs : Channels
pairs = record { req_pair = (8, 9); cb_pair = (25, 26) }

create_sandbox_leaks_example :
    ((create_sandbox x86_64 (os true none) 9 fresh_sandbox world).0 ≡ false)
    × (is_open (create_sandbox x86_64 (os true none) 9 fresh_sandbox world).1.kernel 25 ≡ true)
create_sandbox_leaks_example =
    create_sandbox_leaks x86_64 (os true none) (os-TracksDescriptors true none) 9 fresh_sandbox
      world 4 map_base pairs
      (unfold create_memory reserve_memory os_mmap_aligned trim align_up in refl)
      (unfold create_memory reserve_memory os_mmap_aligned trim align_up create_channels in refl)
      (λ k. refl) 25

abbrev running_at_9 : Sandbox
running_at_9 = record fresh_sandbox {
  shared_memory_local_base = map_base;
  shared_memory_size = memory_size;
  child_process_handle = 100;
  request_fd = some 8;
  callback_fd = some 25;
  callback_thread = true;
}

abbrev created : World (List ℕ)
created = (create_sandbox x86_64 (os true (some 100)) 9 fresh_sandbox world).1

destroy-create_sandbox_example :
    (is_open (destroy_sandbox x86_64 (os true (some 100)) 9 running_at_9 created).kernel 25 ≡ false)
    × ((destroy_sandbox x86_64 (os true (some 100)) 9 running_at_9 created).global_registry
        ≡ world.global_registry)
destroy-create_sandbox_example =
    destroy-create_sandbox x86_64 (os true (some 100)) (os-TracksDescriptors true (some 100)) 9
      fresh_sandbox running_at_9 world created 25
      (unfold create_sandbox create_memory reserve_memory os_mmap_aligned trim align_up connect
          create_channels create_child in
        refl)
      (unfold create_sandbox create_memory reserve_memory os_mmap_aligned trim align_up connect
          create_channels create_child put_object in
        refl)
      ((λ e. absurd (omega (arith, e))), tt)

world-IsRegistry : IsRegistry x86_64 world.objects world.global_registry
world-IsRegistry = ((λ e. cc e), (λ e. cc e), omega arith, tt, tt)

-- An address of the neighbour and one outside.
is_in_same_sandbox_regions_example :
    (is_in_same_sandbox x86_64 (os true none) (2 ^ 34 + 5) 5 world ≡ some true)
    ↔ All
        (λ e. LiesIn world.objects (2 ^ 34 + 5) e ↔ LiesIn world.objects 5 e)
        world.global_registry
is_in_same_sandbox_regions_example =
    is_in_same_sandbox_regions x86_64 (os true none) (2 ^ 34 + 5) 5 world world-IsRegistry

-- The memory that this kernel maps is apart from the neighbour's.
maps_fresh :
    (forked : Option ℕ) (fd base : ℕ)
    → (create_memory x86_64 (os true forked) world.kernel).0 ≡ some (fd, base)
    → IsFreshMemory x86_64 world.objects base world.global_registry
unfolding create_memory reserve_memory os_mmap_aligned trim align_up
maps_fresh forked fd base e =
    let here : map_base ≡ base =
      ap (λ (o : Option (ℕ × ℕ)). elim o [ none ↦ 0 | some (f, b) ↦ b ]) e in
    (
      omega (arith, here),
      (
        ((λ same. absurd (omega (arith, here, same))), (λ a low high (l, u). omega (arith, here))),
        tt,
      ),
    )

create_sandbox-IsRegistry_example :
    IsRegistry x86_64
      (create_sandbox x86_64 (os true none) 9 fresh_sandbox world).1.objects
      (create_sandbox x86_64 (os true none) 9 fresh_sandbox world).1.global_registry
create_sandbox-IsRegistry_example =
    create_sandbox-IsRegistry x86_64 (os true none) 9 fresh_sandbox world (λ e. cc e)
      ((λ e. cc e), tt) (maps_fresh none) world-IsRegistry

is_in_same_sandbox_stale_example :
    is_in_same_sandbox x86_64 (os true none) map_base 5 (
      delete_object x86_64
        (os true none)
        9
        (create_sandbox x86_64 (os true none) 9 fresh_sandbox world).1)
    ≡ none
is_in_same_sandbox_stale_example =
    is_in_same_sandbox_stale x86_64 (os true none) 9 fresh_sandbox world 4 map_base 5
      (unfold create_memory reserve_memory os_mmap_aligned trim align_up in refl) ((λ e. cc e), tt)
      (maps_fresh none 4 map_base
        (unfold create_memory reserve_memory os_mmap_aligned trim align_up in refl))
      world-IsRegistry

-- The object at 9 once it is destroyed, and when it is created again.
abbrev stopped : Sandbox
stopped = record fresh_sandbox {
  shared_memory_local_base = map_base;
  shared_memory_size = memory_size;
  callback_thread_stop = true;
}

abbrev running_again : Sandbox
running_again = record running_at_9 { callback_thread_stop = true }

created_again_deaf_example :
    callback_loop x86_64
      (λ function args thread_locals m. (0, m + 1))
      9
      running_again
      ((4, 1 ∷ []) ∷ [])
      (0, 0)
      3
    ≡ some ([], 3)
created_again_deaf_example =
    created_again_deaf x86_64 (os true (some 100)) (λ function args thread_locals m. (0, m + 1)) 9
      running_at_9 stopped running_again world world ((4, 1 ∷ []) ∷ []) (0, 0) 3
      (unfold destroy_sandbox put_object in refl)
      (unfold create_sandbox create_memory reserve_memory os_mmap_aligned trim align_up connect
          create_channels create_child put_object in
        refl)
