-- ===== src/Shim/Testbed.antt =====
-- Small surroundings of the sandboxed process (src/rlbox_process_sandbox_shim.cpp) for tests: an mspace
-- that hands out addresses one after another, and pipes that bring one byte at a time.
use rlbox_dynamic_sandbox.Common.{
  ℕ, ◌+◌, ◌^◌, ◌≡◌, refl, ap, arith, true, false, List, [], ◌∷◌, none, ltb, if◌then◌else◌,
}
use rlbox_dynamic_sandbox.Meta.Types.{x86_64}
use rlbox_dynamic_sandbox.Seccomp.{Headers}
use rlbox_dynamic_sandbox.Abi.{ArgType}
use rlbox_dynamic_sandbox.Shim.Memory.{Dlmalloc, Setup, Allocator}
use rlbox_dynamic_sandbox.Shim.Pipe.{ReadEvent, arrives, WriteEvent, accepts, refused_by_signal}
use rlbox_dynamic_sandbox.Shim.Pipe.Gather.{carried, IsSound}
use rlbox_dynamic_sandbox.Shim.Worker.{Link}
use rlbox_dynamic_sandbox.Shim.Worker.Calls.{IsFaithful}

abbrev pub counting : Dlmalloc ℕ
counting = record {
  create_mspace_with_base = λ s base size. (true, base);
  mspace_malloc = λ s n. (s, s + n);
  mspace_free = λ s p. p;
  mspace_calloc = λ s mem n m. (s, s + n, mem);
  mspace_realloc = λ s mem p n. (s, s + n, mem);
}

abbrev pub setup : Setup ℕ
setup = record {
  host = x86_64;
  bootstrap_buf = 4096;
  shm_env = none;
  maps_at = λ base size. true;
  dlmalloc = counting;
}

-- Before the shared memory is there, after 32 bytes of the bootstrap buffer.
abbrev pub early : Allocator ℕ
early = record {
  in_init = false;
  init_done = true;
  shm_base = 0;
  shm_size = 0;
  mspace = false;
  space = 0;
  bootstrap_offset = 32;
  callback_keys = 0;
  bytes = λ a. if ltb a 4128 then 8 else 0;
}

-- With 64 KiB of shared memory at 2 ^ 20, of which 100 bytes are taken.
abbrev pub up : Allocator ℕ
up = record early {
  shm_base = 2 ^ 20;
  shm_size = 2 ^ 16;
  mspace = true;
  space = 2 ^ 20 + 100;
  bytes = λ a. if ltb a 4104 then 0 else 8;
}

abbrev pub by_bytes : List ℕ → List ReadEvent
by_bytes [] = []
by_bytes (b ∷ bytes) = arrives (b ∷ []) ∷ by_bytes bytes

by_bytes-IsSound : (bytes : List ℕ) → IsSound (by_bytes bytes)
by_bytes-IsSound [] = tt
by_bytes-IsSound (b ∷ bytes) = (omega arith, by_bytes-IsSound bytes)

carried-by_bytes : (bytes : List ℕ) → carried (by_bytes bytes) ≡ bytes
carried-by_bytes [] = refl
carried-by_bytes (b ∷ bytes) = ap (λ t. b ∷ t) (carried-by_bytes bytes)

pub by_bytes-IsFaithful : IsFaithful by_bytes
by_bytes-IsFaithful = record { sound = by_bytes-IsSound; brings = carried-by_bytes }

abbrev pub adder : List (ArgType × ℕ) → ℕ
adder [] = 0
adder ((t, x) ∷ args) = x + adder args

abbrev pub headers : Headers
headers = record {
  bpf_ld_w_abs = 32;
  bpf_jmp_jeq_k = 21;
  bpf_jmp_jge_k = 53;
  bpf_ret_k = 6;
  offset_arch = 4;
  offset_nr = 0;
  audit_arch = λ h. 3221225534;
  seccomp_ret_kill_process = 2147483648;
  seccomp_ret_allow = 2147418112;
  seccomp_ret_log = 2147221504;
  number = λ s. 0;
}

abbrev pub answers : List WriteEvent
answers = accepts 2 ∷ refused_by_signal ∷ accepts 9 ∷ []

-- All is sent, in more than one write.
abbrev pub link : Link
link = record {
  writes = accepts 9 ∷ accepts 9 ∷ refused_by_signal ∷ accepts 99 ∷ accepts 99 ∷ [];
  arrive = by_bytes;
  answers = answers;
  come_back = by_bytes;
}
