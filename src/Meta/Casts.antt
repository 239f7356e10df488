-- ===== src/Meta/Casts.antt =====
-- `static_cast` between integers, as include/rlbox_meta_sandbox.hpp makes it of the fields of structs
-- and of the results of calls.
pub mod Values
use rlbox_dynamic_sandbox.Common.{ℕ, ◌*◌, ◌%◌, ◌^◌, Bool, if◌then◌else◌}
use rlbox_dynamic_sandbox.Abi.{sign_extend}

-- `static_cast` between integers of so many bytes.
unfoldable pub cast : Bool → ℕ → ℕ → ℕ → ℕ
unfolding sign_extend
cast signed from to v = (if signed then sign_extend (8 * from) (8 * to) v else v) % 256 ^ to
