-- ===== src/Meta/Invoke/Structs.antt =====
-- A struct of wasm's among the arguments of a call (include/rlbox_meta_sandbox.hpp), by its tagged pointer
-- and by its bare offset.
use rlbox_dynamic_sandbox.Meta.State.{Meta}
