-- ===== src/Util.antt =====
-- hound/src/util: the result type of the operations that may fail.
pub mod Result
