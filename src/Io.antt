-- ===== src/Io.antt =====
-- The I/O layer, hound/src/io.
pub mod Buffer
pub mod Socket
pub mod Address
