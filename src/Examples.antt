-- ===== src/Examples.antt =====
-- hound/examples: the programs that show the library in use.
pub mod EchoServer
