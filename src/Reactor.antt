-- ===== src/Reactor.antt =====
-- hound/src/reactor: the timer wheel, the channels and the poller that watches their descriptors,
-- the event loop over them, and the pool of the loops' threads.
pub mod TimerWheel
pub mod Poller
pub mod EventLoop
pub mod ThreadPool
