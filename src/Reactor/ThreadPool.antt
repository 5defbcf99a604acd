-- ===== src/Reactor/ThreadPool.antt =====
-- hound/src/reactor/thread_pool.h and thread_pool.cpp: one loop for each thread. The loops are
-- held as values, the base loop and then the workers. A negative thread count is not modelled.
pub mod Fair
pub mod Start
pub mod Tests
use my_project.Prelude.{
  ℕ, zero, suc, ◌+◌, ◌%◌, ◌^◌, ◌==◌, ltb, if◌then◌else◌, Bool, true, false, Option, none, some,
  List, [], ◌∷◌, ◌++◌, map, length, get_elem?,
}
use my_project.Reactor.TimerWheel.{TimerWheel}
use my_project.Reactor.Poller.{SelectPoller, Selected}
use my_project.Reactor.EventLoop.{EventLoop, new_loop, quit, loop}

pub record EventLoopThreadPool : Type 0 where
  pub base_loop : EventLoop
  pub thread_count : ℕ
  pub next_index : ℕ
  pub worker_loops : List EventLoop
  pub loops : List EventLoop
  pub started : Bool
  pub aborted : Bool

-- `EventLoopThreadPool(base_loop)` on a machine with that many threads
unfoldable pub new_pool : ℕ → EventLoop → EventLoopThreadPool
new_pool hardware_concurrency base = record {
  base_loop = base;
  thread_count = if ltb hardware_concurrency 1 then 1 else hardware_concurrency;
  next_index = 0;
  worker_loops = [];
  loops = [];
  started = false;
  aborted = false;
}

abbrev pub set_thread_count : ℕ → EventLoopThreadPool → EventLoopThreadPool
set_thread_count n p = record p { thread_count = n }

-- The loop that allocates the workers' loops, in the thread that calls.
unfoldable pub make_loops : ℕ → ℕ → SelectPoller → TimerWheel ℕ → List EventLoop
make_loops zero thread poller wheel = []
make_loops (suc n) thread poller wheel =
    new_loop thread poller wheel ∷ make_loops n thread poller wheel

-- `start(thread_init)` up to the start of the threads
unfoldable pub start : ℕ → SelectPoller → TimerWheel ℕ → EventLoopThreadPool → EventLoopThreadPool
start thread poller wheel p =
    let workers = p.worker_loops ++ make_loops p.thread_count thread poller wheel in
    if p.started
    then record p { aborted = true }
    else record p { worker_loops = workers; loops = p.base_loop ∷ workers; started = true }

-- What the thread of a worker does: `thread_init` if there is one, and then its loop.
unfoldable pub worker_thread :
    (ℕ → EventLoop → EventLoop)
    → (ℕ → EventLoop → EventLoop)
    → (ℕ → TimerWheel ℕ → TimerWheel ℕ)
    → Option (EventLoop → EventLoop)
    → ℕ
    → ℕ
    → List (ℕ × Selected)
    → EventLoop
    → Option EventLoop
worker_thread run handle call thread_init thread fuel events l =
    loop run handle call thread fuel events (elim thread_init [ none ↦ l | some init ↦ init l ])

-- `get_next_loop()`: nothing where there is no loop, for which the code divides by 0
unfoldable pub get_next_loop : EventLoopThreadPool → Option EventLoop × EventLoopThreadPool
get_next_loop p = (
  if length p.loops == 0 then none else get_elem? p.loops (p.next_index % length p.loops),
  record p { next_index = (p.next_index + 1) % 2 ^ 64 },
)

-- The destructor stops the workers' loops, from the thread that runs it.
unfoldable pub quit_all : ℕ → EventLoopThreadPool → EventLoopThreadPool
quit_all thread p = record p { worker_loops = map (quit thread) p.worker_loops }
