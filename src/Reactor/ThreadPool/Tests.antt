-- ===== src/Reactor/ThreadPool/Tests.antt =====
-- The theorems on the pool at a base loop of thread 1 with two workers.
use my_project.Prelude.{ℕ, ◌<◌, ◌≡◌, true, false, [], ◌∷◌, length, get_elem?, arith}
use my_project.Reactor.TimerWheel.{TimerWheel, new_wheel}
use my_project.Reactor.Poller.{new_channel, SelectPoller}
use my_project.Reactor.EventLoop.{EventLoop, new_loop}
use my_project.Reactor.ThreadPool.{EventLoopThreadPool, new_pool, set_thread_count, get_next_loop}
use my_project.Reactor.ThreadPool.Fair.{after, get_next_loop-fair}

abbrev poller : SelectPoller
poller = record {
  store = λ a. new_channel 5 (λ k. true);
  channels = (5, 0) ∷ [];
  channel_list = 0 ∷ [];
}

abbrev wheel : TimerWheel ℕ
wheel = new_wheel 10 4 5000

abbrev three_loops : EventLoopThreadPool
three_loops = record {
  base_loop = new_loop 1 poller wheel;
  thread_count = 2;
  next_index = 0;
  worker_loops = new_loop 2 poller wheel ∷ new_loop 3 poller wheel ∷ [];
  loops = new_loop 1 poller wheel ∷ new_loop 2 poller wheel ∷ new_loop 3 poller wheel ∷ [];
  started = true;
  aborted = false;
}

fair_example :
    (j : ℕ) × (j < length three_loops.loops)
    × ((get_next_loop (after j three_loops)).0 ≡ get_elem? three_loops.loops 2)
fair_example = get_next_loop-fair 2 three_loops (omega arith) (omega arith)

abbrev waiting_pool : EventLoopThreadPool
waiting_pool = set_thread_count 2 (new_pool 8 (new_loop 1 poller wheel))

abbrev no_event : ℕ → EventLoop → EventLoop
no_event n l = l

abbrev no_timer : ℕ → TimerWheel ℕ → TimerWheel ℕ
no_timer callback w = w

abbrev no_init : EventLoop → EventLoop
no_init l = l
