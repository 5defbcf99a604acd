-- ===== src/Reactor/ThreadPool/Start.antt =====
-- Which threads the loops that `start` of hound/src/reactor/thread_pool.cpp makes belong to.
use my_project.Prelude.{
  ℕ, zero, suc, ◌≡◌, ◌≢◌, refl, sym, subst, ap, ◌∙◌, true, false, some, List, [], ◌∷◌, length,
  arith,
}
use mathlib.Core.List.{Memᴰ}
use mathlib.Core.List.Memᴰ.{head, tail}
use my_project.Reactor.TimerWheel.{TimerWheel}
use my_project.Reactor.Poller.{SelectPoller, Selected}
use my_project.Reactor.EventLoop.{EventLoop, new_loop}
use my_project.Reactor.EventLoop.Tasks.{loop_wrong_thread}
use my_project.Reactor.ThreadPool.{EventLoopThreadPool, make_loops, start, worker_thread}

module _ (thread : ℕ) (poller : SelectPoller) (wheel : TimerWheel ℕ) where
  make_loops-Mem :
      (n : ℕ) (l : EventLoop)
      → Memᴰ l (make_loops n thread poller wheel)
      → l ≡ new_loop thread poller wheel
  unfolding make_loops
  make_loops-Mem zero l a = elim a [ ]
  make_loops-Mem (suc n) l (head e) = e
  make_loops-Mem (suc n) l (tail a) = make_loops-Mem n l a

  make_loops-length : (n : ℕ) → length (make_loops n thread poller wheel) ≡ n
  unfolding make_loops
  make_loops-length zero = refl
  make_loops-length (suc n) = ap suc (make_loops-length n)

  -- `start` of a new pool makes as many loops as it has threads, and puts the base loop before them.
  start-loops :
      (p : EventLoopThreadPool)
      → p.started ≡ false
      → p.worker_loops ≡ []
      → ((start thread poller wheel p).loops
          ≡ p.base_loop ∷ (start thread poller wheel p).worker_loops)
        × (length (start thread poller wheel p).worker_loops ≡ p.thread_count)
  unfolding start
  start-loops p s e = ground (arith, make_loops-length p.thread_count)

  -- The loops belong to the thread that calls `start`, and not to the threads that run them: where
  -- a worker's thread, another than the caller's, comes to its loop with an initialization that
  -- does not make the loop its own, the program is ended, whatever the loop was to do.
  worker_thread-aborts :
      (run handle : ℕ → EventLoop → EventLoop) (call : ℕ → TimerWheel ℕ → TimerWheel ℕ)
      (thread_init : EventLoop → EventLoop) (worker fuel : ℕ) (events : List (ℕ × Selected))
      (p : EventLoopThreadPool) (l : EventLoop)
      → p.started ≡ false
      → p.worker_loops ≡ []
      → Memᴰ l (start thread poller wheel p).worker_loops
      → thread ≢ worker
      → ((k : EventLoop) → (thread_init k).thread_id ≡ k.thread_id)
      → worker_thread run handle call (some thread_init) worker fuel events l
        ≡ some (record (thread_init l) { aborted = true })
  unfolding worker_thread start
  worker_thread-aborts run handle call thread_init worker fuel events p l s e a d keeps =
      loop_wrong_thread run handle call worker fuel events (thread_init l)
        (λ q. d (sym own ∙ sym (keeps l) ∙ q))
    where
      started :
          (start thread poller wheel p).worker_loops ≡ make_loops p.thread_count thread poller wheel
      started = ground arith

      own : l.thread_id ≡ thread
      own = ap (λ k. k.thread_id) (make_loops-Mem p.thread_count l (subst (Memᴰ l) started a))
