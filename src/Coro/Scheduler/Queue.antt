-- ===== src/Coro/Scheduler/Queue.antt =====
-- The turns of the loop of `tick`: hound/src/coro/scheduler.cpp.
use my_project.Prelude.{
  ℕ, zero, suc, ◌<◌, ◌≡◌, ◌⊎◌, refl, ap, sym, subst, ◌∙◌, true, false, Bool-cases, ◌==◌, ==_iff,
  Option, some, List, [], ◌∷◌, length, All, inl, inr, arith,
}
use my_project.Coro.Coroutine.{suspended, done, Runtime, enter, resume}
use my_project.Coro.Coroutine.Parked.{IsIdle, Extends}
use my_project.Coro.Coroutine.Resume.{resume-IsResumed, resume-executes}
use my_project.Coro.Scheduler.{Scheduler, is_done, set_current, turn, run_queue}
use my_project.Coro.Scheduler.Ready.{
  Below, IsStopped, IsReady, IsTurned, IsRun, queue-cases, Below-more, not-is_done, is_done-done,
}

-- The thread as `turn` resumes it.
abbrev popped : List ℕ → Runtime Scheduler → Runtime Scheduler
popped queue r = set_current true (record r { rest = record r.rest { ready_queue = queue } })

module _ (execute : ℕ → Runtime Scheduler → Option ℕ × Runtime Scheduler)
    (functions : (position : ℕ) (r : Runtime Scheduler) → Extends r (execute position r).1) where
  turn_done :
      (co : ℕ) (queue : List ℕ) (r : Runtime Scheduler)
      → is_done (r.coroutines co).state ≡ true
      → turn execute co queue r ≡ record r { rest = record r.rest { ready_queue = queue } }
  unfolding turn
  turn_done co queue r e = rw (e, turn) refl

  turn_resumes :
      (co : ℕ) (queue : List ℕ) (r : Runtime Scheduler)
      → is_done (r.coroutines co).state ≡ false
      → (resume execute co (popped queue r)).aborted ≡ false
      → turn execute co queue r ≡ set_current false (resume execute co (popped queue r))
  unfolding turn
  turn_resumes co queue r e a = ground (arith, e, a)

  popped-IsIdle : (queue : List ℕ) (r : Runtime Scheduler) → IsIdle r → IsIdle (popped queue r)
  popped-IsIdle queue r v = record { no_current = v.no_current; alive = v.alive; parked = v.parked }

  module _
      (keeps : (position : ℕ) (r : Runtime Scheduler)
        → Below r.next_id r.rest.ready_queue
        → Below (execute position r).1.next_id (execute position r).1.rest.ready_queue) where
    resumed-IsTurned :
        (co : ℕ) (queue : List ℕ) (r : Runtime Scheduler)
        → IsReady r
        → r.rest.ready_queue ≡ co ∷ queue
        → is_done (r.coroutines co).state ≡ false
        → IsTurned co queue r (turn execute co queue r)
    unfolding enter
    resumed-IsTurned co queue r v e n =
        let below = subst (Below r.next_id) e v.queued in
        let d = not-is_done (r.coroutines co).state n in
        let idle = popped-IsIdle queue r v.idle in
        let h = resume-IsResumed execute functions co (popped queue r) idle below.0 d in
        let (position, rest, next) =
          resume-executes execute functions co (popped queue r) idle below.0 d in
        let b = keeps position (enter co (popped queue r)) below.1 in
        rw (turn_resumes co queue r n h.idle.alive) record {
          only_popped = λ q. absurd (d q);
          is_ready = record {
            idle = record {
              no_current = h.idle.no_current;
              alive = h.idle.alive;
              parked = h.idle.parked;
            };
            no_scheduler = refl;
            queued =
                subst (λ m. Below m (resume execute co (popped queue r)).rest.ready_queue)
                  (sym next)
                  (subst
                    (λ t.
                      Below (execute position (enter co (popped queue r))).1.next_id t.ready_queue)
                    (sym rest) b);
          };
          stopped = h.stopped;
          more = h.more;
          same = h.same;
        }

    -- A turn of the loop of `tick` neither ends the program nor leaves a coroutine running: the
    -- coroutine at the front of the queue is suspended or has ended, no other coroutine is touched,
    -- and the thread is ready for the next turn. Where the coroutine at the front had ended before,
    -- it is not resumed: it leaves the queue, and nothing else is changed.
    pub turn-IsTurned :
        (co : ℕ) (queue : List ℕ) (r : Runtime Scheduler)
        → IsReady r
        → r.rest.ready_queue ≡ co ∷ queue
        → IsTurned co queue r (turn execute co queue r)
    turn-IsTurned co queue r v e = elim (Bool-cases (is_done (r.coroutines co).state)) [
      | inr n ↦ resumed-IsTurned co queue r v e n
      | inl d ↦
          let below = subst (Below r.next_id) e v.queued in
          rw (turn_done co queue r d) record {
            only_popped = λ q. refl;
            is_ready = record {
              idle = record {
                no_current = v.idle.no_current;
                alive = v.idle.alive;
                parked = v.idle.parked;
              };
              no_scheduler = v.no_scheduler;
              queued = below.1;
            };
            stopped = inr (is_done-done (r.coroutines co).state d);
            more = omega arith;
            same = λ x l m. refl;
          }
    ]

    IsTurned-IsStopped :
        (co x : ℕ) (queue : List ℕ) (r r' : Runtime Scheduler)
        → IsTurned co queue r r'
        → x < r.next_id
        → IsStopped r x
        → IsStopped r' x
    IsTurned-IsStopped co x queue r r' t l h = elim (Bool-cases (x == co)) [
      | inl q ↦ subst (IsStopped r') (sym ((==_iff x co).0 q)) t.stopped
      | inr q ↦
          subst (λ c. (c.state ≡ suspended) ⊎ (c.state ≡ done))
            (sym (t.same x l (λ e. ground arith))) h
    ]

  module _
      (quiet : (position : ℕ) (r : Runtime Scheduler)
        → (execute position r).1.rest.ready_queue ≡ r.rest.ready_queue) where
    quiet-keeps :
        (position : ℕ) (r : Runtime Scheduler)
        → Below r.next_id r.rest.ready_queue
        → Below (execute position r).1.next_id (execute position r).1.rest.ready_queue
    quiet-keeps position r b = rw (quiet position r) (
        Below-more r.next_id (execute position r).1.next_id r.rest.ready_queue
          (functions position r).more b)

    turn-ready_queue :
        (co : ℕ) (queue : List ℕ) (r : Runtime Scheduler)
        → IsReady r
        → r.rest.ready_queue ≡ co ∷ queue
        → (turn execute co queue r).rest.ready_queue ≡ queue
    unfolding enter
    turn-ready_queue co queue r v e = elim (Bool-cases (is_done (r.coroutines co).state)) [
      | inl d ↦ rw (turn_done co queue r d) refl
      | inr n ↦
          let below = subst (Below r.next_id) e v.queued in
          let d = not-is_done (r.coroutines co).state n in
          let idle = popped-IsIdle queue r v.idle in
          let h = resume-IsResumed execute functions co (popped queue r) idle below.0 d in
          let (position, rest, next) =
            resume-executes execute functions co (popped queue r) idle below.0 d in
          rw (turn_resumes co queue r n h.idle.alive)
            (ap (λ t. t.ready_queue) rest ∙ quiet position (enter co (popped queue r)))
    ]

    run_queue_nil :
        (fuel : ℕ) (r : Runtime Scheduler)
        → r.rest.ready_queue ≡ []
        → run_queue execute (suc fuel) r ≡ some r
    unfolding run_queue
    run_queue_nil fuel r e = ground (arith, e)

    run_queue_cons :
        (fuel co : ℕ) (queue : List ℕ) (r : Runtime Scheduler)
        → r.rest.ready_queue ≡ co ∷ queue
        → (turn execute co queue r).aborted ≡ false
        → run_queue execute (suc fuel) r ≡ run_queue execute fuel (turn execute co queue r)
    unfolding run_queue
    run_queue_cons fuel co queue r e a = ground (arith, e, a)

    -- Where the functions resume no coroutine and schedule none: the loop of `tick` ends without
    -- ending the program, one turn for each queued coroutine and one more being enough. Then the
    -- queue is empty, and every coroutine that was queued is suspended or has ended.
    pub run_queue_ends :
        (fuel : ℕ) (r : Runtime Scheduler)
        → IsReady r
        → length r.rest.ready_queue < fuel
        → (r' : Runtime Scheduler) × (run_queue execute fuel r ≡ some r') × IsRun r r'
    run_queue_ends zero r v h = absurd (omega arith)
    run_queue_ends (suc fuel) r v h = elim (queue-cases r.rest.ready_queue) [
      | inl e ↦
          let ran : IsRun r r = record {
            is_ready = v;
            emptied = e;
            ran = rw e tt;
            still = λ x l s. s;
          } in
          (r, run_queue_nil fuel r e, ran)
      | inr (co, queue, e) ↦
          let t = turn-IsTurned quiet-keeps co queue r v e in
          let q = turn-ready_queue co queue r v e in
          let (r', ends, k) =
            run_queue_ends fuel (turn execute co queue r) t.is_ready
              (omega (arith, ap length q, ap length e)) in
          let l = (subst (Below r.next_id) e v.queued).0 in
          let ran : All (IsStopped r') (co ∷ queue) =
            (k.still co (omega (arith, l, t.more)) t.stopped, subst (All (IsStopped r')) q k.ran) in
          let still : (x : ℕ) → x < r.next_id → IsStopped r x → IsStopped r' x = λ x m s.
            k.still x (omega (arith, m, t.more))
              (IsTurned-IsStopped quiet-keeps co x queue r (turn execute co queue r) t m s) in
          let is_run : IsRun r r' = record {
            is_ready = k.is_ready;
            emptied = k.emptied;
            ran = subst (All (IsStopped r')) (sym e) ran;
            still = still;
          } in
          (r', run_queue_cons fuel co queue r e t.is_ready.idle.alive ∙ ends, is_run)
    ]
