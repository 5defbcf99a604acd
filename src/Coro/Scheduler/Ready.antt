-- ===== src/Coro/Scheduler/Ready.antt =====
-- The thread between the turns of the loop of `tick`: hound/src/coro/scheduler.cpp.
use my_project.Prelude.{
  ℕ, ◌<◌, ◌≤◌, ◌≡◌, ◌≢◌, ◌⊎◌, refl, true, false, List, [], ◌∷◌, All, inl, inr, arith,
}
use my_project.Coro.Coroutine.{State, ready, running, suspended, done, Runtime}
use my_project.Coro.Coroutine.Parked.{IsIdle}
use my_project.Coro.Scheduler.{Scheduler, is_done}

abbrev pub Below : ℕ → List ℕ → Type 0
Below n = All (λ co. co < n)

-- A coroutine that gave the control back.
abbrev pub IsStopped : Runtime Scheduler → ℕ → Type 0
IsStopped r co = ((r.coroutines co).state ≡ suspended) ⊎ ((r.coroutines co).state ≡ done)

-- The thread between two turns of the loop of `tick`.
pub record IsReady (r : Runtime Scheduler) : Type 0 where
  pub idle : IsIdle r
  pub no_scheduler : r.rest.is_current ≡ false
  pub queued : Below r.next_id r.rest.ready_queue

-- What a turn leaves: the thread is ready for the next one, and the coroutine of the turn does
-- not run. Where it had ended before, nothing but the queue is changed.
pub record IsTurned (co : ℕ) (queue : List ℕ) (r r' : Runtime Scheduler) : Type 0 where
  pub only_popped :
      (r.coroutines co).state ≡ done
      → r' ≡ record r { rest = record r.rest { ready_queue = queue } }
  pub is_ready : IsReady r'
  pub stopped : IsStopped r' co
  pub more : r.next_id ≤ r'.next_id
  pub same : (x : ℕ) → x < r.next_id → x ≢ co → r'.coroutines x ≡ r.coroutines x

-- What the loop of `tick` leaves.
pub record IsRun (r r' : Runtime Scheduler) : Type 0 where
  pub is_ready : IsReady r'
  pub emptied : r'.rest.ready_queue ≡ []
  pub ran : All (IsStopped r') r.rest.ready_queue
  pub still : (x : ℕ) → x < r.next_id → IsStopped r x → IsStopped r' x

pub queue-cases : (l : List ℕ) → (l ≡ []) ⊎ ((co : ℕ) × (rest : List ℕ) × (l ≡ co ∷ rest))
queue-cases [] = inl refl
queue-cases (co ∷ rest) = inr (co, rest, refl)

pub Below-more : (m n : ℕ) (l : List ℕ) → m ≤ n → Below m l → Below n l
Below-more m n [] h b = b
Below-more m n (co ∷ l) h b = (omega (arith, b.0), Below-more m n l h b.1)

pub not-is_done : (st : State) → is_done st ≡ false → st ≢ done
not-is_done st h e = ground (arith, h, e)

pub is_done-done : (st : State) → is_done st ≡ true → st ≡ done
is_done-done ready h = ground (arith, h)
is_done-done running h = ground (arith, h)
is_done-done suspended h = ground (arith, h)
is_done-done done h = refl
