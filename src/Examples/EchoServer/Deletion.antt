-- ===== src/Examples/EchoServer/Deletion.antt =====
-- Which connections of hound/examples/echo_server_reactor.cpp the queued tasks delete.
use my_project.Prelude.{
  ℕ, ◌≡◌, refl, ap, ◌∙◌, ◌==◌, ◌||◌, ◌&&◌, if◌then◌else◌, Bool, true, false, Option, none, some,
  Option-cases, List, [], ◌∷◌, ◌++◌, Bytes, length, inl, inr, arith,
}
use my_project.Prelude.FdMap.{find, find-erase, is_pending, is_pending-append}
use my_project.Reactor.Poller.{
  Callback, read_callback, write_callback, close_callback, error_callback, Channel, handle_event,
  call_if,
}
use my_project.Reactor.EventLoop.{EventLoop, run_after, cancel_timer, take_tasks}
use my_project.Reactor.EventLoop.Tasks.{queue_in_loop-pending_tasks}
use my_project.Examples.EchoServer.{
  EchoServer, stop_timer, refresh_timeout, close_connection, on_close, echo, on_message, call,
  call_all, erase_task, run_tasks, do_pending_tasks,
}
use my_project.Examples.EchoServer.Handlers.{call-Kept, call_all-Kept}
use my_project.Examples.EchoServer.Lifecycle.{
  IsValid, is_some, Kept-IsValid, do_pending_tasks-IsValid,
}

-- The call queued a deletion of the descriptor where b says so, and no other.
record Queued (fd : ℕ) (b : Bool) (s t : EchoServer) : Type 0 where
  pending :
      (j : ℕ)
      → is_pending j t.loop.pending_tasks ≡ (is_pending j s.loop.pending_tasks || (b && (fd == j)))

Queued-none : (fd : ℕ) (s : EchoServer) → Queued fd false s s
Queued-none fd s = record { pending = λ j. ground arith }

stop_timer-pending_tasks :
    (timer : ℕ) (l : EventLoop) → (stop_timer timer l).pending_tasks ≡ l.pending_tasks
unfolding stop_timer cancel_timer
stop_timer-pending_tasks timer l = ground arith

pub close_connection-pending_tasks :
    (a : ℕ) (s : EchoServer) → (close_connection a s).loop.pending_tasks ≡ s.loop.pending_tasks
unfolding close_connection
close_connection-pending_tasks a s =
    ground (arith, stop_timer-pending_tasks (s.objects a).timeout_timer s.loop)

refresh_timeout-pending_tasks :
    (now a : ℕ) (s : EchoServer)
    → (refresh_timeout now a s).loop.pending_tasks ≡ s.loop.pending_tasks
unfolding refresh_timeout run_after
refresh_timeout-pending_tasks now a s = stop_timer-pending_tasks (s.objects a).timeout_timer s.loop

on_close-Queued :
    (fd a : ℕ) (s : EchoServer) → find fd s.connections ≡ some a → Queued fd true s (on_close fd s)
unfolding on_close
on_close-Queued fd a s e =
    rw (e, on_close)
      record {
        pending = λ j. ground (
          arith,
          queue_in_loop-pending_tasks (close_connection a s).loop.thread_id fd
              (close_connection a s).loop,
          close_connection-pending_tasks a s,
          is_pending-append j s.loop.pending_tasks (fd ∷ []),
        );
      }

-- The call queued a deletion of the descriptor, or none.
abbrev Queues : ℕ → EchoServer → EchoServer → Type 0
Queues fd s t = (b : Bool) × Queued fd b s t

either-Queues :
    (b : Bool) (fd : ℕ) (s x y : EchoServer)
    → Queues fd s x
    → Queues fd s y
    → Queues fd s (if b then x else y)
either-Queues true fd s x y kx ky = kx
either-Queues false fd s x y kx ky = ky

Queued-trans :
    (fd : ℕ) (b c : Bool) (s t u : EchoServer)
    → Queued fd b s t
    → Queued fd c t u
    → Queued fd (b || c) s u
Queued-trans fd b c s t u k m = record { pending = λ j. ground (arith, k.pending j, m.pending j) }

abbrev pub is_closing : Callback → Bool
is_closing close_callback = true
is_closing error_callback = true
is_closing _ = false

abbrev pub has_closing : List Callback → Bool
has_closing [] = false
has_closing (k ∷ ks) = is_closing k || has_closing ks

module _ (write : Bytes → Bool) (now fd : ℕ) (read : ℕ → Option Bytes) where
  echo-Queues :
      (a : ℕ) (bytes : Bytes) (s : EchoServer)
      → find fd s.connections ≡ some a
      → Queues fd s (echo write now fd a bytes s)
  unfolding echo
  echo-Queues a bytes s e =
      let logged = record s { echoed = s.echoed ++ ((s.objects a).fd, bytes) ∷ [] } in
      let refreshed : Queued fd false s (refresh_timeout now a logged) = record {
        pending = λ j. ground (arith, refresh_timeout-pending_tasks now a logged);
      } in
      either-Queues (write bytes) fd s _ _ (false, refreshed) (true, on_close-Queued fd a s e)

  on_message-Queues :
      (a : ℕ) (s : EchoServer)
      → find fd s.connections ≡ some a
      → Queues fd s (on_message write now fd read s)
  unfolding on_message
  on_message-Queues a s e = elim (Option-cases (read 4095)) [
    | inl q ↦
        rw (e, on_message)
          (rw q (
            either-Queues (s.objects a).closed fd s _ _ (false, Queued-none fd s)
              (true, on_close-Queued fd a s e)))
    | inr (bytes, q) ↦
        rw (e, on_message)
          (rw q (
            either-Queues (s.objects a).closed fd s _ _ (false, Queued-none fd s)
              (either-Queues (length bytes == 0) fd s _ _ (true, on_close-Queued fd a s e)
                (echo-Queues a bytes s e))))
  ]

  call-Queued :
      (k : Callback) (a : ℕ) (s : EchoServer)
      → find fd s.connections ≡ some a
      → (b : Bool) × ((is_closing k || b) ≡ b) × Queued fd b s (call write now fd read k s)
  unfolding call
  call-Queued read_callback a s e = let (b, q) = on_message-Queues a s e in (b, refl, q)
  call-Queued write_callback a s e = (false, refl, Queued-none fd s)
  call-Queued close_callback a s e = (true, refl, on_close-Queued fd a s e)
  call-Queued error_callback a s e = (true, refl, on_close-Queued fd a s e)

  call_all-Queued :
      (ks : List Callback) (a : ℕ) (s : EchoServer)
      → find fd s.connections ≡ some a
      → (b : Bool) × ((has_closing ks || b) ≡ b) × Queued fd b s (call_all write now fd read ks s)
  unfolding call_all
  call_all-Queued [] a s e = (false, refl, Queued-none fd s)
  call_all-Queued (k ∷ ks) a s e =
      let (b, hb, q) = call-Queued k a s e in
      let t = call write now fd read k s in
      let (c, hc, r) =
        call_all-Queued ks a t
          (ap (find fd) (call-Kept write now fd read k s).same_connections ∙ e) in
      (b || c, ground (arith, hb, hc), Queued-trans fd b c s t _ q r)

erase_task-find :
    (j fd : ℕ) (s : EchoServer)
    → find j (erase_task fd s).connections ≡ (if j == fd then none else find j s.connections)
unfolding erase_task
erase_task-find j fd s = elim (Option-cases (find fd s.connections)) [
  | inl e ↦ ground (arith, e)
  | inr (a, e) ↦ ground (arith, e, find-erase j fd s.connections)
]

run_tasks-find :
    (j : ℕ) (fds : List ℕ) (s : EchoServer)
    → find j (run_tasks fds s).connections
      ≡ (if is_pending j fds then none else find j s.connections)
unfolding run_tasks
run_tasks-find j [] s = refl
run_tasks-find j (fd ∷ fds) s =
    ground (arith, run_tasks-find j fds (erase_task fd s), erase_task-find j fd s)

do_pending_tasks-find :
    (j : ℕ) (s : EchoServer)
    → find j (do_pending_tasks s).connections
      ≡ (if is_pending j s.loop.pending_tasks then none else find j s.connections)
unfolding do_pending_tasks take_tasks
do_pending_tasks-find j s = run_tasks-find j s.loop.pending_tasks _

error-has_closing :
    (alive : Bool) (ch : Channel)
    → ch.revents.error ≡ true
    → ch.tied ≡ false
    → ch.has_callback close_callback ≡ true
    → has_closing (handle_event alive ch).0 ≡ true
unfolding handle_event call_if
error-has_closing alive ch error untied closes = ground (arith, error, untied, closes)

-- In a valid server whose connection's channel has an error to handle: when the channel has called
-- its callbacks, the close callback and maybe others, and the loop has run its tasks, the
-- connection is deleted and its descriptor closed, once, whatever the callbacks did; and so is
-- each connection whose deletion was queued before. All other connections stay, and stay open.
pub error_erases :
    (write : Bytes → Bool) (now fd : ℕ) (read : ℕ → Option Bytes) (alive : Bool) (ch : Channel)
    (a j : ℕ) (s : EchoServer)
    → IsValid s
    → find fd s.connections ≡ some a
    → ch.revents.error ≡ true
    → ch.tied ≡ false
    → ch.has_callback close_callback ≡ true
    → let t = do_pending_tasks (call_all write now fd read (handle_event alive ch).0 s) in
      let left =
        if is_pending j s.loop.pending_tasks || (fd == j) then none else find j s.connections in
      (find j t.connections ≡ left) × (t.is_open j ≡ is_some left)
error_erases write now fd read alive ch a j s v e error untied closes =
    let ks = (handle_event alive ch).0 in
    let called = call_all write now fd read ks s in
    let (b, hb, q) = call_all-Queued write now fd read ks a s e in
    let k = call_all-Kept write now fd read ks s in
    let has = error-has_closing alive ch error untied closes in
    let gone : find j (do_pending_tasks called).connections
        ≡ (if is_pending j s.loop.pending_tasks || (fd == j) then none else find j s.connections) =
      do_pending_tasks-find j called ∙ ground (arith, q.pending j, hb, has, k.same_connections) in
    let valid = do_pending_tasks-IsValid called (Kept-IsValid s called k v) in
    (gone, valid.open_ones j ∙ ap is_some gone)
