-- ===== src/Http/Server/Closing.antt =====
-- `on_close`, `on_accept` and `refresh_timeout` of hound/src/http/http_server.cpp.
use my_project.Prelude.{
  ℕ, suc, ◌+◌, ◌<◌, ◌==◌, ◌≡◌, ap, Bool, true, false, Option, some, List, Bytes, arith,
}
use my_project.Reactor.TimerWheel.{TimerWheel, add_timer, insert_timer}
use my_project.Reactor.TimerWheel.Ids.{IsValid}
use my_project.Reactor.TimerWheel.Cancel.{cancel-add_timer}
use my_project.Http.Server.{
  HttpServer, Connection, refresh_timeout, on_accept, on_close, on_message,
}

pub on_close-written : (c : Connection) → (on_close c).written ≡ c.written
unfolding on_close
on_close-written c = ground arith

pub on_close-closed : (c : Connection) → (on_close c).closed ≡ true
unfolding on_close
on_close-closed c = ground arith

on_close_closed : (c : Connection) → c.closed ≡ true → on_close c ≡ c
unfolding on_close
on_close_closed c h = ground arith

module _ (order : List (Bytes × Bytes) → List (Bytes × Bytes)) (write : Bytes → Bool)
    (file : Bytes → Option Bytes) (server : HttpServer) where
  on_message_closed :
      (fuel now : ℕ) (read : ℕ → Option Bytes) (c : Connection)
      → c.closed ≡ true
      → on_message order write file server fuel now read c ≡ some c
  unfolding on_message
  on_message_closed fuel now read c h = ground arith

  -- A closed connection stays as it is: closing it again queues no second deletion and cancels no
  -- timer, and a message that still comes for it is neither read nor answered.
  on_message-on_close :
      (fuel now : ℕ) (read : ℕ → Option Bytes) (c : Connection)
      → (on_close (on_close c) ≡ on_close c)
        × (on_message order write file server fuel now read (on_close c) ≡ some (on_close c))
  on_message-on_close fuel now read c = (
    on_close_closed (on_close c) (on_close-closed c),
    on_message_closed fuel now read (on_close c) (on_close-closed c),
  )

-- Accepting a connection on a well-formed wheel and closing it leaves the wheel's timers as they
-- were: no timer of the connection stays behind.
on_close-on_accept :
    (now fd : ℕ) (w : TimerWheel ℕ)
    → IsValid w
    → 0 < w.next_timer_id
    → (on_close (on_accept now fd w)).wheel ≡ record w { next_timer_id = suc w.next_timer_id }
unfolding on_close on_accept refresh_timeout add_timer
on_close-on_accept now fd w v h =
    let e : (w.next_timer_id == 0) ≡ false = ground arith in
    rw e (cancel-add_timer (now + 30000000) fd w v)

-- Refreshing the timeout again puts the new timer in place of the old one: the number of timers
-- in a well-formed wheel does not grow.
refresh_timeout_twice :
    (now later : ℕ) (c : Connection)
    → c.timeout_timer ≡ 0
    → IsValid c.wheel
    → 0 < c.wheel.next_timer_id
    → (refresh_timeout later (refresh_timeout now c)).wheel.timer_count
      ≡ (refresh_timeout now c).wheel.timer_count
unfolding refresh_timeout add_timer insert_timer
refresh_timeout_twice now later c z v h =
    let e : (c.wheel.next_timer_id == 0) ≡ false = ground arith in
    let q = cancel-add_timer (now + 30000000) c.fd c.wheel v in
    rw (z, e) (ap suc (ap (λ w. w.timer_count) q))
