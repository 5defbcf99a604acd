-- ===== src/Examples/EchoServer.antt =====
-- hound/examples/echo_server_reactor.cpp: an echo server over the event loop.
-- A Connection object is its address, which is that of its channel in the poller's store too; a
-- timer's callback is the address of its connection, and a queued task the descriptor that it
-- deletes. The handlers run in the loop's thread. What the system gives is an argument: `read` the
-- bytes that are there, none on an error, and `write` whether the system takes bytes. The options
-- of the sockets, and the messages, are left out.
pub mod Handlers
pub mod Lifecycle
pub mod Deletion
pub mod Echo
pub mod Tests
use my_project.Prelude.{
  ℕ, suc, ◌+◌, ◌==◌, if◌then◌else◌, Bool, true, false, Option, none, some, List, [], ◌∷◌, ◌++◌,
  Bytes, length, take,
}
use my_project.Prelude.FdMap.{find, assign, erase}
use my_project.Util.Result.{value, error}
use my_project.Io.Socket.{create_tcp, move_assign}
use my_project.Http.Server.Listening.{Replies, Listener, fatal, leave, set_up}
use my_project.Reactor.Poller
use my_project.Reactor.Poller.{
  SelectPoller, Callback, read_callback, write_callback, new_channel, write_channel,
}
use my_project.Reactor.EventLoop.{EventLoop, run_after, cancel_timer, queue_in_loop, take_tasks}

pub record Connection : Type 0 where
  pub fd : ℕ
  pub closed : Bool
  pub timeout_timer : ℕ

-- The constructor, whose steps are those of `start` of the HTTP server: the socket is made, set not
-- to block, bound and let listen, and its channel watches for reads.
unfoldable pub construct : Bytes → Replies → Listener → Listener
construct addr r t =
    let (made, sockets) = create_tcp false 1 r.socket t.sockets in
    let moved = record t { sockets = move_assign 0 1 sockets } in
    elim made [
      | error e msg ↦ fatal (record t { sockets = sockets })
      | value a ↦ elim (moved.sockets.fds 0) [
        | none ↦ moved
        | some fd ↦ leave (set_up addr r fd moved)
      ]
    ]

-- `loop_` and `connections_`, with the objects on the heap, the descriptors that are open, and
-- what was written, with the descriptor of the socket that it was written to.
pub record EchoServer : Type 0 where
  pub loop : EventLoop
  pub connections : List (ℕ × ℕ)
  pub objects : ℕ → Connection
  pub next_object : ℕ
  pub is_open : ℕ → Bool
  pub echoed : List (ℕ × Bytes)

abbrev pub write_object : ℕ → Connection → EchoServer → EchoServer
write_object a c s = record s { objects = λ x. if x == a then c else s.objects x }

abbrev pub set_open : ℕ → Bool → (ℕ → Bool) → ℕ → Bool
set_open fd x f k = if k == fd then x else f k

abbrev pub with_poller : (SelectPoller → SelectPoller) → EchoServer → EchoServer
with_poller f s = record s { loop = record s.loop { poller = f s.loop.poller } }

abbrev pub not_write : Callback → Bool
not_write write_callback = false
not_write _ = true

-- `if (timeout_timer) loop->cancel_timer(timeout_timer)`
unfoldable pub stop_timer : ℕ → EventLoop → EventLoop
stop_timer timer l = if timer == 0 then l else cancel_timer timer l

-- `refresh_timeout(loop)` of the connection a at the time `now`: 10 seconds from it
unfoldable pub refresh_timeout : ℕ → ℕ → EchoServer → EchoServer
refresh_timeout now a s =
    let c = s.objects a in
    let (timer, loop) = run_after now 10000000 a (stop_timer c.timeout_timer s.loop) in
    write_object a (record c { timeout_timer = timer }) (record s { loop = loop })

-- `close_connection(loop)` of the connection a
unfoldable pub close_connection : ℕ → EchoServer → EchoServer
close_connection a s =
    let c = s.objects a in
    if c.closed
    then s
    else with_poller (Poller.disable_all a) (
        write_object a (record c { closed = true })
          (record s { loop = stop_timer c.timeout_timer s.loop }))

-- The callback of the timer of `refresh_timeout`
unfoldable pub timed_out : ℕ → EchoServer → EchoServer
timed_out a s = close_connection a s

-- `on_accept()` where the system gave the socket fd
unfoldable pub accept_connection : ℕ → ℕ → EchoServer → EchoServer
accept_connection now fd s =
    let a = s.next_object in
    let made =
      write_object a record { fd = fd; closed = false; timeout_timer = 0 }
        (record s {
          next_object = suc a;
          is_open = set_open fd true s.is_open;
          connections = assign fd a s.connections;
        }) in
    let watched =
      with_poller
        (λ p.
          Poller.enable_reading a
            (record p { store = write_channel a (new_channel fd not_write) p.store }))
        made in
    refresh_timeout now a watched

-- `on_accept()`
unfoldable pub on_accept : ℕ → Option ℕ → EchoServer → EchoServer
on_accept now none s = s
on_accept now (some fd) s = accept_connection now fd s

-- `on_close(fd)`
unfoldable pub on_close : ℕ → EchoServer → EchoServer
on_close fd s = elim (find fd s.connections) [
  | none ↦ s
  | some a ↦
      let shut = close_connection a s in
      record shut { loop = queue_in_loop shut.loop.thread_id fd shut.loop }
]

-- The deletion of the connection a: its channel is removed, its socket closed.
unfoldable pub delete_connection : ℕ → EchoServer → EchoServer
delete_connection a s = record (with_poller (Poller.remove a) s) {
  is_open = set_open (s.objects a).fd false s.is_open;
}

-- The task that `on_close` queues
unfoldable pub erase_task : ℕ → EchoServer → EchoServer
erase_task fd s = elim (find fd s.connections) [
  | none ↦ s
  | some a ↦ record (delete_connection a s) { connections = erase fd s.connections }
]

unfoldable pub run_tasks : List ℕ → EchoServer → EchoServer
run_tasks [] s = s
run_tasks (fd ∷ fds) s = run_tasks fds (erase_task fd s)

-- The loop runs the queued tasks.
unfoldable pub do_pending_tasks : EchoServer → EchoServer
do_pending_tasks s =
    let (tasks, taken) = take_tasks s.loop in
    let done = run_tasks tasks (record s { loop = taken }) in
    record done { loop = record done.loop { calling_pending_tasks = false } }

-- `~EchoServer()`: the loop over the connections
unfoldable pub delete_all : List (ℕ × ℕ) → EchoServer → EchoServer
delete_all [] s = s
delete_all ((fd, a) ∷ rest) s = delete_all rest (delete_connection a s)

unfoldable pub destroy : EchoServer → EchoServer
destroy s = delete_all s.connections s

module _ (write : Bytes → Bool) where
  -- `on_message(fd)` behind the read
  unfoldable pub echo : ℕ → ℕ → ℕ → Bytes → EchoServer → EchoServer
  echo now fd a bytes s =
      if write bytes
      then refresh_timeout now a (record s { echoed = s.echoed ++ ((s.objects a).fd, bytes) ∷ [] })
      else on_close fd s

  -- `on_message(fd)` at the time `now`
  unfoldable pub on_message : ℕ → ℕ → (ℕ → Option Bytes) → EchoServer → EchoServer
  on_message now fd read s = elim (find fd s.connections) [
    | none ↦ s
    | some a ↦ if (s.objects a).closed then s else elim (read 4095) [
      | none ↦ on_close fd s
      | some bytes ↦ if length bytes == 0 then on_close fd s else echo now fd a bytes s
    ]
  ]

  -- What the channel of a descriptor calls of `handle_event`
  unfoldable pub call : ℕ → ℕ → (ℕ → Option Bytes) → Callback → EchoServer → EchoServer
  call now fd read k s = elim k [
    | read_callback ↦ on_message now fd read s
    | write_callback ↦ s
    | Callback.close_callback ↦ on_close fd s
    | Callback.error_callback ↦ on_close fd s
  ]

  unfoldable pub call_all : ℕ → ℕ → (ℕ → Option Bytes) → List Callback → EchoServer → EchoServer
  call_all now fd read [] s = s
  call_all now fd read (k ∷ ks) s = call_all now fd read ks (call now fd read k s)
