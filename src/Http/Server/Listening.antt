-- ===== src/Http/Server/Listening.antt =====
-- The listening socket of hound/src/http/http_server.cpp: `start` and `stop`, over the sockets and
-- the poller.
-- The socket listen_sock_ is at the place 0, the result of create_tcp at the place 1. What the
-- system calls give is an argument. The options of the socket are left out. `aborted` says that
-- LOG_FATAL ended the program.
pub mod Started
pub mod Restored
pub mod Tests
use my_project.Prelude.{ℕ, suc, if◌then◌else◌, Bool, true, false, Option, none, some, Bytes}
use my_project.Util.Result.{Result, value, error, Outcome}
use my_project.Io.Socket
use my_project.Io.Socket.{Sockets, create_tcp, move_assign, set_nonblocking, bind, listen, destroy}
use my_project.Reactor.Poller
use my_project.Reactor.Poller.{
  SelectPoller, Callback, read_callback, new_channel, write_channel, enable_reading, disable_all,
}

-- What `::socket`, the two calls of fcntl, `::bind` and `::listen` give.
pub record Replies : Type 0 where
  pub socket : Outcome
  pub get : Outcome
  pub set : Outcome
  pub bound : Outcome
  pub listened : Outcome

pub record Listener : Type 0 where
  pub sockets : Sockets
  pub poller : SelectPoller
  pub listen_channel : Option ℕ
  pub next_channel : ℕ
  pub running : Bool
  pub aborted : Bool

abbrev pub fatal : Listener → Listener
fatal t = record t { aborted = true }

abbrev pub only_read : Callback → Bool
only_read read_callback = true
only_read _ = false

-- The destruction of the channel that `listen_channel_` has, if any
unfoldable pub reset_channel : Option ℕ → SelectPoller → SelectPoller
reset_channel none p = p
reset_channel (some c) p = Poller.remove c p

-- The part of `start` that makes the accept channel, for the descriptor fd
unfoldable pub watch : ℕ → Listener → Listener
watch fd t =
    let c = t.next_channel in
    let p = reset_channel t.listen_channel t.poller in
    record t {
      poller =
          enable_reading c
            (record p { store = write_channel c (new_channel fd only_read) p.store });
      listen_channel = some c;
      next_channel = suc c;
      running = true;
    }

-- `start()` behind the creation of the socket
unfoldable pub set_up : Bytes → Replies → ℕ → Listener → Listener
set_up addr r fd t =
    let opened = record t { sockets = set_nonblocking true fd r.get r.set t.sockets } in
    elim (bind addr r.bound) [
      | error e msg ↦ fatal opened
      | value u ↦ elim (listen r.listened) [
        | error e msg ↦ fatal opened
        | value v ↦ watch fd opened
      ]
    ]

-- The end of `start`, where `result` is destroyed
unfoldable pub leave : Listener → Listener
leave t = if t.aborted then t else record t { sockets = destroy 1 t.sockets }

-- `start()`
unfoldable pub start : Bytes → Replies → Listener → Listener
start addr r t =
    let (made, sockets) = create_tcp false 1 r.socket t.sockets in
    let moved = record t { sockets = move_assign 0 1 sockets } in
    if t.running then t else elim made [
      | error e msg ↦ fatal (record t { sockets = sockets })
      | value a ↦ elim (moved.sockets.fds 0) [
        | none ↦ moved
        | some fd ↦ leave (set_up addr r fd moved)
      ]
    ]

-- `stop()` but for the connections
unfoldable pub stop : Listener → Listener
stop t =
    if t.running
    then elim t.listen_channel [
      | none ↦ t
      | some c ↦ record t {
        running = false;
        poller = Poller.remove c (disable_all c t.poller);
        listen_channel = none;
        sockets = Socket.close 0 t.sockets;
      }
    ]
    else t
