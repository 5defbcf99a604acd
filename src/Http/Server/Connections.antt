-- ===== src/Http/Server/Connections.antt =====
-- The connections of the server in hound/src/http/http_server.cpp: the map from descriptors, and
-- the deletions that closing queues in the loop. The listening socket and its channel are left out.
pub mod Kept
pub mod Erased
pub mod Handlers
pub mod Tests
use my_project.Prelude.{
  ℕ, zero, suc, ◌==◌, if◌then◌else◌, Bool, true, false, Option, none, some, List, [], ◌∷◌, ◌++◌,
  replicate, Bytes,
}
use my_project.Prelude.FdMap.{find, assign, erase}
use my_project.Reactor.TimerWheel.{TimerWheel, cancel}
use my_project.Http.Server.{Handler, HttpServer, Connection, on_accept, on_close, on_message}

-- `connections_` with the loop's timers, the descriptors of the deletions that wait in the loop,
-- the descriptors that the sockets hold open, and `running_`.
pub record Connections : Type 0 where
  pub connections : List (ℕ × Connection)
  pub erases : List ℕ
  pub is_open : ℕ → Bool
  pub wheel : TimerWheel ℕ
  pub running : Bool

abbrev pub set_open : ℕ → Bool → (ℕ → Bool) → ℕ → Bool
set_open fd x f k = if k == fd then x else f k

-- A connection as a handler finds it: with the loop's timers, and no deletion queued by the call.
abbrev pub entered : Connection → Connections → Connection
entered c t = record c { wheel = t.wheel; erases = 0 }

-- What the handler's call on a connection left, put back.
unfoldable pub put_back : ℕ → Connection → Connections → Connections
put_back fd c t = record t {
  connections = assign fd c t.connections;
  erases = t.erases ++ replicate c.erases fd;
  wheel = c.wheel;
}

-- `on_accept()` where the system gave the socket fd
unfoldable pub accept_connection : ℕ → ℕ → Connections → Connections
accept_connection now fd t =
    put_back fd (on_accept now fd t.wheel) (record t { is_open = set_open fd true t.is_open })

-- `on_close(fd)`
unfoldable pub close_connection : ℕ → Connections → Connections
close_connection fd t = elim (find fd t.connections) [
  | none ↦ t
  | some c ↦ put_back fd (on_close (entered c t)) t
]

-- The task that `on_close` queued: the connection's socket is closed with it.
unfoldable pub erase_connection : ℕ → Connections → Connections
erase_connection fd t = record t {
  connections = erase fd t.connections;
  is_open = elim (find fd t.connections) [
    | none ↦ t.is_open
    | some c ↦ set_open fd false t.is_open
  ];
}

unfoldable pub erase_all : List ℕ → Connections → Connections
erase_all [] t = t
erase_all (fd ∷ fds) t = erase_all fds (erase_connection fd t)

-- The loop runs the queued deletions.
unfoldable pub run_erases : Connections → Connections
run_erases t = record (erase_all t.erases t) { erases = [] }

-- The loop of `stop()` over the connections.
unfoldable pub stop_all : List (ℕ × Connection) → Connections → Connections
stop_all [] t = t
stop_all ((fd, c) ∷ rest) t =
    let timers = if c.timeout_timer == 0 then t.wheel else cancel c.timeout_timer t.wheel in
    stop_all rest (record t { wheel = timers; is_open = set_open fd false t.is_open })

-- `stop()`
unfoldable pub stop : Connections → Connections
stop t =
    let stopped = stop_all t.connections (record t { running = false }) in
    if t.running then record stopped { connections = [] } else t

-- `start()` where the listening socket can be made
unfoldable pub start : Connections → Connections
start t = record t { running = true }

module _ (order : List (Bytes × Bytes) → List (Bytes × Bytes)) (write : Bytes → Bool)
    (file : Bytes → Option Bytes) (server : HttpServer) where
  -- `on_message(fd)`
  unfoldable pub message : ℕ → ℕ → (ℕ → Option Bytes) → ℕ → Connections → Option Connections
  message fuel now read fd t = elim (find fd t.connections) [
    | none ↦ some t
    | some c ↦ elim (on_message order write file server fuel now read (entered c t)) [
      | none ↦ none
      | some c' ↦ some (put_back fd c' t)
    ]
  ]
