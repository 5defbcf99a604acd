-- ===== src/Http/Server.antt =====
-- hound/src/http/http_server.h and http_server.cpp: one connection of the server, from the bytes
-- that its socket gives to the responses that its socket is handed.
-- What is not in the repository is a parameter: `order` is the order of an unordered map, `write`
-- says whether the system takes a response, `file` is the file system. A handler is a function
-- from the request and the response that it fills in. The timers' callbacks are descriptors.
pub mod Closing
pub mod Serving
pub mod Fuel
pub mod Connections
pub mod Listening
pub mod Routes
pub mod Tests
use my_project.Prelude.{
  ℕ, zero, suc, ◌+◌, ◌==◌, ltb, if◌then◌else◌, Bool, true, false, not, ◌&&◌, ◌||◌, Option, none,
  some, List, [], ◌∷◌, ◌++◌, Bytes, codes, length,
}
use my_project.Io.Buffer.{Buffer, empty_buffer, begin_write, fill, has_written}
use my_project.Reactor.TimerWheel.{TimerWheel, add_timer, cancel}
use my_project.Http.Request.{HttpRequest, Method, get}
use my_project.Http.Response.{
  HttpResponse, empty_response, ok, not_found, serialize, set_keep_alive,
}
use my_project.Http.Router.{Node, route}
use my_project.Http.Parser.{State, done, error, HttpParser, new_parser}
use my_project.Http.Parser.Machine.{parse}

abbrev pub Handler : Type 0
Handler = HttpRequest → HttpResponse → HttpResponse

pub record HttpServer : Type 0 where
  pub router : Option (Node Handler)
  pub static_dir : Bytes

-- A connection with the loop's timers, `watching` where its channel watches for reads,
-- `erases` the deletions queued in the loop, and `written` what its socket was handed.
pub record Connection : Type 0 where
  pub fd : ℕ
  pub read_buf : Buffer
  pub parser : HttpParser
  pub closed : Bool
  pub timeout_timer : ℕ
  pub watching : Bool
  pub erases : ℕ
  pub written : List Bytes
  pub wheel : TimerWheel ℕ

-- `refresh_timeout` at the time `now`: 30 seconds from it.
unfoldable pub refresh_timeout : ℕ → Connection → Connection
refresh_timeout now c =
    let stopped = if c.timeout_timer == 0 then c.wheel else cancel c.timeout_timer c.wheel in
    let (timer, started) = add_timer (now + 30000000) c.fd stopped in
    record c { timeout_timer = timer; wheel = started }

-- `on_accept` where the listening socket gave the socket `fd`
unfoldable pub on_accept : ℕ → ℕ → TimerWheel ℕ → Connection
on_accept now fd wheel = refresh_timeout now record {
  fd = fd;
  read_buf = empty_buffer;
  parser = new_parser;
  closed = false;
  timeout_timer = 0;
  watching = true;
  erases = 0;
  written = [];
  wheel = wheel;
}

-- `on_close(fd)`
unfoldable pub on_close : Connection → Connection
on_close c = if c.closed then c else record c {
  closed = true;
  wheel = if c.timeout_timer == 0 then c.wheel else cancel c.timeout_timer c.wheel;
  watching = false;
  erases = suc c.erases;
}

abbrev is_get : Method → Bool
is_get get = true
is_get _ = false

unfoldable pub has_error : HttpParser → Bool
has_error p = elim p.state [ error ↦ true | _ ↦ false ]

unfoldable pub is_done : HttpParser → Bool
is_done p = elim p.state [ done ↦ true | _ ↦ false ]

module _ (order : List (Bytes × Bytes) → List (Bytes × Bytes)) (write : Bytes → Bool)
    (file : Bytes → Option Bytes) (server : HttpServer) where
  -- `send_response(conn, resp)`
  unfoldable pub send_response : HttpResponse → Connection → Connection
  send_response resp c =
      let raw = serialize order resp in
      if write raw then record c { written = c.written ++ raw ∷ [] } else on_close c

  -- The response that `handle_request` makes, before keep-alive is set.
  unfoldable pub respond : HttpRequest → HttpResponse
  respond req =
      let (handler, resp) = route server.router req empty_response in
      elim handler [
        | some h ↦ h req resp
        | none ↦
            if not (length server.static_dir == 0) && is_get req.method
            then elim (file (server.static_dir ++ req.path)) [
              | none ↦ resp
              | some s ↦ ok s (codes "text/html")
            ]
            else resp
      ]

  -- `handle_request(conn)`
  unfoldable pub handle_request : Connection → Connection
  handle_request c =
      let req = c.parser.request in
      let sent = send_response (set_keep_alive req.keep_alive (respond req)) c in
      if req.keep_alive then sent else on_close sent

  -- The loop of `on_message` over the requests in the buffer; an exception of the parser leaves it.
  unfoldable pub serve : ℕ → Connection → Option Connection
  serve zero c = none
  serve (suc fuel) c =
      let (consumed, p, b) = parse c.parser c.read_buf in
      let c' = record c { parser = p; read_buf = b } in
      let next = serve fuel (record (handle_request c') { parser = new_parser }) in
      let more = serve fuel c' in
      if c.read_buf.size == 0
      then some c
      else if p.thrown
      then some c'
      else if has_error p
      then some (on_close (send_response (not_found (codes "400 Bad Request")) c'))
      else if is_done p
      then next
      else if consumed == 0
      then some c'
      else more

  -- `on_message(fd)` at the time `now`, where `read` is the socket: `none` is an error
  unfoldable pub on_message : ℕ → ℕ → (ℕ → Option Bytes) → Connection → Option Connection
  on_message fuel now read c =
      let (room, b) = begin_write c.read_buf in
      let opened = record c { read_buf = b } in
      if c.closed then some c else if room == 0 then some (on_close opened) else elim (read room) [
        | none ↦ some (on_close opened)
        | some s ↦
            if length s == 0
            then some (on_close opened)
            else serve fuel
                (refresh_timeout now (record c { read_buf = has_written (length s) (fill s b) }))
      ]
