-- ===== src/Http/Server/Connections/Kept.antt =====
-- What a call of the handlers in hound/src/http/http_server.cpp keeps of a connection.
use my_project.Prelude.{
  ℕ, zero, suc, ◌==◌, ltb, ◌≡◌, inl, inr, Bool, true, false, ◌||◌, if◌then◌else◌, Option, none,
  some, Option-cases, List, Bytes, codes, length, arith,
}
use my_project.Io.Buffer.{begin_write, fill, has_written}
use my_project.Http.Response.{HttpResponse, not_found, set_keep_alive}
use my_project.Http.Parser.{new_parser}
use my_project.Http.Parser.Machine.{parse}
use my_project.Http.Server.{
  HttpServer, Connection, refresh_timeout, on_close, has_error, is_done, respond, send_response,
  handle_request, serve, on_message,
}

-- The connection stands for this descriptor, and it is closed just where it was before the call or
-- where the call queued a deletion.
pub record Kept (fd : ℕ) (was_closed : Bool) (c : Connection) : Type 0 where
  pub same_fd : c.fd ≡ fd
  pub tracked : (was_closed || ltb 0 c.erases) ≡ c.closed

abbrev pub AllKept : ℕ → Bool → Option Connection → Type 0
AllKept fd was_closed none = Unit
AllKept fd was_closed (some c) = Kept fd was_closed c

either-Kept :
    (fd : ℕ) (was_closed b : Bool) (x y : Connection)
    → Kept fd was_closed x
    → Kept fd was_closed y
    → Kept fd was_closed (if b then x else y)
either-Kept fd was_closed true x y kx ky = kx
either-Kept fd was_closed false x y kx ky = ky

either-AllKept :
    (fd : ℕ) (was_closed b : Bool) (x y : Option Connection)
    → AllKept fd was_closed x
    → AllKept fd was_closed y
    → AllKept fd was_closed (if b then x else y)
either-AllKept fd was_closed true x y kx ky = kx
either-AllKept fd was_closed false x y kx ky = ky

module _ (fd : ℕ) (was_closed : Bool) where
  pub on_close-Kept : (c : Connection) → Kept fd was_closed c → Kept fd was_closed (on_close c)
  unfolding on_close
  on_close-Kept c k = ground (arith, k.same_fd, k.tracked)

  refresh_timeout-Kept :
      (now : ℕ) (c : Connection) → Kept fd was_closed c → Kept fd was_closed (refresh_timeout now c)
  unfolding refresh_timeout
  refresh_timeout-Kept now c k = record { same_fd = k.same_fd; tracked = k.tracked }

  module _ (order : List (Bytes × Bytes) → List (Bytes × Bytes)) (write : Bytes → Bool)
      (file : Bytes → Option Bytes) (server : HttpServer) where
    send_response-Kept :
        (resp : HttpResponse) (c : Connection)
        → Kept fd was_closed c
        → Kept fd was_closed (send_response order write file server resp c)
    unfolding send_response
    send_response-Kept resp c k = ground (arith, on_close-Kept c k, k.same_fd, k.tracked)

    handle_request-Kept :
        (c : Connection)
        → Kept fd was_closed c
        → Kept fd was_closed (handle_request order write file server c)
    unfolding handle_request
    handle_request-Kept c k =
        let req = c.parser.request in
        let sent =
          send_response order write file server
            (set_keep_alive req.keep_alive (respond order write file server req)) c in
        let kept =
          send_response-Kept (set_keep_alive req.keep_alive (respond order write file server req)) c
            k in
        either-Kept fd was_closed req.keep_alive sent (on_close sent) kept (on_close-Kept sent kept)

    -- Every turn of the loop keeps it, however many turns there are.
    serve-Kept :
        (fuel : ℕ) (c : Connection)
        → Kept fd was_closed c
        → AllKept fd was_closed (serve order write file server fuel c)
    unfolding serve
    serve-Kept zero c k = tt
    serve-Kept (suc fuel) c k =
        let r = parse c.parser c.read_buf in
        let c1 = record c { parser = r.1; read_buf = r.2 } in
        let k1 : Kept fd was_closed c1 = record { same_fd = k.same_fd; tracked = k.tracked } in
        let handled = handle_request-Kept c1 k1 in
        let next =
          serve-Kept fuel
            (record (handle_request order write file server c1) { parser = new_parser })
            (record { same_fd = handled.same_fd; tracked = handled.tracked }) in
        let bad = not_found (codes "400 Bad Request") in
        let refused =
          on_close-Kept (send_response order write file server bad c1)
            (send_response-Kept bad c1 k1) in
        either-AllKept fd was_closed (c.read_buf.size == 0) _ _ k (
          either-AllKept fd was_closed r.1.thrown _ _ k1 (
            either-AllKept fd was_closed (has_error r.1) _ _ refused (
              either-AllKept fd was_closed (is_done r.1) _ _ next
                (either-AllKept fd was_closed (r.0 == 0) _ _ k1 (serve-Kept fuel c1 k1)))))

    pub on_message-Kept :
        (fuel now : ℕ) (read : ℕ → Option Bytes) (c : Connection)
        → Kept fd was_closed c
        → AllKept fd was_closed (on_message order write file server fuel now read c)
    unfolding on_message
    on_message-Kept fuel now read c k =
        let room = begin_write c.read_buf in
        let opened = record c { read_buf = room.1 } in
        let closing = on_close-Kept opened (record { same_fd = k.same_fd; tracked = k.tracked }) in
        either-AllKept fd was_closed c.closed _ _ k (
          either-AllKept fd was_closed (room.0 == 0) _ _ closing
            (elim (Option-cases (read room.0)) [
              | inl e ↦ rw e closing
              | inr (s, e) ↦
                  let filled = record c { read_buf = has_written (length s) (fill s room.1) } in
                  let kept =
                    refresh_timeout-Kept now filled
                      (record { same_fd = k.same_fd; tracked = k.tracked }) in
                  rw e (
                    either-AllKept fd was_closed (length s == 0) _ _ closing
                      (serve-Kept fuel (refresh_timeout now filled) kept))
            ]))
