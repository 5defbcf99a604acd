-- ===== src/Http/Server/Listening/Restored.antt =====
-- What `start` and `stop` of hound/src/http/http_server.cpp leave of the listening socket.
use my_project.Prelude.{
  ℕ, ◌≡◌, refl, ap, sym, ◌∙◌, subst, ◌&&◌, not, true, false, Bool-cases, ◌⊎◌, none, some, Bytes,
  inl, inr, arith,
}
use my_project.Util.Result.{Errno, Outcome, returned, failed}
use my_project.Io.Socket.{create_tcp}
use my_project.Reactor.Poller.{find_fd, disable_all, remove, read_fds}
use my_project.Reactor.Poller.Removed.{made-read_fds, made-remove}
use my_project.Http.Server.Listening.{Replies, Listener, only_read, watch, leave, start, stop}
use my_project.Http.Server.Listening.Started.{
  is_returned, IsIdle, moved-fds, moved-is_open, start_made, opened, set_up_refused, reading,
  reading-read, watched_poller, started, start_listens, started-sockets, closed-sockets,
}

module _ (addr : Bytes) (fd : ℕ) (r : Replies) (made : r.socket ≡ returned fd) (t : Listener)
    (v : IsIdle t) where
  -- A server that does not listen is started where every system call succeeds, the descriptor that
  -- the system gives being open nowhere and in no channel of the poller: then it runs, its socket
  -- owns that descriptor, which is open, does not block and is watched for reads. Stopped, it
  -- leaves the poller's tables as they were before, closes the descriptor and no other, and
  -- closes nothing twice.
  pub stop-start :
      (k : ℕ)
      → is_returned r.get ≡ true
      → is_returned r.set ≡ true
      → is_returned r.bound ≡ true
      → is_returned r.listened ≡ true
      → t.sockets.is_open fd ≡ false
      → find_fd fd t.poller.channels ≡ none
      → let s = start addr r t in
        let u = stop s in
        ((s.running ≡ true)
          × (s.aborted ≡ false)
          × (s.sockets.fds 0 ≡ some fd)
          × (s.sockets.is_open fd ≡ true)
          × (s.sockets.nonblocking fd ≡ true)
          × (read_fds s.poller fd ≡ true))
        × (u.running ≡ false)
        × (u.poller.channels ≡ t.poller.channels)
        × (u.poller.channel_list ≡ t.poller.channel_list)
        × (u.sockets.is_open k ≡ t.sockets.is_open k)
        × (u.sockets.bad_close ≡ t.sockets.bad_close)
  unfolding stop started watch opened
  stop-start k g n b l free known =
      let c = t.next_channel in
      let read = reading addr fd r made t v in
      let watcher = watched_poller addr fd r made t v in
      let ss = started-sockets addr fd r made t v b l g n in
      let closed = closed-sockets addr fd r made t v b l g n k free in
      let gone = made-remove c fd only_read read t.poller known v.older in
      subst
        (λ s.
          let u = stop s in
          ((s.running ≡ true)
            × (s.aborted ≡ false)
            × (s.sockets.fds 0 ≡ some fd)
            × (s.sockets.is_open fd ≡ true)
            × (s.sockets.nonblocking fd ≡ true)
            × (read_fds s.poller fd ≡ true))
          × (u.running ≡ false)
          × (u.poller.channels ≡ t.poller.channels)
          × (u.poller.channel_list ≡ t.poller.channel_list)
          × (u.sockets.is_open k ≡ t.sockets.is_open k)
          × (u.sockets.bad_close ≡ t.sockets.bad_close))
        (sym (start_listens addr fd r made t v b l))
        (
          (
            refl,
            v.alive,
            ap (λ x. x.fds 0) ss ∙ moved-fds addr fd r made t v,
            ap (λ x. x.is_open fd) ss ∙ (moved-is_open addr fd r made t v fd ∙ ground arith),
            ap (λ x. x.nonblocking fd) ss ∙ ground arith,
            ap (λ p. read_fds p fd) watcher
                ∙ made-read_fds c fd only_read read t.poller known
                    (reading-read addr fd r made t v),
          ),
          refl,
          ap (λ p. (remove c (disable_all c p)).channels) watcher ∙ gone.0,
          ap (λ p. (remove c (disable_all c p)).channel_list) watcher ∙ gone.1,
          closed.0,
          closed.2,
        )

Outcome-cases : (o : Outcome) → ((n : ℕ) × (o ≡ returned n)) ⊎ ((e : Errno) × (o ≡ failed e))
Outcome-cases (returned n) = inl (n, refl)
Outcome-cases (failed e) = inr (e, refl)

start_no_socket :
    (addr : Bytes) (r : Replies) (t : Listener) (e : Errno)
    → IsIdle t
    → r.socket ≡ failed e
    → ((start addr r t).running ≡ false) × ((start addr r t).aborted ≡ true)
unfolding start create_tcp
start_no_socket addr r t e v q =
    (ground (arith, q, v.not_running), ground (arith, q, v.not_running))

-- What `start` leaves of the flags where the socket is made.
start_socket :
    (addr : Bytes) (fd : ℕ) (r : Replies) (t : Listener)
    → IsIdle t
    → r.socket ≡ returned fd
    → ((start addr r t).running ≡ (is_returned r.bound && is_returned r.listened))
      × ((start addr r t).aborted ≡ not (is_returned r.bound && is_returned r.listened))
unfolding leave opened started watch
start_socket addr fd r t v q = elim (Bool-cases (is_returned r.bound && is_returned r.listened)) [
  | inr n ↦
      let e = start_made addr fd r q t v ∙ ap leave (set_up_refused addr fd r q t v n) in
      (
        ap (λ x. x.running) e ∙ ground (arith, v.not_running, n),
        ap (λ x. x.aborted) e ∙ ground (arith, n),
      )
  | inl b ↦
      let e = start_listens addr fd r q t v (ground (arith, b)) (ground (arith, b)) in
      (
        ap (λ x. x.running) e ∙ ground (arith, b),
        ap (λ x. x.aborted) e ∙ ground (arith, v.alive, b),
      )
]

-- A server that does not listen is started just where the system makes its socket, binds it and
-- lets it listen; where one of these fails, the program is ended.
pub start_aborts :
    (addr : Bytes) (r : Replies) (t : Listener)
    → IsIdle t
    → let ok = is_returned r.socket && is_returned r.bound && is_returned r.listened in
      ((start addr r t).running ≡ ok) × ((start addr r t).aborted ≡ not ok)
start_aborts addr r t v = elim (Outcome-cases r.socket) [
  | inr (e, q) ↦
      let h = start_no_socket addr r t e v q in (h.0 ∙ ground (arith, q), h.1 ∙ ground (arith, q))
  | inl (fd, q) ↦
      let h = start_socket addr fd r t v q in (h.0 ∙ ground (arith, q), h.1 ∙ ground (arith, q))
]
