-- ===== src/Http/Server/Listening/Started.antt =====
-- The listening socket that `start` of hound/src/http/http_server.cpp leaves, and what closing it
-- leaves.
use my_project.Prelude.{
  ℕ, ◌<◌, ◌≡◌, refl, ap, sym, ◌∙◌, subst, ◌==◌, ◌&&◌, if◌then◌else◌, Bool, true, false, none, some,
  All, Bytes, arith,
}
use my_project.Util.Result.{Outcome, returned, failed}
use my_project.Io.Socket.{
  Sockets, system_close, system_open, from_fd, close, create_tcp, move_assign, set_nonblocking,
  bind, listen, destroy,
}
use my_project.Reactor.Poller.{Events, new_channel, write_channel, enable_reading}
use my_project.Reactor.Poller.Added.{made as made_channel}
use my_project.Http.Server.Listening.{
  Replies, Listener, fatal, only_read, reset_channel, watch, set_up, leave, start,
}

abbrev pub is_returned : Outcome → Bool
is_returned (returned n) = true
is_returned (failed e) = false

-- The server does not listen, and the sockets' places 0 and 1 hold nothing.
pub record IsIdle (t : Listener) : Type 0 where
  pub not_running : t.running ≡ false
  pub alive : t.aborted ≡ false
  pub no_channel : t.listen_channel ≡ none
  pub no_socket : t.sockets.fds 0 ≡ none
  pub older : All (λ a. a < t.next_channel) t.poller.channel_list

set_nonblocking_lem :
    (fd : ℕ) (get set : Outcome) (s : Sockets)
    → is_returned get ≡ true
    → is_returned set ≡ true
    → set_nonblocking true fd get set s
      ≡ record s { nonblocking = λ k. if k == fd then true else s.nonblocking k }
unfolding set_nonblocking
set_nonblocking_lem fd (returned m) (returned n) s g h = refl
set_nonblocking_lem fd (returned m) (failed e) s g h = ground (arith, h)
set_nonblocking_lem fd (failed e) set s g h = ground (arith, g)

close_owner :
    (a fd k : ℕ) (s : Sockets)
    → s.fds a ≡ some fd
    → s.is_open fd ≡ true
    → ((close a s).is_open k ≡ (if k == fd then false else s.is_open k))
      × ((close a s).fds a ≡ none)
      × ((close a s).bad_close ≡ s.bad_close)
unfolding close system_close
close_owner a fd k s e o = (ground (arith, e, o), ground (arith, e, o), ground (arith, e, o))

close_nothing : (a : ℕ) (s : Sockets) → s.fds a ≡ none → close a s ≡ s
unfolding close
close_nothing a s e = ground (arith, e)

module _ (addr : Bytes) (fd : ℕ) (r : Replies) (made : r.socket ≡ returned fd) (t : Listener)
    (v : IsIdle t) where
  unfoldable pub moved : Sockets
  unfolding create_tcp move_assign
  moved = move_assign 0 1 (create_tcp false 1 (returned fd) t.sockets).1

  pub moved-fds : moved.fds 0 ≡ some fd
  unfolding moved create_tcp move_assign close from_fd system_open
  moved-fds = ground (arith, v.no_socket)

  moved-other : moved.fds 1 ≡ none
  unfolding moved create_tcp move_assign
  moved-other = refl

  pub moved-is_open : (k : ℕ) → moved.is_open k ≡ (if k == fd then true else t.sockets.is_open k)
  unfolding moved create_tcp move_assign close from_fd system_open
  moved-is_open k = ground (arith, v.no_socket)

  moved-bad_close : moved.bad_close ≡ t.sockets.bad_close
  unfolding moved create_tcp move_assign close from_fd system_open
  moved-bad_close = ground (arith, v.no_socket)

  pub start_made : start addr r t ≡ leave (set_up addr r fd (record t { sockets = moved }))
  unfolding start create_tcp moved
  start_made = ground (arith, v.not_running, made, moved-fds)

  -- The socket as `set_up` finds it after set_nonblocking.
  unfoldable pub opened : Listener
  unfolding moved
  opened = record t { sockets = set_nonblocking true fd r.get r.set moved }

  set_up_bound :
      is_returned r.bound ≡ true
      → is_returned r.listened ≡ true
      → set_up addr r fd (record t { sockets = moved }) ≡ watch fd opened
  unfolding set_up opened bind listen
  set_up_bound b l = ground (arith, b, l)

  pub set_up_refused :
      (is_returned r.bound && is_returned r.listened) ≡ false
      → set_up addr r fd (record t { sockets = moved }) ≡ fatal opened
  unfolding set_up opened bind listen
  set_up_refused b = ground (arith, b)

  -- What the accept channel asks to watch.
  unfoldable pub reading : Events
  reading =
      record (write_channel t.next_channel (new_channel fd only_read) t.poller.store
        t.next_channel).events { read = true }

  pub reading-read : reading.read ≡ true
  unfolding reading
  reading-read = refl

  pub watched_poller :
      (watch fd opened).poller ≡ made_channel t.next_channel fd only_read reading t.poller
  unfolding watch reset_channel enable_reading opened reading
  watched_poller =
      ap
        (λ o.
          let p = reset_channel o t.poller in
          enable_reading t.next_channel
            (record p { store = write_channel t.next_channel (new_channel fd only_read) p.store }))
        v.no_channel

  module _ (bound : is_returned r.bound ≡ true) (listened : is_returned r.listened ≡ true) where
    unfoldable pub started : Listener
    unfolding opened
    started = record (watch fd opened) { sockets = destroy 1 opened.sockets }

    pub start_listens : start addr r t ≡ started
    unfolding leave started watch opened
    start_listens = start_made ∙ ap leave (set_up_bound bound listened) ∙ ground (arith, v.alive)

    module _ (got : is_returned r.get ≡ true) (set : is_returned r.set ≡ true) where
      pub started-sockets :
          started.sockets
          ≡ record moved { nonblocking = λ k. if k == fd then true else moved.nonblocking k }
      unfolding started opened
      started-sockets =
          let e = set_nonblocking_lem fd r.get r.set moved got set in
          ap (destroy 1) e ∙ close_nothing 1 _ moved-other

      pub closed-sockets :
          (k : ℕ)
          → t.sockets.is_open fd ≡ false
          → ((close 0 started.sockets).is_open k ≡ t.sockets.is_open k)
            × ((close 0 started.sockets).fds 0 ≡ none)
            × ((close 0 started.sockets).bad_close ≡ t.sockets.bad_close)
      closed-sockets k free =
          let s : Sockets = record moved {
            nonblocking = λ j. if j == fd then true else moved.nonblocking j;
          } in
          let c = close_owner 0 fd k s moved-fds (moved-is_open fd ∙ ground arith) in
          subst
            (λ x.
              ((close 0 x).is_open k ≡ t.sockets.is_open k)
              × ((close 0 x).fds 0 ≡ none)
              × ((close 0 x).bad_close ≡ t.sockets.bad_close))
            (sym started-sockets)
            (c.0 ∙ ground (arith, moved-is_open k, free), c.1, c.2 ∙ moved-bad_close)
