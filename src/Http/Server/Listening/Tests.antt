-- ===== src/Http/Server/Listening/Tests.antt =====
-- The theorems on the listening socket at a program with no sockets, where the system gives the
-- descriptor 4.
use my_project.Prelude.{◌≡◌, refl, true, false, none, some, [], codes}
use my_project.Util.Result.{eagain, other, returned, failed}
use my_project.Reactor.Poller.{new_channel, find_fd, read_fds}
use my_project.Http.Server.Listening.{Replies, Listener, start, stop}
use my_project.Http.Server.Listening.Started.{IsIdle}
use my_project.Http.Server.Listening.Restored.{stop-start, start_aborts}

abbrev replies : Replies
replies = record {
  socket = returned 4;
  get = returned 2;
  set = returned 0;
  bound = returned 0;
  listened = returned 0;
}

abbrev listener : Listener
listener = record {
  sockets = record {
    fds = λ a. none;
    is_open = λ fd. false;
    nonblocking = λ fd. false;
    errno = eagain;
    bad_close = false;
  };
  poller = record { store = λ a. new_channel 0 (λ k. false); channels = []; channel_list = [] };
  listen_channel = none;
  next_channel = 1;
  running = false;
  aborted = false;
}

listener-IsIdle : IsIdle listener
listener-IsIdle = record {
  not_running = refl;
  alive = refl;
  no_channel = refl;
  no_socket = refl;
  older = tt;
}

four_unwatched : find_fd 4 listener.poller.channels ≡ none
unfolding find_fd
four_unwatched = refl

listen_example :
    let s = start (codes "a") replies listener in
    let u = stop s in
    ((s.running ≡ true)
      × (s.aborted ≡ false)
      × (s.sockets.fds 0 ≡ some 4)
      × (s.sockets.is_open 4 ≡ true)
      × (s.sockets.nonblocking 4 ≡ true)
      × (read_fds s.poller 4 ≡ true))
    × (u.running ≡ false)
    × (u.poller.channels ≡ [])
    × (u.poller.channel_list ≡ [])
    × (u.sockets.is_open 4 ≡ false)
    × (u.sockets.bad_close ≡ false)
listen_example =
    stop-start (codes "a") 4 replies refl listener listener-IsIdle 4 refl refl refl refl refl
      four_unwatched

refused_example :
    ((start (codes "a") (record replies { bound = failed (other 98) }) listener).running ≡ false)
    × ((start (codes "a") (record replies { bound = failed (other 98) }) listener).aborted ≡ true)
refused_example =
    start_aborts (codes "a") (record replies { bound = failed (other 98) }) listener listener-IsIdle
