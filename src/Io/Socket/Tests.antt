-- ===== src/Io/Socket/Tests.antt =====
-- The theorems on sockets at a socket that is made, moved, assigned to itself and closed.
use my_project.Prelude.{refl, false, none}
use my_project.Util.Result.{eagain, returned}
use my_project.Io.Socket.{
  Sockets, system_open, from_fd, close, move_construct, move_assign, create_tcp,
}
use my_project.Io.Socket.Owners.{
  Reach, here, next, tcp, moved, assigned, closed, IsStart, Owned, sockets_own,
}

abbrev none_made : Sockets
none_made = record {
  fds = λ a. none;
  is_open = λ fd. false;
  nonblocking = λ fd. false;
  errno = eagain;
  bad_close = false;
}

none_made-IsStart : IsStart none_made
none_made-IsStart = record { no_fd = λ a. refl; none_open = λ fd. refl; no_bad_close = refl }

-- Descriptor 7 goes to socket 0, from there to socket 1, and is closed there; socket 0 is closed too.
abbrev last : Sockets
last =
    close 0
      (close 1 (move_assign 1 1 (move_construct 1 0 (create_tcp false 0 (returned 7) none_made).1)))

to_last : Reach none_made last
unfolding create_tcp from_fd system_open
to_last =
    next
      (next
        (next (next (next here (tcp false 0 (returned 7) refl refl)) (moved 1 0 refl))
          (assigned 1 1))
        (closed 1))
      (closed 0)

own_example : Owned last
own_example = sockets_own none_made-IsStart to_last
