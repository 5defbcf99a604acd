-- ===== src/Examples/EchoServer/Tests.antt =====
-- The theorems on the echo server at a server with one connection, of descriptor 7.
use my_project.Prelude.{
  ℕ, ◌≡◌, refl, ◌==◌, Bool, true, false, Bool-cases, none, some, List, [], ◌∷◌, ◌++◌, Bytes, codes,
  inl, inr, arith,
}
use my_project.Prelude.FdMap.{find}
use my_project.Reactor.TimerWheel.{new_wheel}
use my_project.Reactor.Poller.{Channel, new_channel, handle_event}
use my_project.Reactor.EventLoop.{new_loop}
use my_project.Examples.EchoServer.{
  EchoServer, not_write, on_accept, on_message, call_all, do_pending_tasks, timed_out,
}
use my_project.Examples.EchoServer.Lifecycle.{
  IsValid, Reach, here, next, accepted, fired, Reach-IsOpen,
}
use my_project.Examples.EchoServer.Deletion.{error_erases}
use my_project.Examples.EchoServer.Echo.{timed_out_stays, receive, receive-echoed}

abbrev all_taken : Bytes → Bool
all_taken bytes = true

abbrev server : EchoServer
server = record {
  loop =
      new_loop 1 record { store = λ a. new_channel 7 not_write; channels = []; channel_list = [] }
        (new_wheel 100 512 5000);
  connections = (7, 0) ∷ [];
  objects = λ a. record { fd = 7; closed = false; timeout_timer = 0 };
  next_object = 1;
  is_open = λ fd. fd == 7;
  echoed = [];
}

server-IsValid : IsValid server
unfolding find
server-IsValid = record {
  keys = λ fd. elim (Bool-cases (7 == fd)) [
    | inl e ↦ rw e (ground arith, omega arith)
    | inr e ↦ rw e tt
  ];
  open_ones = λ fd. ground arith;
}

server-find : find 7 server.connections ≡ some 0
unfolding find
server-find = refl

abbrev failed : Channel
failed = record (new_channel 7 not_write) {
  revents = record { read = true; write = false; error = true };
}

error_example :
    let t =
      do_pending_tasks (
        call_all all_taken 6000 7
          (λ room. some (codes "hi"))
          (handle_event true failed).0
          server) in
    (find 7 t.connections ≡ none) × (t.is_open 7 ≡ false)
error_example =
    error_erases all_taken 6000 7 (λ room. some (codes "hi")) true failed 0 7 server server-IsValid
      server-find refl refl refl

stays_example :
    let t = timed_out 0 server in
    ((t.objects 0).closed ≡ true)
    × (find 7 t.connections ≡ some 0)
    × (t.is_open 7 ≡ true)
    × (t.loop.pending_tasks ≡ [])
    × (on_message all_taken 6000 7 (λ room. some (codes "hi")) t ≡ t)
stays_example =
    timed_out_stays all_taken 6000 7 0 (λ room. some (codes "hi")) server server-IsValid server-find

two_steps : Reach all_taken server (timed_out 0 (on_accept 6000 (some 8) server))
two_steps = next (next here (accepted 6000 8 refl)) (fired 0)

reach_example : IsValid (timed_out 0 (on_accept 6000 (some 8) server))
reach_example = Reach-IsOpen all_taken server-IsValid two_steps

abbrev messages : List (ℕ × ℕ × Bytes)
messages = (6000, 7, codes "hi") ∷ (6001, 7, codes "you") ∷ []

echo_example :
    (receive all_taken messages server).echoed ≡ [] ++ ((7, codes "hi") ∷ (7, codes "you") ∷ [])
echo_example =
    receive-echoed all_taken messages server server-IsValid
      (
        record { some_bytes = ground arith; fits = omega arith; taken = refl },
        (record { some_bytes = ground arith; fits = omega arith; taken = refl }, tt),
      )
      ((0, server-find, refl), ((0, server-find, refl), tt))
