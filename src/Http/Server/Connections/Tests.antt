-- ===== src/Http/Server/Connections/Tests.antt =====
-- The theorems on the connections at a server to which descriptor 5 is connected.
use my_project.Prelude.{
  ◌≡◌, refl, Bool, true, false, if◌then◌else◌, Option, none, some, List, [], Bytes,
}
use my_project.Prelude.FdMap.{find, assign}
use my_project.Reactor.TimerWheel.{new_wheel}
use my_project.Http.Server.{HttpServer, on_accept, refresh_timeout}
use my_project.Http.Server.Connections.{
  Connections, put_back, accept_connection, close_connection, run_erases,
}
use my_project.Http.Server.Connections.Erased.{is_closing, is_some, IsValid, run_erases_lem}
use my_project.Http.Server.Connections.Handlers.{Reach, here, next, accepted, ended, Reach-IsValid}

abbrev same_order : List (Bytes × Bytes) → List (Bytes × Bytes)
same_order hs = hs

abbrev taken : Bytes → Bool
taken raw = true

abbrev no_file : Bytes → Option Bytes
no_file path = none

abbrev server : HttpServer
server = record { router = none; static_dir = [] }

abbrev nobody : Connections
nobody = record {
  connections = [];
  erases = [];
  is_open = λ fd. false;
  wheel = new_wheel 10 4 5000;
  running = true;
}

nobody-IsValid : IsValid nobody
unfolding find
nobody-IsValid = record { keys = λ fd. tt; open_ones = λ fd. refl; pending_ones = λ fd. refl }

-- Descriptor 5 is accepted, and its client leaves.
abbrev left_open : Connections
left_open = close_connection 5 (accept_connection 6000 5 nobody)

to_left_open : Reach same_order taken no_file server nobody left_open
to_left_open = next (next here (accepted 6000 5 refl)) (ended 5)

valid_example : IsValid left_open
valid_example = Reach-IsValid same_order taken no_file server nobody-IsValid to_left_open

erases_example :
    (find 5 (run_erases left_open).connections
      ≡ (if is_closing (find 5 left_open.connections) then none else find 5 left_open.connections))
    × ((run_erases left_open).is_open 5 ≡ is_some (find 5 (run_erases left_open).connections))
erases_example =
    run_erases_lem left_open
      (Reach-IsValid same_order taken no_file server nobody-IsValid to_left_open) 5

connected-find :
    find 5 (accept_connection 6000 5 nobody).connections ≡ some (on_accept 6000 5 nobody.wheel)
unfolding find assign accept_connection put_back
connected-find = refl

connected-closed : (on_accept 6000 5 nobody.wheel).closed ≡ false
unfolding on_accept refresh_timeout
connected-closed = refl
