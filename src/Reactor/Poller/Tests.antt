-- ===== src/Reactor/Poller/Tests.antt =====
-- The theorems on the poller, with the channels 0 and 1 of descriptor 3 and channel 2 of 4.
use my_project.Prelude.{◌==◌, ◌≡◌, refl, if◌then◌else◌, true, false, some, [], ◌∷◌, arith}
use my_project.Reactor.Poller.{
  new_channel, SelectPoller, find_fd, Selected, poll, update_channel, remove_channel,
}
use my_project.Reactor.Poller.Tables.{
  IsValid, empty-IsValid, Reach, here, updated, removed, channels-IsValid,
}
use my_project.Reactor.Poller.Watched.{ready_of, poll_lem}

abbrev poller : SelectPoller
poller = record {
  store = λ a. new_channel (if a == 2 then 4 else 3) (λ k. true);
  channels = (3, 0) ∷ (4, 2) ∷ [];
  channel_list = 0 ∷ 2 ∷ [];
}

abbrev four_readable : Selected
four_readable = record {
  count = some 1;
  readable = λ fd. fd == 4;
  writable = λ fd. false;
  exceptional = λ fd. false;
}

poll_example :
    (poll four_readable [] poller).0
    ≡ ready_of four_readable (λ a. (poller.store a).fd) (0 ∷ 2 ∷ [])
poll_example = poll_lem 0 four_readable [] poller refl (omega arith)

abbrev no_channels : SelectPoller
no_channels = record { store = poller.store; channels = []; channel_list = [] }

-- The channel 0 is the first that is updated, the second one of its descriptor is refused.
abbrev changed : SelectPoller
changed = remove_channel 0 (update_channel 1 (update_channel 0 no_channels))

three_first :
    find_fd
      ((update_channel 1 (update_channel 0 no_channels)).store 0).fd
      (update_channel 1 (update_channel 0 no_channels)).channels
    ≡ some 0
unfolding update_channel find_fd
three_first = refl

changes : Reach no_channels changed
changes = removed 0 (updated 1 (updated 0 here)) three_first

tables_example : IsValid changed
tables_example = channels-IsValid (empty-IsValid no_channels refl refl) changes
