-- ===== src/Reactor/EventLoop/Lifetime.antt =====
-- The constructor and the destructor of hound/src/reactor/event_loop.cpp, as compiled for POSIX:
-- the descriptor that wakes the loop, and its channel.
-- What eventfd gives is an argument. `is_open` are the program's open descriptors, and `is_current`
-- says that the thread's loop is this one.
use my_project.Prelude.{ℕ, ◌≡◌, refl, ◌==◌, if◌then◌else◌, Bool, true, false, [], arith}
use my_project.Util.Result.{Outcome, returned, failed}
use my_project.Reactor.TimerWheel.{TimerWheel}
use my_project.Reactor.Poller.{
  Events, SelectPoller, Callback, read_callback, Channel, new_channel, write_channel, find_fd,
  enable_reading, disable_all, remove, read_fds,
}
use my_project.Reactor.Poller.Removed.{made-read_fds, made-remove}
use my_project.Reactor.EventLoop.{EventLoop, new_loop}

pub record Lifetime : Type 0 where
  pub loop : EventLoop
  pub wakeup_fd : ℕ
  pub wakeup_channel : ℕ
  pub is_current : Bool
  pub is_open : ℕ → Bool

-- `SelectPoller(loop)`, over the objects of the program
abbrev pub empty_poller : (ℕ → Channel) → SelectPoller
empty_poller store = record { store = store; channels = []; channel_list = [] }

abbrev pub only_read : Callback → Bool
only_read read_callback = true
only_read _ = false

-- `create_wakeup_fds()`, which ends the program where it fails
unfoldable pub create_wakeup_fds : Outcome → (ℕ → Bool) → Bool × ℕ × (ℕ → Bool)
create_wakeup_fds (failed e) is_open = (false, 0, is_open)
create_wakeup_fds (returned fd) is_open = (true, fd, λ k. if k == fd then true else is_open k)

-- `close_wakeup_fds(read_fd, write_fd)`
unfoldable pub close_wakeup_fds : ℕ → (ℕ → Bool) → ℕ → Bool
close_wakeup_fds fd is_open k = if k == fd then false else is_open k

-- `EventLoop()` in the thread, with the wakeup channel at the address `channel`
unfoldable pub construct : ℕ → ℕ → (ℕ → Channel) → TimerWheel ℕ → Outcome → (ℕ → Bool) → Lifetime
construct thread channel store wheel eventfd is_open =
    let (made, fd, opened) = create_wakeup_fds eventfd is_open in
    let fatal = record (new_loop thread (empty_poller store) wheel) { aborted = true } in
    let poller = empty_poller (write_channel channel (new_channel fd only_read) store) in
    record {
      loop = if made then new_loop thread (enable_reading channel poller) wheel else fatal;
      wakeup_fd = fd;
      wakeup_channel = channel;
      is_current = made;
      is_open = opened;
    }

-- `~EventLoop()`
unfoldable pub destroy : Lifetime → Lifetime
destroy l = record l {
  is_current = false;
  loop = record l.loop {
    poller = remove l.wakeup_channel (disable_all l.wakeup_channel l.loop.poller);
  };
  is_open = close_wakeup_fds l.wakeup_fd l.is_open;
}

-- What the wakeup channel asks to watch.
reading : ℕ → ℕ → (ℕ → Channel) → Events
reading channel fd store =
    record (write_channel channel (new_channel fd only_read) store channel).events { read = true }

-- A loop that is made where eventfd gives a descriptor that is not open watches it for reads, and
-- has no task; its destructor leaves no channel in the poller, and just the descriptors open that
-- were open before.
pub destroy-construct :
    (thread channel fd k : ℕ) (store : ℕ → Channel) (wheel : TimerWheel ℕ) (is_open : ℕ → Bool)
    → is_open fd ≡ false
    → let l = construct thread channel store wheel (returned fd) is_open in
      let d = destroy l in
      ((l.is_open fd ≡ true)
        × (read_fds l.loop.poller fd ≡ true)
        × (l.loop.pending_tasks ≡ [])
        × (l.loop.aborted ≡ false))
      × (d.loop.poller.channels ≡ [])
      × (d.loop.poller.channel_list ≡ [])
      × (d.is_open k ≡ is_open k)
unfolding construct destroy create_wakeup_fds close_wakeup_fds enable_reading reading find_fd
destroy-construct thread channel fd k store wheel is_open free =
    let p = empty_poller store in
    let gone = made-remove channel fd only_read (reading channel fd store) p refl tt in
    (
      (
        ground arith,
        made-read_fds channel fd only_read (reading channel fd store) p refl refl,
        refl,
        refl,
      ),
      gone.0,
      gone.1,
      ground (arith, free),
    )
