-- ===== src/Reactor/Poller.antt =====
-- hound/src/reactor/channel.h, channel.cpp and select_poller.cpp: the channels and the poller.
-- The channels are objects that the poller points to: `store` holds them by their address. What
-- `select` reports is an argument of `poll`. The bits of `events_` are Booleans, and a callback is
-- named by its kind.
pub mod Watched
pub mod Added
pub mod Removed
pub mod Tables
pub mod Tests
use my_project.Prelude.{
  ℕ, zero, suc, ◌+◌, ◌-◌, ◌==◌, ltb, if◌then◌else◌, Bool, true, false, not, ◌&&◌, ◌||◌, Option,
  none, some, List, [], ◌∷◌, ◌++◌,
}

pub record Events : Type 0 where
  pub read : Bool
  pub write : Bool
  pub error : Bool

abbrev pub none_event : Events
none_event = record { read = false; write = false; error = false }

pub data Callback : Type 0 where
  read_callback write_callback close_callback error_callback : Callback

pub record Channel : Type 0 where
  pub fd : ℕ
  pub events : Events
  pub revents : Events
  pub is_registered : Bool
  pub has_callback : Callback → Bool
  pub tied : Bool
  pub event_handling : Bool
  pub added_to_loop : Bool

-- `Channel(loop, fd)` with its callbacks set
abbrev pub new_channel : ℕ → (Callback → Bool) → Channel
new_channel fd has = record {
  fd = fd;
  events = none_event;
  revents = none_event;
  is_registered = false;
  has_callback = has;
  tied = false;
  event_handling = false;
  added_to_loop = false;
}

unfoldable pub call_if : Bool → Callback → Channel → List Callback
call_if b k ch = if b && ch.has_callback k then k ∷ [] else []

-- `tie(obj)`
unfoldable pub tie : Channel → Channel
tie ch = record ch { tied = true }

-- `handle_event`, where `alive` says that the tied owner is: the callbacks called, in their order.
unfoldable pub handle_event : Bool → Channel → List Callback × Channel
handle_event alive ch = if ch.tied && not alive then ([], ch) else (
  call_if (ch.revents.error && not ch.revents.read) error_callback ch
      ++ call_if ch.revents.error close_callback ch
      ++ call_if ch.revents.read read_callback ch
      ++ call_if ch.revents.write write_callback ch,
  record ch { event_handling = false },
)

pub record SelectPoller : Type 0 where
  pub store : ℕ → Channel
  pub channels : List (ℕ × ℕ)
  pub channel_list : List ℕ

-- `channels_.find(fd)`
unfoldable pub find_fd : ℕ → List (ℕ × ℕ) → Option ℕ
find_fd fd [] = none
find_fd fd ((k, a) ∷ m) = if k == fd then some a else find_fd fd m

unfoldable pub erase_fd : ℕ → List (ℕ × ℕ) → List (ℕ × ℕ)
erase_fd fd [] = []
erase_fd fd ((k, a) ∷ m) = if k == fd then m else (k, a) ∷ erase_fd fd m

-- `std::remove` and `erase`
unfoldable pub remove_all : ℕ → List ℕ → List ℕ
remove_all a [] = []
remove_all a (x ∷ xs) = if x == a then remove_all a xs else x ∷ remove_all a xs

abbrev pub write_channel : ℕ → Channel → (ℕ → Channel) → ℕ → Channel
write_channel a ch store x = if x == a then ch else store x

abbrev is_some : Option ℕ → Bool
is_some none = false
is_some (some a) = true

-- `has_channel(channel)`
unfoldable pub has_channel : ℕ → SelectPoller → Bool
has_channel a p = is_some (find_fd (p.store a).fd p.channels)

-- `update_channel(channel)`
unfoldable pub update_channel : ℕ → SelectPoller → SelectPoller
update_channel a p =
    let marked = write_channel a (record (p.store a) { is_registered = true }) p.store in
    elim (find_fd (p.store a).fd p.channels) [
      | some b ↦ record p { store = marked }
      | none ↦ record p {
        store = marked;
        channels = p.channels ++ ((p.store a).fd, a) ∷ [];
        channel_list = p.channel_list ++ a ∷ [];
      }
    ]

-- `remove_channel(channel)`
unfoldable pub remove_channel : ℕ → SelectPoller → SelectPoller
remove_channel a p =
    let marked = write_channel a (record (p.store a) { is_registered = false }) p.store in
    elim (find_fd (p.store a).fd p.channels) [
      | none ↦ record p { store = marked }
      | some b ↦ record p {
        store = marked;
        channels = erase_fd (p.store a).fd p.channels;
        channel_list = remove_all a p.channel_list;
      }
    ]

-- `Channel::update`, with the new events
unfoldable pub update : ℕ → Events → SelectPoller → SelectPoller
update a events p = update_channel a (record p {
  store = write_channel a (record (p.store a) { events = events; added_to_loop = true }) p.store;
})

unfoldable pub enable_reading : ℕ → SelectPoller → SelectPoller
enable_reading a p = update a (record (p.store a).events { read = true }) p

unfoldable pub enable_writing : ℕ → SelectPoller → SelectPoller
enable_writing a p = update a (record (p.store a).events { write = true }) p

unfoldable pub disable_reading : ℕ → SelectPoller → SelectPoller
disable_reading a p = update a (record (p.store a).events { read = false }) p

unfoldable pub disable_writing : ℕ → SelectPoller → SelectPoller
disable_writing a p = update a (record (p.store a).events { write = false }) p

unfoldable pub disable_all : ℕ → SelectPoller → SelectPoller
disable_all a p = update a none_event p

-- `Channel::remove`
unfoldable pub remove : ℕ → SelectPoller → SelectPoller
remove a p =
    if (p.store a).added_to_loop
    then remove_channel a (record p {
      store = write_channel a (record (p.store a) { added_to_loop = false }) p.store;
    })
    else p

-- The loop of `rebuild_fds`: whether a descriptor is in the set of those that `watches` names.
unfoldable pub in_set : (Channel → Bool) → (ℕ → Channel) → List (ℕ × ℕ) → ℕ → Bool
in_set watches store [] fd = false
in_set watches store ((k, a) ∷ m) fd =
    ((store a).fd == fd && watches (store a)) || in_set watches store m fd

unfoldable pub read_fds : SelectPoller → ℕ → Bool
read_fds p = in_set (λ ch. ch.events.read) p.store p.channels

unfoldable pub write_fds : SelectPoller → ℕ → Bool
write_fds p = in_set (λ ch. ch.events.write) p.store p.channels

unfoldable pub except_fds : SelectPoller → ℕ → Bool
except_fds p = in_set (λ ch. true) p.store p.channels

unfoldable pub largest : (ℕ → Channel) → List (ℕ × ℕ) → ℕ → ℕ
largest store [] fd = fd
largest store ((k, a) ∷ m) fd = largest store m (if ltb fd (store a).fd then (store a).fd else fd)

unfoldable pub max_fd : SelectPoller → ℕ
max_fd p = largest p.store p.channels 0 + 1

-- What `select` returned: the number of ready bits, or `none` on an error, and the three sets.
pub record Selected : Type 0 where
  pub count : Option ℕ
  pub readable : ℕ → Bool
  pub writable : ℕ → Bool
  pub exceptional : ℕ → Bool

abbrev pub ready : Selected → ℕ → Events
ready s fd = record { read = s.readable fd; write = s.writable fd; error = s.exceptional fd }

abbrev pub is_ready : Events → Bool
is_ready e = e.read || e.write || e.error

-- The loop of `poll` over the channels, with n ready descriptors left to find.
unfoldable pub scan : ℕ → Selected → (ℕ → Channel) → List ℕ → (ℕ → Channel) × List ℕ
scan n s store [] = (store, [])
scan n s store (a ∷ rest) =
    let e = ready s (store a).fd in
    let marked = write_channel a (record (store a) { revents = e }) store in
    let found = scan (n - 1) s marked rest in
    let next = scan n s store rest in
    if is_ready e then if n - 1 == 0 then (marked, a ∷ []) else (found.0, a ∷ found.1) else next

-- `poll(timeout, active_channels)`
unfoldable pub poll : Selected → List ℕ → SelectPoller → List ℕ × SelectPoller
poll s active p = elim s.count [
  | none ↦ (active, p)
  | some zero ↦ (active, p)
  | some (suc n) ↦
      let found = scan (suc n) s p.store p.channel_list in (found.1, record p { store = found.0 })
]
