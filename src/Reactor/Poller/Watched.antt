-- ===== src/Reactor/Poller/Watched.antt =====
-- Which channels hound/src/reactor/select_poller.cpp watches and which it reports.
use my_project.Prelude.{
  ℕ, suc, ◌-◌, ◌≤◌, ◌≡◌, ◌≢◌, refl, ap, sym, subst, ◌∙◌, if◌then◌else◌, Bool, true, some, List, [],
  ◌∷◌, length, All, Bool-cases, inl, inr, arith,
}
use my_project.Reactor.Poller.{
  Channel, SelectPoller, find_fd, write_channel, update_channel, update, enable_writing, in_set,
  write_fds, Selected, ready, is_ready, scan, poll,
}

in_set-write_channel :
    (watches : Channel → Bool) (store : ℕ → Channel) (b : ℕ) (ch : Channel) (m : List (ℕ × ℕ))
    (fd : ℕ)
    → All (λ e. e.1 ≢ b) m
    → in_set watches (write_channel b ch store) m fd ≡ in_set watches store m fd
unfolding in_set
in_set-write_channel watches store b ch [] fd h = refl
in_set-write_channel watches store b ch ((k, a) ∷ m) fd h =
    ground (arith, h.0, in_set-write_channel watches store b ch m fd h.1)

pub update_channel_shadowed :
    (a b : ℕ) (p : SelectPoller)
    → find_fd (p.store b).fd p.channels ≡ some a
    → update_channel b p
      ≡ record p { store = write_channel b (record (p.store b) { is_registered = true }) p.store }
unfolding update_channel
update_channel_shadowed a b p h = rw (update_channel, h) refl

write_channel_same :
    (b : ℕ) (ch : Channel) (store : ℕ → Channel) → (write_channel b ch store b).fd ≡ ch.fd
write_channel_same b ch store = ground arith

-- Where another channel is registered for its descriptor, a channel that asks to watch for writes
-- is not registered: the poller keeps the channels that it had, and no descriptor is watched for
-- writes that was not before.
enable_writing_ignored :
    (a b fd : ℕ) (p : SelectPoller)
    → find_fd (p.store b).fd p.channels ≡ some a
    → All (λ e. e.1 ≢ b) p.channels
    → ((enable_writing b p).channels ≡ p.channels)
      × ((enable_writing b p).channel_list ≡ p.channel_list)
      × (write_fds (enable_writing b p) fd ≡ write_fds p fd)
unfolding write_fds enable_writing update
enable_writing_ignored a b fd p h fresh =
    let ch = record (p.store b) {
      events = record (p.store b).events { write = true };
      added_to_loop = true;
    } in
    let p1 = record p { store = write_channel b ch p.store } in
    let watches : Channel → Bool = λ c. c.events.write in
    let e =
      update_channel_shadowed a b p1
        (ap (λ k. find_fd k p.channels) (write_channel_same b ch p.store) ∙ h) in
    subst
      (λ r.
        (r.channels ≡ p.channels)
        × (r.channel_list ≡ p.channel_list)
        × (write_fds r fd ≡ write_fds p fd))
      (sym e)
      (
        refl,
        refl,
        in_set-write_channel watches p1.store b (record (p1.store b) { is_registered = true })
              p.channels fd fresh
            ∙ in_set-write_channel watches p.store b ch p.channels fd fresh,
      )

-- The channels whose descriptors are ready, in the order of the list.
abbrev pub ready_of : Selected → (ℕ → ℕ) → List ℕ → List ℕ
ready_of s fds [] = []
ready_of s fds (a ∷ rest) =
    if is_ready (ready s (fds a)) then a ∷ ready_of s fds rest else ready_of s fds rest

none_left : (l : List ℕ) → length l ≤ 0 → [] ≡ l
none_left [] h = refl
none_left (a ∷ l) h = absurd (omega arith)

scan-ready_of :
    (n : ℕ) (s : Selected) (fds : ℕ → ℕ) (store : ℕ → Channel) (l : List ℕ)
    → ((x : ℕ) → (store x).fd ≡ fds x)
    → length (ready_of s fds l) ≤ n
    → (scan n s store l).1 ≡ ready_of s fds l
unfolding scan
scan-ready_of n s fds store [] same h = refl
scan-ready_of n s fds store (a ∷ rest) same h =
    let marked = write_channel a (record (store a) { revents = ready s (store a).fd }) store in
    let same' : (x : ℕ) → (marked x).fd ≡ fds x = λ x. ground (arith, same x, same a) in
    elim (Bool-cases (is_ready (ready s (fds a)))) [
      | inr idle ↦ ground (arith, same a, scan-ready_of n s fds store rest same)
      | inl found ↦ ground (
        arith,
        same a,
        scan-ready_of (n - 1) s fds marked rest same',
        none_left (ready_of s fds rest),
      )
    ]

-- `poll` reports every channel that is ready and no other, in the order in which they were
-- registered, although it stops at the count that `select` gave: the count is not below the number
-- of the ready channels.
pub poll_lem :
    (n : ℕ) (s : Selected) (active : List ℕ) (p : SelectPoller)
    → s.count ≡ some (suc n)
    → length (ready_of s (λ a. (p.store a).fd) p.channel_list) ≤ suc n
    → (poll s active p).0 ≡ ready_of s (λ a. (p.store a).fd) p.channel_list
unfolding poll
poll_lem n s active p c h =
    rw (poll, c)
      (scan-ready_of (suc n) s (λ a. (p.store a).fd) p.store p.channel_list (λ x. refl) h)
