-- ===== src/Reactor/Poller/Removed.antt =====
-- A channel that is made, handed to the poller and removed again: hound/src/reactor/channel.cpp and
-- select_poller.cpp.
use my_project.Prelude.{
  ℕ, ◌<◌, ◌≡◌, refl, ap, sym, ◌∙◌, subst, Bool, true, false, none, some, List, [], ◌∷◌, ◌++◌, All,
  arith,
}
use my_project.Reactor.Poller.{
  Events, none_event, Callback, Channel, SelectPoller, find_fd, erase_fd, remove_all, write_channel,
  remove_channel, update, disable_all, remove, in_set, read_fds,
}
use my_project.Reactor.Poller.Watched.{update_channel_shadowed}
use my_project.Reactor.Poller.Added.{find_fd-last, update_channel_new, made, handed, handed-fd}

-- The address b holds a channel of the descriptor that hands itself to the poller.
record IsAdded (fd b : ℕ) (p : SelectPoller) : Type 0 where
  same_fd : (p.store b).fd ≡ fd
  added : (p.store b).added_to_loop ≡ true

marked-IsAdded :
    (fd b : ℕ) (x : Bool) (p : SelectPoller)
    → IsAdded fd b p
    → IsAdded fd b
        (record p { store = write_channel b (record (p.store b) { is_registered = x }) p.store })
marked-IsAdded fd b x p h = record {
  same_fd = ground (arith, h.same_fd);
  added = ground (arith, h.added);
}

erase_fd-last :
    (fd b : ℕ) (m : List (ℕ × ℕ)) → find_fd fd m ≡ none → erase_fd fd (m ++ (fd, b) ∷ []) ≡ m
unfolding find_fd erase_fd
erase_fd-last fd b [] h = ground arith
erase_fd-last fd b ((k, a) ∷ m) h = ground (arith, erase_fd-last fd b m)

remove_all-last : (b : ℕ) (l : List ℕ) → All (λ a. a < b) l → remove_all b (l ++ b ∷ []) ≡ l
unfolding remove_all
remove_all-last b [] h = ground arith
remove_all-last b (a ∷ l) h = ground (arith, h.0, remove_all-last b l h.1)

-- What a poller holds but for its store.
record SameTables (p q : SelectPoller) : Type 0 where
  same_channels : q.channels ≡ p.channels
  same_list : q.channel_list ≡ p.channel_list

disable_all_known :
    (fd b : ℕ) (p : SelectPoller)
    → (p.store b).fd ≡ fd
    → find_fd fd p.channels ≡ some b
    → SameTables p (disable_all b p) × IsAdded fd b (disable_all b p)
unfolding disable_all update
disable_all_known fd b p e f =
    let q = record p {
      store =
          write_channel b (record (p.store b) { events = none_event; added_to_loop = true })
            p.store;
    } in
    let h : IsAdded fd b q = record { same_fd = ground (arith, e); added = ground arith } in
    let r = update_channel_shadowed b b q (ap (λ j. find_fd j p.channels) h.same_fd ∙ f) in
    subst (λ x. SameTables p x × IsAdded fd b x) (sym r)
      (record { same_channels = refl; same_list = refl }, marked-IsAdded fd b true q h)

remove_channel_known :
    (a b : ℕ) (p : SelectPoller)
    → find_fd (p.store b).fd p.channels ≡ some a
    → ((remove_channel b p).channels ≡ erase_fd (p.store b).fd p.channels)
      × ((remove_channel b p).channel_list ≡ remove_all b p.channel_list)
unfolding remove_channel
remove_channel_known a b p h = rw (h, remove_channel) (refl, refl)

remove_known :
    (fd a b : ℕ) (p : SelectPoller)
    → IsAdded fd b p
    → find_fd fd p.channels ≡ some a
    → ((remove b p).channels ≡ erase_fd fd p.channels)
      × ((remove b p).channel_list ≡ remove_all b p.channel_list)
unfolding remove
remove_known fd a b p h f =
    let q = record p {
      store = write_channel b (record (p.store b) { added_to_loop = false }) p.store;
    } in
    let e : (q.store b).fd ≡ fd = ground (arith, h.same_fd) in
    let r = remove_channel_known a b q (ap (λ j. find_fd j p.channels) e ∙ f) in
    let here : remove b p ≡ remove_channel b q = ground (arith, h.added) in
    (
      ap (λ x. x.channels) here ∙ r.0 ∙ ap (λ j. erase_fd j p.channels) e,
      ap (λ x. x.channel_list) here ∙ r.1,
    )

in_set-watched :
    (watches : Channel → Bool) (store : ℕ → Channel) (m : List (ℕ × ℕ)) (fd b : ℕ)
    → watches (store b) ≡ true
    → (store b).fd ≡ fd
    → in_set watches store (m ++ (fd, b) ∷ []) fd ≡ true
unfolding in_set
in_set-watched watches store [] fd b h e = ground (arith, h, e)
in_set-watched watches store ((j, a) ∷ m) fd b h e =
    ground (arith, in_set-watched watches store m fd b h e)

module _ (b fd : ℕ) (has : Callback → Bool) (ev : Events) (p : SelectPoller)
    (free : find_fd fd p.channels ≡ none) where
  made_lem : made b fd has ev p ≡ (
      let q = handed b fd has ev p in
      record q {
        store = write_channel b (record (q.store b) { is_registered = true }) q.store;
        channels = p.channels ++ ((q.store b).fd, b) ∷ [];
        channel_list = p.channel_list ++ b ∷ [];
      })
  unfolding update handed
  made_lem =
      update_channel_new b (handed b fd has ev p)
        (ap (λ j. find_fd j p.channels) (handed-fd b fd has ev p) ∙ free)

  handed-IsAdded : IsAdded fd b (handed b fd has ev p)
  unfolding handed
  handed-IsAdded = record { same_fd = ground arith; added = ground arith }

  made-tables :
      IsAdded fd b (made b fd has ev p)
      × ((made b fd has ev p).channels ≡ p.channels ++ (fd, b) ∷ [])
      × ((made b fd has ev p).channel_list ≡ p.channel_list ++ b ∷ [])
  unfolding handed
  made-tables =
      let h = marked-IsAdded fd b true (handed b fd has ev p) handed-IsAdded in
      (
        subst (IsAdded fd b) (sym made_lem) record { same_fd = h.same_fd; added = h.added },
        ap (λ q. q.channels) made_lem
            ∙ ap (λ j. p.channels ++ (j, b) ∷ []) (handed-fd b fd has ev p),
        ap (λ q. q.channel_list) made_lem,
      )

  -- The new channel is watched for reads where its events say so.
  pub made-read_fds : ev.read ≡ true → read_fds (made b fd has ev p) fd ≡ true
  unfolding read_fds handed
  made-read_fds r =
      let q = handed b fd has ev p in
      let store = write_channel b (record (q.store b) { is_registered = true }) q.store in
      ap (λ x. read_fds x fd) made_lem
      ∙ ap (λ j. in_set (λ c. c.events.read) store (p.channels ++ (j, b) ∷ []) fd)
          (handed-fd b fd has ev p)
      ∙ in_set-watched (λ c. c.events.read) store p.channels fd b (ground (arith, r)) (ground arith)

  -- Disabled and removed again, it leaves the tables of the poller as they were.
  pub made-remove :
      All (λ a. a < b) p.channel_list
      → ((remove b (disable_all b (made b fd has ev p))).channels ≡ p.channels)
        × ((remove b (disable_all b (made b fd has ev p))).channel_list ≡ p.channel_list)
  made-remove older =
      let (h, channels, list) = made-tables in
      let q = made b fd has ev p in
      let known = ap (find_fd fd) channels ∙ find_fd-last fd b p.channels free in
      let (same, k) = disable_all_known fd b q h.same_fd known in
      let d = disable_all b q in
      let r = remove_known fd b b d k (ap (find_fd fd) same.same_channels ∙ known) in
      (
        r.0 ∙ ap (erase_fd fd) (same.same_channels ∙ channels) ∙ erase_fd-last fd b p.channels free,
        r.1 ∙ ap (remove_all b) (same.same_list ∙ list) ∙ remove_all-last b p.channel_list older,
      )
