-- ===== src/Reactor/Poller/Added.antt =====
-- A channel that is made for a descriptor and hands itself to the poller, and its removal:
-- hound/src/reactor/channel.cpp and select_poller.cpp.
use my_project.Prelude.{
  ℕ, suc, ◌<◌, ◌≡◌, ◌≢◌, refl, ap, ◌∙◌, Bool, true, false, none, some, List, [], ◌∷◌, ◌++◌, All,
  arith,
}
use my_project.Reactor.Poller.{
  Events, Callback, Channel, new_channel, SelectPoller, find_fd, write_channel, update_channel,
  update, in_set, write_fds,
}
use my_project.Reactor.Poller.Watched.{update_channel_shadowed}

pub find_fd-last :
    (fd b : ℕ) (m : List (ℕ × ℕ)) → find_fd fd m ≡ none → find_fd fd (m ++ (fd, b) ∷ []) ≡ some b
unfolding find_fd
find_fd-last fd b [] h = ground arith
find_fd-last fd b ((k, a) ∷ m) h = ground (arith, find_fd-last fd b m)

pub in_set-last :
    (watches : Channel → Bool) (store : ℕ → Channel) (m : List (ℕ × ℕ)) (fd b k : ℕ)
    → watches (store b) ≡ false
    → in_set watches store (m ++ (fd, b) ∷ []) k ≡ in_set watches store m k
unfolding in_set
in_set-last watches store [] fd b k h = ground (arith, h)
in_set-last watches store ((j, a) ∷ m) fd b k h =
    ground (arith, in_set-last watches store m fd b k h)

-- The poller's channels were made before the one at the address b.
abbrev pub Older : ℕ → List (ℕ × ℕ) → Type 0
Older b = All (λ e. e.1 < b)

pub Older-suc : (b : ℕ) (m : List (ℕ × ℕ)) → Older b m → Older (suc b) m
Older-suc b [] h = h
Older-suc b (e ∷ m) h = (omega (arith, h.0), Older-suc b m h.1)

-- A new channel for a descriptor, with its events set.
abbrev pub made : ℕ → ℕ → (Callback → Bool) → Events → SelectPoller → SelectPoller
made b fd has ev p = update b ev (record p { store = write_channel b (new_channel fd has) p.store })

pub in_set-agree :
    (watches : Channel → Bool) (s t : ℕ → Channel) (b : ℕ) (m : List (ℕ × ℕ)) (k : ℕ)
    → ((x : ℕ) → x ≢ b → s x ≡ t x)
    → Older b m
    → in_set watches s m k ≡ in_set watches t m k
unfolding in_set
in_set-agree watches s t b [] k h o = refl
in_set-agree watches s t b ((j, a) ∷ m) k h o =
    rw (h a (λ q. ground (arith, o.0)), in_set-agree watches s t b m k h o.1) refl

pub update_channel_new :
    (b : ℕ) (p : SelectPoller)
    → find_fd (p.store b).fd p.channels ≡ none
    → update_channel b p ≡ record p {
      store = write_channel b (record (p.store b) { is_registered = true }) p.store;
      channels = p.channels ++ ((p.store b).fd, b) ∷ [];
      channel_list = p.channel_list ++ b ∷ [];
    }
unfolding update_channel
update_channel_new b p h = rw (update_channel, h) refl

module _ (b fd : ℕ) (has : Callback → Bool) (ev : Events) (p : SelectPoller) where
  -- The poller as `update` hands it to the loop.
  unfoldable pub handed : SelectPoller
  handed =
      let store = write_channel b (new_channel fd has) p.store in
      record p {
        store = write_channel b (record (store b) { events = ev; added_to_loop = true }) store;
      }

  pub handed-fd : (handed.store b).fd ≡ fd
  unfolding handed
  handed-fd = ground arith

  pub marked-other :
      (x : ℕ)
      → x ≢ b
      → write_channel b (record (handed.store b) { is_registered = true }) handed.store x
        ≡ p.store x
  unfolding handed
  marked-other x d = ground (arith, d)

  pub made_known :
      (a k : ℕ)
      → Older b p.channels
      → find_fd fd p.channels ≡ some a
      → ((made b fd has ev p).channels ≡ p.channels)
        × (write_fds (made b fd has ev p) k ≡ write_fds p k)
  unfolding update write_fds handed
  made_known a k older f =
      let e = update_channel_shadowed a b handed (ap (λ j. find_fd j p.channels) handed-fd ∙ f) in
      (
        ap (λ q. q.channels) e,
        ap (λ q. write_fds q k) e
            ∙ in_set-agree (λ c. c.events.write) _ p.store b p.channels k marked-other older,
      )

  pub made_new :
      (k : ℕ)
      → Older b p.channels
      → ev.write ≡ false
      → find_fd fd p.channels ≡ none
      → ((made b fd has ev p).channels ≡ p.channels ++ (fd, b) ∷ [])
        × (write_fds (made b fd has ev p) k ≡ write_fds p k)
  unfolding update write_fds handed
  made_new k older n f =
      let e = update_channel_new b handed (ap (λ j. find_fd j p.channels) handed-fd ∙ f) in
      (
        ap (λ q. q.channels) e ∙ ap (λ j. p.channels ++ (j, b) ∷ []) handed-fd,
        ap (λ q. write_fds q k) e
            ∙ in_set-last (λ c. c.events.write) _ p.channels _ b k (ground (arith, n))
            ∙ in_set-agree (λ c. c.events.write) _ p.store b p.channels k marked-other older,
      )
