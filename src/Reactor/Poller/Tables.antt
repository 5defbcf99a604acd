-- ===== src/Reactor/Poller/Tables.antt =====
-- The map and the list of the channels that hound/src/reactor/select_poller.cpp keeps.
use my_project.Prelude.{
  ℕ, ◌==◌, ==_iff, ◌⊎◌, ◌≡◌, ◌≢◌, inl, inr, refl, sym, ap, ◌∙◌, true, false, Bool-cases, none, some,
  Option-cases, List, [], ◌∷◌, ◌++◌, map, All, All-append, arith,
}
use my_project.Reactor.Poller.{
  Channel, SelectPoller, find_fd, erase_fd, remove_all, write_channel, update_channel,
  remove_channel,
}

abbrev pub address : ℕ × ℕ → ℕ
address e = e.1

-- Each entry of the map is a channel under its own descriptor.
abbrev pub Owns : (ℕ → Channel) → ℕ × ℕ → Type 0
Owns store e = (store e.1).fd ≡ e.0

-- No descriptor stands in the map twice.
abbrev pub Distinct : List (ℕ × ℕ) → Type 0
Distinct [] = Unit
Distinct (e ∷ m) = (find_fd e.0 m ≡ none) × Distinct m

-- The list holds just the channels of the map.
pub record IsValid (p : SelectPoller) : Type 0 where
  pub owners : All (Owns p.store) p.channels
  pub distinct : Distinct p.channels
  pub same : p.channel_list ≡ map address p.channels

module _ (store : ℕ → Channel) (a : ℕ) where
  remove_all-absent :
      (m : List (ℕ × ℕ))
      → All (Owns store) m
      → find_fd (store a).fd m ≡ none
      → remove_all a (map address m) ≡ map address m
  unfolding find_fd remove_all
  remove_all-absent [] h f = refl
  remove_all-absent ((k, b) ∷ m) (hb, hs) f = ground (arith, remove_all-absent m hs)

  remove_all-erase_fd :
      (m : List (ℕ × ℕ))
      → All (Owns store) m
      → Distinct m
      → find_fd (store a).fd m ≡ some a
      → remove_all a (map address m) ≡ map address (erase_fd (store a).fd m)
  unfolding find_fd remove_all erase_fd
  remove_all-erase_fd [] h d f = cc
  remove_all-erase_fd ((k, b) ∷ m) (hb, hs) (dk, ds) f =
      ground (arith, remove_all-erase_fd m hs ds, remove_all-absent m hs)

find_fd-append :
    (fd k a : ℕ) (m : List (ℕ × ℕ))
    → find_fd fd m ≡ none
    → k ≢ fd
    → find_fd fd (m ++ (k, a) ∷ []) ≡ none
unfolding find_fd
find_fd-append fd k a [] f d = ground arith
find_fd-append fd k a ((j, b) ∷ m) f d = ground (arith, find_fd-append fd k a m)

Distinct-append :
    (k a : ℕ) (m : List (ℕ × ℕ)) → Distinct m → find_fd k m ≡ none → Distinct (m ++ (k, a) ∷ [])
unfolding find_fd
Distinct-append k a [] d f = (refl, tt)
Distinct-append k a ((j, b) ∷ m) (dj, ds) f =
    (find_fd-append j k a m dj (ground arith), Distinct-append k a m ds (ground arith))

find_fd-erase_fd :
    (fd k : ℕ) (m : List (ℕ × ℕ)) → find_fd fd m ≡ none → find_fd fd (erase_fd k m) ≡ none
unfolding find_fd erase_fd
find_fd-erase_fd fd k [] f = refl
find_fd-erase_fd fd k ((j, b) ∷ m) f = ground (arith, find_fd-erase_fd fd k m)

Distinct-erase_fd : (k : ℕ) (m : List (ℕ × ℕ)) → Distinct m → Distinct (erase_fd k m)
unfolding erase_fd
Distinct-erase_fd k [] d = tt
Distinct-erase_fd k ((j, b) ∷ m) (dj, ds) = elim (Bool-cases (j == k)) [
  | inl e ↦ rw e ds
  | inr e ↦ rw e (find_fd-erase_fd j k m dj, Distinct-erase_fd k m ds)
]

All-erase_fd :
    (store : ℕ → Channel) (k : ℕ) (m : List (ℕ × ℕ))
    → All (Owns store) m
    → All (Owns store) (erase_fd k m)
unfolding erase_fd
All-erase_fd store k [] h = tt
All-erase_fd store k ((j, b) ∷ m) (hb, hs) = elim (Bool-cases (j == k)) [
  | inl e ↦ rw e hs
  | inr e ↦ rw e (hb, All-erase_fd store k m hs)
]

-- Marking a channel does not change whose descriptor it is.
All-marked :
    (a : ℕ) (ch : Channel) (store : ℕ → Channel) (m : List (ℕ × ℕ))
    → ch.fd ≡ (store a).fd
    → All (Owns store) m
    → All (Owns (write_channel a ch store)) m
All-marked a ch store [] e h = tt
All-marked a ch store ((k, b) ∷ m) e (hb, hs) = (ground arith, All-marked a ch store m e hs)

map-append : (xs ys : List (ℕ × ℕ)) → map address (xs ++ ys) ≡ map address xs ++ map address ys
map-append [] ys = refl
map-append (e ∷ xs) ys = ap (◌∷◌ e.1) (map-append xs ys)

update_channel-IsValid : (a : ℕ) (p : SelectPoller) → IsValid p → IsValid (update_channel a p)
unfolding update_channel
update_channel-IsValid a p v =
    let ch = record (p.store a) { is_registered = true } in
    let kept = All-marked a ch p.store p.channels refl v.owners in
    elim (Option-cases (find_fd (p.store a).fd p.channels)) [
      | inr (b, e) ↦
          rw (e, update_channel) (record { owners = kept; distinct = v.distinct; same = v.same })
      | inl e ↦
          rw (e, update_channel)
            (record {
              owners =
                  All-append (Owns (write_channel a ch p.store)) p.channels
                    (((p.store a).fd, a) ∷ []) kept (ground arith, tt);
              distinct = Distinct-append (p.store a).fd a p.channels v.distinct e;
              same =
                  ap (λ l. l ++ a ∷ []) v.same
                  ∙ sym (map-append p.channels (((p.store a).fd, a) ∷ []));
            })
    ]

remove_channel-IsValid :
    (a : ℕ) (p : SelectPoller)
    → find_fd (p.store a).fd p.channels ≡ some a
    → IsValid p
    → IsValid (remove_channel a p)
unfolding remove_channel
remove_channel-IsValid a p e v =
    let ch = record (p.store a) { is_registered = false } in
    rw (e, remove_channel)
      (record {
        owners =
            All-erase_fd (write_channel a ch p.store) (p.store a).fd p.channels
              (All-marked a ch p.store p.channels refl v.owners);
        distinct = Distinct-erase_fd (p.store a).fd p.channels v.distinct;
        same =
            ap (remove_all a) v.same
            ∙ remove_all-erase_fd p.store a p.channels v.owners v.distinct e;
      })

-- An empty poller is valid.
pub empty-IsValid : (p : SelectPoller) → p.channels ≡ [] → p.channel_list ≡ [] → IsValid p
empty-IsValid p e f = record { owners = rw e tt; distinct = rw e tt; same = rw (e, f) refl }

-- What the channels ask of the poller: a channel is made or changes its own fields, but the
-- descriptor of a channel that the map holds; it is updated; or it is removed where the map holds it.
pub data Reach (p : SelectPoller) : SelectPoller → Type 0 where
  here : Reach p p
  written :
      (a : ℕ) (ch : Channel) {q : SelectPoller}
      → Reach p q
      → All (λ e. e.1 ≡ a → ch.fd ≡ e.0) q.channels
      → Reach p (record q { store = write_channel a ch q.store })
  updated : (a : ℕ) {q : SelectPoller} → Reach p q → Reach p (update_channel a q)
  removed :
      (a : ℕ) {q : SelectPoller}
      → Reach p q
      → find_fd (q.store a).fd q.channels ≡ some a
      → Reach p (remove_channel a q)

All-written :
    (a : ℕ) (ch : Channel) (store : ℕ → Channel) (m : List (ℕ × ℕ))
    → All (λ e. e.1 ≡ a → ch.fd ≡ e.0) m
    → All (Owns store) m
    → All (Owns (write_channel a ch store)) m
All-written a ch store [] w h = tt
All-written a ch store ((k, b) ∷ m) (wb, ws) (hb, hs) =
    (owned (Bool-cases (b == a)), All-written a ch store m ws hs)
  where
    owned : ((b == a) ≡ true) ⊎ ((b == a) ≡ false) → Owns (write_channel a ch store) (k, b)
    owned (inl e) = rw e (wb ((==_iff b a).0 e))
    owned (inr e) = rw e hb

-- However channels are made, changed, updated and removed, from a valid poller, such as the empty
-- one: the map and the list stay in step. Every channel of the map stands under its own descriptor,
-- no descriptor stands there twice, and the list holds just those channels.
pub channels-IsValid : {p q : SelectPoller} → IsValid p → Reach p q → IsValid q
channels-IsValid v here = v
channels-IsValid v (written a ch {q} r w) =
    let u = channels-IsValid v r in
    record {
      owners = All-written a ch q.store q.channels w u.owners;
      distinct = u.distinct;
      same = u.same;
    }
channels-IsValid v (updated a {q} r) = update_channel-IsValid a q (channels-IsValid v r)
channels-IsValid v (removed a {q} r e) = remove_channel-IsValid a q e (channels-IsValid v r)
