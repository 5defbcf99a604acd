-- ===== src/Http/Request/Items.antt =====
-- The loops over std::getline in hound/src/http/http_request.cpp.
use my_project.Prelude.{
  ℕ, ◌≡◌, ◌≢◌, refl, ap, sym, ◌∙◌, List, [], ◌∷◌, ◌++◌, append-nil, append_assoc, All, Bytes, Lacks,
  arith,
}
use my_project.Http.Request.{items_from, items}

-- The texts one after the other, each but the last with the separator behind it.
abbrev pub join : ℕ → List Bytes → Bytes
join sep [] = []
join sep (x ∷ []) = x
join sep (x ∷ y ∷ xs) = x ++ (sep ∷ join sep (y ∷ xs))

abbrev pub IsItem : ℕ → Bytes → Type 0
IsItem sep x = Lacks sep x × (x ≢ [])

items_from_other :
    (cur : Bytes) (sep c : ℕ) (s : Bytes)
    → c ≢ sep
    → items_from cur sep (c ∷ s) ≡ items_from (cur ++ c ∷ []) sep s
unfolding items_from
items_from_other [] sep c s d = ground (arith, d)
items_from_other (b ∷ cur) sep c s d = ground (arith, d)

items_from_sep :
    (cur : Bytes) (sep : ℕ) (s : Bytes) → items_from cur sep (sep ∷ s) ≡ cur ∷ items_from [] sep s
unfolding items_from
items_from_sep [] sep s = ground arith
items_from_sep (b ∷ cur) sep s = ground arith

items_from_end : (cur : Bytes) (sep : ℕ) → cur ≢ [] → items_from cur sep [] ≡ cur ∷ []
unfolding items_from
items_from_end [] sep d = absurd (d refl)
items_from_end (b ∷ cur) sep d = refl

items_from-append :
    (cur : Bytes) (sep : ℕ) (x s : Bytes)
    → Lacks sep x
    → items_from cur sep (x ++ s) ≡ items_from (cur ++ x) sep s
items_from-append cur sep [] s h = ap (λ b. items_from b sep s) (sym (append-nil cur))
items_from-append cur sep (c ∷ x) s h =
    items_from_other cur sep c (x ++ s) h.0
    ∙ items_from-append (cur ++ c ∷ []) sep x s h.1
    ∙ ap (λ b. items_from b sep s) (append_assoc cur (c ∷ []) x)

-- The loops over `std::getline` read the joined texts back.
pub items-join : (sep : ℕ) (xs : List Bytes) → All (IsItem sep) xs → items sep (join sep xs) ≡ xs
unfolding items items_from
items-join sep [] h = refl
items-join sep (x ∷ []) h =
    ap (items_from [] sep) (sym (append-nil x))
    ∙ items_from-append [] sep x [] h.0.0
    ∙ items_from_end x sep h.0.1
items-join sep (x ∷ y ∷ xs) h =
    items_from-append [] sep x (sep ∷ join sep (y ∷ xs)) h.0.0
    ∙ items_from_sep x sep (join sep (y ∷ xs))
    ∙ ap (◌∷◌ x) (items-join sep (y ∷ xs) h.1)
