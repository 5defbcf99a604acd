-- ===== src/Http/Request/Cookies.antt =====
-- What `cookie` of hound/src/http/http_request.cpp finds.
use my_project.Prelude.{
  ℕ, zero, suc, ◌≡◌, ◌≢◌, refl, ap, ◌∙◌, if◌then◌else◌, List, [], ◌∷◌, ◌++◌, map, replicate, All,
  All-append, Bytes, codes, Lacks, bytes_eq, find_byte-left, take_left, drop_past, arith,
}
use my_project.Http.Request.{HttpRequest, header, items, skip_spaces, cookie_in, cookie}
use my_project.Http.Request.Items.{join, IsItem, items-join}
use my_project.Http.Request.Pairs.{pair_text, IsPair, pair_text-IsItem}

-- A cookie behind some spaces.
abbrev pub cookie_text : ℕ × Bytes × Bytes → Bytes
cookie_text (n, k, v) = replicate n b' ' ++ pair_text (k, v)

-- A name without spaces, equals signs and semicolons, and a value without semicolons.
pub record IsCookie (c : ℕ × Bytes × Bytes) : Type 0 where
  pub name_space : Lacks b' ' c.1
  pub is_pair : IsPair b';' (c.1, c.2)

-- The value of the first cookie of the name, and the empty text where there is none.
abbrev pub value_of : Bytes → List (ℕ × Bytes × Bytes) → Bytes
value_of name [] = []
value_of name ((n, k, v) ∷ cs) = if bytes_eq k name then v else value_of name cs

skip_spaces-cookie_text :
    (n : ℕ) (k v : Bytes) → Lacks b' ' k → skip_spaces (cookie_text (n, k, v)) ≡ pair_text (k, v)
unfolding skip_spaces
skip_spaces-cookie_text zero [] v h = refl
skip_spaces-cookie_text zero (c ∷ k) v h = ground (arith, h.0)
skip_spaces-cookie_text (suc n) k v h = skip_spaces-cookie_text n k v h

Lacks-replicate : (sep n : ℕ) → b' ' ≢ sep → Lacks sep (replicate n b' ')
Lacks-replicate sep zero d = tt
Lacks-replicate sep (suc n) d = (d, Lacks-replicate sep n d)

cookie_text-IsItem : (c : ℕ × Bytes × Bytes) → IsCookie c → IsItem b';' (cookie_text c)
cookie_text-IsItem (n, k, v) h =
    let i = pair_text-IsItem b';' (k, v) (ground arith) h.is_pair in
    (
      All-append (λ c. c ≢ b';') (replicate n b' ') (pair_text (k, v))
          (Lacks-replicate b';' n (ground arith)) i.0,
      not_nil n i.1,
    )
  where
    not_nil : (n : ℕ) → pair_text (k, v) ≢ [] → replicate n b' ' ++ pair_text (k, v) ≢ []
    not_nil zero d e = d e
    not_nil (suc n) d e = cc

cookies-IsItem :
    (cs : List (ℕ × Bytes × Bytes)) → All IsCookie cs → All (IsItem b';') (map cookie_text cs)
cookies-IsItem [] h = tt
cookies-IsItem (c ∷ cs) h = (cookie_text-IsItem c h.0, cookies-IsItem cs h.1)

cookie_in-map :
    (name : Bytes) (cs : List (ℕ × Bytes × Bytes))
    → All IsCookie cs
    → cookie_in name (map cookie_text cs) ≡ value_of name cs
unfolding cookie_in
cookie_in-map name [] h = refl
cookie_in-map name ((n, k, v) ∷ cs) h =
    let e = skip_spaces-cookie_text n k v h.0.name_space in
    rw (cookie_in, e, find_byte-left b'=' k v h.0.is_pair.key_equals)
      (rw (e, take_left k (b'=' ∷ v), drop_past k b'=' v, cookie_in-map name cs h.1) refl)

-- A Cookie header of cookies that semicolons join, with any number of spaces in front of each:
-- `cookie` gives the value of the first one that has the name, and the empty text where none has.
pub cookie_lem :
    (name : Bytes) (cs : List (ℕ × Bytes × Bytes)) (r : HttpRequest)
    → All IsCookie cs
    → header (codes "Cookie") r ≡ join b';' (map cookie_text cs)
    → cookie name r ≡ value_of name cs
unfolding cookie
cookie_lem name cs r h e =
    ap (λ s. cookie_in name (items b';' s)) e
    ∙ ap (cookie_in name) (items-join b';' (map cookie_text cs) (cookies-IsItem cs h))
    ∙ cookie_in-map name cs h
