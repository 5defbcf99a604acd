-- ===== src/Http/Request/Pairs.antt =====
-- What hound/src/http/http_request.cpp reads back of queries and forms.
use my_project.Prelude.{
  ℕ, ◌≡◌, ◌≢◌, refl, ap, ◌∙◌, Option, none, some, List, [], ◌∷◌, ◌++◌, map, All, All-append, Bytes,
  codes, Lacks, find_byte-left, insert, index_of, take_left, drop_past, arith,
}
use my_project.Http.Request.{
  HttpRequest, header, items, add_pair, add_pairs, query_params, form_data,
}
use my_project.Http.Request.Items.{join, IsItem, items-join}

-- A key with its value.
abbrev pub pair_text : Bytes × Bytes → Bytes
pair_text p = p.0 ++ (b'=' ∷ p.1)

-- A key without the equals sign, and no separator in either.
pub record IsPair (sep : ℕ) (p : Bytes × Bytes) : Type 0 where
  pub key_equals : Lacks b'=' p.0
  pub key_sep : Lacks sep p.0
  pub value_sep : Lacks sep p.1

pub pair_text-IsItem :
    (sep : ℕ) (p : Bytes × Bytes) → b'=' ≢ sep → IsPair sep p → IsItem sep (pair_text p)
pair_text-IsItem sep (k, v) d h =
    (All-append (λ c. c ≢ sep) k (b'=' ∷ v) h.key_sep (d, h.value_sep), not_nil k)
  where
    not_nil : (k : Bytes) → k ++ (b'=' ∷ v) ≢ []
    not_nil [] e = cc
    not_nil (c ∷ k) e = cc

pairs-IsItem :
    (sep : ℕ) (ps : List (Bytes × Bytes))
    → b'=' ≢ sep
    → All (IsPair sep) ps
    → All (IsItem sep) (map pair_text ps)
pairs-IsItem sep [] d h = tt
pairs-IsItem sep (p ∷ ps) d h = (pair_text-IsItem sep p d h.0, pairs-IsItem sep ps d h.1)

-- The map after the assignments in their order: the last value of a key stays.
abbrev pub insert_all : List (Bytes × Bytes) → List (Bytes × Bytes) → List (Bytes × Bytes)
insert_all [] m = m
insert_all (p ∷ ps) m = insert_all ps (insert p.0 p.1 m)

add_pair-pair_text :
    (k v : Bytes) (m : List (Bytes × Bytes))
    → Lacks b'=' k
    → add_pair (pair_text (k, v)) m ≡ insert k v m
unfolding add_pair
add_pair-pair_text k v m h =
    rw (add_pair, find_byte-left b'=' k v h) (rw (take_left k (b'=' ∷ v), drop_past k b'=' v) refl)

add_pairs-map :
    (sep : ℕ) (ps m : List (Bytes × Bytes))
    → All (IsPair sep) ps
    → add_pairs (map pair_text ps) m ≡ insert_all ps m
unfolding add_pairs
add_pairs-map sep [] m h = refl
add_pairs-map sep ((k, v) ∷ ps) m h =
    ap (add_pairs (map pair_text ps)) (add_pair-pair_text k v m h.0.key_equals)
    ∙ add_pairs-map sep ps (insert k v m) h.1

-- What the header says of the body: where a form is announced, and none where it is not.
abbrev pub form_announced : HttpRequest → Option ℕ
form_announced r =
    index_of (codes "application/x-www-form-urlencoded") (header (codes "Content-Type") r)

-- The body that is sent and the map that is read, where a form is announced and where not
abbrev pub body_for : Option ℕ → Bytes → List (Bytes × Bytes) → Bytes
body_for none other fs = other
body_for (some i) other fs = join b'&' (map pair_text fs)

abbrev pub form_for : Option ℕ → List (Bytes × Bytes) → List (Bytes × Bytes)
form_for none fs = []
form_for (some i) fs = insert_all fs []

read_back :
    (ps : List (Bytes × Bytes))
    → All (IsPair b'&') ps
    → add_pairs (items b'&' (join b'&' (map pair_text ps))) [] ≡ insert_all ps []
read_back ps h =
    ap (λ xs. add_pairs xs [])
      (items-join b'&' (map pair_text ps) (pairs-IsItem b'&' ps (ground arith) h))
    ∙ add_pairs-map b'&' ps [] h

form_data-body_for :
    (o : Option ℕ) (fs : List (Bytes × Bytes)) (other : Bytes) (r : HttpRequest)
    → form_announced r ≡ o
    → All (IsPair b'&') fs
    → form_data (record r { body = body_for o other fs }) ≡ form_for o fs
unfolding form_data
form_data-body_for none fs other r e h = rw (e, form_data) refl
form_data-body_for (some i) fs other r e h = rw (e, form_data) (read_back fs h)

-- A query, and the body of a request whose content type is that of a form, whose pairs are joined by
-- ampersands are read back into the map that assigning the pairs one after the other gives, so the
-- last value of a key stays; whatever body comes with another content type is read as no pair.
pub pairs_read :
    (qs fs : List (Bytes × Bytes)) (other : Bytes) (r : HttpRequest)
    → All (IsPair b'&') qs
    → All (IsPair b'&') fs
    → (query_params (record r { query = join b'&' (map pair_text qs) }) ≡ insert_all qs [])
      × (form_data (record r { body = body_for (form_announced r) other fs })
          ≡ form_for (form_announced r) fs)
unfolding query_params
pairs_read qs fs other r hq hf =
    (read_back qs hq, form_data-body_for (form_announced r) fs other r refl hf)
