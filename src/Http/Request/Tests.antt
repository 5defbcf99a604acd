-- ===== src/Http/Request/Tests.antt =====
-- The theorems on requests at the query a=1&b=2&a=3 and a cookie header.
use my_project.Prelude.{
  ℕ, ◌≡◌, refl, List, [], ◌∷◌, map, All, Bytes, codes, bytes_eq, lookup, arith,
}
use my_project.Http.Request.{
  HttpRequest, empty_request, add_header, header, query_params, form_data, cookie,
}
use my_project.Http.Request.Items.{join}
use my_project.Http.Request.Pairs.{
  pair_text, IsPair, insert_all, form_announced, body_for, form_for, pairs_read,
}
use my_project.Http.Request.Cookies.{cookie_text, IsCookie, cookie_lem}

abbrev query_pairs : List (Bytes × Bytes)
query_pairs = (codes "a", codes "1") ∷ (codes "b", codes "2") ∷ (codes "a", codes "3") ∷ []

pairs-IsPair : All (IsPair b'&') query_pairs
pairs-IsPair = (
  record { key_equals = ground arith; key_sep = ground arith; value_sep = ground arith },
  (
    record { key_equals = ground arith; key_sep = ground arith; value_sep = ground arith },
    (record { key_equals = ground arith; key_sep = ground arith; value_sep = ground arith }, tt),
  ),
)

abbrev form : HttpRequest
form = add_header (codes "Content-Type") (codes "application/x-www-form-urlencoded") empty_request

query_example :
    (query_params (record form { query = join b'&' (map pair_text query_pairs) })
      ≡ insert_all query_pairs [])
    × (form_data (record form { body = body_for (form_announced form) (codes "{}") query_pairs })
        ≡ form_for (form_announced form) query_pairs)
query_example = pairs_read query_pairs query_pairs (codes "{}") form pairs-IsPair pairs-IsPair

abbrev cookies : List (ℕ × Bytes × Bytes)
cookies = (0, codes "a", codes "1") ∷ (1, codes "b", codes "2=3") ∷ []

cookies-IsCookie : All IsCookie cookies
cookies-IsCookie = (
  record {
    name_space = ground arith;
    is_pair = record {
      key_equals = ground arith;
      key_sep = ground arith;
      value_sep = ground arith;
    };
  },
  (
    record {
      name_space = ground arith;
      is_pair = record {
        key_equals = ground arith;
        key_sep = ground arith;
        value_sep = ground arith;
      };
    },
    tt,
  ),
)

abbrev cookie_request : HttpRequest
cookie_request = record empty_request { headers = (codes "Cookie", codes "a=1; b=2=3") ∷ [] }

cookie_header : header (codes "Cookie") cookie_request ≡ join b';' (map cookie_text cookies)
unfolding header lookup bytes_eq
cookie_header = refl

cookie_example : cookie (codes "b") cookie_request ≡ codes "2=3"
unfolding bytes_eq
cookie_example = cookie_lem (codes "b") cookies cookie_request cookies-IsCookie cookie_header
