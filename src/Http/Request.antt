-- ===== src/Http/Request.antt =====
-- hound/src/http/http_request.h and http_request.cpp: the parsed request.
-- Header and parameter maps are the association lists of Prelude/Dict.antt.
pub mod Items
pub mod Pairs
pub mod Cookies
pub mod Methods
pub mod Tests
use my_project.Prelude.{
  ℕ, suc, ◌==◌, if◌then◌else◌, Bool, true, false, not, ◌&&◌, ◌||◌, Option, none, some, List, [],
  ◌∷◌, ◌++◌, Bytes, codes, bytes_eq, find_byte, index_of, lookup, insert, take, drop,
}

pub data Method : Type 0 where
  get post put http_delete head options patch unknown : Method

pub record HttpRequest : Type 0 where
  pub method : Method
  pub path : Bytes
  pub query : Bytes
  pub version : Bytes
  pub headers : List (Bytes × Bytes)
  pub body : Bytes
  pub keep_alive : Bool

-- `HttpRequest{}`
abbrev pub empty_request : HttpRequest
empty_request = record {
  method = unknown;
  path = [];
  query = [];
  version = codes "HTTP/1.1";
  headers = [];
  body = [];
  keep_alive = true;
}

abbrev pub add_header : Bytes → Bytes → HttpRequest → HttpRequest
add_header key value r = record r { headers = insert key value r.headers }

abbrev pub or_empty : Option Bytes → Bytes
or_empty none = []
or_empty (some v) = v

-- `header(key)`: the empty text where the header is missing.
unfoldable pub header : Bytes → HttpRequest → Bytes
unfolding lookup
header key r = or_empty (lookup key r.headers)

-- The query string leaves the path.
pub split_query : HttpRequest → HttpRequest
split_query r = elim (find_byte b'?' r.path) [
  | none ↦ r
  | some pos ↦ record r { query = drop (suc pos) r.path; path = take pos r.path }
]

pub wants_keep_alive : Bytes → Bytes → Bool
wants_keep_alive version conn =
    if bytes_eq version (codes "HTTP/1.0")
    then bytes_eq conn (codes "keep-alive") || bytes_eq conn (codes "Keep-Alive")
    else not (bytes_eq conn (codes "close")) && not (bytes_eq conn (codes "Close"))

unfoldable pub finalize : HttpRequest → HttpRequest
unfolding split_query wants_keep_alive header find_byte bytes_eq
finalize r =
    let s = split_query r in
    record s { keep_alive = wants_keep_alive s.version (header (codes "Connection") s) }

-- The items that `std::getline(iss, item, sep)` yields one after the other, the first argument
-- being what the current item has so far: an item ends at a separator or at the end of the text,
-- and at the end an empty item is none.
unfoldable pub items_from : Bytes → ℕ → Bytes → List Bytes
items_from [] sep [] = []
items_from (d ∷ cur) sep [] = (d ∷ cur) ∷ []
items_from cur sep (c ∷ s) = elim (c == sep) [
  | true ↦ cur ∷ items_from [] sep s
  | false ↦ items_from (cur ++ c ∷ []) sep s
]

unfoldable pub items : ℕ → Bytes → List Bytes
unfolding items_from
items sep s = items_from [] sep s

-- One round of the loops of `query_params` and `form_data`.
pub add_pair : Bytes → List (Bytes × Bytes) → List (Bytes × Bytes)
unfolding insert find_byte
add_pair pair params = elim (find_byte b'=' pair) [
  | none ↦ insert pair [] params
  | some pos ↦ insert (take pos pair) (drop (suc pos) pair) params
]

pub add_pairs : List Bytes → List (Bytes × Bytes) → List (Bytes × Bytes)
add_pairs [] params = params
add_pairs (p ∷ ps) params = add_pairs ps (add_pair p params)

unfoldable pub query_params : HttpRequest → List (Bytes × Bytes)
unfolding add_pairs add_pair items
query_params r = add_pairs (items b'&' r.query) []

unfoldable pub form_data : HttpRequest → List (Bytes × Bytes)
unfolding add_pairs add_pair items header index_of
form_data r =
    elim (index_of (codes "application/x-www-form-urlencoded") (header (codes "Content-Type") r)) [
      | none ↦ []
      | some _ ↦ add_pairs (items b'&' r.body) []
    ]

-- `while (start < item.size() && item[start] == ' ') ++start`, and the text from there on.
unfoldable pub skip_spaces : Bytes → Bytes
skip_spaces [] = []
skip_spaces (c ∷ s) = if c == b' ' then skip_spaces s else c ∷ s

-- The loop of `cookie` over the items.
pub cookie_in : Bytes → List Bytes → Bytes
cookie_in name [] = []
cookie_in name (i ∷ is) =
    let item = skip_spaces i in
    let on = cookie_in name is in
    elim (find_byte b'=' item) [
      | none ↦ on
      | some pos ↦ if bytes_eq (take pos item) name then drop (suc pos) item else on
    ]

unfoldable pub cookie : Bytes → HttpRequest → Bytes
unfolding cookie_in items header skip_spaces find_byte bytes_eq
cookie name r = cookie_in name (items b';' (header (codes "Cookie") r))

unfoldable pub method_str : Method → Bytes
method_str get = codes "GET"
method_str post = codes "POST"
method_str put = codes "PUT"
method_str http_delete = codes "DELETE"
method_str head = codes "HEAD"
method_str options = codes "OPTIONS"
method_str patch = codes "PATCH"
method_str unknown = codes "UNKNOWN"

unfoldable pub method_from_str : Bytes → Method
unfolding bytes_eq
method_from_str s =
    if bytes_eq s (codes "GET")
    then get
    else if bytes_eq s (codes "POST")
    then post
    else if bytes_eq s (codes "PUT")
    then put
    else if bytes_eq s (codes "DELETE")
    then http_delete
    else if bytes_eq s (codes "HEAD")
    then head
    else if bytes_eq s (codes "OPTIONS")
    then options
    else if bytes_eq s (codes "PATCH")
    then patch
    else unknown
