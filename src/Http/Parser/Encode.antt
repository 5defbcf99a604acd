-- ===== src/Http/Parser/Encode.antt =====
-- How a request is written on the wire, and what the line handlers read back from it.
use mathlib.Core.Path.{ap₂}
use my_project.Prelude.{
  ℕ, zero, suc, ◌+◌, ◌≤◌, ◌<◌, ◌≡◌, ◌≢◌, refl, sym, ap, subst, ◌∙◌, false, some, List, [], ◌∷◌,
  ◌++◌, arith, Bytes, Lacks, find_byte-left, length, take, drop, All, take_left, drop_past,
  drop-drop, drop-append_length, length-append, All-append,
}
use my_project.Http.Request.{HttpRequest, add_header, skip_spaces, method_from_str}
use my_project.Http.Parser.{
  HttpParser, headers, cr, lf, starts_crlf, find_crlf, request_fields, header_line, end_headers,
  headers_loop, parse_request_line, parse_headers,
}

-- A line with its end, and what follows.
abbrev pub line : Bytes → Bytes → Bytes
line s rest = s ++ (cr ∷ lf ∷ rest)

abbrev pub request_text : Bytes → Bytes → Bytes → Bytes
request_text m p v = m ++ (b' ' ∷ (p ++ (b' ' ∷ v)))

-- A header field with its name and its value.
abbrev pub header_text : Bytes × Bytes → Bytes
header_text h = h.0 ++ (b':' ∷ b' ' ∷ h.1)

-- The header lines, the empty line and what follows.
unfoldable pub headers_text : List (Bytes × Bytes) → Bytes → Bytes
headers_text [] rest = cr ∷ lf ∷ rest
headers_text (h ∷ hs) rest = line (header_text h) (headers_text hs rest)

unfoldable pub size_headers : List (Bytes × Bytes) → ℕ
size_headers [] = 2
size_headers (h ∷ hs) = length (header_text h) + 2 + size_headers hs

-- What the parser makes of the fields: the last value of a name stays.
unfoldable pub add_headers : List (Bytes × Bytes) → HttpRequest → HttpRequest
add_headers [] r = r
add_headers (h ∷ hs) r = add_headers hs (add_header h.0 h.1 r)

-- A name with no colon and no carriage return, a value with no carriage return and no space in
-- front.
pub record IsField (h : Bytes × Bytes) : Type 0 where
  pub name_colon : Lacks b':' h.0
  pub name_cr : Lacks cr h.0
  pub value_cr : Lacks cr h.1
  pub value_space : skip_spaces h.1 ≡ h.1

pub find_crlf-line : (s rest : Bytes) → Lacks cr s → find_crlf (line s rest) ≡ some (length s)
unfolding find_crlf
find_crlf-line [] rest h = refl
find_crlf-line (c ∷ []) rest (hc, _) = ground arith
find_crlf-line (c ∷ d ∷ s) rest (hc, hs) = ground (arith, find_crlf-line (d ∷ s) rest hs)

pub drop-line : (s rest : Bytes) → drop (length s + 2) (line s rest) ≡ rest
drop-line s rest = drop-append_length 2 s (cr ∷ lf ∷ rest)

-- The request line is read back into its three fields, and its bytes are consumed with its end.
pub parse_request_line_lem :
    (m p v rest : Bytes) (q : HttpParser)
    → Lacks b' ' m
    → Lacks b' ' p
    → Lacks cr (request_text m p v)
    → parse_request_line (line (request_text m p v) rest) q ≡ (
      length (request_text m p v) + 2,
      record q {
        request = record q.request { method = method_from_str m; path = p; version = v };
        state = headers;
      },
    )
unfolding parse_request_line request_fields
parse_request_line_lem m p v rest q hm hp hl = ground (
  arith,
  find_crlf-line (request_text m p v) rest hl,
  take_left (request_text m p v) (cr ∷ lf ∷ rest),
  find_byte-left b' ' m (p ++ (b' ' ∷ v)) hm,
  take_left m (b' ' ∷ (p ++ (b' ' ∷ v))),
  drop_past m b' ' (p ++ (b' ' ∷ v)),
  find_byte-left b' ' p v hp,
  take_left p (b' ' ∷ v),
  drop_past p b' ' v,
)

header_line_lem :
    (h : Bytes × Bytes) (q : HttpParser)
    → IsField h
    → header_line (header_text h) q ≡ record q { request = add_header h.0 h.1 q.request }
unfolding header_line skip_spaces
header_line_lem h q f = ground (
  arith,
  find_byte-left b':' h.0 (b' ' ∷ h.1) f.name_colon,
  take_left h.0 (b':' ∷ (b' ' ∷ h.1)),
  drop_past h.0 b':' (b' ' ∷ h.1),
  f.value_space,
)

header_text-Lacks : (h : Bytes × Bytes) → IsField h → Lacks cr (header_text h)
header_text-Lacks h f =
    All-append (λ d. d ≢ cr) h.0 (b':' ∷ b' ' ∷ h.1) f.name_cr
      (omega arith, (omega arith, f.value_cr))

-- A text with no carriage return in front of its end does not start with a line end.
starts_crlf-line : (s rest : Bytes) → Lacks cr s → 0 < length s → starts_crlf (line s rest) ≡ false
starts_crlf-line [] rest l h = absurd (omega arith)
starts_crlf-line (c ∷ []) rest l h = ground arith
starts_crlf-line (c ∷ d ∷ s) rest l h = ground arith

no_line : (n : ℕ) → find_crlf [] ≢ some n
unfolding find_crlf
no_line n e = cc

-- One round of the header loop.
headers_step :
    (fuel : ℕ) (t : Bytes) (n total : ℕ) (q : HttpParser)
    → starts_crlf t ≡ false
    → find_crlf t ≡ some n
    → headers_loop (suc fuel) t total q
      ≡ headers_loop fuel (drop (n + 2) t) (total + (n + 2)) (header_line (take n t) q)
unfolding headers_loop
headers_step fuel [] n total q a e = absurd (no_line n e)
headers_step fuel (c ∷ s) n total q a e = ground arith

headers_loop_lem :
    (hs : List (Bytes × Bytes)) (fuel : ℕ) (rest : Bytes) (total : ℕ) (q : HttpParser)
    → All IsField hs
    → length hs < fuel
    → headers_loop fuel (headers_text hs rest) total q
      ≡ (total + size_headers hs, end_headers (record q { request = add_headers hs q.request }))
unfolding headers_loop headers_text size_headers add_headers
headers_loop_lem hs zero rest total q fs h = absurd (omega arith)
headers_loop_lem [] (suc fuel) rest total q fs h = refl
headers_loop_lem (h ∷ hs) (suc fuel) rest total q (f, fs) enough =
    headers_step fuel (line (header_text h) behind) n total q
      (starts_crlf-line (header_text h) behind none_inside
        (omega (arith, length-append h.0 (b':' ∷ b' ' ∷ h.1))))
      (find_crlf-line (header_text h) behind none_inside)
    ∙ ap₂ (λ t q'. headers_loop fuel t (total + (n + 2)) q') (drop-line (header_text h) behind)
        (ap (λ t. header_line t q) (take_left (header_text h) (cr ∷ lf ∷ behind))
          ∙ header_line_lem h q f)
    ∙ headers_loop_lem hs fuel rest (total + (n + 2))
        (record q { request = add_header h.0 h.1 q.request }) fs (omega arith)
    ∙ ap
        (λ m.
          (m, end_headers (record q { request = add_headers hs (add_header h.0 h.1 q.request) })))
        (omega arith)
  where
    behind : Bytes
    behind = headers_text hs rest

    n : ℕ
    n = length (header_text h)

    none_inside : Lacks cr (header_text h)
    none_inside = header_text-Lacks h f

pub length-headers_text :
    (hs : List (Bytes × Bytes)) (rest : Bytes)
    → length (headers_text hs rest) ≡ size_headers hs + length rest
unfolding headers_text size_headers
length-headers_text [] rest = omega arith
length-headers_text (h ∷ hs) rest = omega (
  arith,
  length-append (header_text h) (cr ∷ lf ∷ headers_text hs rest),
  length-headers_text hs rest,
)

pub drop_headers :
    (hs : List (Bytes × Bytes)) (rest : Bytes)
    → drop (size_headers hs) (headers_text hs rest) ≡ rest
unfolding headers_text size_headers
drop_headers [] rest = refl
drop_headers (h ∷ hs) rest =
    sym (
      drop-drop (size_headers hs) (length (header_text h) + 2)
        (line (header_text h) (headers_text hs rest)))
    ∙ ap (drop (size_headers hs)) (drop-line (header_text h) (headers_text hs rest))
    ∙ drop_headers hs rest

pub length-le-size_headers : (hs : List (Bytes × Bytes)) → length hs + 2 ≤ size_headers hs
unfolding size_headers
length-le-size_headers [] = omega arith
length-le-size_headers (h ∷ hs) = omega (arith, length-le-size_headers hs)

-- The header lines up to the empty line are read back in order, and end the head of the request.
pub parse_headers_lem :
    (hs : List (Bytes × Bytes)) (rest : Bytes) (q : HttpParser)
    → All IsField hs
    → parse_headers (headers_text hs rest) q
      ≡ (size_headers hs, end_headers (record q { request = add_headers hs q.request }))
unfolding parse_headers
parse_headers_lem hs rest q fs =
    subst
      (λ f.
        headers_loop f (headers_text hs rest) 0 q
        ≡ (size_headers hs, end_headers (record q { request = add_headers hs q.request })))
      (let e : suc (length (headers_text hs rest)) ≡ length (headers_text hs rest) + 1 =
          omega arith in
        e)
      (headers_loop_lem hs (suc (length (headers_text hs rest))) rest 0 q fs
          (omega (arith, length-headers_text hs rest, length-le-size_headers hs))
        ∙ ap (λ m. (m, end_headers (record q { request = add_headers hs q.request })))
            (omega arith))
