-- ===== src/Http/Parser.antt =====
-- hound/src/http/http_parser.h and http_parser.cpp: the request parser, a state machine over the
-- bytes of the first block of a buffer.
-- A handler returns the bytes it consumed and the parser. The field `thrown` says that
-- `std::string::append` threw std::length_error, which no caller catches.
pub mod Number
pub mod Machine
pub mod Consumed
pub mod Progress
pub mod Encode
pub mod RoundTrip
pub mod WithBody
pub mod Chunks
pub mod Unfinalized
pub mod Tests
use my_project.Prelude.{
  ℕ, zero, suc, ◌+◌, ◌-◌, ◌%◌, ◌^◌, min, ltb, leb, ◌==◌, if◌then◌else◌, Bool, true, false, ◌&&◌,
  Option, none, some, List, [], ◌∷◌, ◌++◌, Bytes, codes, find_byte, index_of, length, take, drop,
}
use mathlib.Core.Option
use my_project.Io.Buffer.{Buffer, peek, retrieve}
use my_project.Http.Request.{
  HttpRequest, empty_request, add_header, header, finalize, skip_spaces, method_from_str,
}
use Number.{strtoul}

pub data State : Type 0 where
  start request_line headers body chunked_body done error : State

pub record HttpParser : Type 0 where
  pub state : State
  pub request : HttpRequest
  pub current_header_key : Bytes
  pub content_length : ℕ
  pub body_read : ℕ
  pub temp_body : Bytes
  pub chunk_size : ℕ
  pub reading_chunk_size : Bool
  pub chunked : Bool
  pub thrown : Bool

-- The constructor, and `reset()`.
abbrev pub new_parser : HttpParser
new_parser = record {
  state = start;
  request = empty_request;
  current_header_key = [];
  content_length = 0;
  body_read = 0;
  temp_body = [];
  chunk_size = 0;
  reading_chunk_size = true;
  chunked = false;
  thrown = false;
}

unfoldable pub take_request : HttpParser → HttpRequest
unfolding finalize
take_request p = finalize p.request

abbrev pub cr : ℕ
cr = b'\r'

abbrev pub lf : ℕ
lf = b'\n'

-- Does the text start with "\r\n"?
abbrev pub starts_crlf : Bytes → Bool
starts_crlf [] = false
starts_crlf (c ∷ []) = false
starts_crlf (c ∷ d ∷ s) = (c == cr) && (d == lf)

-- The index of the first "\r\n".
unfoldable pub find_crlf : Bytes → Option ℕ
find_crlf [] = none
find_crlf (c ∷ s) = if starts_crlf (c ∷ s) then some 0 else Option.map suc (find_crlf s)

-- The request line without its "\r\n": METHOD SP URI SP VERSION.
unfoldable pub request_fields : Bytes → HttpParser → Option HttpParser
request_fields line p = elim (find_byte b' ' line) [
  | none ↦ none
  | some sp1 ↦
      let behind = drop (suc sp1) line in
      elim (find_byte b' ' behind) [
        | none ↦ none
        | some n ↦ some (record p {
          request = record p.request {
            method = method_from_str (take sp1 line);
            path = take n behind;
            version = drop (suc n) behind;
          };
          state = headers;
        })
      ]
]

unfoldable pub parse_request_line : Bytes → HttpParser → ℕ × HttpParser
parse_request_line line_data p = elim (find_crlf line_data) [
  | none ↦ (0, p)
  | some n ↦ elim (request_fields (take n line_data) p) [
    | none ↦ (0, record p { state = error })
    | some p' ↦ (n + 2, p')
  ]
]

-- One header line without its "\r\n"; a line with no colon is passed over.
pub header_line : Bytes → HttpParser → HttpParser
header_line line p = elim (find_byte b':' line) [
  | none ↦ p
  | some colon ↦ record p {
    request = add_header (take colon line) (skip_spaces (drop (suc colon) line)) p.request;
  }
]

-- What the empty line behind the headers does.
pub end_headers : HttpParser → HttpParser
end_headers p =
    let cl = header (codes "Content-Length") p.request in
    elim (index_of (codes "chunked") (header (codes "Transfer-Encoding") p.request)) [
      | some _ ↦ record p { chunked = true; state = chunked_body }
      | none ↦
          if length cl == 0
          then record p { state = done }
          else record p { content_length = strtoul 10 cl; state = body }
    ]

-- The loop of `parse_headers` over the bytes from `current` on.
pub headers_loop : ℕ → Bytes → ℕ → HttpParser → ℕ × HttpParser
headers_loop zero current consumed_total p = (consumed_total, p)
headers_loop (suc fuel) [] consumed_total p = (consumed_total, p)
headers_loop (suc fuel) (c ∷ s) consumed_total p =
    let current = c ∷ s in
    let more : ℕ × HttpParser = elim (find_crlf current) [
      | none ↦ (consumed_total, p)
      | some n ↦
          headers_loop fuel (drop (n + 2) current) (consumed_total + (n + 2))
            (header_line (take n current) p)
    ] in
    if starts_crlf current then (consumed_total + 2, end_headers p) else more

-- A round consumes a byte at least.
unfoldable pub parse_headers : Bytes → HttpParser → ℕ × HttpParser
parse_headers text p = headers_loop (length text + 1) text 0 p

unfoldable pub parse_body : Bytes → HttpParser → ℕ × HttpParser
parse_body text p =
    let needed = p.content_length - p.body_read in
    let to_consume = min needed (length text) in
    let p' = record p {
      temp_body = p.temp_body ++ take to_consume text;
      body_read = p.body_read + to_consume;
    } in
    if leb p.content_length (p.body_read + to_consume)
    then (
      to_consume,
      record p' {
        request = record p.request { body = p.temp_body ++ take to_consume text };
        state = done;
      },
    )
    else (to_consume, p')
