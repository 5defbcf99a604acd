-- ===== src/Http/Parser/Tests.antt =====
-- The theorems on the parser at concrete requests.
use my_project.Prelude.{
  ℕ, ◌≤◌, ◌≡◌, refl, ap, false, none, some, List, [], ◌∷◌, arith, Bytes, codes, length, drop,
  get_elem?, lookup, insert, bytes_eq, find_byte, index_of, All,
}
use my_project.Io.Buffer.{Buffer, peek, retrieve, skip, skip_last, compact}
use my_project.Io.Buffer.Invariant.{IsValid, contents, texts}
use my_project.Http.Request.{header, method_from_str, skip_spaces}
use my_project.Http.Parser.{
  headers_loop, header_line, find_crlf, request_fields, new_parser, parse_request_line,
  parse_headers, end_headers,
}
use my_project.Http.Parser.Number.{strtoul}
use my_project.Http.Parser.Machine.{parse, parse_loop, dispatch}
use my_project.Http.Parser.Consumed.{parse_lem}
use my_project.Http.Parser.Progress.{IsStopped, parse-IsStopped}
use my_project.Http.Parser.Encode.{line, request_text, headers_text, add_headers, IsField}
use my_project.Http.Parser.RoundTrip.{Shows, IsRequestLine, parsed, Gives, parse-headers_text}
use my_project.Http.Parser.WithBody.{parse-headers_text-body}

abbrev pub cell : Bytes → ℕ → ℕ
cell s i = elim (get_elem? s i) [ none ↦ 0 | some c ↦ c ]

-- A buffer of one block that holds `s`.
abbrev pub holding : Bytes → Buffer
holding s = record {
  consumed = [];
  pending = [];
  write_block = record { bytes = cell s; read_idx = 0; write_idx = length s };
  spare = [];
  size = length s;
}

abbrev get_text : Bytes
get_text =
    line (request_text (codes "GET") (codes "/") (codes "HTTP/1.1"))
      (headers_text ((codes "Host", codes "a") ∷ []) (codes "X"))

abbrev post_text : Bytes → Bytes → Bytes
post_text n rest =
    line (request_text (codes "PUT") (codes "/a") (codes "HTTP/1.1"))
      (headers_text ((codes "Content-Length", n) ∷ []) rest)

get-Shows : Shows (holding get_text) get_text
unfolding texts headers_text
get-Shows = record {
  valid = record { full = tt; fits = omega arith; clean = tt; sized = refl };
  single = record { no_pending = refl; no_consumed = refl };
  holds = refl;
}

parse_example :
    let (n, p', b') = parse new_parser (holding get_text) in
    IsValid b'
    × (contents b' ≡ drop n (contents (holding get_text)))
    × (n ≤ length (contents (holding get_text)))
parse_example = parse_lem new_parser (holding get_text) get-Shows.valid

parse_ends_example :
    IsStopped (parse new_parser (holding get_text)).1 (parse new_parser (holding get_text)).2
parse_ends_example = parse-IsStopped new_parser (holding get_text) get-Shows.valid

pub host-IsField : All IsField ((codes "Host", codes "a") ∷ [])
unfolding skip_spaces
host-IsField = (
  record {
    name_colon = ground arith;
    name_cr = ground arith;
    value_cr = ground arith;
    value_space = refl;
  },
  tt,
)

get-thrown : (parse new_parser (holding get_text)).1.thrown ≡ false
unfolding parse parse_loop dispatch parse_request_line parse_headers headers_loop header_line
    end_headers find_crlf request_fields peek retrieve skip skip_last compact find_byte headers_text
    method_from_str bytes_eq skip_spaces header lookup insert index_of
get-thrown = refl

two-strtoul : strtoul 10 (codes "2") ≡ 2
unfolding strtoul
two-strtoul = refl

zero-strtoul : strtoul 10 (codes "0") ≡ 0
unfolding strtoul
zero-strtoul = refl

pub get-IsRequestLine : IsRequestLine (codes "GET") (codes "/") (codes "HTTP/1.1")
get-IsRequestLine = record {
  method_space = ground arith;
  path_space = ground arith;
  line_cr = ground arith;
}

pub get-no_body :
    (header
        (codes "Transfer-Encoding")
        (parsed (codes "GET") (codes "/") (codes "HTTP/1.1") ((codes "Host", codes "a") ∷ []))
      ≡ [])
    × (header
          (codes "Content-Length")
          (parsed (codes "GET") (codes "/") (codes "HTTP/1.1") ((codes "Host", codes "a") ∷ []))
        ≡ [])
unfolding parsed add_headers header lookup insert bytes_eq
get-no_body = (refl, refl)

get_example :
    Gives
      (parse new_parser (holding get_text))
      (parsed (codes "GET") (codes "/") (codes "HTTP/1.1") ((codes "Host", codes "a") ∷ []))
      (codes "X")
get_example =
    parse-headers_text (codes "GET") (codes "/") (codes "HTTP/1.1") ((codes "Host", codes "a") ∷ [])
      (codes "X") (holding get_text) get-IsRequestLine host-IsField get-no_body.0 get-no_body.1
      get-Shows

put-IsRequestLine : IsRequestLine (codes "PUT") (codes "/a") (codes "HTTP/1.1")
put-IsRequestLine = record {
  method_space = ground arith;
  path_space = ground arith;
  line_cr = ground arith;
}

abbrev length_field : Bytes → List (Bytes × Bytes)
length_field n = (codes "Content-Length", n) ∷ []

two-IsField : All IsField (length_field (codes "2"))
unfolding skip_spaces
two-IsField = (
  record {
    name_colon = ground arith;
    name_cr = ground arith;
    value_cr = ground arith;
    value_space = refl;
  },
  tt,
)

zero-IsField : All IsField (length_field (codes "0"))
unfolding skip_spaces
zero-IsField = (
  record {
    name_colon = ground arith;
    name_cr = ground arith;
    value_cr = ground arith;
    value_space = refl;
  },
  tt,
)

put-Shows :
    Shows (holding (post_text (codes "2") (codes "abX"))) (post_text (codes "2") (codes "abX"))
unfolding texts headers_text
put-Shows = record {
  valid = record { full = tt; fits = omega arith; clean = tt; sized = refl };
  single = record { no_pending = refl; no_consumed = refl };
  holds = refl;
}

put_zero-Shows : Shows (holding (post_text (codes "0") [])) (post_text (codes "0") [])
unfolding texts headers_text
put_zero-Shows = record {
  valid = record { full = tt; fits = omega arith; clean = tt; sized = refl };
  single = record { no_pending = refl; no_consumed = refl };
  holds = refl;
}

put_headers :
    (n : Bytes)
    → (header
          (codes "Transfer-Encoding")
          (parsed (codes "PUT") (codes "/a") (codes "HTTP/1.1") (length_field n))
        ≡ [])
      × (header
            (codes "Content-Length")
            (parsed (codes "PUT") (codes "/a") (codes "HTTP/1.1") (length_field n))
          ≡ n)
unfolding parsed add_headers header lookup insert bytes_eq
put_headers n = (refl, refl)

put_example :
    Gives
      (parse new_parser (holding (post_text (codes "2") (codes "abX"))))
      (record (parsed (codes "PUT") (codes "/a") (codes "HTTP/1.1") (length_field (codes "2"))) {
        body = codes "ab";
      })
      (codes "X")
put_example =
    parse-headers_text-body (codes "PUT") (codes "/a") (codes "HTTP/1.1") (codes "2")
      (length_field (codes "2")) (codes "ab") (codes "X")
      (holding (post_text (codes "2") (codes "abX"))) put-IsRequestLine two-IsField
      (put_headers (codes "2")).0 (put_headers (codes "2")).1
      (λ e. absurd (omega (arith, ap length e))) two-strtoul (omega arith) put-Shows
