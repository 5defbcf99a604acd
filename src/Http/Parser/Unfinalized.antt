-- ===== src/Http/Parser/Unfinalized.antt =====
-- No handler calls `finalize`: the request that `request()` shows has its default connection flag
-- and no query string, whatever the client sent.
use my_project.Prelude.{
  ℕ, zero, suc, ◌+◌, ◌≡◌, refl, ◌∙◌, inl, inr, true, [], ◌∷◌, arith, Bytes, length, take, drop,
  Option-cases,
}
use my_project.Io.Buffer.{Buffer, peek, retrieve}
use my_project.Http.Parser.{
  State, start, request_line, headers, body, chunked_body, done, error, HttpParser, new_parser,
  find_crlf, request_fields, header_line, end_headers, headers_loop, parse_request_line,
  parse_headers, parse_body,
}
use my_project.Http.Parser.Number.{strtoul}
use my_project.Http.Parser.Machine.{
  chunk_sized, chunk_whole, chunk_part, chunk_loop, parse_chunked_body, dispatch, parse_loop, parse,
}

record Keeps (p q : HttpParser) : Type 0 where
  same_flag : q.request.keep_alive ≡ p.request.keep_alive
  same_query : q.request.query ≡ p.request.query

same : (p : HttpParser) → Keeps p p
same p = record { same_flag = refl; same_query = refl }

then : {p q r : HttpParser} → Keeps p q → Keeps q r → Keeps p r
then a b = record {
  same_flag = b.same_flag ∙ a.same_flag;
  same_query = b.same_query ∙ a.same_query;
}

parse_request_line-Keeps : (t : Bytes) (p : HttpParser) → Keeps p (parse_request_line t p).1
unfolding parse_request_line request_fields
parse_request_line-Keeps t p = ground arith

header_line-Keeps : (t : Bytes) (p : HttpParser) → Keeps p (header_line t p)
unfolding header_line
header_line-Keeps t p = ground arith

end_headers-Keeps : (p : HttpParser) → Keeps p (end_headers p)
unfolding end_headers
end_headers-Keeps p = ground arith

headers_loop-Keeps :
    (fuel : ℕ) (t : Bytes) (total : ℕ) (p : HttpParser) → Keeps p (headers_loop fuel t total p).1
unfolding headers_loop
headers_loop-Keeps zero t total p = same p
headers_loop-Keeps (suc fuel) [] total p = same p
headers_loop-Keeps (suc fuel) (c ∷ s) total p = elim (Option-cases (find_crlf (c ∷ s))) [
  | inl missing ↦ ground (arith, end_headers-Keeps p)
  | inr (n, found) ↦ ground (
    arith,
    end_headers-Keeps p,
    header_line-Keeps (take n (c ∷ s)) p,
    headers_loop-Keeps fuel (drop (n + 2) (c ∷ s)) (total + (n + 2))
        (header_line (take n (c ∷ s)) p),
  )
]

parse_body-Keeps : (t : Bytes) (p : HttpParser) → Keeps p (parse_body t p).1
unfolding parse_body
parse_body-Keeps t p = ground arith

chunk_sized-Keeps : (n : ℕ) (p : HttpParser) → Keeps p (chunk_sized n p)
unfolding chunk_sized
chunk_sized-Keeps n p = ground arith

chunk_loop-Keeps :
    (fuel : ℕ) (t : Bytes) (total : ℕ) (p : HttpParser) → Keeps p (chunk_loop fuel t total p).1
unfolding chunk_loop chunk_whole chunk_part
chunk_loop-Keeps zero t total p = same p
chunk_loop-Keeps (suc fuel) [] total p = same p
chunk_loop-Keeps (suc fuel) (c ∷ s) total p =
    let p2 = chunk_whole (c ∷ s) p in
    let on =
      chunk_loop-Keeps fuel (drop (p.chunk_size + 2) (c ∷ s)) (total + (p.chunk_size + 2)) p2 in
    elim (Option-cases (find_crlf (c ∷ s))) [
      | inl missing ↦ ground (arith, on)
      | inr (n, found) ↦
          let p1 = chunk_sized (strtoul 16 (c ∷ s)) p in
          ground (
            arith,
            on,
            chunk_sized-Keeps (strtoul 16 (c ∷ s)) p,
            chunk_loop-Keeps fuel (drop (n + 2) (c ∷ s)) (total + (n + 2)) p1,
          )
    ]

dispatch-Keeps : (st : State) (t : Bytes) (p : HttpParser) → Keeps p (dispatch st t p).1
unfolding dispatch parse_headers parse_chunked_body
dispatch-Keeps start t p = parse_request_line-Keeps t p
dispatch-Keeps request_line t p = parse_request_line-Keeps t p
dispatch-Keeps headers t p = headers_loop-Keeps (length t + 1) t 0 p
dispatch-Keeps body t p = parse_body-Keeps t p
dispatch-Keeps chunked_body t p = chunk_loop-Keeps (length t + 1) t 0 p
dispatch-Keeps done t p = same p
dispatch-Keeps error t p = same p

parse_loop-Keeps :
    (fuel : ℕ) (p : HttpParser) (b : Buffer) (total : ℕ) → Keeps p (parse_loop fuel p b total).1
unfolding parse_loop
parse_loop-Keeps zero p b total = same p
parse_loop-Keeps (suc fuel) p b total =
    let (n, q) = dispatch p.state (peek b) p in
    ground
      (arith, dispatch-Keeps p.state (peek b) p, parse_loop-Keeps fuel q (retrieve n b) (total + n))

-- Whatever bytes come in, the request of a parser that started afresh has the keep-alive flag set
-- and no query string: `Connection: close` and `?` in the path are left for `finalize`.
pub parse_unfinalized :
    (b : Buffer)
    → ((parse new_parser b).1.request.keep_alive ≡ true)
      × ((parse new_parser b).1.request.query ≡ [])
unfolding parse
parse_unfinalized b =
    let k = parse_loop-Keeps (b.size + 1) new_parser b 0 in (k.same_flag, k.same_query)
