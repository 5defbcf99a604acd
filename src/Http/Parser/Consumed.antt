-- ===== src/Http/Parser/Consumed.antt =====
-- What the handlers consume: never more than they are given, and `parse` a prefix of the contents.
use my_project.Prelude.{
  ℕ, zero, suc, ◌+◌, ◌-◌, ◌≤◌, ◌≡◌, refl, sym, ap, ◌∙◌, inl, inr, ◌==◌, ◌||◌, some, [], ◌∷◌, Bytes,
  length, take, drop, Bool-cases, Option-cases, length-drop, drop-drop, arith,
}
use my_project.Io.Buffer.{Buffer, peek, retrieve}
use my_project.Io.Buffer.Invariant.{IsValid, contents}
use my_project.Io.Buffer.Retrieve.{retrieve_lem}
use my_project.Io.Buffer.Peek.{length-peek-le}
use my_project.Http.Parser.{
  State, start, request_line, headers, body, chunked_body, done, error, HttpParser, find_crlf,
  header_line, headers_loop, parse_request_line, parse_headers, parse_body,
}
use my_project.Http.Parser.Number.{strtoul}
use my_project.Http.Parser.Machine.{
  chunk_sized, chunk_whole, chunk_loop, parse_chunked_body, dispatch, is_final, parse_loop, parse,
}

-- A "\r\n" that is found has both its bytes inside the text.
pub find_crlf_inside : (s : Bytes) (n : ℕ) → find_crlf s ≡ some n → n + 2 ≤ length s
unfolding find_crlf
find_crlf_inside [] n e = cc
find_crlf_inside (c ∷ []) n e = cc
find_crlf_inside (c ∷ d ∷ s) n e = ground (arith, find_crlf_inside (d ∷ s) (n - 1))

parse_request_line-le : (t : Bytes) (p : HttpParser) → (parse_request_line t p).0 ≤ length t
unfolding parse_request_line
parse_request_line-le t p = grind (arith, find_crlf_inside)

headers_loop-le :
    (fuel : ℕ) (current : Bytes) (total : ℕ) (p : HttpParser)
    → (headers_loop fuel current total p).0 ≤ total + length current
unfolding headers_loop
headers_loop-le zero current total p = omega arith
headers_loop-le (suc fuel) [] total p = omega arith
headers_loop-le (suc fuel) (c ∷ []) total p = grind (arith, find_crlf_inside)
headers_loop-le (suc fuel) (c ∷ d ∷ s) total p = elim (Option-cases (find_crlf (c ∷ d ∷ s))) [
  | inl missing ↦ ground arith
  | inr (n, found) ↦ ground (
    arith,
    find_crlf_inside (c ∷ d ∷ s) n,
    length-drop (n + 2) (c ∷ d ∷ s),
    headers_loop-le fuel (drop (n + 2) (c ∷ d ∷ s)) (total + (n + 2))
        (header_line (take n (c ∷ d ∷ s)) p),
  )
]

-- The count never goes back.
pub headers_loop-ge :
    (fuel : ℕ) (current : Bytes) (total : ℕ) (p : HttpParser)
    → total ≤ (headers_loop fuel current total p).0
unfolding headers_loop
headers_loop-ge zero current total p = omega arith
headers_loop-ge (suc fuel) [] total p = omega arith
headers_loop-ge (suc fuel) (c ∷ s) total p = elim (Option-cases (find_crlf (c ∷ s))) [
  | inl missing ↦ ground arith
  | inr (n, found) ↦ ground (
    arith,
    headers_loop-ge fuel (drop (n + 2) (c ∷ s)) (total + (n + 2)) (header_line (take n (c ∷ s)) p),
  )
]

parse_body-le : (t : Bytes) (p : HttpParser) → (parse_body t p).0 ≤ length t
unfolding parse_body
parse_body-le t p = ground arith

chunk_loop-le :
    (fuel : ℕ) (current : Bytes) (total : ℕ) (p : HttpParser)
    → (chunk_loop fuel current total p).0 ≤ total + length current
unfolding chunk_loop
chunk_loop-le zero current total p = omega arith
chunk_loop-le (suc fuel) [] total p = omega arith
chunk_loop-le (suc fuel) (c ∷ s) total p = elim (Option-cases (find_crlf (c ∷ s))) [
  | inl missing ↦ ground (
    arith,
    length-drop (p.chunk_size + 2) (c ∷ s),
    chunk_loop-le fuel (drop (p.chunk_size + 2) (c ∷ s)) (total + (p.chunk_size + 2))
        (chunk_whole (c ∷ s) p),
  )
  | inr (n, found) ↦ ground (
    arith,
    find_crlf_inside (c ∷ s) n,
    length-drop (n + 2) (c ∷ s),
    chunk_loop-le fuel (drop (n + 2) (c ∷ s)) (total + (n + 2))
        (chunk_sized (strtoul 16 (c ∷ s)) p),
    length-drop (p.chunk_size + 2) (c ∷ s),
    chunk_loop-le fuel (drop (p.chunk_size + 2) (c ∷ s)) (total + (p.chunk_size + 2))
        (chunk_whole (c ∷ s) p),
  )
]

pub chunk_loop-ge :
    (fuel : ℕ) (current : Bytes) (total : ℕ) (p : HttpParser)
    → total ≤ (chunk_loop fuel current total p).0
unfolding chunk_loop
chunk_loop-ge zero current total p = omega arith
chunk_loop-ge (suc fuel) [] total p = omega arith
chunk_loop-ge (suc fuel) (c ∷ s) total p = elim (Option-cases (find_crlf (c ∷ s))) [
  | inl missing ↦ ground (
    arith,
    chunk_loop-ge fuel (drop (p.chunk_size + 2) (c ∷ s)) (total + (p.chunk_size + 2))
        (chunk_whole (c ∷ s) p),
  )
  | inr (n, found) ↦ ground (
    arith,
    chunk_loop-ge fuel (drop (n + 2) (c ∷ s)) (total + (n + 2))
        (chunk_sized (strtoul 16 (c ∷ s)) p),
    chunk_loop-ge fuel (drop (p.chunk_size + 2) (c ∷ s)) (total + (p.chunk_size + 2))
        (chunk_whole (c ∷ s) p),
  )
]

dispatch-le : (st : State) (t : Bytes) (p : HttpParser) → (dispatch st t p).0 ≤ length t
unfolding dispatch parse_headers parse_chunked_body
dispatch-le start t p = parse_request_line-le t p
dispatch-le request_line t p = parse_request_line-le t p
dispatch-le headers t p = omega (arith, headers_loop-le (length t + 1) t 0 p)
dispatch-le body t p = parse_body-le t p
dispatch-le chunked_body t p = omega (arith, chunk_loop-le (length t + 1) t 0 p)
dispatch-le done t p = omega arith
dispatch-le error t p = omega arith

-- What a run of the loop from `b` with `total` bytes consumed comes to.
record Takes (b : Buffer) (total : ℕ) (r : ℕ × HttpParser × Buffer) : Type 0 where
  taken : ℕ
  counted : r.0 ≡ total + taken
  bounded : taken ≤ length (contents b)
  valid : IsValid r.2
  rest : contents r.2 ≡ drop taken (contents b)

stay : (b : Buffer) (total : ℕ) (p : HttpParser) → IsValid b → Takes b total (total, p, b)
stay b total p v = record {
  taken = 0;
  counted = omega arith;
  bounded = omega arith;
  valid = v;
  rest = refl;
}

-- A round that consumes `n` bytes and goes on.
and_then :
    (b : Buffer) (total n : ℕ) (r : ℕ × HttpParser × Buffer)
    → IsValid b
    → n ≤ length (contents b)
    → Takes (retrieve n b) (total + n) r
    → Takes b total r
and_then b total n r v h t =
    let e : contents (retrieve n b) ≡ drop n (contents b) = (retrieve_lem n b v).1 in
    record {
      taken = n + t.taken;
      counted = omega (arith, t.counted);
      bounded = omega (arith, t.bounded, ap length e, length-drop n (contents b));
      valid = t.valid;
      rest = t.rest ∙ ap (drop t.taken) e ∙ drop-drop t.taken n (contents b);
    }

parse_loop-Takes :
    (fuel : ℕ) (p : HttpParser) (b : Buffer) (total : ℕ)
    → IsValid b
    → Takes b total (parse_loop fuel p b total)
unfolding parse_loop
parse_loop-Takes zero p b total v = stay b total p v
parse_loop-Takes (suc fuel) p b total v = elim (Bool-cases (b.size == 0 || is_final p.state)) [
  | inl over ↦ rw over (stay b total p v)
  | inr more ↦
      elim (Bool-cases
        ((dispatch p.state (peek b) p).1.thrown || (dispatch p.state (peek b) p).0 == 0)) [
          | inl stuck ↦ rw (more, stuck) (stay b total (dispatch p.state (peek b) p).1 v)
          | inr on ↦
              let (n, p') = dispatch p.state (peek b) p in
              rw (more, on)
                (and_then b total n (parse_loop fuel p' (retrieve n b) (total + n)) v
                  (omega (arith, dispatch-le p.state (peek b) p, length-peek-le b))
                  (parse_loop-Takes fuel p' (retrieve n b) (total + n) (retrieve_lem n b v).0))
        ]
]

pub parse_loop-from :
    (fuel : ℕ) (p : HttpParser) (b : Buffer) (total : ℕ)
    → IsValid b
    → total ≤ (parse_loop fuel p b total).0
parse_loop-from fuel p b total v =
    let t = parse_loop-Takes fuel p b total v in omega (arith, t.counted)

-- `parse` keeps the buffer well formed and consumes exactly the bytes that it reports, a prefix of
-- the contents, whatever they are.
pub parse_lem :
    (p : HttpParser) (b : Buffer)
    → IsValid b
    → let (n, p', b') = parse p b in
      IsValid b' × (contents b' ≡ drop n (contents b)) × (n ≤ length (contents b))
unfolding parse
parse_lem p b v =
    let t = parse_loop-Takes (b.size + 1) p b 0 v in
    let e : (parse_loop (b.size + 1) p b 0).0 ≡ t.taken = omega (arith, t.counted) in
    (t.valid, t.rest ∙ ap (λ n. drop n (contents b)) (sym e), omega (arith, e, t.bounded))
