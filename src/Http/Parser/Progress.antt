-- ===== src/Http/Parser/Progress.antt =====
-- The main loop ends by one of its exits: parsing again without new bytes changes nothing.
use my_project.Prelude.{
  ℕ, zero, suc, ◌+◌, ◌-◌, ◌%◌, ◌^◌, ◌<◌, min, ◌≡◌, refl, sym, ap, subst, ◌∙◌, ◌⊎◌, inl, inr, ltb,
  leb, ◌==◌, true, false, ◌||◌, [], ◌∷◌, ◌++◌, append-nil, Bytes, length, take, drop, Bool-cases,
  Option-cases, length-drop, arith,
}
use my_project.Io.Buffer.{Buffer, peek, retrieve}
use my_project.Io.Buffer.Invariant.{IsValid, contents}
use my_project.Io.Buffer.Retrieve.{retrieve_lem}
use my_project.Http.Parser.{
  State, start, request_line, headers, body, chunked_body, done, error, HttpParser, starts_crlf,
  find_crlf, header_line, headers_loop, parse_request_line, parse_headers, parse_body,
}
use my_project.Http.Parser.Number.{strtoul}
use my_project.Http.Parser.Machine.{
  string_max, chunk_sized, chunk_whole, chunk_part, chunk_loop, parse_chunked_body, dispatch,
  is_final, parse_loop, parse,
}
use my_project.Http.Parser.Consumed.{headers_loop-ge, chunk_loop-ge}

-- A parser that is at the end of a request, or has met an exception.
abbrev pub IsOver : HttpParser → Type 0
IsOver p = (is_final p.state ≡ true) ⊎ (p.thrown ≡ true)

-- A handler that consumed nothing left the parser as it was, or at an end.
abbrev Idle : HttpParser → ℕ → ℕ × HttpParser → Type 0
Idle p total r = r.0 ≡ total → (r.1 ≡ p) ⊎ IsOver r.1

parse_request_line-Idle : (t : Bytes) (p : HttpParser) → Idle p 0 (parse_request_line t p)
unfolding parse_request_line
parse_request_line-Idle t p h = ground arith

headers_loop-Idle :
    (fuel : ℕ) (current : Bytes) (total : ℕ) (p : HttpParser)
    → Idle p total (headers_loop fuel current total p)
unfolding headers_loop
headers_loop-Idle zero current total p h = inl refl
headers_loop-Idle (suc fuel) [] total p h = inl refl
headers_loop-Idle (suc fuel) (c ∷ s) total p h = elim (Bool-cases (starts_crlf (c ∷ s))) [
  | inl end ↦ absurd (ground arith)
  | inr line ↦ elim (Option-cases (find_crlf (c ∷ s))) [
    | inl missing ↦ inl (ground arith)
    | inr (n, found) ↦ absurd (
        ground (
          arith,
          headers_loop-ge fuel (drop (n + 2) (c ∷ s)) (total + (n + 2))
              (header_line (take n (c ∷ s)) p),
        ))
  ]
]

took_nothing : (s t : Bytes) (n : ℕ) → n ≡ 0 → s ++ take n t ≡ s
took_nothing s t n z = ap (λ m. s ++ take m t) z ∙ append-nil s

parse_body-Idle : (t : Bytes) (p : HttpParser) → Idle p 0 (parse_body t p)
unfolding parse_body
parse_body-Idle t p h =
    elim (Bool-cases
      (leb p.content_length (p.body_read + min (p.content_length - p.body_read) (length t)))) [
        | inl whole ↦ inr (inl (ground arith))
        | inr part ↦
            let n = min (p.content_length - p.body_read) (length t) in
            let z : n ≡ 0 = ground arith in
            let read : p.body_read + n ≡ p.body_read = omega arith in
            inl (
              rw part (λ i. record p {
                temp_body = took_nothing p.temp_body t n z i;
                body_read = read i;
              }))
      ]

chunk_part-Idle :
    (current : Bytes) (p : HttpParser)
    → min (length current) p.chunk_size ≡ 0
    → chunk_part current p ≡ p
unfolding chunk_part
chunk_part-Idle current p z =
    let n = min (length current) p.chunk_size in
    let left : p.chunk_size - n ≡ p.chunk_size = omega arith in
    λ i. record p { temp_body = took_nothing p.temp_body current n z i; chunk_size = left i }

chunk_loop-Idle :
    (fuel : ℕ) (current : Bytes) (total : ℕ) (p : HttpParser)
    → Idle p total (chunk_loop fuel current total p)
unfolding chunk_loop
chunk_loop-Idle zero current total p h = inl refl
chunk_loop-Idle (suc fuel) [] total p h = inl refl
chunk_loop-Idle (suc fuel) (c ∷ s) total p h = elim (Bool-cases p.reading_chunk_size) [
  | inl size ↦ elim (Option-cases (find_crlf (c ∷ s))) [
    | inl missing ↦ inl (ground arith)
    | inr (n, found) ↦ absurd (
        ground (
          arith,
          chunk_loop-ge fuel (drop (n + 2) (c ∷ s)) (total + (n + 2))
              (chunk_sized (strtoul 16 (c ∷ s)) p),
        ))
  ]
  | inr chunk ↦ elim (Bool-cases (ltb (length (c ∷ s)) ((p.chunk_size + 2) % 2 ^ 64))) [
    | inl part ↦ inl (ground (arith, chunk_part-Idle (c ∷ s) p))
    | inr whole ↦ elim (Bool-cases (ltb string_max p.chunk_size)) [
      | inl huge ↦ inr (inr (ground arith))
      | inr fits ↦ absurd (
          ground (
            arith,
            chunk_loop-ge fuel (drop (p.chunk_size + 2) (c ∷ s)) (total + (p.chunk_size + 2))
                (chunk_whole (c ∷ s) p),
          ))
    ]
  ]
]

dispatch-Idle :
    (st : State) (t : Bytes) (p : HttpParser) → p.state ≡ st → Idle p 0 (dispatch st t p)
unfolding dispatch parse_headers parse_chunked_body
dispatch-Idle start t p e = parse_request_line-Idle t p
dispatch-Idle request_line t p e = parse_request_line-Idle t p
dispatch-Idle headers t p e = headers_loop-Idle (length t + 1) t 0 p
dispatch-Idle body t p e = parse_body-Idle t p
dispatch-Idle chunked_body t p e = chunk_loop-Idle (length t + 1) t 0 p
dispatch-Idle done t p e = λ h. inl refl
dispatch-Idle error t p e = λ h. inl refl

-- Where the loop may stop: there is nothing to read, the parser is over, or its handler wants more
-- bytes than the first block shows.
abbrev pub IsStopped : HttpParser → Buffer → Type 0
IsStopped p b = (b.size ≡ 0) ⊎ (IsOver p ⊎ ((dispatch p.state (peek b) p).0 ≡ 0))

parse_loop-IsStopped :
    (fuel : ℕ) (p : HttpParser) (b : Buffer) (total : ℕ)
    → IsValid b
    → b.size < fuel
    → IsStopped (parse_loop fuel p b total).1 (parse_loop fuel p b total).2
unfolding parse_loop
parse_loop-IsStopped zero p b total v h = absurd (omega arith)
parse_loop-IsStopped (suc fuel) p b total v h = elim (Bool-cases (b.size == 0)) [
  | inl nothing ↦ rw nothing (inl (ground arith))
  | inr more ↦ elim (Bool-cases (is_final p.state)) [
    | inl over ↦ rw (more, over) (inr (inl (inl over)))
    | inr going ↦ elim (Bool-cases (p'.thrown || n == 0)) [
      | inl stuck ↦ rw (more, going, stuck) (stop (Bool-cases p'.thrown) (ground arith))
      | inr on ↦
          rw (more, going, on)
            (parse_loop-IsStopped fuel p' (retrieve n b) (total + n) (retrieve_lem n b v).0
              (smaller (ground arith) (ground arith)))
    ]
  ]
]
  where
    n : ℕ
    n = (dispatch p.state (peek b) p).0

    p' : HttpParser
    p' = (dispatch p.state (peek b) p).1

    stop : (p'.thrown ≡ true) ⊎ (p'.thrown ≡ false) → (p'.thrown ≡ true) ⊎ (n ≡ 0) → IsStopped p' b
    stop _ (inl broken) = inr (inl (inr broken))
    stop _ (inr z) = elim (dispatch-Idle p.state (peek b) p refl z) [
      | inl same ↦
          inr (inr (subst (λ (q : HttpParser). (dispatch q.state (peek b) q).0 ≡ 0) (sym same) z))
      | inr over ↦ inr (inl over)
    ]

    smaller : 0 < n → 0 < b.size → (retrieve n b).size < fuel
    smaller pos some_left =
        let (v', e) = retrieve_lem n b v in
        omega (arith, v'.sized, v.sized, ap length e, length-drop n (contents b))

-- `parse` always comes to an end, with the fuel that its model has: it stops only where the buffer
-- is empty, the request is done or in error, an exception was thrown, or the first block does not
-- show what the handler of the state wants.
pub parse-IsStopped :
    (p : HttpParser) (b : Buffer) → IsValid b → IsStopped (parse p b).1 (parse p b).2
unfolding parse
parse-IsStopped p b v = parse_loop-IsStopped (b.size + 1) p b 0 v (omega arith)

parse_loop_stopped :
    (fuel : ℕ) (p : HttpParser) (b : Buffer)
    → IsStopped p b
    → p.thrown ≡ false
    → (parse_loop (suc fuel) p b 0).0 ≡ 0
unfolding parse_loop
parse_loop_stopped fuel p b (inl nothing) fine = ground arith
parse_loop_stopped fuel p b (inr (inl (inl over))) fine = ground arith
parse_loop_stopped fuel p b (inr (inl (inr broken))) fine = cc
parse_loop_stopped fuel p b (inr (inr idle)) fine = ground arith

-- So a second call on what the first one leaves consumes nothing, if no exception was thrown.
parse-parse :
    (p : HttpParser) (b : Buffer)
    → IsValid b
    → (parse p b).1.thrown ≡ false
    → (parse (parse p b).1 (parse p b).2).0 ≡ 0
parse-parse p b v fine = again (parse p b).1 (parse p b).2 (parse-IsStopped p b v) fine
  where
    again : (q : HttpParser) (c : Buffer) → IsStopped q c → q.thrown ≡ false → (parse q c).0 ≡ 0
    again q c s t =
        unfold parse in
        subst (λ f. (parse_loop f q c 0).0 ≡ 0) (let e : suc c.size ≡ c.size + 1 = omega arith in e)
          (parse_loop_stopped c.size q c s t)
