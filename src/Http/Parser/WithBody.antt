-- ===== src/Http/Parser/WithBody.antt =====
-- Requests with a Content-Length: the body is read back, unless nothing follows an empty one.
use mathlib.Core.Path.{ap₂}
use my_project.Prelude.{
  ℕ, suc, ◌+◌, ◌-◌, ◌<◌, min, ◌≡◌, ◌≢◌, refl, sym, ap, subst, ◌∙◌, ◌⊎◌, inl, inr, leb, true, false,
  List, [], ◌∷◌, ◌++◌, arith, Bytes, codes, index_of, length, take, drop, All, take_left, drop_left,
  length-drop, length-append,
}
use my_project.Io.Buffer.{Buffer, peek, retrieve}
use my_project.Io.Buffer.Invariant.{contents}
use my_project.Http.Request.{header}
use my_project.Http.Parser.{body, done, HttpParser, new_parser, end_headers, parse_body}
use my_project.Http.Parser.Number.{strtoul}
use my_project.Http.Parser.Machine.{dispatch, is_final, parse_loop, parse}
use my_project.Http.Parser.Consumed.{parse_lem}
use my_project.Http.Parser.Encode.{line, request_text, headers_text, IsField}
use my_project.Http.Parser.RoundTrip.{
  Shows, peek-Shows, size-Shows, retrieve-Shows, parse_loop_step, parse_loop_over, parse_loop_empty,
  parsed, at_headers, IsRequestLine, Headed, head_of, Gives,
}

end_headers-body :
    (q : HttpParser) (cl : Bytes)
    → header (codes "Transfer-Encoding") q.request ≡ []
    → header (codes "Content-Length") q.request ≡ cl
    → cl ≢ []
    → end_headers q ≡ record q { content_length = strtoul 10 cl; state = body }
unfolding end_headers index_of
end_headers-body q cl te e some_digits = ground arith

-- The handler of a body that is all there.
record Whole (q : HttpParser) (bd : Bytes) (r : ℕ × HttpParser) : Type 0 where
  count : r.0 ≡ length bd
  finished : r.1.state ≡ done
  request : r.1.request ≡ record q.request { body = bd }
  fine : r.1.thrown ≡ q.thrown

parse_body-Whole :
    (bd rest : Bytes) (q : HttpParser)
    → q.content_length ≡ length bd
    → q.body_read ≡ 0
    → q.temp_body ≡ []
    → Whole q bd (parse_body (bd ++ rest) q)
unfolding parse_body
parse_body-Whole bd rest q n z t =
    let k = min (q.content_length - q.body_read) (length (bd ++ rest)) in
    let all : k ≡ length bd = omega (arith, length-append bd rest) in
    let whole : leb q.content_length (q.body_read + k) ≡ true = ground arith in
    let body_is : q.temp_body ++ take k (bd ++ rest) ≡ bd =
      ap₂ ◌++◌ t (ap (λ n. take n (bd ++ rest)) all ∙ take_left bd rest) in
    rw whole (record {
      count = all;
      finished = refl;
      request = λ i. record q.request { body = body_is i };
      fine = refl;
    })

-- A round that consumes nothing ends the loop.
parse_loop_idle :
    (fuel : ℕ) (p : HttpParser) (b : Buffer) (total : ℕ) (r : ℕ × HttpParser)
    → b.size ≢ 0
    → is_final p.state ≡ false
    → dispatch p.state (peek b) p ≡ r
    → r.0 ≡ 0
    → parse_loop (suc fuel) p b total ≡ (total, r.1, b)
unfolding parse_loop
parse_loop_idle fuel p b total r some_left going e z = ground arith

module _ (m p v cl : Bytes) (hs : List (Bytes × Bytes)) (bd rest : Bytes) (b : Buffer) where
  -- The parser that waits for the body.
  abbrev at_body : HttpParser
  at_body = record (at_headers m p v hs) { content_length = strtoul 10 cl; state = body }

  -- The head is parsed, and what is left is the body and what follows.
  head_body :
      IsRequestLine m p v
      → All IsField hs
      → header (codes "Transfer-Encoding") (parsed m p v hs) ≡ []
      → header (codes "Content-Length") (parsed m p v hs) ≡ cl
      → cl ≢ []
      → Shows b (line (request_text m p v) (headers_text hs (bd ++ rest)))
      → Headed b at_body (bd ++ rest)
  head_body l fs te e nonempty h =
      subst (λ q. Headed b q (bd ++ rest)) (end_headers-body (at_headers m p v hs) cl te e nonempty)
        (head_of m p v hs (bd ++ rest) b l fs h)

  from_head :
      Headed b at_body (bd ++ rest)
      → strtoul 10 cl ≡ length bd
      → 0 < length (bd ++ rest)
      → (bd ≡ []) ⊎ (0 < length bd)
      → Gives (parse new_parser b) (record (parsed m p v hs) { body = bd }) rest
  from_head head n more empty_or =
      subst (λ r. Gives r (record (parsed m p v hs) { body = bd }) rest)
        (sym (head.same ∙ ap (λ f. parse_loop f at_body head.left head.total) last_round))
        (go empty_or)
    where
      r : ℕ × HttpParser
      r = parse_body (bd ++ rest) at_body

      whole : Whole at_body bd r
      whole = parse_body-Whole bd rest at_body n refl refl

      shown : dispatch body (peek head.left) at_body ≡ r
      shown =
          unfold dispatch in
          ap (λ t. parse_body t at_body) (peek-Shows head.left (bd ++ rest) head.shows)

      last_round : head.fuel ≡ suc (head.fuel - 1)
      last_round = omega (arith, head.enough)

      some_left : head.left.size ≢ 0
      some_left = omega (arith, size-Shows head.left (bd ++ rest) head.shows)

      go :
          (bd ≡ []) ⊎ (0 < length bd)
          → Gives
              (parse_loop (suc (head.fuel - 1)) at_body head.left head.total)
              (record (parsed m p v hs) { body = bd })
              rest
      go (inl none_asked) =
          subst (λ s. Gives s (record (parsed m p v hs) { body = bd }) rest)
            (sym (
              parse_loop_idle (head.fuel - 1) at_body head.left head.total r some_left refl shown
                (whole.count ∙ ap length none_asked)))
            (record {
              is_done = whole.finished;
              request = whole.request;
              fine = whole.fine;
              behind = subst (Shows head.left) (ap (λ s. s ++ rest) none_asked) head.shows;
            })
      go (inr pos) =
          subst (λ s. Gives s (record (parsed m p v hs) { body = bd }) rest)
            (sym (
              parse_loop_step (head.fuel - 1) at_body head.left head.total r some_left refl shown
                whole.fine (omega (arith, whole.count))
              ∙ parse_loop_over (head.fuel - 1) r.1 (retrieve r.0 head.left) (head.total + r.0)
                  (ap is_final whole.finished)))
            (record {
              is_done = whole.finished;
              request = whole.request;
              fine = whole.fine;
              behind =
                  subst (Shows (retrieve r.0 head.left))
                    (ap (λ k. drop k (bd ++ rest)) whole.count ∙ drop_left bd rest)
                    (retrieve-Shows r.0 head.left (bd ++ rest) head.shows);
            })

nonempty_or : (s : Bytes) → (s ≡ []) ⊎ (0 < length s)
nonempty_or [] = inl refl
nonempty_or (c ∷ s) = inr (omega arith)

-- A request whose Content-Length is the length of its body, wholly shown by a buffer, is parsed
-- into its request line, its headers and its body, and the bytes behind it stay in the buffer; a
-- byte at least must follow the headers.
pub parse-headers_text-body :
    (m p v cl : Bytes) (hs : List (Bytes × Bytes)) (bd rest : Bytes) (b : Buffer)
    → IsRequestLine m p v
    → All IsField hs
    → header (codes "Transfer-Encoding") (parsed m p v hs) ≡ []
    → header (codes "Content-Length") (parsed m p v hs) ≡ cl
    → cl ≢ []
    → strtoul 10 cl ≡ length bd
    → 0 < length (bd ++ rest)
    → Shows b (line (request_text m p v) (headers_text hs (bd ++ rest)))
    → Gives (parse new_parser b) (record (parsed m p v hs) { body = bd }) rest
parse-headers_text-body m p v cl hs bd rest b l fs te e some_digits n more h =
    from_head m p v cl hs bd rest b (head_body m p v cl hs bd rest b l fs te e some_digits h) n more
      (nonempty_or bd)

-- A complete request with a Content-Length of 0 behind which nothing has come yet is not done:
-- everything is consumed, and the parser goes on waiting for a body.
parse_content_length_zero :
    (m p v cl : Bytes) (hs : List (Bytes × Bytes)) (b : Buffer)
    → IsRequestLine m p v
    → All IsField hs
    → header (codes "Transfer-Encoding") (parsed m p v hs) ≡ []
    → header (codes "Content-Length") (parsed m p v hs) ≡ cl
    → cl ≢ []
    → strtoul 10 cl ≡ 0
    → Shows b (line (request_text m p v) (headers_text hs []))
    → let (n, q, b') = parse new_parser b in
      (q.state ≡ body)
      × (q.request ≡ parsed m p v hs)
      × (contents b' ≡ [])
      × (n ≡ length (contents b))
parse_content_length_zero m p v cl hs b l fs te e some_digits z h =
    (ap (λ r. r.1.state) result, ap (λ r. r.1.request) result, nothing, all)
  where
    head : Headed b (at_body m p v cl hs [] [] b) []
    head = head_body m p v cl hs [] [] b l fs te e some_digits h

    result : parse new_parser b ≡ (head.total, at_body m p v cl hs [] [] b, head.left)
    result =
        head.same
        ∙ parse_loop_empty head.fuel (at_body m p v cl hs [] [] b) head.left head.total
            (size-Shows head.left [] head.shows)

    nothing : contents (parse new_parser b).2 ≡ []
    nothing = ap (λ r. contents r.2) result ∙ head.shows.holds

    all : (parse new_parser b).0 ≡ length (contents b)
    all =
        let (valid, dropped, fits) = parse_lem new_parser b h.valid in
        omega (
          arith,
          ap length (sym nothing ∙ dropped),
          length-drop (parse new_parser b).0 (contents b),
          fits,
        )
