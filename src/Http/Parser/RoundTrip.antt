-- ===== src/Http/Parser/RoundTrip.antt =====
-- Parsing what was written gives the request back: a whole request that the first block shows.
use my_project.Prelude.{
  ℕ, zero, suc, ◌+◌, ◌-◌, ◌<◌, ◌≡◌, ◌≢◌, refl, sym, ap, subst, ◌∙◌, true, false, List, [], ◌∷◌,
  arith, Bytes, codes, Lacks, index_of, length, drop, All, length-append,
}
use my_project.Io.Buffer.{Buffer, peek, retrieve}
use my_project.Io.Buffer.Invariant.{IsValid, contents}
use my_project.Io.Buffer.Retrieve.{retrieve_lem}
use my_project.Io.Buffer.Single.{IsSingle, peek-IsSingle, retrieve-IsSingle}
use my_project.Http.Request.{HttpRequest, empty_request, header, method_from_str}
use my_project.Http.Parser.{
  start, headers, done, cr, HttpParser, lf, new_parser, end_headers, parse_request_line,
  parse_headers,
}
use my_project.Http.Parser.Machine.{dispatch, is_final, parse_loop, parse}
use my_project.Http.Parser.Encode.{
  line, drop-line, drop_headers, request_text, headers_text, size_headers, add_headers, IsField,
  parse_request_line_lem, parse_headers_lem, length-headers_text, length-le-size_headers,
}

-- A buffer that shows `s`.
pub record Shows (b : Buffer) (s : Bytes) : Type 0 where
  pub valid : IsValid b
  pub single : IsSingle b
  pub holds : contents b ≡ s

pub peek-Shows : (b : Buffer) (s : Bytes) → Shows b s → peek b ≡ s
peek-Shows b s h = peek-IsSingle b h.valid h.single ∙ h.holds

pub size-Shows : (b : Buffer) (s : Bytes) → Shows b s → b.size ≡ length s
size-Shows b s h = h.valid.sized ∙ ap length h.holds

pub retrieve-Shows : (n : ℕ) (b : Buffer) (s : Bytes) → Shows b s → Shows (retrieve n b) (drop n s)
retrieve-Shows n b s h =
    let (v, e) = retrieve_lem n b h.valid in
    record { valid = v; single = retrieve-IsSingle n b h.single; holds = e ∙ ap (drop n) h.holds }

-- A round that goes on.
pub parse_loop_step :
    (fuel : ℕ) (p : HttpParser) (b : Buffer) (total : ℕ) (r : ℕ × HttpParser)
    → b.size ≢ 0
    → is_final p.state ≡ false
    → dispatch p.state (peek b) p ≡ r
    → r.1.thrown ≡ false
    → r.0 ≢ 0
    → parse_loop (suc fuel) p b total ≡ parse_loop fuel r.1 (retrieve r.0 b) (total + r.0)
unfolding parse_loop
parse_loop_step fuel p b total r some_left going e fine pos = ground arith

pub parse_loop_over :
    (fuel : ℕ) (p : HttpParser) (b : Buffer) (total : ℕ)
    → is_final p.state ≡ true
    → parse_loop fuel p b total ≡ (total, p, b)
unfolding parse_loop
parse_loop_over zero p b total over = refl
parse_loop_over (suc fuel) p b total over = ground arith

pub parse_loop_empty :
    (fuel : ℕ) (p : HttpParser) (b : Buffer) (total : ℕ)
    → b.size ≡ 0
    → parse_loop fuel p b total ≡ (total, p, b)
unfolding parse_loop
parse_loop_empty zero p b total over = refl
parse_loop_empty (suc fuel) p b total over = ground arith

-- The request that the head of the text stands for.
unfoldable pub parsed : Bytes → Bytes → Bytes → List (Bytes × Bytes) → HttpRequest
parsed m p v hs =
    add_headers hs (record empty_request { method = method_from_str m; path = p; version = v })

-- The parser behind the request line and the header lines, before the empty line is acted on.
abbrev pub at_headers : Bytes → Bytes → Bytes → List (Bytes × Bytes) → HttpParser
at_headers m p v hs = record new_parser { request = parsed m p v hs; state = headers }

-- A request line of three words.
pub record IsRequestLine (m p v : Bytes) : Type 0 where
  pub method_space : Lacks b' ' m
  pub path_space : Lacks b' ' p
  pub line_cr : Lacks cr (request_text m p v)

-- What is left to do when the head was parsed.
pub record Headed (b : Buffer) (q : HttpParser) (rest : Bytes) : Type 0 where
  pub left : Buffer
  pub fuel : ℕ
  pub total : ℕ
  pub shows : Shows left rest
  pub enough : length rest < fuel
  pub same : parse new_parser b ≡ parse_loop fuel q left total

end_headers-thrown : (q : HttpParser) → (end_headers q).thrown ≡ q.thrown
unfolding end_headers
end_headers-thrown q = ground arith

pub head_of :
    (m p v : Bytes) (hs : List (Bytes × Bytes)) (rest : Bytes) (b : Buffer)
    → IsRequestLine m p v
    → All IsField hs
    → Shows b (line (request_text m p v) (headers_text hs rest))
    → Headed b (end_headers (at_headers m p v hs)) rest
unfolding parse parsed dispatch
head_of m p v hs rest b l fs h = record {
  left = b2;
  fuel = b.size - 1;
  total = 0 + n1 + size_headers hs;
  shows = shows2;
  enough = omega (arith, lengths, length-le-size_headers hs);
  same = ap (λ f. parse_loop f new_parser b 0) two_rounds ∙ round1 ∙ round2;
}
  where
    t1 : Bytes
    t1 = request_text m p v

    n1 : ℕ
    n1 = length t1 + 2

    q1 : HttpParser
    q1 = record new_parser {
      request = record empty_request { method = method_from_str m; path = p; version = v };
      state = headers;
    }

    b1 : Buffer
    b1 = retrieve n1 b

    b2 : Buffer
    b2 = retrieve (size_headers hs) b1

    lengths : b.size ≡ length t1 + 2 + size_headers hs + length rest
    lengths = omega (
      arith,
      size-Shows b (line t1 (headers_text hs rest)) h,
      length-append t1 (cr ∷ lf ∷ headers_text hs rest),
      length-headers_text hs rest,
    )

    shows1 : Shows b1 (headers_text hs rest)
    shows1 =
        subst (Shows b1) (drop-line t1 (headers_text hs rest))
          (retrieve-Shows n1 b (line t1 (headers_text hs rest)) h)

    shows2 : Shows b2 rest
    shows2 =
        subst (Shows b2) (drop_headers hs rest)
          (retrieve-Shows (size_headers hs) b1 (headers_text hs rest) shows1)

    first : dispatch start (peek b) new_parser ≡ (n1, q1)
    first =
        ap (λ t. parse_request_line t new_parser) (peek-Shows b (line t1 (headers_text hs rest)) h)
        ∙ parse_request_line_lem m p v (headers_text hs rest) new_parser l.method_space l.path_space
            l.line_cr

    second : dispatch headers (peek b1) q1 ≡ (size_headers hs, end_headers (at_headers m p v hs))
    second =
        ap (λ t. parse_headers t q1) (peek-Shows b1 (headers_text hs rest) shows1)
        ∙ parse_headers_lem hs rest q1 fs

    size1 : b1.size ≡ size_headers hs + length rest
    size1 = size-Shows b1 (headers_text hs rest) shows1 ∙ length-headers_text hs rest

    two_rounds : b.size + 1 ≡ suc (suc (b.size - 1))
    two_rounds = omega (arith, lengths)

    round1 :
        parse_loop (suc (suc (b.size - 1))) new_parser b 0
        ≡ parse_loop (suc (b.size - 1)) q1 b1 (0 + n1)
    round1 =
        parse_loop_step (suc (b.size - 1)) new_parser b 0 (n1, q1) (omega (arith, lengths)) refl
          first refl (omega arith)

    round2 :
        parse_loop (suc (b.size - 1)) q1 b1 (0 + n1)
        ≡ parse_loop (b.size - 1) (end_headers (at_headers m p v hs)) b2 (0 + n1 + size_headers hs)
    round2 =
        parse_loop_step (b.size - 1) q1 b1 (0 + n1)
          (size_headers hs, end_headers (at_headers m p v hs))
          (omega (arith, size1, length-le-size_headers hs)) refl second
          (end_headers-thrown (at_headers m p v hs)) (omega (arith, length-le-size_headers hs))

-- What a finished parse gives: the request, and the bytes behind it.
pub record Gives (r : ℕ × HttpParser × Buffer) (q : HttpRequest) (rest : Bytes) : Type 0 where
  pub is_done : r.1.state ≡ done
  pub request : r.1.request ≡ q
  pub fine : r.1.thrown ≡ false
  pub behind : Shows r.2 rest

end_headers-done :
    (q : HttpParser)
    → header (codes "Transfer-Encoding") q.request ≡ []
    → header (codes "Content-Length") q.request ≡ []
    → end_headers q ≡ record q { state = done }
unfolding end_headers index_of
end_headers-done q te cl = ground arith

-- A request with no body, wholly shown by a buffer, is parsed into its request line and its
-- headers, and the bytes behind it stay in the buffer.
pub parse-headers_text :
    (m p v : Bytes) (hs : List (Bytes × Bytes)) (rest : Bytes) (b : Buffer)
    → IsRequestLine m p v
    → All IsField hs
    → header (codes "Transfer-Encoding") (parsed m p v hs) ≡ []
    → header (codes "Content-Length") (parsed m p v hs) ≡ []
    → Shows b (line (request_text m p v) (headers_text hs rest))
    → Gives (parse new_parser b) (parsed m p v hs) rest
parse-headers_text m p v hs rest b l fs te cl h =
    subst (λ r. Gives r (parsed m p v hs) rest) (sym result)
      (record { is_done = refl; request = refl; fine = refl; behind = head.shows })
  where
    head : Headed b (end_headers (at_headers m p v hs)) rest
    head = head_of m p v hs rest b l fs h

    finished : HttpParser
    finished = record (at_headers m p v hs) { state = done }

    result : parse new_parser b ≡ (head.total, finished, head.left)
    result =
        head.same
        ∙ ap (λ q. parse_loop head.fuel q head.left head.total)
            (end_headers-done (at_headers m p v hs) te cl)
        ∙ parse_loop_over head.fuel finished head.left head.total refl
