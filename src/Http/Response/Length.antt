-- ===== src/Http/Response/Length.antt =====
-- The Content-Length that hound/src/http/http_response.cpp writes, as the parser of
-- hound/src/http/http_parser.cpp reads it.
use my_project.Prelude.{
  ℕ, zero, suc, ◌+◌, ◌*◌, ◌/◌, ◌%◌, ◌-◌, ◌≤◌, ◌<◌, ltb, leb, ◌==◌, ◌≡◌, inl, inr, refl, ap, ◌∙◌,
  true, false, some, [], ◌∷◌, ◌++◌, length, All, Bytes, codes, lookup, digits, to_decimal, IsDigit,
  to_decimal-IsDigit, Bool-cases, arith,
}
use my_project.Http.Parser.Number.{
  size_max, is_space, digit_value, digits_from, skip_prefix, unsigned, strtoul,
}
use my_project.Http.Response.{HttpResponse, set_body, append_body}
use my_project.Http.Response.Laws.{body-HasLength}

digit_value-digit : (d : ℕ) → d < 10 → digit_value 10 (48 + d) ≡ some d
unfolding digit_value
digit_value-digit d h =
    let low : leb 48 (48 + d) ≡ true = ground arith in
    let high : leb (48 + d) 57 ≡ true = ground arith in
    let small : ltb d 10 ≡ true = ground arith in
    let value : 48 + d - 48 ≡ d = omega arith in
    rw (low, digit_value) (rw high (rw value (rw small refl)))

digits_from-step :
    (m d : ℕ) (acc : Bytes)
    → d < 10
    → digits_from 10 m ((48 + d) ∷ acc) ≡ digits_from 10 (m * 10 + d) acc
unfolding digits_from
digits_from-step m d acc h = rw (digit_value-digit d h, digits_from) refl

digits_from-digits :
    (fuel n : ℕ) (acc : Bytes)
    → n < fuel
    → digits_from 10 0 (digits fuel n acc) ≡ digits_from 10 n acc
unfolding digits
digits_from-digits zero n acc h = absurd (omega arith)
digits_from-digits (suc fuel) n acc h = elim (Bool-cases (ltb n 10)) [
  | inl e ↦ rw e (
      digits_from-step 0 (n % 10) acc (omega arith) ∙ ap (λ k. digits_from 10 k acc) (ground arith))
  | inr e ↦ rw e (
      digits_from-digits fuel (n / 10) ((48 + n % 10) ∷ acc) (ground arith)
      ∙ digits_from-step (n / 10) (n % 10) acc (omega arith)
      ∙ ap (λ k. digits_from 10 k acc) (omega arith))
]

skip_prefix-decimal : (s : Bytes) → skip_prefix 10 s ≡ s
unfolding skip_prefix
skip_prefix-decimal [] = refl
skip_prefix-decimal (c ∷ []) = refl
skip_prefix-decimal (c ∷ x ∷ s) = refl

unsigned-small : (s : Bytes) → digits_from 10 0 s ≤ size_max → unsigned 10 s ≡ digits_from 10 0 s
unfolding unsigned
unsigned-small s h = rw (skip_prefix-decimal s, unsigned) (ground arith)

strtoul-digits : (s : Bytes) → All IsDigit s → strtoul 10 s ≡ unsigned 10 s
unfolding strtoul
strtoul-digits [] h = refl
strtoul-digits (c ∷ s) h =
    let no_space : is_space c ≡ false = ground (arith, h.0) in
    let no_minus : (c == b'-') ≡ false = ground (arith, h.0) in
    let no_plus : (c == b'+') ≡ false = ground (arith, h.0) in
    rw (no_space, strtoul) (rw no_minus (rw no_plus refl))

-- What std::to_string writes of a number below 2^64, strtoul reads.
strtoul-to_decimal : (n : ℕ) → n ≤ size_max → strtoul 10 (to_decimal n) ≡ n
unfolding to_decimal digits_from
strtoul-to_decimal n h =
    let read : digits_from 10 0 (to_decimal n) ≡ n =
      digits_from-digits (suc n) n [] (omega arith) in
    strtoul-digits (to_decimal n) (to_decimal-IsDigit n)
    ∙ unsigned-small (to_decimal n) (omega (arith, read))
    ∙ read

-- After a body is set, and after text is put behind it, the response has a Content-Length header
-- that the parser's strtoul reads as the length of the body, where that is below 2^64.
pub content_length-strtoul :
    (b chunk : Bytes) (r : HttpResponse)
    → length b ≤ size_max
    → length (r.body ++ chunk) ≤ size_max
    → ((text : Bytes) × (lookup (codes "Content-Length") (set_body b r).headers ≡ some text)
        × (strtoul 10 text ≡ length (set_body b r).body))
      × ((text : Bytes) × (lookup (codes "Content-Length") (append_body chunk r).headers
            ≡ some text)
          × (strtoul 10 text ≡ length (append_body chunk r).body))
unfolding set_body append_body
content_length-strtoul b chunk r h k = (
  (to_decimal (length b), (body-HasLength b chunk r).0, strtoul-to_decimal (length b) h),
  (
    to_decimal (length (r.body ++ chunk)),
    (body-HasLength b chunk r).1,
    strtoul-to_decimal (length (r.body ++ chunk)) k,
  ),
)
