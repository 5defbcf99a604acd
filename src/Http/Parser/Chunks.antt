-- ===== src/Http/Parser/Chunks.antt =====
-- Chunked bodies: `parse_chunked_body` of hound/src/http/http_parser.cpp reads back what was encoded.
pub mod Tests
use my_project.Prelude.{
  ℕ, zero, suc, ◌+◌, ◌-◌, ◌*◌, ◌%◌, ◌^◌, ◌≤◌, ◌<◌, min, ltb, ◌==◌, ◌≡◌, ◌≢◌, refl, sym, ap, ◌∙◌,
  if◌then◌else◌, Bool, true, false, ◌||◌, none, some, List, [], ◌∷◌, ◌++◌, append_assoc, append-nil,
  Bytes, length, length-append, take, take_left, drop, All, Lacks, arith,
}
use my_project.Http.Parser.{done, HttpParser, find_crlf, cr, lf}
use my_project.Http.Parser.Number.{strtoul}
use my_project.Http.Parser.Encode.{line, find_crlf-line, drop-line}
use my_project.Http.Parser.Machine.{
  chunk_sized, chunk_whole, chunk_part, chunk_loop, parse_chunked_body, string_max,
}

-- A chunk: the text of its size line, and its content.
pub record Chunk : Type 0 where
  pub size_text : Bytes
  pub content : Bytes

-- The size line says how long the content is, in hexadecimal, whatever follows; a chunk in the middle
-- has some.
pub record IsChunk (c : Chunk) : Type 0 where
  pub size_cr : Lacks cr c.size_text
  pub says : (rest : Bytes) → strtoul 16 (line c.size_text rest) ≡ length c.content
  pub nonempty : c.content ≢ []
  pub fits : length c.content ≤ string_max

-- The chunks, the last one's line "0", and what follows.
unfoldable pub chunks_text : List Chunk → Bytes → Bytes
chunks_text [] rest = line (b'0' ∷ []) rest
chunks_text (c ∷ cs) rest = line c.size_text (line c.content (chunks_text cs rest))

unfoldable pub chunks_size : List Chunk → ℕ
chunks_size [] = 3
chunks_size (c ∷ cs) = (length c.size_text + 2) + ((length c.content + 2) + chunks_size cs)

unfoldable pub chunks_data : List Chunk → Bytes
chunks_data [] = []
chunks_data (c ∷ cs) = c.content ++ chunks_data cs

size_step :
    (fuel : ℕ) (s rest : Bytes) (total : ℕ) (p : HttpParser)
    → Lacks cr s
    → p.reading_chunk_size ≡ true
    → chunk_loop (suc fuel) (line s rest) total p ≡ (
        if strtoul 16 (line s rest) == 0
        then (total + (length s + 2), chunk_sized (strtoul 16 (line s rest)) p)
        else chunk_loop fuel rest
            (total + (length s + 2))
            (chunk_sized (strtoul 16 (line s rest)) p))
unfolding chunk_loop
size_step fuel [] rest total p h r = ground (arith, find_crlf-line [] rest h, drop-line [] rest)
size_step fuel (c ∷ s) rest total p h r =
    ground (arith, find_crlf-line (c ∷ s) rest h, drop-line (c ∷ s) rest)

data_step :
    (fuel : ℕ) (d rest : Bytes) (total : ℕ) (p : HttpParser)
    → d ≢ []
    → length d ≤ string_max
    → p.chunk_size ≡ length d
    → p.reading_chunk_size ≡ false
    → chunk_loop (suc fuel) (line d rest) total p
      ≡ chunk_loop fuel rest
          (total + (length d + 2))
          (record p { temp_body = p.temp_body ++ d; reading_chunk_size = true })
unfolding chunk_loop chunk_whole
data_step fuel [] rest total p n f e r = absurd (n refl)
data_step fuel (c ∷ d) rest total p n f e r =
    let whole = line (c ∷ d) rest in
    let long : length whole ≡ length (c ∷ d) + (2 + length rest) =
      omega (arith, length-append (c ∷ d) (cr ∷ lf ∷ rest)) in
    let no_wrap : (p.chunk_size + 2) % 2 ^ 64 ≡ length (c ∷ d) + 2 = omega arith in
    let front : take p.chunk_size whole ≡ c ∷ d =
      ap (λ k. take k whole) e ∙ take_left (c ∷ d) (cr ∷ lf ∷ rest) in
    let back : drop (p.chunk_size + 2) whole ≡ rest =
      ap (λ k. drop (k + 2) whole) e ∙ drop-line (c ∷ d) rest in
    let there : ltb (length whole) ((p.chunk_size + 2) % 2 ^ 64) ≡ false = ground arith in
    let fine : ltb string_max p.chunk_size ≡ false = ground arith in
    ground (arith, front, back, there, fine)

-- What the parser is after the chunks: the body is their contents, one after the other.
abbrev pub with_body : Bytes → HttpParser → HttpParser
with_body text p = record p {
  chunk_size = 0;
  reading_chunk_size = true;
  state = done;
  temp_body = text;
  request = record p.request { body = text };
}

zero_line : (rest : Bytes) → strtoul 16 (line (b'0' ∷ []) rest) ≡ 0
unfolding strtoul
zero_line rest = refl

last_chunk :
    (fuel : ℕ) (rest : Bytes) (total : ℕ) (p : HttpParser)
    → p.reading_chunk_size ≡ true
    → chunk_loop (suc fuel) (line (b'0' ∷ []) rest) total p ≡ (total + 3, with_body p.temp_body p)
unfolding chunk_sized
last_chunk fuel rest total p r =
    size_step fuel (b'0' ∷ []) rest total p (cc, tt) r ∙ ground (arith, zero_line rest)

length-zero : (s : Bytes) → length s ≡ 0 → s ≡ []
length-zero [] h = refl
length-zero (c ∷ s) h = absurd (omega arith)

-- A size that is not 0 goes on with the chunk's content.
sized :
    (fuel n : ℕ) (text : Bytes) (total : ℕ) (p : HttpParser)
    → n ≢ 0
    → (if n == 0 then (total, chunk_sized n p) else chunk_loop fuel text total (chunk_sized n p))
      ≡ chunk_loop fuel text total (record p { chunk_size = n; reading_chunk_size = false })
unfolding chunk_sized
sized fuel n text total p h = ground arith

one_chunk :
    (fuel : ℕ) (c : Chunk) (rest : Bytes) (total : ℕ) (p : HttpParser)
    → IsChunk c
    → p.reading_chunk_size ≡ true
    → chunk_loop (suc (suc fuel)) (line c.size_text (line c.content rest)) total p
      ≡ chunk_loop fuel rest
          ((total + (length c.size_text + 2)) + (length c.content + 2))
          (record p {
            chunk_size = length c.content;
            temp_body = p.temp_body ++ c.content;
            reading_chunk_size = true;
          })
one_chunk fuel c rest total p h r =
    let after = line c.content rest in
    let so_far = total + (length c.size_text + 2) in
    size_step (suc fuel) c.size_text after total p h.size_cr r
    ∙ ap
        (λ n.
          if n == 0
          then (so_far, chunk_sized n p)
          else chunk_loop (suc fuel) after so_far (chunk_sized n p))
        (h.says after)
    ∙ sized (suc fuel) (length c.content) after so_far p (λ z. h.nonempty (length-zero c.content z))
    ∙ data_step fuel c.content rest so_far
        (record p { chunk_size = length c.content; reading_chunk_size = false }) h.nonempty h.fits
        refl refl

chunk_loop-chunks :
    (fuel : ℕ) (cs : List Chunk) (rest : Bytes) (total : ℕ) (p : HttpParser)
    → All IsChunk cs
    → p.reading_chunk_size ≡ true
    → 2 * length cs < fuel
    → chunk_loop fuel (chunks_text cs rest) total p
      ≡ (total + chunks_size cs, with_body (p.temp_body ++ chunks_data cs) p)
unfolding chunks_text chunks_size chunks_data
chunk_loop-chunks zero cs rest total p h r f = absurd (omega arith)
chunk_loop-chunks (suc fuel) [] rest total p h r f =
    last_chunk fuel rest total p r
    ∙ ap (λ t. (total + 3, with_body t p)) (sym (append-nil p.temp_body))
chunk_loop-chunks (suc zero) (c ∷ cs) rest total p h r f = absurd (omega arith)
chunk_loop-chunks (suc (suc fuel)) (c ∷ cs) rest total p (hc, hs) r f =
    one_chunk fuel c (chunks_text cs rest) total p hc r
    ∙ chunk_loop-chunks fuel cs rest _ _ hs refl (omega arith)
    ∙ ap (λ n. (n, with_body ((p.temp_body ++ c.content) ++ chunks_data cs) p)) (omega arith)
    ∙ ap (λ t. (total + chunks_size (c ∷ cs), with_body t p))
        (append_assoc p.temp_body c.content (chunks_data cs))

chunks-fuel : (cs : List Chunk) (rest : Bytes) → 2 * length cs < length (chunks_text cs rest) + 1
unfolding chunks_text
chunks-fuel [] rest = omega arith
chunks-fuel (c ∷ cs) rest = omega (
  arith,
  chunks-fuel cs rest,
  length-append c.size_text (cr ∷ lf ∷ line c.content (chunks_text cs rest)),
  length-append c.content (cr ∷ lf ∷ chunks_text cs rest),
)

-- A body in chunks, each with a size line that says how long its content is, is read back: the
-- request's body is the contents, one after the other, behind what was there before. What follows
-- the line of the last chunk, the empty line that ends the body among it, is not consumed.
pub parse_chunked_body-chunks :
    (cs : List Chunk) (rest : Bytes) (p : HttpParser)
    → All IsChunk cs
    → p.reading_chunk_size ≡ true
    → parse_chunked_body (chunks_text cs rest) p
      ≡ (chunks_size cs, with_body (p.temp_body ++ chunks_data cs) p)
unfolding parse_chunked_body
parse_chunked_body-chunks cs rest p h r =
    chunk_loop-chunks (length (chunks_text cs rest) + 1) cs rest 0 p h r (chunks-fuel cs rest)
    ∙ ap (λ n. (n, with_body (p.temp_body ++ chunks_data cs) p)) (omega arith)
