-- ===== src/Io/Buffer/Search/Correct.antt =====
-- The scans over the chain find the first occurrence in the contents.
use mathlib.Core.Option
use mathlib.Core.Path.{ap₂}
use my_project.Prelude.{
  ℕ, zero, suc, ◌+◌, ◌-◌, ◌<◌, ◌≡◌, refl, sym, ap, ◌∙◌, inl, inr, false, ◌==◌, leb, ltb,
  if◌then◌else◌, Option, none, some, List, [], ◌∷◌, ◌++◌, arith, Bytes, find_byte, is_prefix,
  index_of, length, drop, length-append, length-drop, drop_all, drop-append, Bool-cases,
}
use my_project.Io.Buffer.{Block, Buffer, readable, text, unread}
use my_project.Io.Buffer.Search.{or_else, scan, find_from, find, find_char_from, find_char}
use my_project.Io.Buffer.Search.Matches.{matches-is_prefix}
use my_project.Io.Buffer.Invariant.{IsValid, contents, texts, length-text}
use my_project.Io.Buffer.Reading.{texts-unread}

is_prefix_long : (p s : Bytes) → length s < length p → is_prefix p s ≡ false
unfolding is_prefix
is_prefix_long [] s h = absurd (omega arith)
is_prefix_long (c ∷ p) [] h = refl
is_prefix_long (c ∷ p) (d ∷ s) h = ground (arith, is_prefix_long p s)

-- A text does not stand in a shorter one.
index_of_long : (p s : Bytes) → length s < length p → index_of p s ≡ none
unfolding index_of
index_of_long p [] h = rw (is_prefix_long p [] h)
index_of_long p (d ∷ s) h = rw (is_prefix_long p (d ∷ s) h, index_of_long p s (omega arith))

-- A result, moved by `n` positions.
abbrev moved : ℕ → Option ℕ → Option ℕ
moved n o = Option.map (λ p. n + p) o

moved-suc : (n : ℕ) (o : Option ℕ) → moved n (Option.map suc o) ≡ moved (suc n) o
moved-suc n none = refl
moved-suc n (some p) = ap some (omega arith)

drop_step : (i : ℕ) (s : Bytes) → i < length s → (c : ℕ) × (drop i s ≡ c ∷ drop (suc i) s)
drop_step i [] h = absurd (omega arith)
drop_step zero (c ∷ s) h = (c, refl)
drop_step (suc i) (c ∷ s) h = drop_step i s (omega arith)

index_of_step :
    (needle s t : Bytes) (c : ℕ)
    → s ≡ c ∷ t
    → index_of needle s
      ≡ (if is_prefix needle s then some 0 else Option.map suc (index_of needle t))
unfolding index_of
index_of_step needle s t c e = rw e

module _ (needle : Bytes) (size offset : ℕ) (k : Block) (rest : List Block) where
  abbrev behind : Bytes
  behind = texts (k ∷ rest)

  drop_block : drop (readable k) behind ≡ texts rest
  unfolding texts
  drop_block =
      drop-append (readable k) (text k) (texts rest)
      ∙ ap₂ ◌++◌ (drop_all (readable k) (text k) (omega (arith, length-text k))) (
          ap (λ m. drop m (texts rest))
            (let e : readable k - length (text k) ≡ 0 = omega (arith, length-text k) in e))

  length-behind : length behind ≡ readable k + length (texts rest)
  unfolding texts
  length-behind =
      length-append (text k) (texts rest) ∙ ap (λ m. m + length (texts rest)) (length-text k)

  -- The scan of one block from index `i` on, and then the blocks behind it.
  scan-index_of :
      (i rounds : ℕ)
      → offset + length behind ≡ size
      → i + rounds ≡ readable k
      → or_else
          (scan needle size offset k rest i rounds)
          (moved (offset + readable k) (index_of needle (texts rest)))
        ≡ moved (offset + i) (index_of needle (drop i behind))
  unfolding scan
  scan-index_of i zero total e = let same : i ≡ readable k = omega arith in rw (same, drop_block)
  scan-index_of i (suc rounds) total e =
      let (c, step) = drop_step i behind (omega (arith, length-behind)) in
      let ih = scan-index_of (suc i) rounds total (omega arith) in
      elim (Bool-cases (leb (offset + i + length needle) size)) [
        | inl fits ↦
            rw
              (
                fits,
                matches-is_prefix k rest i needle (omega arith) (ground arith),
                index_of_step needle (drop i behind) (drop (suc i) behind) c step,
              )
              (elim (Bool-cases (is_prefix needle (drop i behind))) [
                | inl here ↦ rw here (ap some (omega arith))
                | inr later ↦ rw later (
                    ih
                    ∙ ap (λ n. moved n (index_of needle (drop (suc i) behind))) (omega arith)
                    ∙ sym (moved-suc (offset + i) (index_of needle (drop (suc i) behind))))
              ])
        | inr past_end ↦ rw (
          past_end,
          index_of_long needle (drop i behind) (ground (arith, length-drop i behind)),
          index_of_long needle (texts rest) (ground (arith, length-behind)),
        )
      ]

find_from-index_of :
    (needle : Bytes) (size offset : ℕ) (ks : List Block)
    → 0 < length needle
    → offset + length (texts ks) ≡ size
    → find_from needle size offset ks ≡ moved offset (index_of needle (texts ks))
unfolding find_from texts
find_from-index_of needle size offset [] h total = rw (index_of_long needle [] h)
find_from-index_of needle size offset (k ∷ rest) h total =
    let ih =
      find_from-index_of needle size (offset + readable k) rest h
        (omega (arith, length-behind needle size offset k rest)) in
    let one = scan-index_of needle size offset k rest 0 (readable k) total (omega arith) in
    rw (ih, one) (ap (λ n. moved n (index_of needle (texts (k ∷ rest)))) (omega arith))

moved_zero : (o : Option ℕ) → moved 0 o ≡ o
moved_zero none = refl
moved_zero (some p) = ap some (omega arith)

-- `find` returns the offset of the first place where the needle stands in the contents, across the
-- blocks, or -1 if there is none or the needle is empty.
pub find_lem :
    (needle : Bytes) (b : Buffer)
    → IsValid b
    → find needle b ≡ (if length needle == 0 then none else index_of needle (contents b))
unfolding find
find_lem needle b v = elim (Bool-cases (length needle == 0)) [
  | inl empty ↦ rw empty
  | inr more ↦ rw more (elim (Bool-cases (ltb b.size (length needle))) [
    | inl short ↦ rw (short, index_of_long needle (contents b) (ground arith))
    | inr long ↦ rw long (
        find_from-index_of needle b.size 0 (unread b) (ground arith)
          (omega (arith, ap length (texts-unread b v)))
        ∙ moved_zero (index_of needle (texts (unread b)))
        ∙ ap (index_of needle) (texts-unread b v))
  ])
]

find_byte-append :
    (c : ℕ) (s t : Bytes)
    → find_byte c (s ++ t) ≡ or_else (find_byte c s) (moved (length s) (find_byte c t))
unfolding find_byte
find_byte-append c [] t = sym (moved_zero (find_byte c t))
find_byte-append c (d ∷ s) t = elim (Bool-cases (d == c)) [
  | inl here ↦ rw here
  | inr later ↦ rw (later, find_byte-append c s t) (go (find_byte c s) (find_byte c t))
]
  where
    go :
        (o p : Option ℕ)
        → Option.map suc (or_else o (moved (length s) p))
          ≡ or_else (Option.map suc o) (moved (suc (length s)) p)
    go (some i) p = refl
    go none none = refl
    go none (some j) = ap some (omega arith)

find_char_from-find_byte :
    (c offset : ℕ) (ks : List Block)
    → find_char_from c offset ks ≡ moved offset (find_byte c (texts ks))
unfolding find_char_from texts
find_char_from-find_byte c offset [] = unfold find_byte in refl
find_char_from-find_byte c offset (k ∷ rest) =
    rw
      (
        find_char_from-find_byte c (offset + readable k) rest,
        find_byte-append c (text k) (texts rest),
        length-text k,
      )
      (go (find_byte c (text k)) (find_byte c (texts rest)))
  where
    go :
        (o p : Option ℕ)
        → or_else (moved offset o) (moved (offset + readable k) p)
          ≡ moved offset (or_else o (moved (readable k) p))
    go (some q) p = refl
    go none none = refl
    go none (some j) = ap some (omega arith)

-- `find` of one byte returns the offset of its first occurrence in the contents, or -1.
find_char_lem : (c : ℕ) (b : Buffer) → IsValid b → find_char c b ≡ find_byte c (contents b)
unfolding find_char
find_char_lem c b v = elim (Bool-cases (b.size == 0)) [
  | inl nothing ↦ rw nothing (nil (contents b) (ground arith))
  | inr more ↦ rw more (
      find_char_from-find_byte c 0 (unread b)
      ∙ moved_zero (find_byte c (texts (unread b)))
      ∙ ap (find_byte c) (texts-unread b v))
]
  where
    nil : (s : Bytes) → length s ≡ 0 → none ≡ find_byte c s
    nil [] h = unfold find_byte in refl
    nil (d ∷ s) h = absurd (omega arith)
