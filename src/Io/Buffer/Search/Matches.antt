-- ===== src/Io/Buffer/Search/Matches.antt =====
-- The comparison at one position reads the text across the blocks.
use my_project.Prelude.{
  ℕ, zero, suc, ◌+◌, ◌-◌, ◌≤◌, min, ◌≡◌, refl, sym, ap, ◌∙◌, inl, inr, true, ◌&&◌, leb,
  if◌then◌else◌, List, [], ◌∷◌, ◌++◌, arith, Bytes, bytes_eq, is_prefix, length, take, drop,
  length-append, length-drop, drop-append_le, Bool-cases,
}
use my_project.Io.Buffer.{Block, readable, text, slice}
use my_project.Io.Buffer.Search.{matches}
use my_project.Io.Buffer.Blocks.{take-slice, drop-slice}
use my_project.Io.Buffer.Invariant.{texts, length-text}

-- A prefix of `xs ++ ys` is a prefix of `xs` with the rest a prefix of `ys`.
is_prefix-append :
    (p xs ys : Bytes) (n : ℕ)
    → n ≡ min (length p) (length xs)
    → is_prefix p (xs ++ ys) ≡ (bytes_eq (take n xs) (take n p) && is_prefix (drop n p) ys)
unfolding is_prefix bytes_eq
is_prefix-append [] xs ys zero e = refl
is_prefix-append [] xs ys (suc n) e = absurd (omega arith)
is_prefix-append (c ∷ p) [] ys zero e = refl
is_prefix-append (c ∷ p) [] ys (suc n) e = absurd (omega arith)
is_prefix-append (c ∷ p) (d ∷ xs) ys zero e = absurd (omega arith)
is_prefix-append (c ∷ p) (d ∷ xs) ys (suc n) e =
    let ih = is_prefix-append p xs ys n (omega arith) in ground arith

-- What `memcmp` compares: the bytes of the block from index `i` on.
take-drop-text :
    (k : Block) (i n : ℕ)
    → n ≤ readable k - i
    → take n (drop i (text k)) ≡ slice k.bytes (k.read_idx + i) n
take-drop-text k i n h =
    ap (take n) (drop-slice k.bytes i k.read_idx (readable k))
    ∙ take-slice k.bytes n (k.read_idx + i) (readable k - i)
    ∙ ap (slice k.bytes (k.read_idx + i)) (let e : min n (readable k - i) ≡ n = omega arith in e)

is_prefix_nil : (p s : Bytes) → length p ≤ 0 → is_prefix p s ≡ true
unfolding is_prefix
is_prefix_nil [] s h = refl
is_prefix_nil (c ∷ p) s h = absurd (omega arith)

-- One block of the comparison, given what it answers on the blocks behind.
matches_at :
    (k : Block) (rest : List Block) (i : ℕ) (needle : Bytes)
    → ((p : Bytes) → length p ≤ length (texts rest) → matches rest 0 p ≡ is_prefix p (texts rest))
    → i ≤ readable k
    → i + length needle ≤ length (texts (k ∷ rest))
    → matches (k ∷ rest) i needle ≡ is_prefix needle (drop i (texts (k ∷ rest)))
unfolding matches texts
matches_at k rest i needle ih h enough = sym (
    ap (is_prefix needle) cut
    ∙ is_prefix-append needle (drop i (text k)) (texts rest) n (omega (arith, length_left))
    ∙ ap (λ t. bytes_eq t (take n needle) && is_prefix (drop n needle) (texts rest))
        (take-drop-text k i n (omega arith))
    ∙ branches)
  where
    n : ℕ
    n = min (length needle) (readable k - i)

    length_left : length (drop i (text k)) ≡ readable k - i
    length_left = length-drop i (text k) ∙ ap (λ m. m - i) (length-text k)

    cut : drop i (text k ++ texts rest) ≡ drop i (text k) ++ texts rest
    cut = drop-append_le i (text k) (texts rest) (omega (arith, length-text k))

    room : length needle ≤ readable k - i + length (texts rest)
    room = omega (arith, length-append (text k) (texts rest), length-text k)

    on :
        is_prefix (drop n needle) (texts rest)
        ≡ (if leb (length needle) n then true else matches rest 0 (drop n needle))
    on = elim (Bool-cases (leb (length needle) n)) [
      | inl all ↦
          rw all (is_prefix_nil (drop n needle) (texts rest) (ground (arith, length-drop n needle)))
      | inr more ↦ rw more (sym (ih (drop n needle) (omega (arith, length-drop n needle, room))))
    ]

    branches :
        (bytes_eq (slice k.bytes (k.read_idx + i) n) (take n needle)
          && is_prefix (drop n needle) (texts rest))
        ≡ matches (k ∷ rest) i needle
    branches = elim (Bool-cases (bytes_eq (slice k.bytes (k.read_idx + i) n) (take n needle))) [
      | inl same ↦ rw same on
      | inr other ↦ rw other
    ]

matches_from :
    (ks : List Block) (needle : Bytes)
    → length needle ≤ length (texts ks)
    → matches ks 0 needle ≡ is_prefix needle (texts ks)
unfolding matches texts
matches_from [] needle h = sym (is_prefix_nil needle [] h)
matches_from (k ∷ rest) needle h =
    matches_at k rest 0 needle (matches_from rest) (omega arith) (omega arith)

-- Where enough bytes are left, the loop answers whether the needle stands at the position.
pub matches-is_prefix :
    (k : Block) (rest : List Block) (i : ℕ) (needle : Bytes)
    → i ≤ readable k
    → i + length needle ≤ length (texts (k ∷ rest))
    → matches (k ∷ rest) i needle ≡ is_prefix needle (drop i (texts (k ∷ rest)))
matches-is_prefix k rest i needle = matches_at k rest i needle (matches_from rest)
