-- ===== src/Io/Buffer/Search.antt =====
-- `find` for a text and for a byte, and `read_until`: the scans over the chain.
pub mod Matches
pub mod Correct
use mathlib.Core.Option
use my_project.Prelude.{
  ℕ, zero, suc, ◌+◌, ◌-◌, min, leb, ltb, ◌==◌, if◌then◌else◌, Bool, true, false, ◌||◌, Option, none,
  some, List, [], ◌∷◌, Bytes, bytes_eq, find_byte, length, take, drop,
}
use my_project.Io.Buffer.{Block, Buffer, readable, text, slice, unread, read_block}

-- The loop `while (matched < needle.size())` over the bytes of the needle that are not matched
-- yet, from index `i` of the first block on; at the end of the chain `match` is still true.
pub matches : List Block → ℕ → Bytes → Bool
matches [] i needle = true
matches (k ∷ rest) i needle =
    let to_check = min (length needle) (readable k - i) in
    let on = matches rest 0 (drop to_check needle) in
    if bytes_eq (slice k.bytes (k.read_idx + i) to_check) (take to_check needle)
    then if leb (length needle) to_check then true else on
    else false

-- `for (i = 0; i < readable && offset + i + needle.size() <= size_; ++i)`, by the rounds left.
pub scan : Bytes → ℕ → ℕ → Block → List Block → ℕ → ℕ → Option ℕ
scan needle size offset k rest i zero = none
scan needle size offset k rest i (suc rounds) =
    let on = scan needle size offset k rest (suc i) rounds in
    if leb (offset + i + length needle) size
    then if matches (k ∷ rest) i needle then some (offset + i) else on
    else none

-- A position that a block gives is returned; otherwise the loop goes on to the next block.
abbrev pub or_else : Option ℕ → Option ℕ → Option ℕ
or_else none o = o
or_else (some p) o = some p

-- The loop `while (block)`.
pub find_from : Bytes → ℕ → ℕ → List Block → Option ℕ
find_from needle size offset [] = none
find_from needle size offset (k ∷ rest) =
    or_else (scan needle size offset k rest 0 (readable k))
      (find_from needle size (offset + readable k) rest)

-- `find(needle)`, with `none` for -1.
unfoldable pub find : Bytes → Buffer → Option ℕ
unfolding find_from scan matches
find needle b =
    if length needle == 0 || ltb b.size (length needle)
    then none
    else find_from needle b.size 0 (unread b)

pub find_char_from : ℕ → ℕ → List Block → Option ℕ
find_char_from c offset [] = none
find_char_from c offset (k ∷ rest) =
    or_else (Option.map (λ p. offset + p) (find_byte c (text k)))
      (find_char_from c (offset + readable k) rest)

-- `find(c)`
unfoldable pub find_char : ℕ → Buffer → Option ℕ
unfolding find_char_from
find_char c b = if b.size == 0 then none else find_char_from c 0 (unread b)

unfoldable pub read_until : Bytes → Buffer → Bytes
unfolding find
read_until delim b =
    let k = read_block b in
    elim (find delim b) [
      | none ↦ []
      | some pos ↦
          let total = pos + length delim in
          if leb total (readable k) then slice k.bytes k.read_idx total else []
    ]
