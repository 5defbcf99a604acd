-- ===== src/Http/Parser/Number.antt =====
-- The C library's strtoul on a text, for the bases 10 and 16 that the parser calls it with.
use my_project.Prelude.{
  ℕ, ◌+◌, ◌-◌, ◌*◌, ◌^◌, ltb, leb, ◌==◌, if◌then◌else◌, Bool, true, false, ◌&&◌, ◌||◌, Option, none,
  some, [], ◌∷◌, Bytes,
}

abbrev pub size_max : ℕ
size_max = 2 ^ 64 - 1

-- isspace in the C locale.
abbrev pub is_space : ℕ → Bool
is_space c = (leb 9 c && leb c 13) || c == b' '

-- The value of a digit in a base, if it is one.
unfoldable pub digit_value : ℕ → ℕ → Option ℕ
digit_value base c =
    let v =
      if leb b'0' c && leb c b'9'
      then c - b'0'
      else if leb b'a' c && leb c b'z'
      then c - b'a' + 10
      else if leb b'A' c && leb c b'Z'
      then c - b'A' + 10
      else base in
    if ltb v base then some v else none

-- The digits behind the value so far, unbounded.
unfoldable pub digits_from : ℕ → ℕ → Bytes → ℕ
unfolding digit_value
digits_from base n [] = n
digits_from base n (c ∷ s) = elim (digit_value base c) [
  | none ↦ n
  | some d ↦ digits_from base (n * base + d) s
]

abbrev pub starts_digit : ℕ → Bytes → Bool
starts_digit base [] = false
starts_digit base (c ∷ s) = elim (digit_value base c) [ none ↦ false | some _ ↦ true ]

-- In base 16 the digits may stand behind "0x".
unfoldable pub skip_prefix : ℕ → Bytes → Bytes
unfolding digit_value
skip_prefix base [] = []
skip_prefix base (c ∷ []) = c ∷ []
skip_prefix base (c ∷ x ∷ s) =
    if base == 16 && c == b'0' && (x == b'x' || x == b'X') && starts_digit base s
    then s
    else c ∷ x ∷ s

-- Values above ULONG_MAX give ULONG_MAX; a sign `-` negates modulo 2^64.
unfoldable pub unsigned : ℕ → Bytes → ℕ
unfolding digits_from skip_prefix
unsigned base s =
    let n = digits_from base 0 (skip_prefix base s) in if leb n size_max then n else size_max

unfoldable pub negated : ℕ → Bytes → ℕ
unfolding digits_from skip_prefix
negated base s =
    let n = digits_from base 0 (skip_prefix base s) in
    if n == 0 then 0 else if leb n size_max then 2 ^ 64 - n else size_max

unfoldable pub strtoul : ℕ → Bytes → ℕ
unfolding unsigned negated
strtoul base [] = 0
strtoul base (c ∷ s) =
    let rest = strtoul base s in
    if is_space c
    then rest
    else if c == b'-'
    then negated base s
    else if c == b'+'
    then unsigned base s
    else unsigned base (c ∷ s)
