-- ===== src/Io/Buffer/Blocks.antt =====
-- Lemmas on one block's array: what a slice reads, and what memcpy leaves alone.
use my_project.Prelude.{
  ℕ, zero, suc, ◌+◌, ◌-◌, ◌≤◌, ◌<◌, min, ◌≡◌, refl, ap, ◌∙◌, if◌then◌else◌, ◌==◌, [], ◌∷◌, ◌++◌,
  arith, Bytes, length, take, drop,
}
use mathlib.Core.Path.{ap₂}
use my_project.Io.Buffer.{slice, memcpy}

pub length-slice : (d : ℕ → ℕ) (i n : ℕ) → length (slice d i n) ≡ n
length-slice d i zero = refl
length-slice d i (suc n) = ap suc (length-slice d (suc i) n)

pub slice-append : (d : ℕ → ℕ) (i m n : ℕ) → slice d i (m + n) ≡ slice d i m ++ slice d (i + m) n
slice-append d i zero n =
    ap₂ (slice d) (let e : i ≡ i + zero = omega arith in e)
      (let e : zero + n ≡ n = omega arith in e)
slice-append d i (suc m) n =
    ap (slice d i) (let e : suc m + n ≡ suc (m + n) = omega arith in e)
    ∙ ap (◌∷◌ (d i)) (
        slice-append d (suc i) m n
        ∙ ap (λ j. slice d (suc i) m ++ slice d j n)
            (let e : suc i + m ≡ i + suc m = omega arith in e))

pub take-slice : (d : ℕ → ℕ) (k i n : ℕ) → take k (slice d i n) ≡ slice d i (min k n)
take-slice d zero i n = ap (slice d i) (let e : zero ≡ min zero n = omega arith in e)
take-slice d (suc k) i zero = ap (slice d i) (let e : zero ≡ min (suc k) zero = omega arith in e)
take-slice d (suc k) i (suc n) =
    ap (◌∷◌ (d i)) (take-slice d k (suc i) n)
    ∙ ap (slice d i) (let e : suc (min k n) ≡ min (suc k) (suc n) = omega arith in e)

pub drop-slice : (d : ℕ → ℕ) (k i n : ℕ) → drop k (slice d i n) ≡ slice d (i + k) (n - k)
drop-slice d zero i n =
    ap₂ (slice d) (let e : i ≡ i + zero = omega arith in e)
      (let e : n ≡ n - zero = omega arith in e)
drop-slice d (suc k) i zero =
    ap (slice d (i + suc k)) (let e : zero ≡ zero - suc k = omega arith in e)
drop-slice d (suc k) i (suc n) =
    drop-slice d k (suc i) n
    ∙ ap₂ (slice d) (let e : suc i + k ≡ i + suc k = omega arith in e)
        (let e : n - k ≡ suc n - suc k = omega arith in e)

-- memcpy at `j` leaves the bytes below `j` as they are.
pub memcpy_below : (d : ℕ → ℕ) (j : ℕ) (s : Bytes) (i : ℕ) → i < j → memcpy d j s i ≡ d i
unfolding memcpy
memcpy_below d j [] i h = refl
memcpy_below d j (c ∷ s) i h =
    memcpy_below (λ k. if k == j then c else d k) (suc j) s i (omega arith) ∙ ground arith

pub slice-memcpy_below :
    (d : ℕ → ℕ) (j : ℕ) (s : Bytes) (i n : ℕ) → i + n ≤ j → slice (memcpy d j s) i n ≡ slice d i n
slice-memcpy_below d j s i zero h = refl
slice-memcpy_below d j s i (suc n) h =
    ap₂ ◌∷◌ (memcpy_below d j s i (omega arith)) (slice-memcpy_below d j s (suc i) n (omega arith))

-- What memcpy wrote is read back.
pub slice-memcpy : (d : ℕ → ℕ) (j : ℕ) (s : Bytes) → slice (memcpy d j s) j (length s) ≡ s
unfolding memcpy
slice-memcpy d j [] = refl
slice-memcpy d j (c ∷ s) =
    ap₂ ◌∷◌ (memcpy_below (λ k. if k == j then c else d k) (suc j) s j (omega arith) ∙ ground arith)
      (slice-memcpy (λ k. if k == j then c else d k) (suc j) s)
