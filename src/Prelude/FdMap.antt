-- ===== src/Prelude/FdMap.antt =====
-- The std::unordered_map from descriptors, as the list of its entries in the map's order.
use Prim.Native.Nat.{ℕ}
use mathlib.Core.Path.{◌≡◌, refl}
use mathlib.Core.Bool.{Bool, false, ◌||◌}
use mathlib.Core.Option.{Option, none, some}
use mathlib.Core.List.{List, [], ◌∷◌, ◌++◌}
use native.Mathlib.Omega.{arith}
use my_project.Prelude.Logic.{◌==◌, if◌then◌else◌}

module _ {ℓ} {V : Type ℓ} where
  -- `m.find(fd)`
  unfoldable pub find : ℕ → List (ℕ × V) → Option V
  find fd [] = none
  find fd ((k, v) ∷ m) = if k == fd then some v else find fd m

  -- `m[fd] = v`
  unfoldable pub assign : ℕ → V → List (ℕ × V) → List (ℕ × V)
  assign fd v [] = (fd, v) ∷ []
  assign fd v ((k, w) ∷ m) = if k == fd then (k, v) ∷ m else (k, w) ∷ assign fd v m

  -- `m.erase(fd)`
  unfoldable pub erase : ℕ → List (ℕ × V) → List (ℕ × V)
  erase fd [] = []
  erase fd ((k, v) ∷ m) = if k == fd then erase fd m else (k, v) ∷ erase fd m

  pub find-assign :
      (j fd : ℕ) (v : V) (m : List (ℕ × V))
      → find j (assign fd v m) ≡ (if j == fd then some v else find j m)
  unfolding find assign
  find-assign j fd v [] = ground arith
  find-assign j fd v ((k, w) ∷ m) = ground (arith, find-assign j fd v m)

  pub find-erase :
      (j fd : ℕ) (m : List (ℕ × V)) → find j (erase fd m) ≡ (if j == fd then none else find j m)
  unfolding find erase
  find-erase j fd [] = ground arith
  find-erase j fd ((k, w) ∷ m) = ground (arith, find-erase j fd m)

  pub erase-assign : (fd : ℕ) (v : V) (m : List (ℕ × V)) → erase fd (assign fd v m) ≡ erase fd m
  unfolding erase assign
  erase-assign fd v [] = ground arith
  erase-assign fd v ((k, w) ∷ m) = ground (arith, erase-assign fd v m)

-- Whether a queued task names the descriptor.
abbrev pub is_pending : ℕ → List ℕ → Bool
is_pending fd [] = false
is_pending fd (k ∷ fds) = (k == fd) || is_pending fd fds

pub is_pending-append :
    (fd : ℕ) (xs ys : List ℕ) → is_pending fd (xs ++ ys) ≡ (is_pending fd xs || is_pending fd ys)
is_pending-append fd [] ys = refl
is_pending-append fd (k ∷ xs) ys = ground (arith, is_pending-append fd xs ys)
