-- ===== src/Io/Buffer/Tests.antt =====
-- The theorems on buffers at concrete inputs: a buffer whose five bytes lie in two blocks.
use my_project.Prelude.{
  ℕ, ◌+◌, ◌≤◌, ◌≡◌, refl, none, some, [], ◌∷◌, ◌++◌, arith, index_of, bytes_eq, length, drop,
  if◌then◌else◌, ◌==◌,
}
use my_project.Io.Buffer.{Buffer, alloc_block, append, begin_write, retrieve}
use my_project.Io.Buffer.Invariant.{IsValid, contents, texts}
use my_project.Io.Buffer.Append.{append_lem}
use my_project.Io.Buffer.Retrieve.{retrieve_lem}
use my_project.Io.Buffer.Search.{find}
use my_project.Io.Buffer.Search.Correct.{find_lem}

-- `b'a' + 4094`, and so on: each cell of the array holds its index.
abbrev two_blocks : Buffer
two_blocks = record {
  consumed = [];
  pending = record { bytes = λ i. i; read_idx = 4094; write_idx = 4096 } ∷ [];
  write_block = record { bytes = λ i. 10 + i; read_idx = 0; write_idx = 3 };
  spare = alloc_block ∷ [];
  size = 5;
}

two_blocks-contents : contents two_blocks ≡ 4094 ∷ 4095 ∷ 10 ∷ 11 ∷ 12 ∷ []
unfolding texts
two_blocks-contents = refl

two_blocks-IsValid : IsValid two_blocks
unfolding texts
two_blocks-IsValid = record {
  full = omega arith;
  fits = omega arith;
  clean = omega arith;
  sized = refl;
}

append_example :
    IsValid (append (7 ∷ 8 ∷ []) two_blocks)
    × (contents (append (7 ∷ 8 ∷ []) two_blocks) ≡ contents two_blocks ++ (7 ∷ 8 ∷ []))
append_example = append_lem (7 ∷ 8 ∷ []) two_blocks two_blocks-IsValid

two_blocks-room : 1 ≤ (begin_write two_blocks).0
unfolding begin_write
two_blocks-room = omega arith

retrieve_example :
    IsValid (retrieve 3 two_blocks)
    × (contents (retrieve 3 two_blocks) ≡ drop 3 (contents two_blocks))
retrieve_example = retrieve_lem 3 two_blocks two_blocks-IsValid

-- A needle that spans the two blocks.
find_example : find (4095 ∷ 10 ∷ []) two_blocks ≡ (
    if length {A = ℕ} (4095 ∷ 10 ∷ []) == 0
    then none
    else index_of (4095 ∷ 10 ∷ []) (contents two_blocks))
find_example = find_lem (4095 ∷ 10 ∷ []) two_blocks two_blocks-IsValid

find_runs : find (4095 ∷ 10 ∷ []) two_blocks ≡ some 1
unfolding find bytes_eq
find_runs = refl
