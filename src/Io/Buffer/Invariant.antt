-- ===== src/Io/Buffer/Invariant.antt =====
-- When a buffer is well formed, and which bytes it holds.
use my_project.Prelude.{
  zero, ◌≤◌, ◌≡◌, refl, sym, ap, ◌∙◌, map, List, [], ◌∷◌, ◌++◌, arith, Bytes, length, All,
  append_assoc,
}
use my_project.Io.Buffer.{Block, Buffer, block_size, readable, text, slice, reset, empty_buffer}
use my_project.Io.Buffer.Blocks.{length-slice}

-- The indices of a block are in order and inside its array.
pub record Fits (k : Block) : Type 0 where
  pub ordered : k.read_idx ≤ k.write_idx
  pub within : k.write_idx ≤ block_size

pub record IsReset (k : Block) : Type 0 where
  pub read_start : k.read_idx ≡ 0
  pub write_start : k.write_idx ≡ 0

-- The unread bytes of the blocks, in order.
unfoldable pub texts : List Block → Bytes
texts [] = []
texts (k ∷ ks) = text k ++ texts ks

-- The bytes of the buffer, oldest first.
abbrev pub contents : Buffer → Bytes
contents b = texts b.pending ++ text b.write_block

pub record IsValid (b : Buffer) : Type 0 where
  pub full : All Fits b.pending
  pub fits : Fits b.write_block
  pub clean : All IsReset b.spare
  pub sized : b.size ≡ length (contents b)

pub texts-append : (ks ls : List Block) → texts (ks ++ ls) ≡ texts ks ++ texts ls
unfolding texts
texts-append [] ls = refl
texts-append (k ∷ ks) ls =
    ap (◌++◌ (text k)) (texts-append ks ls) ∙ sym (append_assoc (text k) (texts ks) (texts ls))

pub length-text : (k : Block) → length (text k) ≡ readable k
length-text k = length-slice k.bytes k.read_idx (readable k)

-- A block that was reset holds nothing.
pub text-IsReset : (k : Block) → IsReset k → text k ≡ []
text-IsReset k r =
    ap (λ n. slice k.bytes k.read_idx n) (let e : readable k ≡ zero = omega arith in e)

pub texts-IsReset : (ks : List Block) → All IsReset ks → texts ks ≡ []
unfolding texts
texts-IsReset [] r = refl
texts-IsReset (k ∷ ks) (r, rs) = rw (text-IsReset k r) (texts-IsReset ks rs)

pub IsReset-Fits : (k : Block) → IsReset k → Fits k
IsReset-Fits k r = record { ordered = omega arith; within = omega arith }

pub reset-IsReset : (ks : List Block) → All IsReset (map reset ks)
reset-IsReset [] = tt
reset-IsReset (k ∷ ks) = (record { read_start = refl; write_start = refl }, reset-IsReset ks)

-- A new buffer is well formed.
pub empty_buffer-IsValid : IsValid empty_buffer
unfolding texts
empty_buffer-IsValid = record {
  full = tt;
  fits = record { ordered = omega arith; within = omega arith };
  clean = tt;
  sized = refl;
}
