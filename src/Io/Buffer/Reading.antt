-- ===== src/Io/Buffer/Reading.antt =====
-- Copying out and clearing: `read_n` and `retrieve_all` of hound/src/io/buffer.cpp.
use mathlib.Core.Path.{ap₂}
use my_project.Prelude.{
  ℕ, ◌-◌, min, ◌≡◌, refl, sym, ap, ◌∙◌, inl, inr, ◌==◌, if◌then◌else◌, ltb, List, [], ◌∷◌, ◌++◌,
  map, append-nil, arith, length, take, All, take-append, take-nil, Bool-cases,
}
use my_project.Io.Buffer.{
  Block, Buffer, readable, text, reset, unread, chain, copy_out, read_n, rewind, retrieve_all,
}
use my_project.Io.Buffer.Blocks.{take-slice}
use my_project.Io.Buffer.Invariant.{
  IsReset, IsValid, texts, contents, texts-append, length-text, texts-IsReset, text-IsReset,
  IsReset-Fits, reset-IsReset, empty_buffer-IsValid,
}

copy_out-texts : (n : ℕ) (ks : List Block) → copy_out n ks ≡ take n (texts ks)
unfolding copy_out texts
copy_out-texts n [] = sym (take-nil n)
copy_out-texts n (k ∷ ks) = elim (Bool-cases (n == 0)) [
  | inl done ↦ let e : n ≡ 0 = ground arith in rw e
  | inr more ↦
      rw (more, take-append n (text k) (texts ks), copy_out-texts (n - min n (readable k)) ks)
        (ap₂ ◌++◌ (sym (take-slice k.bytes n k.read_idx (readable k))) (
          ap (λ m. take m (texts ks))
            (let e : n - min n (readable k) ≡ n - length (text k) = omega (arith, length-text k) in
              e)))
]

pub texts-unread : (b : Buffer) → IsValid b → texts (unread b) ≡ contents b
unfolding texts
texts-unread b v =
    texts-append b.pending (b.write_block ∷ b.spare)
    ∙ ap (λ t. texts b.pending ++ (text b.write_block ++ t)) (texts-IsReset b.spare v.clean)
    ∙ ap (◌++◌ (texts b.pending)) (append-nil (text b.write_block))

-- `read_n` returns the first `len` bytes across all blocks, or nothing if there are fewer.
pub read_n_lem :
    (len : ℕ) (b : Buffer)
    → IsValid b
    → read_n len b ≡ (if ltb (length (contents b)) len then [] else take len (contents b))
unfolding read_n
read_n_lem len b v = rw (← v.sized) (
    ap (λ t. if ltb b.size len then [] else t)
      (copy_out-texts len (unread b) ∙ ap (take len) (texts-unread b v)))

rewind-IsValid :
    (ks : List Block) → All IsReset ks → IsValid (rewind ks) × (contents (rewind ks) ≡ [])
unfolding rewind texts
rewind-IsValid [] r = (empty_buffer-IsValid, refl)
rewind-IsValid (k ∷ ks) (r, rs) = (
  record {
    full = tt;
    fits = IsReset-Fits k r;
    clean = rs;
    sized = ap length (sym (text-IsReset k r));
  },
  text-IsReset k r,
)

-- `retrieve_all` empties the buffer and keeps it well formed.
pub retrieve_all_lem : (b : Buffer) → IsValid (retrieve_all b) × (contents (retrieve_all b) ≡ [])
unfolding retrieve_all
retrieve_all_lem b = rewind-IsValid (map reset (chain b)) (reset-IsReset (chain b))
