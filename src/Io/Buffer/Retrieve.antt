-- ===== src/Io/Buffer/Retrieve.antt =====
-- Consuming: `retrieve` of hound/src/io/buffer.cpp with its compaction.
mod Skip
use mathlib.Core.Path.{ap₂}
use my_project.Prelude.{
  ℕ, ◌+◌, ◌-◌, ◌≤◌, min, ◌≡◌, refl, sym, ap, ◌∙◌, ◌⊎◌, inl, inr, false, ◌==◌, if◌then◌else◌, ltb,
  List, [], ◌∷◌, ◌++◌, append_assoc, arith, Bytes, length, drop, All, length-append, drop-append,
  drop-append_le, take_all, drop_all, Bool-cases,
}
use my_project.Io.Buffer.{
  Block, Buffer, readable, text, slice, read_n, retrieve_all, skip, skip_last, compact, retrieve,
}
use my_project.Io.Buffer.Blocks.{drop-slice}
use my_project.Io.Buffer.Invariant.{Fits, IsReset, IsValid, texts, contents, length-text}
use my_project.Io.Buffer.Append.{append_lem}
use my_project.Io.Buffer.Retrieve.Skip.{past, text-past, Skips, skip-Skips}
use my_project.Io.Buffer.Reading.{read_n_lem, retrieve_all_lem}

-- Compaction changes no byte.
compact_lem :
    (ks : List Block) (b : Buffer)
    → IsValid b
    → IsValid (compact ks b) × (contents (compact ks b) ≡ contents b)
unfolding compact
compact_lem [] b v = (v, refl)
compact_lem (k ∷ ks) b v = elim (Bool-cases (b.size == 0)) [
  | inl nothing ↦ rw nothing (v, refl)
  | inr some_left ↦
      let (fresh, nothing) = retrieve_all_lem b in
      let (valid, holds) = append_lem (read_n b.size b) (retrieve_all b) fresh in
      let all : read_n b.size b ≡ contents b =
        read_n_lem b.size b v
        ∙ (let e : ltb (length (contents b)) b.size ≡ false = ground arith in rw e)
        ∙ take_all b.size (contents b) (omega arith) in
      rw some_left (valid, holds ∙ ap₂ ◌++◌ nothing all)
]

-- The last part of `retrieve`, from a state that the loop leaves.
skip_last-Skips :
    (left : ℕ) (b : Buffer)
    → IsValid b
    → left ≤ b.size
    → (left ≡ 0) ⊎ (b.pending ≡ [])
    → IsValid (skip_last left b) × (contents (skip_last left b) ≡ drop left (contents b))
unfolding skip_last texts
skip_last-Skips left b v h met = elim (Bool-cases (left == 0)) [
  | inl done ↦ rw done (v, let e : left ≡ 0 = ground arith in rw e)
  | inr more ↦ elim met [ inl zero_left ↦ absurd (ground arith) | inr here ↦ rw more (last here) ]
]
  where
    k : Block
    k = b.write_block

    used : ℕ
    used = min left (readable k)

    only : b.pending ≡ [] → texts b.pending ≡ []
    only here = ap texts here

    all_here : b.pending ≡ [] → b.size ≡ readable k
    all_here here = v.sized ∙ ap (λ t. length (t ++ text k)) (only here) ∙ length-text k

    same :
        b.pending ≡ []
        → texts b.pending ++ text (past used k) ≡ drop left (texts b.pending ++ text k)
    same here =
        let e : used ≡ left = omega (arith, all_here here) in
        ap (λ t. t ++ text (past used k)) (only here)
        ∙ text-past used k (omega arith)
        ∙ ap₂ drop e (sym (ap (λ t. t ++ text k) (only here)))

    last :
        b.pending ≡ []
        → IsValid (record b { write_block = past used k; size = b.size - used })
          × (texts b.pending ++ text (past used k) ≡ drop left (texts b.pending ++ text k))
    last here = (
      record {
        full = v.full;
        fits = record { ordered = omega arith; within = v.fits.within };
        clean = v.clean;
        sized = omega (
          arith,
          all_here here,
          ap (λ t. length (t ++ text (past used k))) (only here),
          length-text (past used k),
        );
      },
      same here,
    )

-- `retrieve` consumes exactly the first `len` bytes, or all of them if there are fewer, and keeps
-- the buffer well formed, whether or not it moves the rest back to the first block.
pub retrieve_lem :
    (len : ℕ) (b : Buffer)
    → IsValid b
    → IsValid (retrieve len b) × (contents (retrieve len b) ≡ drop len (contents b))
unfolding retrieve
retrieve_lem len b v = elim (Bool-cases (len == 0)) [
  | inl none_asked ↦ rw none_asked (v, let e : len ≡ 0 = ground arith in rw e)
  | inr asked ↦
      let skipped = skip-Skips len' b.pending b v.full v.fits v.clean v.sized (ground arith) in
      let (valid, holds) =
        skip_last-Skips (skip len' b.pending b).0 (skip len' b.pending b).1 skipped.valid
          skipped.enough skipped.met in
      let last = skip_last (skip len' b.pending b).0 (skip len' b.pending b).1 in
      let (valid', holds') = compact_lem last.consumed last valid in
      rw asked (valid', holds' ∙ holds ∙ skipped.rest ∙ clamped)
]
  where
    len' : ℕ
    len' = if ltb b.size len then b.size else len

    clamped : drop len' (contents b) ≡ drop len (contents b)
    clamped = elim (Bool-cases (ltb b.size len)) [
      | inl over ↦ rw over (
          drop_all b.size (contents b) (omega (arith, v.sized))
          ∙ sym (drop_all len (contents b) (ground arith)))
      | inr within ↦ rw within
    ]
