-- ===== src/Io/Buffer/Single.antt =====
-- A buffer whose two pointers are both at `head_`: `peek` shows everything.
use my_project.Prelude.{
  ℕ, ◌≡◌, refl, sym, subst, inl, inr, ◌==◌, List, [], ◌∷◌, ◌++◌, arith, Bytes, length, Bool-cases,
}
use my_project.Io.Buffer.{
  Block, Buffer, text, peek, read_block, retrieve, skip, skip_last, compact, empty_buffer,
}
use my_project.Io.Buffer.Invariant.{IsValid, contents, texts}

pub record IsSingle (b : Buffer) : Type 0 where
  pub no_pending : b.pending ≡ []
  pub no_consumed : b.consumed ≡ []

pub empty_buffer-IsSingle : IsSingle empty_buffer
empty_buffer-IsSingle = record { no_pending = refl; no_consumed = refl }

text_none : (s : Bytes) → length s ≡ 0 → [] ≡ s
text_none [] h = refl
text_none (c ∷ s) h = absurd (omega arith)

-- `peek` shows the whole contents.
pub peek-IsSingle : (b : Buffer) → IsValid b → IsSingle b → peek b ≡ contents b
unfolding peek
peek-IsSingle b v s = elim (Bool-cases (b.size == 0)) [
  | inl nothing ↦ rw nothing (text_none (contents b) (ground arith))
  | inr more ↦ rw more (whole b.pending s.no_pending)
]
  where
    whole :
        (ps : List Block)
        → ps ≡ []
        → text (read_block (record b { pending = ps })) ≡ texts ps ++ text b.write_block
    whole ps e =
        subst (λ qs. text (read_block (record b { pending = qs })) ≡ texts qs ++ text b.write_block)
          (sym e) (unfold texts in refl)

-- Consuming leaves both pointers where they are.
pub retrieve-IsSingle : (n : ℕ) (b : Buffer) → IsSingle b → IsSingle (retrieve n b)
unfolding retrieve skip skip_last compact
retrieve-IsSingle n b s = ground arith
