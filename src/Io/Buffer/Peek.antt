-- ===== src/Io/Buffer/Peek.antt =====
-- The views of the first block of hound/src/io/buffer.cpp, `peek` and `peek_byte`, where they show
-- the front of the contents.
use my_project.Prelude.{
  ℕ, suc, ◌-◌, ◌≤◌, ◌<◌, ◌≡◌, sym, ap, ◌∙◌, inl, inr, true, false, ◌==◌, ltb, List, [], ◌∷◌, ◌++◌,
  append-nil, append_assoc, arith, Bytes, length, All, length-append, Bool-cases,
}
use my_project.Io.Buffer.{
  Block, Buffer, byte, block_size, readable, text, slice, peek, peek_byte, read_block,
}
use my_project.Io.Buffer.Invariant.{IsValid, Fits, contents, texts, length-text}

-- What stands behind the first block.
after_first : Buffer → Bytes
after_first b = elim b.pending [ [] ↦ [] | k ∷ ks ↦ texts ks ++ text b.write_block ]

contents-first : (b : Buffer) → contents b ≡ text (read_block b) ++ after_first b
unfolding after_first
contents-first b = go b.pending
  where
    go :
        (ps : List Block)
        → texts ps ++ text b.write_block
          ≡ text (read_block (record b { pending = ps })) ++ after_first (record b { pending = ps })
    go [] = unfold texts in sym (append-nil (text b.write_block))
    go (k ∷ ks) = unfold texts in append_assoc (text k) (texts ks) (text b.write_block)

-- The first block shows no more than the contents.
pub length-peek-le : (b : Buffer) → length (peek b) ≤ length (contents b)
unfolding peek
length-peek-le b = elim (Bool-cases (b.size == 0)) [
  | inl nothing ↦ rw nothing (omega arith)
  | inr more ↦ rw more (
      omega
        (arith, ap length (contents-first b), length-append (text (read_block b)) (after_first b)))
]

read_block-Fits : (b : Buffer) → IsValid b → Fits (read_block b)
read_block-Fits b v = go b.pending v.full
  where
    go : (ps : List Block) → All Fits ps → Fits (read_block (record b { pending = ps }))
    go [] f = v.fits
    go (k ∷ ks) (f, fs) = f

text_nonempty :
    (k : Block)
    → 0 < readable k
    → text k ≡ k.bytes k.read_idx ∷ slice k.bytes (suc k.read_idx) (readable k - 1)
text_nonempty k h =
    ap (slice k.bytes k.read_idx) (let e : readable k ≡ suc (readable k - 1) = omega arith in e)

-- Where the first block has an unread byte, `peek` shows a nonempty prefix of the contents and
-- `peek_byte` shows their first byte.
peek_lem :
    (b : Buffer)
    → IsValid b
    → 0 < readable (read_block b)
    → (c : ℕ) × (s : Bytes) × (rest : Bytes) × (peek b ≡ c ∷ s)
      × (contents b ≡ (c ∷ s) ++ rest)
      × (peek_byte b ≡ byte c)
unfolding peek peek_byte
peek_lem b v h =
    let k = read_block b in
    let f = read_block-Fits b v in
    let view = text_nonempty k h in
    let whole : contents b ≡ text k ++ after_first b = contents-first b in
    let more : (b.size == 0) ≡ false =
      ground
        (arith, v.sized, ap length whole, length-append (text k) (after_first b), length-text k) in
    let inside : ltb k.read_idx block_size ≡ true = ground arith in
    (
      k.bytes k.read_idx,
      slice k.bytes (suc k.read_idx) (readable k - 1),
      after_first b,
      rw more view,
      whole ∙ ap (λ t. t ++ after_first b) view,
      rw (more, inside),
    )
