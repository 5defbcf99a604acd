-- ===== src/Io/Buffer/Retrieve/Skip.antt =====
-- The loop of `retrieve` in hound/src/io/buffer.cpp, block by block.
use mathlib.Core.Path.{ap₂}
use my_project.Prelude.{
  ℕ, ◌+◌, ◌-◌, ◌≤◌, min, ◌≡◌, refl, sym, ap, ◌∙◌, ◌⊎◌, inl, inr, ◌==◌, List, [], ◌∷◌, ◌++◌,
  append_assoc, arith, Bytes, length, drop, All, length-append, drop-append, drop-append_le,
  drop_all, Bool-cases,
}
use my_project.Io.Buffer.{Block, Buffer, readable, text, slice, skip}
use my_project.Io.Buffer.Blocks.{drop-slice}
use my_project.Io.Buffer.Invariant.{Fits, IsReset, IsValid, texts, contents, length-text}

-- A block from which `n` bytes are consumed.
abbrev pub past : ℕ → Block → Block
past n k = record k { read_idx = k.read_idx + n }

pub text-past : (n : ℕ) (k : Block) → n ≤ readable k → text (past n k) ≡ drop n (text k)
text-past n k h =
    ap (slice k.bytes (k.read_idx + n))
      (let e : k.write_idx - (k.read_idx + n) ≡ readable k - n = omega arith in e)
    ∙ sym (drop-slice k.bytes n k.read_idx (readable k))

-- What the loop of `retrieve` leaves: the bytes behind the first `remaining` are those behind the
-- first `left` of the new contents, and if some are left to consume then the pointers have met.
pub record Skips (remaining : ℕ) (s : Bytes) (left : ℕ) (b : Buffer) : Type 0 where
  pub valid : IsValid b
  pub rest : drop left (contents b) ≡ drop remaining s
  pub enough : left ≤ b.size
  pub met : (left ≡ 0) ⊎ (b.pending ≡ [])

-- Consuming a whole block, or the front of one, of the bytes from it on.
drop_block :
    (n : ℕ) (k : Block) (s : Bytes)
    → readable k ≤ n
    → drop n (text k ++ s) ≡ drop (n - readable k) s
drop_block n k s h =
    drop-append n (text k) s
    ∙ ap₂ ◌++◌ (drop_all n (text k) (omega (arith, length-text k))) (
        ap (λ m. drop m s)
          (let e : n - length (text k) ≡ n - readable k = omega (arith, length-text k) in e))

drop_front :
    (n : ℕ) (k : Block) (s : Bytes) → n ≤ readable k → drop n (text k ++ s) ≡ text (past n k) ++ s
drop_front n k s h =
    drop-append_le n (text k) s (omega (arith, length-text k))
    ∙ ap (λ t. t ++ s) (sym (text-past n k h))

-- The unread bytes behind the block that the loop is at.
abbrev behind : List Block → Buffer → Bytes
behind ks b = texts ks ++ text b.write_block

regroup :
    (k : Block) (ks : List Block) (b : Buffer)
    → texts (k ∷ ks) ++ text b.write_block ≡ text k ++ behind ks b
unfolding texts
regroup k ks b = append_assoc (text k) (texts ks) (text b.write_block)

behind-length :
    (k : Block) (ks : List Block) (b : Buffer)
    → length (texts (k ∷ ks) ++ text b.write_block) ≡ readable k + length (behind ks b)
behind-length k ks b =
    ap length (regroup k ks b)
    ∙ length-append (text k) (behind ks b)
    ∙ ap (λ m. m + length (behind ks b)) (length-text k)

drop-whole :
    (n : ℕ) (k : Block) (ks : List Block) (b : Buffer)
    → readable k ≤ n
    → drop n (texts (k ∷ ks) ++ text b.write_block) ≡ drop (n - readable k) (behind ks b)
drop-whole n k ks b h = ap (drop n) (regroup k ks b) ∙ drop_block n k (behind ks b) h

drop-part :
    (n : ℕ) (k : Block) (ks : List Block) (b : Buffer)
    → n ≤ readable k
    → texts (past n k ∷ ks) ++ text b.write_block ≡ drop n (texts (k ∷ ks) ++ text b.write_block)
drop-part n k ks b h =
    regroup (past n k) ks b
    ∙ sym (drop_front n k (behind ks b) h)
    ∙ ap (drop n) (sym (regroup k ks b))

pub skip-Skips :
    (remaining : ℕ) (ks : List Block) (b : Buffer)
    → All Fits ks
    → Fits b.write_block
    → All IsReset b.spare
    → b.size ≡ length (texts ks ++ text b.write_block)
    → remaining ≤ b.size
    → Skips remaining
        (texts ks ++ text b.write_block)
        (skip remaining ks b).0
        (skip remaining ks b).1
unfolding skip texts
skip-Skips remaining [] b fs f c n h = record {
  valid = record { full = tt; fits = f; clean = c; sized = n };
  rest = refl;
  enough = h;
  met = inr refl;
}
skip-Skips remaining (k ∷ ks) b (fk, fs) f c n h = elim (Bool-cases (remaining == 0)) [
  | inl done ↦ rw done (record {
    valid = record { full = (fk, fs); fits = f; clean = c; sized = n };
    rest = refl;
    enough = h;
    met = inl (ground arith);
  })
  | inr more ↦ elim (Bool-cases (k.read_idx + used == k.write_idx)) [
    | inl up ↦
        let e : used ≡ readable k = ground arith in
        let on =
          skip-Skips (remaining - used) ks after fs f c (omega (arith, size, e))
            (omega (arith, size, e)) in
        rw (more, up)
          (record {
            valid = on.valid;
            rest =
                on.rest
                ∙ ap (λ m. drop (remaining - m) (behind ks b)) e
                ∙ sym (drop-whole remaining k ks b (omega (arith, e)));
            enough = on.enough;
            met = on.met;
          })
    | inr part ↦
        let e : used ≡ remaining = ground arith in
        let e0 : remaining - used ≡ 0 = ground arith in
        rw (more, part)
          (record {
            valid = record {
              full = (record { ordered = omega arith; within = fk.within }, fs);
              fits = f;
              clean = c;
              sized = omega (arith, size, behind-length (past used k) ks b);
            };
            rest =
                ap (λ m. drop m (texts (past used k ∷ ks) ++ text b.write_block)) e0
                ∙ drop-part used k ks b (omega arith)
                ∙ ap (λ m. drop m (texts (k ∷ ks) ++ text b.write_block)) e;
            enough = omega (arith, e0);
            met = inl e0;
          })
  ]
]
  where
    used : ℕ
    used = min remaining (readable k)

    after : Buffer
    after = record b { consumed = b.consumed ++ (past used k ∷ []); size = b.size - used }

    size : b.size ≡ readable k + length (behind ks b)
    size = n ∙ behind-length k ks b
