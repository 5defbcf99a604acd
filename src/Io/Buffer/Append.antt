-- ===== src/Io/Buffer/Append.antt =====
-- Writing: `append` puts its bytes behind those of the buffer, whatever the blocks look like.
use my_project.Prelude.{
  ℕ, zero, suc, ◌+◌, ◌-◌, ◌*◌, ◌≤◌, ◌<◌, min, ◌≡◌, refl, sym, ap, subst, ◌∙◌, inl, inr, ◌==◌,
  if◌then◌else◌, ltb, leb, List, [], ◌∷◌, ◌++◌, append-nil, append_assoc, arith, Bytes, length,
  take, drop, All, All-append, length-append, length-take, length-drop, take-append-drop,
  Bool-cases,
}
use mathlib.Core.Path.{ap₂}
use my_project.Io.Buffer.{
  Block, Buffer, block_size, writable, text, slice, memcpy, alloc_block, move_to, advance_write,
  put, append_loop, append, begin_write, fill, has_written, ensure_writable,
}
use my_project.Io.Buffer.Blocks.{slice-append, slice-memcpy, slice-memcpy_below}
use my_project.Io.Buffer.Invariant.{
  Fits, IsReset, IsValid, texts, contents, texts-append, text-IsReset, IsReset-Fits,
}

-- The contents after a step, with the invariant.
pub record Holds (b : Buffer) (s : Bytes) : Type 0 where
  pub valid : IsValid b
  pub holds : contents b ≡ s

move_to-Holds :
    (k : Block) (rest : List Block) (b : Buffer)
    → IsReset k
    → All IsReset rest
    → IsValid b
    → Holds (move_to k rest b) (contents b)
unfolding texts
move_to-Holds k rest b r rs v = record {
  valid = record {
    full = All-append Fits b.pending (b.write_block ∷ []) v.full (v.fits, tt);
    fits = IsReset-Fits k r;
    clean = rs;
    sized = v.sized ∙ ap length (sym same);
  };
  holds = same;
}
  where
    same : contents (move_to k rest b) ≡ contents b
    same =
        rw (text-IsReset k r, append-nil, texts-append b.pending (b.write_block ∷ []))
          (ap (◌++◌ (texts b.pending)) (append-nil (text b.write_block)))

-- Moving to the next block, new or spare, changes no byte.
pub advance_write-Holds : (b : Buffer) → IsValid b → Holds (advance_write b) (contents b)
unfolding advance_write
advance_write-Holds b v = go b.spare v.clean refl
  where
    go : (ks : List Block) → All IsReset ks → b.spare ≡ ks → Holds (advance_write b) (contents b)
    go [] c e =
        rw (e, advance_write)
          (move_to-Holds alloc_block [] b (record { read_start = refl; write_start = refl }) tt v)
    go (k ∷ ks) (c, cs) e = rw (e, advance_write) (move_to-Holds k ks b c cs v)

-- The next block is free.
pub advance_write_free : (b : Buffer) → IsValid b → (advance_write b).write_block.write_idx ≡ 0
unfolding advance_write
advance_write_free b v = go b.spare v.clean refl
  where
    go :
        (ks : List Block)
        → All IsReset ks
        → b.spare ≡ ks
        → (advance_write b).write_block.write_idx ≡ 0
    go [] c e = rw (e, advance_write)
    go (k ∷ ks) (c, cs) e = rw (e, advance_write) c.write_start

-- The block after a copy of `s` behind its bytes.
abbrev pub grown : Block → Bytes → Block
grown k s = record k { bytes = memcpy k.bytes k.write_idx s; write_idx = k.write_idx + length s }

pub text-grown : (k : Block) (s : Bytes) → Fits k → text (grown k s) ≡ text k ++ s
text-grown k s f =
    ap (slice d r) (let e : w + length s - r ≡ (w - r) + length s = omega arith in e)
    ∙ slice-append d r (w - r) (length s)
    ∙ ap₂ ◌++◌ (slice-memcpy_below k.bytes w s r (w - r) (omega arith)) (
        ap (λ j. slice d j (length s)) (let e : r + (w - r) ≡ w = omega arith in e)
        ∙ slice-memcpy k.bytes w s)
  where
    w : ℕ
    w = k.write_idx

    r : ℕ
    r = k.read_idx

    d : ℕ → ℕ
    d = memcpy k.bytes w s

-- One copy into the write block appends its bytes.
put-Holds :
    (s : Bytes) (b : Buffer)
    → IsValid b
    → length s ≤ writable b.write_block
    → Holds (put s b) (contents b ++ s)
unfolding put
put-Holds s b v h = record {
  valid = record {
    full = v.full;
    fits = record { ordered = omega arith; within = omega arith };
    clean = v.clean;
    sized = omega (arith, v.sized, ap length same, length-append (contents b) s);
  };
  holds = same;
}
  where
    same : contents (put s b) ≡ contents b ++ s
    same =
        ap (◌++◌ (texts b.pending)) (text-grown b.write_block s v.fits)
        ∙ sym (append_assoc (texts b.pending) (text b.write_block) s)

-- How many rounds the loop of `append` needs.
abbrev rounds : Bytes → Buffer → ℕ
rounds src b = 2 * length src + (if writable b.write_block == 0 then 1 else 0)

append_loop-Holds :
    (fuel : ℕ) (src : Bytes) (b : Buffer)
    → IsValid b
    → rounds src b < fuel
    → Holds (append_loop fuel src b) (contents b ++ src)
unfolding append_loop
append_loop-Holds zero src b v h = absurd (omega arith)
append_loop-Holds (suc fuel) [] b v h = record { valid = v; holds = sym (append-nil (contents b)) }
append_loop-Holds (suc fuel) (c ∷ s) b v h = elim (Bool-cases (writable b.write_block == 0)) [
  | inl full ↦
      let moved = advance_write-Holds b v in
      let free = advance_write_free b v in
      let done =
        append_loop-Holds fuel (c ∷ s) (advance_write b) moved.valid (ground (arith, free)) in
      rw full
        (record { valid = done.valid; holds = done.holds ∙ ap (λ t. t ++ (c ∷ s)) moved.holds })
  | inr room ↦
      let k = min (length (c ∷ s)) (writable b.write_block) in
      let one = put-Holds (take k (c ∷ s)) b v (omega (arith, length-take k (c ∷ s))) in
      let done =
        append_loop-Holds fuel (drop k (c ∷ s)) (put (take k (c ∷ s)) b) one.valid
          (ground (arith, length-drop k (c ∷ s))) in
      rw room (record {
        valid = done.valid;
        holds =
            done.holds
            ∙ ap (λ t. t ++ drop k (c ∷ s)) one.holds
            ∙ append_assoc (contents b) (take k (c ∷ s)) (drop k (c ∷ s))
            ∙ ap (◌++◌ (contents b)) (take-append-drop k (c ∷ s));
      })
]

-- `append` keeps a well-formed buffer well formed and puts exactly the given bytes behind its
-- contents, however they fall on the blocks.
pub append_lem :
    (src : Bytes) (b : Buffer)
    → IsValid b
    → IsValid (append src b) × (contents (append src b) ≡ contents b ++ src)
unfolding append
append_lem src b v =
    let h = append_loop-Holds (2 * length src + 2) src b v (ground arith) in (h.valid, h.holds)

-- A write through the pointer and its commit append the bytes written.
has_written-fill :
    (s : Bytes) (b : Buffer)
    → IsValid b
    → length s ≤ writable b.write_block
    → Holds (has_written (length s) (fill s b)) (contents b ++ s)
unfolding has_written fill put
has_written-fill s b v h =
    let same : (if ltb (writable b.write_block) (length s)
          then writable b.write_block
          else length s)
        ≡ length s =
      ground arith in
    rw same (put-Holds s b v h)

abbrev Written : Bytes → Buffer → ℕ × Buffer → Type 0
Written s b r =
    (0 < r.0)
    × IsValid (has_written (length s) (fill s r.1))
    × (contents (has_written (length s) (fill s r.1)) ≡ contents b ++ s)

-- `begin_write` reports some room, never 0, and bytes that fit into it, written through its pointer
-- and then committed by `has_written`, stand behind the old contents in a well-formed buffer.
has_written-fill-begin_write :
    (s : Bytes) (b : Buffer)
    → IsValid b
    → length s ≤ (begin_write b).0
    → let (room, b') = begin_write b in
      (0 < room)
      × IsValid (has_written (length s) (fill s b'))
      × (contents (has_written (length s) (fill s b')) ≡ contents b ++ s)
unfolding begin_write advance_write
has_written-fill-begin_write s b v h = elim (Bool-cases (writable b.write_block == 0)) [
  | inl full ↦
      let moved = advance_write-Holds b v in
      let e : begin_write b ≡ (writable (advance_write b).write_block, advance_write b) =
        rw (begin_write, full) refl in
      let done =
        has_written-fill s (advance_write b) moved.valid (subst (λ r. length s ≤ r.0) e h) in
      subst (Written s b) (sym e) (
        omega (arith, advance_write_free b v),
        done.valid,
        done.holds ∙ ap (λ t. t ++ s) moved.holds,
      )
  | inr room ↦
      let e : begin_write b ≡ (writable b.write_block, b) = rw (begin_write, room) refl in
      let done = has_written-fill s b v (subst (λ r. length s ≤ r.0) e h) in
      subst (Written s b) (sym e) (ground arith, done.valid, done.holds)
]

-- `ensure_writable` changes no byte and keeps the buffer well formed, and afterwards there is room
-- for `len` bytes, or for a whole block where `len` is more than a block holds.
ensure_writable_lem :
    (len : ℕ) (b : Buffer)
    → IsValid b
    → IsValid (ensure_writable len b)
      × (contents (ensure_writable len b) ≡ contents b)
      × (min len block_size ≤ writable (ensure_writable len b).write_block)
unfolding ensure_writable
ensure_writable_lem len b v = elim (Bool-cases (leb len (writable b.write_block))) [
  | inl fits ↦ rw fits (v, refl, ground arith)
  | inr full ↦
      let moved = advance_write-Holds b v in
      rw full (moved.valid, moved.holds, omega (arith, advance_write_free b v))
]
