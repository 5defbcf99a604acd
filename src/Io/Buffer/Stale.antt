-- ===== src/Io/Buffer/Stale.antt =====
-- The state of hound/src/io/buffer.cpp in which `peek` and `peek_byte` miss the contents.
use my_project.Prelude.{
  ℕ, zero, suc, ◌+◌, ◌*◌, ◌≤◌, ◌<◌, min, ◌≡◌, ◌≢◌, refl, sym, ap, subst, ◌∙◌, inl, inr, true, false,
  ◌==◌, ltb, List, [], ◌∷◌, ◌++◌, arith, Bytes, length, take, drop, take_all, drop_all, Bool-cases,
}
use my_project.Io.Buffer.{
  Block, Buffer, out_of_bounds, block_size, readable, writable, slice, empty_buffer, advance_write,
  memcpy, put, append_loop, append, peek, peek_byte, read_block, retrieve, skip, skip_last, compact,
}
use my_project.Io.Buffer.Invariant.{IsValid, contents, texts, empty_buffer-IsValid}
use my_project.Io.Buffer.Append.{append_lem}
use my_project.Io.Buffer.Retrieve.{retrieve_lem}

-- While `read_block_` is behind `write_block_`, a write leaves it where it is.
append_loop-pending :
    (fuel : ℕ) (src : Bytes) (b : Buffer) (k : Block) (ps : List Block)
    → b.pending ≡ k ∷ ps
    → (qs : List Block) × ((append_loop fuel src b).pending ≡ k ∷ qs)
unfolding append_loop
append_loop-pending zero src b k ps e = (ps, e)
append_loop-pending (suc fuel) [] b k ps e = (ps, e)
append_loop-pending (suc fuel) (c ∷ s) b k ps e = elim (Bool-cases (writable b.write_block == 0)) [
  | inl full ↦ rw full (
      append_loop-pending fuel (c ∷ s) (advance_write b) k (ps ++ (b.write_block ∷ []))
        (advance b.spare refl))
  | inr room ↦
      rw room
        (append_loop-pending fuel (drop n (c ∷ s)) (put (take n (c ∷ s)) b) k ps (unfold put in e))
]
  where
    n : ℕ
    n = min (length (c ∷ s)) (writable b.write_block)

    advance :
        (ks : List Block)
        → b.spare ≡ ks
        → (advance_write b).pending ≡ k ∷ (ps ++ (b.write_block ∷ []))
    advance [] e' =
        unfold advance_write in rw (e', advance_write) (ap (λ t. t ++ (b.write_block ∷ [])) e)
    advance (l ∷ ls) e' =
        unfold advance_write in rw (e', advance_write) (ap (λ t. t ++ (b.write_block ∷ [])) e)

-- The state that reading a full block to its end leaves.
pub record IsUsedUp (b : Buffer) : Type 0 where
  pub alone : b.pending ≡ []
  pub filled : b.write_block.write_idx ≡ block_size
  pub drained : b.write_block.read_idx ≡ block_size

read_block_of : (b : Buffer) (k : Block) (ps : List Block) → b.pending ≡ k ∷ ps → read_block b ≡ k
read_block_of b k ps e = ap (λ l. read_block (record b { pending = l })) e

append_loop-full :
    (fuel : ℕ) (c : ℕ) (s : Bytes) (b : Buffer)
    → (writable b.write_block == 0) ≡ true
    → append_loop (suc fuel) (c ∷ s) b ≡ append_loop fuel (c ∷ s) (advance_write b)
unfolding append_loop
append_loop-full fuel c s b e = rw e

advance_write-pending : (b : Buffer) → (advance_write b).pending ≡ b.pending ++ (b.write_block ∷ [])
unfolding advance_write
advance_write-pending b = go b.spare refl
  where
    go :
        (ks : List Block)
        → b.spare ≡ ks
        → (advance_write b).pending ≡ b.pending ++ (b.write_block ∷ [])
    go [] e = rw (e, advance_write)
    go (k ∷ ks) e = rw (e, advance_write)

-- From then on the read pointer stays at the used-up block.
append-IsUsedUp :
    (s : Bytes) (b : Buffer) → IsUsedUp b → s ≢ [] → read_block (append s b) ≡ b.write_block
unfolding append
append-IsUsedUp [] b u h = absurd (h refl)
append-IsUsedUp (c ∷ s) b u h =
    let fuel = 2 * length (c ∷ s) + 1 in
    let e : 2 * length (c ∷ s) + 2 ≡ suc fuel = omega arith in
    let full : (writable b.write_block == 0) ≡ true = ground arith in
    let next : (advance_write b).pending ≡ b.write_block ∷ [] =
      advance_write-pending b ∙ ap (λ l. l ++ (b.write_block ∷ [])) u.alone in
    let (qs, on) = append_loop-pending fuel (c ∷ s) (advance_write b) b.write_block [] next in
    rw (e, append_loop-full fuel c s b full)
      (read_block_of (append_loop fuel (c ∷ s) (advance_write b)) b.write_block qs on)

-- Reading to the end of a block whose bytes all came in one piece uses it up.
append_fits :
    (s : Bytes) (b : Buffer) → s ≢ [] → length s ≤ writable b.write_block → append s b ≡ put s b
unfolding append append_loop put
append_fits [] b h fits = absurd (h refl)
append_fits (c ∷ s) b h fits =
    let fuel = 2 * length (c ∷ s) in
    let e : 2 * length (c ∷ s) + 2 ≡ suc (suc fuel) = omega arith in
    let room : (writable b.write_block == 0) ≡ false = ground arith in
    let all : min (length (c ∷ s)) (writable b.write_block) ≡ length (c ∷ s) = omega arith in
    rw e (
      rw room
        (rw all (rw (drop_all (length s) s (omega arith), take_all (length s) s (omega arith)))))

retrieve-IsUsedUp :
    (d : ℕ → ℕ) (spare : List Block)
    → IsUsedUp (
        retrieve block_size (record {
          consumed = [];
          pending = [];
          write_block = record { bytes = d; read_idx = 0; write_idx = block_size };
          spare = spare;
          size = block_size;
        }))
unfolding retrieve skip skip_last compact
retrieve-IsUsedUp d spare = record { alone = refl; filled = refl; drained = refl }

one_block-IsUsedUp :
    (s : Bytes) → length s ≡ block_size → IsUsedUp (retrieve block_size (append s empty_buffer))
one_block-IsUsedUp s h =
    rw (append_fits s empty_buffer (λ e. absurd (omega (arith, ap length e))) (omega arith)) moved
  where
    holding : ℕ → Buffer
    holding n = record {
      consumed = [];
      pending = [];
      write_block = record { bytes = memcpy (λ _. 0) 0 s; read_idx = 0; write_idx = n };
      spare = [];
      size = n;
    }

    moved : IsUsedUp (retrieve block_size (put s empty_buffer))
    moved =
        unfold put in
        subst (λ n. IsUsedUp (retrieve block_size (holding n)))
          (let e : block_size ≡ 0 + length s = omega arith in e)
          (retrieve-IsUsedUp (memcpy (λ _. 0) 0 s) [])

-- The views of a buffer whose first block is used up.
peek_used_up :
    (b : Buffer) (k : Block)
    → IsValid b
    → contents b ≢ []
    → read_block b ≡ k
    → k.read_idx ≡ block_size
    → k.write_idx ≡ block_size
    → (peek b ≡ []) × (peek_byte b ≡ out_of_bounds)
unfolding peek peek_byte
peek_used_up b k v some_left e r w = (
  rw (more, e) (ap (slice k.bytes k.read_idx) (let z : readable k ≡ 0 = omega arith in z)),
  rw (more, e) (let past : ltb k.read_idx block_size ≡ false = ground arith in rw past),
)
  where
    nonempty : (s : Bytes) → s ≢ [] → 0 < length s
    nonempty [] h = absurd (h refl)
    nonempty (c ∷ s) h = omega arith

    more : (b.size == 0) ≡ false
    more = ground (arith, v.sized, nonempty (contents b) some_left)

-- When exactly one block of bytes has come in and has been consumed, the next bytes stand in the
-- buffer, but `peek` shows none of them and `peek_byte` reads behind the end of the block's array.
peek-append-retrieve :
    (s t : Bytes)
    → length s ≡ block_size
    → t ≢ []
    → let b = append t (retrieve block_size (append s empty_buffer)) in
      (contents b ≡ t) × (peek b ≡ []) × (peek_byte b ≡ out_of_bounds)
peek-append-retrieve s t whole more =
    let (unseen, outside) =
      peek_used_up (append t used) used.write_block valid (λ e. more (sym same ∙ e)) first
        ends.drained ends.filled in
    (same, unseen, outside)
  where
    used : Buffer
    used = retrieve block_size (append s empty_buffer)

    fresh :
        IsValid (append s empty_buffer)
        × (contents (append s empty_buffer) ≡ contents empty_buffer ++ s)
    fresh = append_lem s empty_buffer empty_buffer-IsValid

    drained : IsValid used × (contents used ≡ drop block_size (contents (append s empty_buffer)))
    drained = retrieve_lem block_size (append s empty_buffer) fresh.0

    empty : contents used ≡ []
    empty =
        drained.1
        ∙ drop_all block_size (contents (append s empty_buffer))
            (unfold texts in omega (arith, ap length fresh.1))

    valid : IsValid (append t used)
    valid = (append_lem t used drained.0).0

    same : contents (append t used) ≡ t
    same = (append_lem t used drained.0).1 ∙ ap (λ r. r ++ t) empty

    ends : IsUsedUp used
    ends = one_block-IsUsedUp s whole

    first : read_block (append t used) ≡ used.write_block
    first = append-IsUsedUp t used ends more
