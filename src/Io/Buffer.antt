-- ===== src/Io/Buffer.antt =====
-- hound/src/io/buffer.h and buffer.cpp: a chain of blocks of 4096 bytes.
-- The chain `head_ → … → nullptr` is cut at the two pointers into it: the blocks before
-- `read_block_`, those from there up to `write_block_`, the write block, and the blocks after it.
-- `read_block_ != write_block_` says that `pending` is not empty, and `read_block_ != &head_` that
-- `consumed` is not. Sizes are unbounded numbers; the subtractions stay above 0 on valid buffers.
pub mod Blocks
pub mod Invariant
pub mod Append
pub mod Reading
pub mod Retrieve
pub mod Search
pub mod Peek
pub mod Stale
pub mod Single
mod Tests
use my_project.Prelude.{
  ℕ, zero, suc, ◌+◌, ◌-◌, ◌*◌, min, ltb, leb, ◌==◌, if◌then◌else◌, Bool, true, false, not, ◌&&◌,
  Option, none, some, List, [], ◌∷◌, ◌++◌, map, Bytes, bytes_eq, find_byte, length, take, drop,
}
use mathlib.Core.Option

abbrev pub block_size : ℕ
block_size = 4096

-- `data` is the array; a free block's array is zero until it is written.
pub record Block : Type 0 where
  pub bytes : ℕ → ℕ
  pub read_idx : ℕ
  pub write_idx : ℕ

abbrev pub readable : Block → ℕ
readable k = k.write_idx - k.read_idx

abbrev pub writable : Block → ℕ
writable k = block_size - k.write_idx

abbrev pub reset : Block → Block
reset k = record k { read_idx = 0; write_idx = 0 }

-- `alloc_block()`
abbrev pub alloc_block : Block
alloc_block = record { bytes = λ _. 0; read_idx = 0; write_idx = 0 }

-- The `n` bytes of an array from index `i` on.
abbrev pub slice : (ℕ → ℕ) → ℕ → ℕ → Bytes
slice d i zero = []
slice d i (suc n) = d i ∷ slice d (suc i) n

-- memcpy of a text into an array at index `i`.
pub memcpy : (ℕ → ℕ) → ℕ → Bytes → (ℕ → ℕ)
memcpy d i [] = d
memcpy d i (c ∷ s) = memcpy (λ j. if j == i then c else d j) (suc i) s

-- The unread bytes of a block.
abbrev pub text : Block → Bytes
text k = slice k.bytes k.read_idx (readable k)

pub record Buffer : Type 0 where
  pub consumed : List Block
  pub pending : List Block
  pub write_block : Block
  pub spare : List Block
  pub size : ℕ

-- `Buffer()`
abbrev pub empty_buffer : Buffer
empty_buffer = record {
  consumed = [];
  pending = [];
  write_block = alloc_block;
  spare = [];
  size = 0;
}

-- Every block from `head_` on, and those from `read_block_` on.
abbrev pub chain : Buffer → List Block
chain b = b.consumed ++ (b.pending ++ (b.write_block ∷ b.spare))

abbrev pub unread : Buffer → List Block
unread b = b.pending ++ (b.write_block ∷ b.spare)

abbrev pub read_block : Buffer → Block
read_block b = elim b.pending [ [] ↦ b.write_block | k ∷ _ ↦ k ]

-- `write_block_ = write_block_->next`, where the next block is `k`.
abbrev pub move_to : Block → List Block → Buffer → Buffer
move_to k rest b = record b {
  pending = b.pending ++ (b.write_block ∷ []);
  write_block = k;
  spare = rest;
}

-- The same, with a new block where there is no next one.
pub advance_write : Buffer → Buffer
advance_write b = elim b.spare [ [] ↦ move_to alloc_block [] b | k ∷ rest ↦ move_to k rest b ]

-- One `memcpy` into the write block with its three counters.
pub put : Bytes → Buffer → Buffer
put s b =
    let k = b.write_block in
    record b {
      write_block = record k {
        bytes = memcpy k.bytes k.write_idx s;
        write_idx = k.write_idx + length s;
      };
      size = b.size + length s;
    }

-- The loop of `append`, over the bytes that remain.
pub append_loop : ℕ → Bytes → Buffer → Buffer
append_loop zero src b = b
append_loop (suc fuel) [] b = b
append_loop (suc fuel) (c ∷ s) b =
    let next = append_loop fuel (c ∷ s) (advance_write b) in
    let to_copy = min (length (c ∷ s)) (writable b.write_block) in
    let rest = append_loop fuel (drop to_copy (c ∷ s)) (put (take to_copy (c ∷ s)) b) in
    if writable b.write_block == 0 then next else rest

-- A round copies a byte or moves to a block with room, so this fuel is enough.
unfoldable pub append : Bytes → Buffer → Buffer
unfolding append_loop advance_write put memcpy
append src b = append_loop (2 * length src + 2) src b

-- The bytes that may be written at the pointer, and the buffer.
unfoldable pub begin_write : Buffer → ℕ × Buffer
unfolding advance_write
begin_write b =
    let b' = if writable b.write_block == 0 then advance_write b else b in
    (writable b'.write_block, b')

-- What a caller writes through the pointer of `begin_write`.
unfoldable pub fill : Bytes → Buffer → Buffer
unfolding memcpy
fill s b =
    let k = b.write_block in
    record b { write_block = record k { bytes = memcpy k.bytes k.write_idx s } }

unfoldable pub has_written : ℕ → Buffer → Buffer
has_written len b =
    let k = b.write_block in
    let n = if ltb (writable k) len then writable k else len in
    record b { write_block = record k { write_idx = k.write_idx + n }; size = b.size + n }

unfoldable pub ensure_writable : ℕ → Buffer → Buffer
unfolding advance_write
ensure_writable len b = if leb len (writable b.write_block) then b else advance_write b

-- `peek`, and the bytes behind `peek_data` and `peek_size`.
unfoldable pub peek : Buffer → Bytes
peek b = if b.size == 0 then [] else text (read_block b)

-- -1, a byte, or a read behind the end of the block's array.
pub data PeekByte : Type 0 where
  no_byte : PeekByte
  byte : ℕ → PeekByte
  out_of_bounds : PeekByte

unfoldable pub peek_byte : Buffer → PeekByte
peek_byte b =
    let k = read_block b in
    if b.size == 0
    then no_byte
    else if ltb k.read_idx block_size
    then byte (k.bytes k.read_idx)
    else out_of_bounds

-- The loop of `read_n`.
pub copy_out : ℕ → List Block → Bytes
copy_out remaining [] = []
copy_out remaining (k ∷ rest) =
    let to_copy = min remaining (readable k) in
    if remaining == 0
    then []
    else slice k.bytes k.read_idx to_copy ++ copy_out (remaining - to_copy) rest

unfoldable pub read_n : ℕ → Buffer → Bytes
unfolding copy_out
read_n len b = if ltb b.size len then [] else copy_out len (unread b)

-- `head_` is the first block of the chain, which is never empty.
pub rewind : List Block → Buffer
rewind [] = empty_buffer
rewind (head ∷ rest) = record {
  consumed = [];
  pending = [];
  write_block = head;
  spare = rest;
  size = 0;
}

unfoldable pub retrieve_all : Buffer → Buffer
unfolding rewind
retrieve_all b = rewind (map reset (chain b))

-- The loop of `retrieve`: what is left to consume, and the buffer. A block that is not used up
-- has served all that remained, so the loop ends there.
unfoldable pub skip : ℕ → List Block → Buffer → ℕ × Buffer
skip remaining [] b = (remaining, record b { pending = [] })
skip remaining (k ∷ rest) b =
    let to_consume = min remaining (readable k) in
    let k' = record k { read_idx = k.read_idx + to_consume } in
    let on =
      skip (remaining - to_consume) rest
        (record b { consumed = b.consumed ++ (k' ∷ []); size = b.size - to_consume }) in
    if remaining == 0
    then (remaining, record b { pending = k ∷ rest })
    else if k'.read_idx == k.write_idx
    then on
    else (remaining - to_consume, record b { pending = k' ∷ rest; size = b.size - to_consume })

-- The part behind the loop, where both pointers are at one block.
unfoldable pub skip_last : ℕ → Buffer → Buffer
skip_last remaining b =
    let k = b.write_block in
    let to_consume = min remaining (readable k) in
    if remaining == 0 then b else record b {
      write_block = record k { read_idx = k.read_idx + to_consume };
      size = b.size - to_consume;
    }

-- The unread bytes go back to `head_` once `read_block_` has left it: the blocks before it are
-- the first argument.
unfoldable pub compact : List Block → Buffer → Buffer
unfolding append read_n retrieve_all
compact [] b = b
compact (_ ∷ _) b = if b.size == 0 then b else append (read_n b.size b) (retrieve_all b)

unfoldable pub retrieve : ℕ → Buffer → Buffer
unfolding skip skip_last compact
retrieve len b =
    let len' = if ltb b.size len then b.size else len in
    let (remaining, b') = skip len' b.pending b in
    let b'' = skip_last remaining b' in if len == 0 then b else compact b''.consumed b''

unfoldable pub block_count : Buffer → ℕ
block_count b = length (chain b)

unfoldable pub capacity : Buffer → ℕ
capacity b = elim (chain b) [
  | [] ↦ 0
  | head ∷ rest ↦ writable head + readable head + block_size * length rest
]
