-- ===== src/Coro/Coroutine.antt =====
-- hound/src/coro/coroutine.h, coroutine.cpp and context.h, context.cpp as compiled for POSIX: the
-- coroutines of one thread, and the switches between them and the scheduler.
-- A coroutine is its number. What a context saves is a position in the machine's code, a number
-- too; `execute` is the machine: from a position it runs until `yield` is called, and then gives the
-- position behind the call, or until the coroutine's function returns. `rest` is what else the
-- functions change. `aborted` says that LOG_FATAL ended the program.
pub mod Parked
pub mod Resume
pub mod Straight
pub mod Tests
use my_project.Prelude.{ℕ, suc, ◌==◌, if◌then◌else◌, Bool, true, false, Option, none, some}

pub data State : Type 0 where
  ready running suspended done : State

-- A context that was never made; made, and not entered; left by a swap at a position; left by the
-- last swap of `entry_point`.
pub data Context : Type 0 where
  blank at_entry left_last : Context
  left : ℕ → Context

pub record Coroutine : Type 0 where
  pub state : State
  pub func : Option ℕ
  pub context : Context

pub record Runtime (S : Type 0) : Type 0 where
  pub coroutines : ℕ → Coroutine
  pub current : Option ℕ
  pub next_id : ℕ
  pub aborted : Bool
  pub rest : S

-- `Coroutine(func)`
abbrev pub new_coroutine : ℕ → Coroutine
new_coroutine func = record { state = ready; func = some func; context = blank }

-- `valid()`
abbrev pub is_made : Context → Bool
is_made blank = false
is_made _ = true

-- `make(&entry_point)`, where the stack can be allocated
unfoldable pub make : Coroutine → Coroutine
make c = record c { context = at_entry }

module _ {S : Type 0} where
  abbrev pub write_coroutine : ℕ → Coroutine → Runtime S → Runtime S
  write_coroutine co c r = record r { coroutines = λ x. if x == co then c else r.coroutines x }

  abbrev pub fatal : Runtime S → Runtime S
  fatal r = record r { aborted = true }

  -- A coroutine object made with the next id
  unfoldable pub construct : ℕ → Runtime S → Runtime S
  construct func r =
      write_coroutine r.next_id (new_coroutine func) (record r { next_id = suc r.next_id })

  -- `yield()` up to its swap, which leaves the context at the position
  unfoldable pub yield : ℕ → Runtime S → Runtime S
  yield position r = elim r.current [
    | none ↦ fatal r
    | some self ↦
        write_coroutine self
          (record (r.coroutines self) { state = suspended; context = left position }) r
  ]

  -- `entry_point` behind the call of the function, up to its swap
  unfoldable pub finish : ℕ → Runtime S → Runtime S
  finish self r =
      write_coroutine self
        (record (r.coroutines self) { state = done; func = none; context = left_last }) r

  -- `resume()` up to its swap
  unfoldable pub enter : ℕ → Runtime S → Runtime S
  enter co r =
      let started = record (r.coroutines co) { state = running } in
      write_coroutine co (if is_made started.context then started else make started)
        (record r { current = some co })

  -- `resume()` behind its swap
  unfoldable pub back : Runtime S → Runtime S
  back r = if r.aborted then r else record r { current = none }

  module _ (execute : ℕ → Runtime S → Option ℕ × Runtime S) where
    -- The coroutine runs from the position until it swaps to the scheduler's context.
    unfoldable pub run_from : ℕ → ℕ → Runtime S → Runtime S
    run_from self position r =
        let (stop, r') = execute position r in
        elim stop [ some p ↦ yield p r' | none ↦ finish self r' ]

    -- `entry_point()`; a call of an empty function throws, which nothing catches.
    unfoldable pub entry_point : Runtime S → Runtime S
    entry_point r = elim r.current [
      | none ↦ fatal r
      | some self ↦ elim (r.coroutines self).func [
        | none ↦ fatal r
        | some func ↦ run_from self func r
      ]
    ]

    -- `swap(&scheduler_ctx_, &ctx_)` up to the swap back
    unfoldable pub swap : ℕ → Runtime S → Runtime S
    swap co r = elim (r.coroutines co).context [
      | blank ↦ fatal r
      | at_entry ↦ entry_point r
      | left position ↦ run_from co position r
      | left_last ↦ fatal r
    ]

    -- `resume()`
    unfoldable pub resume : ℕ → Runtime S → Runtime S
    resume co r = back (swap co (enter co r))
