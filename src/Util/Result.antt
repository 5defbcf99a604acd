-- ===== src/Util/Result.antt =====
-- hound/src/util/result.h: `Result<T>`, where an operation that may fail returns its value or the
-- error's code with a message. `Result<void>` is the case of the unit type. The codes are those of
-- errno that the library tells apart; EWOULDBLOCK is EAGAIN, as it is on Linux.
use my_project.Prelude.{ℕ, Bool, true, false, Bytes}

pub data Errno : Type 0 where
  eagain eintr einprogress : Errno
  other : ℕ → Errno

abbrev pub is_eagain : Errno → Bool
is_eagain eagain = true
is_eagain _ = false

abbrev pub is_eintr : Errno → Bool
is_eintr eintr = true
is_eintr _ = false

abbrev pub is_einprogress : Errno → Bool
is_einprogress einprogress = true
is_einprogress _ = false

pub data Result {ℓ} (T : Type ℓ) : Type ℓ where
  value : T → Result T
  error : Errno → Bytes → Result T

abbrev pub has_value {ℓ} : {T : Type ℓ} → Result T → Bool
has_value (value v) = true
has_value (error ec msg) = false

-- `make_errno_result(msg)`, where errno is `ec`
abbrev pub make_errno_result {ℓ} : {T : Type ℓ} → Errno → Bytes → Result T
make_errno_result ec msg = error ec msg

-- What a system call gave: its result, or -1 with errno set.
pub data Outcome : Type 0 where
  returned : ℕ → Outcome
  failed : Errno → Outcome

-- errno after the call: a call that succeeds leaves it as it was.
abbrev pub errno_after : Outcome → Errno → Errno
errno_after (returned n) before = before
errno_after (failed e) before = e
