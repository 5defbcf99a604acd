-- ===== src/Io/Socket/Calls.antt =====
-- What the operations of hound/src/io/socket.cpp make of the results of the system calls.
use my_project.Prelude.{ℕ, ◌≡◌, ◌≢◌, ◌⊎◌, inl, inr, refl, ◌||◌, Bytes, codes, Bool-cases, arith}
use my_project.Util.Result.{
  Errno, is_eagain, is_eintr, Result, value, error, Outcome, returned, failed,
}
use my_project.Io.Socket.{read, write, readv, writev, classify}

-- A result without its message.
abbrev pub reported : Result ℕ → ℕ ⊎ Errno
reported (value n) = inl n
reported (error e msg) = inr e

-- What the system said, with no errno but its own.
abbrev pub outcome : Outcome → ℕ ⊎ Errno
outcome (returned n) = inl n
outcome (failed e) = inr e

reported-classify : (e : Errno) (again msg : Bytes) → reported (classify e again msg) ≡ inr e
reported-classify e again msg = elim (Bool-cases (is_eagain e || is_eintr e)) [
  | inl q ↦ rw q refl
  | inr q ↦ rw q refl
]

-- The four operations report what the system call said, whatever errno was before: the count, and
-- the end of the stream as the count 0, or the code of the error. For `write` and `writev` this is
-- stated of the calls that did not write 0 bytes.
calls_report :
    (errno : Errno) (o p : Outcome)
    → p ≢ returned 0
    → (reported (read errno o) ≡ outcome o)
      × (reported (readv errno o) ≡ outcome o)
      × (reported (write errno p) ≡ outcome p)
      × (reported (writev errno p) ≡ outcome p)
unfolding read readv write writev
calls_report errno o p d = (read_report o, readv_report o, write_report p d, writev_report p d)
  where
    read_report : (o : Outcome) → reported (read errno o) ≡ outcome o
    read_report (returned n) = refl
    read_report (failed e) = reported-classify e (codes "read: would block") (codes "read() failed")

    readv_report : (o : Outcome) → reported (readv errno o) ≡ outcome o
    readv_report (returned n) = refl
    readv_report (failed e) =
        reported-classify e (codes "readv: would block") (codes "readv() failed")

    write_report : (p : Outcome) → p ≢ returned 0 → reported (write errno p) ≡ outcome p
    write_report (returned n) d = ground arith
    write_report (failed e) d =
        reported-classify e (codes "write: would block") (codes "write() failed")

    writev_report : (p : Outcome) → p ≢ returned 0 → reported (writev errno p) ≡ outcome p
    writev_report (returned n) d = ground arith
    writev_report (failed e) d =
        reported-classify e (codes "writev: would block") (codes "writev() failed")

-- A call that wrote 0 bytes did not fail, yet `write` and `writev` report an error, under the code
-- that some call before it left in errno. `read` and `readv` report 0.
wrote_nothing :
    (errno : Errno)
    → (reported (write errno (returned 0)) ≡ inr errno)
      × (reported (writev errno (returned 0)) ≡ inr errno)
      × (reported (read errno (returned 0)) ≡ inl 0)
      × (reported (readv errno (returned 0)) ≡ inl 0)
unfolding write writev read readv
wrote_nothing errno = (
  reported-classify errno (codes "write: would block") (codes "write() failed"),
  reported-classify errno (codes "writev: would block") (codes "writev() failed"),
  refl,
  refl,
)
