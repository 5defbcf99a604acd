-- ===== src/Io/Socket.antt =====
-- hound/src/io/socket.h and socket.cpp as compiled for POSIX: the sockets, which own descriptors,
-- and their operations.
-- A Socket object is a number, its place; `fds` holds the field fd_ of each place, none for
-- kInvalidFd and where no object is. What the system calls give is an argument, an `Outcome`; the
-- system's side is which descriptors are open, which of them do not block, and errno. `bad_close`
-- says that ::close was called with a descriptor that is not open. The options of setsockopt and
-- the addresses are left out: the code hands them on.
pub mod Owners
pub mod Calls
pub mod Tests
use my_project.Prelude.{
  ℕ, ◌==◌, if◌then◌else◌, Bool, true, false, ◌||◌, Option, none, some, List, ◌++◌, Bytes, codes,
}
use my_project.Util.Result.{
  Errno, is_eagain, is_eintr, is_einprogress, Result, value, error, make_errno_result, Outcome,
  returned, failed, errno_after,
}

pub record Sockets : Type 0 where
  pub fds : ℕ → Option ℕ
  pub is_open : ℕ → Bool
  pub nonblocking : ℕ → Bool
  pub errno : Errno
  pub bad_close : Bool

abbrev pub set_fd : ℕ → Option ℕ → (ℕ → Option ℕ) → ℕ → Option ℕ
set_fd a fd fds b = if b == a then fd else fds b

abbrev pub set_flag : ℕ → Bool → (ℕ → Bool) → ℕ → Bool
set_flag fd x f k = if k == fd then x else f k

-- The system's close: an open descriptor is open no more.
unfoldable pub system_close : ℕ → Sockets → Sockets
system_close fd s =
    if s.is_open fd
    then record s { is_open = set_flag fd false s.is_open }
    else record s { bad_close = true }

-- The system's side of `::socket` and `::accept`: the new descriptor is open, and blocks.
unfoldable pub system_open : Outcome → Sockets → Sockets
system_open (returned fd) s = record s {
  is_open = set_flag fd true s.is_open;
  nonblocking = set_flag fd false s.nonblocking;
}
system_open (failed e) s = record s { errno = e }

-- `Socket(fd)` at the place a
unfoldable pub from_fd : ℕ → ℕ → Sockets → Sockets
from_fd a fd s = record s { fds = set_fd a (some fd) s.fds }

-- `close()`
unfoldable pub close : ℕ → Sockets → Sockets
close a s = elim (s.fds a) [
  | none ↦ s
  | some fd ↦ let closed = system_close fd s in record closed { fds = set_fd a none closed.fds }
]

-- `Socket(Socket&& other)` at the place a
unfoldable pub move_construct : ℕ → ℕ → Sockets → Sockets
move_construct a other s = record s { fds = set_fd other none (set_fd a (s.fds other) s.fds) }

-- `operator=(Socket&& other)` at the place a
unfoldable pub move_assign : ℕ → ℕ → Sockets → Sockets
move_assign a other s =
    let closed = close a s in
    if a == other
    then s
    else record closed { fds = set_fd other none (set_fd a (closed.fds other) closed.fds) }

-- `~Socket()`
abbrev pub destroy : ℕ → Sockets → Sockets
destroy a s = close a s

-- `create_tcp(ipv6)`, with the socket at the place a; the result names the place
unfoldable pub create_tcp : Bool → ℕ → Outcome → Sockets → Result ℕ × Sockets
create_tcp ipv6 a (returned fd) s = (value a, from_fd a fd (system_open (returned fd) s))
create_tcp ipv6 a (failed e) s = (
  make_errno_result e (
      codes "socket(AF_INET"
      ++ (if ipv6 then codes "6" else codes "")
      ++ codes ", SOCK_STREAM) failed"),
  system_open (failed e) s,
)

-- `create_udp(ipv6)`
unfoldable pub create_udp : ℕ → Outcome → Sockets → Result ℕ × Sockets
create_udp a (returned fd) s = (value a, from_fd a fd (system_open (returned fd) s))
create_udp a (failed e) s =
    (make_errno_result e (codes "socket() for UDP failed"), system_open (failed e) s)

-- `accept(peer_addr)` but for the address, with the new socket at the place a
unfoldable pub accept : ℕ → Outcome → Sockets → Result ℕ × Sockets
accept a (returned fd) s = (value a, from_fd a fd (system_open (returned fd) s))
accept a (failed e) s = (
  if is_eagain e || is_eintr e
      then error e (codes "accept: no pending connections (EAGAIN)")
      else make_errno_result e (codes "accept() failed"),
  system_open (failed e) s,
)

-- `set_nonblocking(on)`: what the two calls of fcntl give, the first one's flags being those kept
unfoldable pub set_nonblocking : Bool → ℕ → Outcome → Outcome → Sockets → Sockets
set_nonblocking on fd (failed e) set s = record s { errno = e }
set_nonblocking on fd (returned flags) (failed e) s = record s { errno = e }
set_nonblocking on fd (returned flags) (returned n) s = record s {
  nonblocking = set_flag fd on s.nonblocking;
}

-- The operations below are those of one socket; the errno before the call is an argument.
-- `bind(addr)`
unfoldable pub bind : Bytes → Outcome → Result {0} Unit
bind addr (returned n) = value tt
bind addr (failed e) = make_errno_result e (codes "bind(" ++ addr ++ codes ") failed")

-- `listen(backlog)`
unfoldable pub listen : Outcome → Result {0} Unit
listen (returned n) = value tt
listen (failed e) = make_errno_result e (codes "listen() failed")

-- `connect(addr)`
unfoldable pub connect : Bytes → Outcome → Result {0} Unit
connect addr (returned n) = value tt
connect addr (failed e) =
    if is_einprogress e
    then value tt
    else make_errno_result e (codes "connect(" ++ addr ++ codes ") failed")

-- What follows where a call gave no more than 0, or failed.
abbrev pub classify : Errno → Bytes → Bytes → Result ℕ
classify e again failed_msg =
    if is_eagain e || is_eintr e then error e again else make_errno_result e failed_msg

-- `read(buf, count)`
unfoldable pub read : Errno → Outcome → Result ℕ
read errno (returned n) = value n
read errno (failed e) = classify e (codes "read: would block") (codes "read() failed")

-- `write(buf, count)`
unfoldable pub write : Errno → Outcome → Result ℕ
write errno o =
    let err = errno_after o errno in
    elim o [
      | returned n ↦
          if n == 0
          then classify err (codes "write: would block") (codes "write() failed")
          else value n
      | failed e ↦ classify err (codes "write: would block") (codes "write() failed")
    ]

-- `readv(iov, iovcnt)`
unfoldable pub readv : Errno → Outcome → Result ℕ
readv errno (returned n) = value n
readv errno (failed e) = classify e (codes "readv: would block") (codes "readv() failed")

-- `writev(iov, iovcnt)`
unfoldable pub writev : Errno → Outcome → Result ℕ
writev errno o =
    let err = errno_after o errno in
    elim o [
      | returned n ↦
          if n == 0
          then classify err (codes "writev: would block") (codes "writev() failed")
          else value n
      | failed e ↦ classify err (codes "writev: would block") (codes "writev() failed")
    ]

-- `get_error()`: the pending error that getsockopt stored, or errno where the call failed
unfoldable pub get_error : Outcome → Option Errno → Option Errno
get_error (returned n) pending = pending
get_error (failed e) pending = some e
