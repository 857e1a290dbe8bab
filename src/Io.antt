-- ===== src/Io.antt =====
-- std::io::Error as the code looks at it: its kind is WouldBlock, or it carries an errno.
use wayland_rs.Common.{ℕ, Bool, true, false, Result}

pub data IoError : Type 0 where
  would_block : IoError
  errno : ℕ → IoError

abbrev pub IoResult : Type 0 → Type 0
IoResult A = Result A IoError

-- `e.kind() == ErrorKind::WouldBlock`
abbrev pub is_would_block : IoError → Bool
is_would_block would_block = true
is_would_block (errno n) = false

-- rustix::io::Errno, with the numbers of Linux.
abbrev pub toobig : IoError
toobig = errno 7

abbrev pub pipe : IoError
pipe = errno 32

abbrev pub proto : IoError
proto = errno 71
