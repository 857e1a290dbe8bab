-- ===== src/Socket.antt =====
-- wayland-backend/src/rs/socket.rs: the buffers between messages and the socket. The kernel is a
-- parameter; `e` is the byte order and `dup` duplicates a descriptor, as in `Wire`.
pub mod System
pub mod Bytes
pub mod Invariant
pub mod Stream
pub mod Reading
pub mod TooBig
use wayland_rs.Common.{
  ℕ, ◌+◌, ◌-◌, ◌*◌, Bool, true, false, Option, none, some, List, [], ◌∷◌, ◌++◌, ltb, leb, ◌==◌,
  if◌then◌else◌, length, take, drop, Result, ok, err,
}
use wayland_rs.Common.Word.{Endian, split_u32, header_opcode}
use wayland_rs.Protocol.{ArgumentType, Message}
use wayland_rs.Io.{IoError, IoResult, is_would_block, toobig, pipe}
use wayland_rs.Wire.{
  MessageWriteError, buffer_too_small, dup_fd_failed, MessageParseError, missing_data, malformed,
  write_to_buffers, parse_message,
}
use System.{Kernel}
use Bytes.{
  Buffer, new_buffer, advance, advance_offset, get_contents, get_writable_storage, put_writable,
  move_to_front,
}

abbrev pub max_fds_out : ℕ
max_fds_out = 28

abbrev pub max_bytes_out : ℕ
max_bytes_out = 4096

pub record BufferedSocket (Sys Fd : Type 0) : Type 0 where
  pub socket : Sys
  pub in_data : Buffer
  pub in_fds : List Fd
  pub out_data : Buffer
  pub out_fds : List Fd

module _ {Fd : Type 0} (k : Kernel Fd) where
  open k use {Sys, sendmsg, recvmsg}

  unfoldable pub new_socket : Sys → BufferedSocket Sys Fd
  new_socket socket = record {
    socket = socket;
    in_data = new_buffer (2 * max_bytes_out);
    in_fds = [];
    out_data = new_buffer max_bytes_out;
    out_fds = [];
  }

  sent_part : BufferedSocket Sys Fd → Sys × IoResult ℕ → BufferedSocket Sys Fd × IoResult (Unit {0})
  sent_part s (socket, err x) = (record s { socket = socket }, err x)
  sent_part s (socket, ok written) = (
    record s {
      socket = socket;
      out_data = move_to_front (advance_offset s.out_data written);
      out_fds = [];
    },
    ok tt,
  )

  is_empty : List ℕ → Bool
  is_empty [] = true
  is_empty (b ∷ bytes) = false

  unfoldable pub flush : BufferedSocket Sys Fd → BufferedSocket Sys Fd × IoResult (Unit {0})
  unfolding sent_part is_empty
  flush s =
      let bytes = get_contents s.out_data in
      if is_empty bytes then (s, ok tt) else sent_part s (sendmsg s.socket bytes s.out_fds)

  received :
      BufferedSocket Sys Fd
      → Sys × IoResult (List ℕ × List Fd)
      → BufferedSocket Sys Fd × IoResult (Unit {0})
  received s (socket, err x) = (record s { socket = socket }, err x)
  received s (socket, ok (bytes, fds)) =
      let filled =
        put_writable s.in_data (bytes ++ drop (length bytes) (get_writable_storage s.in_data)) in
      if length bytes == 0
      then (record s { socket = socket; in_data = filled; in_fds = s.in_fds ++ fds }, err pipe)
      else (
        record s {
          socket = socket;
          in_data = advance filled (length bytes);
          in_fds = s.in_fds ++ fds;
        },
        ok tt,
      )

  unfoldable pub fill_incoming_buffers :
      BufferedSocket Sys Fd → BufferedSocket Sys Fd × IoResult (Unit {0})
  unfolding received
  fill_incoming_buffers s =
      let t = record s { in_data = move_to_front s.in_data } in
      received t (recvmsg t.socket (length (get_writable_storage t.in_data)))

module _ (e : Endian) {Sys RawFd Fd : Type 0} (dup : RawFd → IoResult Fd) where
  attempted :
      BufferedSocket Sys Fd
      → List ℕ × List Fd × Result ℕ MessageWriteError
      → BufferedSocket Sys Fd × IoResult Bool
  attempted s (storage, fds, ok n) =
      (record s { out_data = advance (put_writable s.out_data storage) n; out_fds = fds }, ok true)
  attempted s (storage, fds, err buffer_too_small) =
      (record s { out_data = put_writable s.out_data storage; out_fds = fds }, ok false)
  attempted s (storage, fds, err (dup_fd_failed x)) =
      (record s { out_data = put_writable s.out_data storage; out_fds = fds }, err x)

  -- The buffers keep what a failed write has put in them.
  unfoldable pub attempt_write_message :
      Message ℕ RawFd → BufferedSocket Sys Fd → BufferedSocket Sys Fd × IoResult Bool
  unfolding attempted
  attempt_write_message msg s =
      attempted s (write_to_buffers e dup msg (get_writable_storage s.out_data) s.out_fds)

module _ (e : Endian) {RawFd Fd : Type 0} (dup : RawFd → IoResult Fd) (k : Kernel Fd) where
  open k use {Sys}

  second_attempt :
      BufferedSocket Sys Fd × IoResult Bool → BufferedSocket Sys Fd × IoResult (Unit {0})
  second_attempt (s, err x) = (s, err x)
  second_attempt (s, ok true) = (s, ok tt)
  second_attempt (s, ok false) = (s, err toobig)

  after_flush :
      Message ℕ RawFd
      → BufferedSocket Sys Fd × IoResult (Unit {0})
      → BufferedSocket Sys Fd × IoResult (Unit {0})
  unfolding second_attempt
  after_flush msg (s, ok _) = second_attempt (attempt_write_message e dup msg s)
  after_flush msg (s, err x) =
      if is_would_block x then second_attempt (attempt_write_message e dup msg s) else (s, err x)

  first_attempt :
      Message ℕ RawFd
      → BufferedSocket Sys Fd × IoResult Bool
      → BufferedSocket Sys Fd × IoResult (Unit {0})
  unfolding after_flush
  first_attempt msg (s, err x) = (s, err x)
  first_attempt msg (s, ok true) = (s, ok tt)
  first_attempt msg (s, ok false) = after_flush msg (flush k s)

  unfoldable pub write_message :
      Message ℕ RawFd → BufferedSocket Sys Fd → BufferedSocket Sys Fd × IoResult (Unit {0})
  unfolding first_attempt
  write_message msg s = first_attempt msg (attempt_write_message e dup msg s)

module _ (e : Endian) {Sys Fd : Type 0} where
  read_part :
      BufferedSocket Sys Fd
      → List Fd × Result (Message ℕ Fd × List ℕ) MessageParseError
      → BufferedSocket Sys Fd × Result (Message ℕ Fd) MessageParseError
  read_part s (fds, err x) = (record s { in_fds = fds }, err x)
  read_part s (fds, ok (msg, rest_data)) = (
    record s {
      in_data = advance_offset s.in_data (length (get_contents s.in_data) - length rest_data);
      in_fds = fds;
    },
    ok msg,
  )

  read_signed :
      BufferedSocket Sys Fd
      → Option (List ArgumentType)
      → BufferedSocket Sys Fd × Result (Message ℕ Fd) MessageParseError
  unfolding read_part
  read_signed s none = (s, err malformed)
  read_signed s (some sig) = read_part s (parse_message e (get_contents s.in_data) sig s.in_fds)

  -- `signature` gives the signature for an object id and an opcode.
  unfoldable pub read_one_message :
      (ℕ → ℕ → Option (List ArgumentType))
      → BufferedSocket Sys Fd
      → BufferedSocket Sys Fd × Result (Message ℕ Fd) MessageParseError
  unfolding read_signed
  read_one_message signature s =
      let bytes = get_contents s.in_data in
      if ltb (length bytes) 8
      then (s, err missing_data)
      else let (object_id, tail) = split_u32 e bytes in
        read_signed s (signature object_id (header_opcode (split_u32 e tail).0))
