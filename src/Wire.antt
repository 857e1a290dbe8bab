-- ===== src/Wire.antt =====
-- wayland-backend/src/rs/wire.rs: messages to and from bytes and file descriptors.
-- `e` is the byte order of the machine, and `dup` is `try_clone_to_owned`: an owned descriptor
-- stands for the open file that it refers to.
pub mod Size
pub mod Length
pub mod Encoding
pub mod Arguments
pub mod RoundTrip
pub mod Pushed
pub mod Parse
use wayland_rs.Common.{
  ℕ, ◌+◌, ◌-◌, ◌%◌, ◌^◌, Bool, true, false, Option, none, some, List, [], ◌∷◌, ◌++◌, ltb, leb, ◌==◌,
  if◌then◌else◌, length, take, drop, Result, ok, err,
}
use wayland_rs.Common.Word.{
  Endian, to_ne_bytes, split_u32, as_u32, as_i32, pack_header, header_opcode, header_len,
}
use wayland_rs.Protocol.{Argument, ArgumentType, Message, is_fd}
use wayland_rs.Io.{IoError, IoResult}

pub data MessageWriteError : Type 0 where
  buffer_too_small : MessageWriteError
  dup_fd_failed : IoError → MessageWriteError

pub data MessageParseError : Type 0 where
  missing_fd missing_data malformed : MessageParseError

unfoldable pub next_multiple_of : ℕ → ℕ → ℕ
next_multiple_of lhs rhs = if lhs % rhs == 0 then lhs else lhs + (rhs - lhs % rhs)

-- A mutable slice during a write: what has been written, and the `payload` that is still free.
pub record Slice : Type 0 where
  pub written : List ℕ
  pub free : List ℕ

-- `CStr::from_bytes_with_nul`: one nul, at the end. The result leaves it off.
unfoldable pub from_bytes_with_nul : List ℕ → Option (List ℕ)
from_bytes_with_nul [] = none
from_bytes_with_nul (b ∷ []) = if b == 0 then some [] else none
from_bytes_with_nul (b ∷ bs) = elim (from_bytes_with_nul bs) [
  | none ↦ none
  | some s ↦ if b == 0 then none else some (b ∷ s)
]

-- `signature.iter().filter(|x| matches!(x, ArgumentType::Fd)).count()`
unfoldable pub fd_count : List ArgumentType → ℕ
unfolding is_fd
fd_count [] = 0
fd_count (t ∷ ts) = (if is_fd t then 1 else 0) + fd_count ts

-- The bytes that pad the array keep what the buffer held.
unfoldable pub write_array_body : List ℕ → Slice → Slice × Option MessageWriteError
write_array_body bytes s =
    let len = next_multiple_of (length bytes) 4 in
    if ltb (length s.free) len then (s, some buffer_too_small) else (
      record {
        written = s.written ++ (bytes ++ drop (length bytes) (take len s.free));
        free = drop len s.free;
      },
      none,
    )

unfoldable pub read_array_from_payload : ℕ → List ℕ → Result (List ℕ × List ℕ) MessageParseError
read_array_from_payload array_len payload =
    let len = next_multiple_of array_len 4 in
    if ltb (length payload) len
    then err missing_data
    else ok (take array_len payload, drop len payload)

module _ (e : Endian) where
  unfoldable pub write_buf : ℕ → Slice → Slice × Option MessageWriteError
  write_buf u s =
      if leb 4 (length s.free)
      then (record { written = s.written ++ to_ne_bytes e u; free = drop 4 s.free }, none)
      else (s, some buffer_too_small)

  unfoldable pub write_array_to_payload : List ℕ → Slice → Slice × Option MessageWriteError
  unfolding write_buf write_array_body
  write_array_to_payload bytes s =
      let (s', r) = write_buf (length bytes % 2 ^ 32) s in
      elim r [ some x ↦ (s', some x) | none ↦ write_array_body bytes s' ]

-- The buffers that a write changes.
pub record Writer (Fd : Type 0) : Type 0 where
  pub slice : Slice
  pub fds : List Fd

module _ (e : Endian) {RawFd Fd : Type 0} (dup : RawFd → IoResult Fd) where
  in_slice : Writer Fd → Slice × Option MessageWriteError → Writer Fd × Option MessageWriteError
  in_slice w (s, r) = (record w { slice = s }, r)

  push_fd : Writer Fd → IoResult Fd → Writer Fd × Option MessageWriteError
  push_fd w (ok fd) = (record w { fds = w.fds ++ fd ∷ [] }, none)
  push_fd w (err x) = (w, some (dup_fd_failed x))

  unfoldable pub write_arg : Argument ℕ RawFd → Writer Fd → Writer Fd × Option MessageWriteError
  unfolding in_slice push_fd
  write_arg (Argument.int i) w = in_slice w (write_buf e (as_u32 i) w.slice)
  write_arg (Argument.uint u) w = in_slice w (write_buf e u w.slice)
  write_arg (Argument.fixed f) w = in_slice w (write_buf e (as_u32 f) w.slice)
  write_arg (Argument.str (some s)) w = in_slice w (write_array_to_payload e (s ++ 0 ∷ []) w.slice)
  write_arg (Argument.str none) w = in_slice w (write_array_to_payload e [] w.slice)
  write_arg (Argument.object o) w = in_slice w (write_buf e o w.slice)
  write_arg (Argument.new_id n) w = in_slice w (write_buf e n w.slice)
  write_arg (Argument.array a) w = in_slice w (write_array_to_payload e a w.slice)
  write_arg (Argument.fd f) w = push_fd w (dup f)

  -- `for arg in &msg.args`; an error ends the loop and leaves the buffers as they are.
  unfoldable pub write_args :
      List (Argument ℕ RawFd) → Writer Fd → Writer Fd × Option MessageWriteError
  write_args [] w = (w, none)
  write_args (a ∷ args) w =
      let (w', r) = write_arg a w in elim r [ some x ↦ (w', some x) | none ↦ write_args args w' ]

  finish :
      Message ℕ RawFd
      → List ℕ
      → Writer Fd × Option MessageWriteError
      → List ℕ × List Fd × Result ℕ MessageWriteError
  finish msg payload (w, some x) =
      (take 8 payload ++ (w.slice.written ++ w.slice.free), w.fds, err x)
  finish msg payload (w, none) =
      let wrote_size = length payload - length w.slice.free in
      (
        (to_ne_bytes e msg.sender_id
              ++ to_ne_bytes e (pack_header (wrote_size % 2 ^ 32) msg.opcode))
            ++ (w.slice.written ++ w.slice.free),
        w.fds,
        ok wrote_size,
      )

  -- Returns what `payload` and `fds` hold afterwards, and the result.
  unfoldable pub write_to_buffers :
      Message ℕ RawFd → List ℕ → List Fd → List ℕ × List Fd × Result ℕ MessageWriteError
  unfolding finish
  write_to_buffers msg payload fds =
      if ltb (length payload) 8
      then (payload, fds, err buffer_too_small)
      else finish msg payload (
          write_args msg.args
            (record { slice = record { written = []; free = drop 8 payload }; fds = fds }))

-- What a parse reads from.
pub record Reader (Fd : Type 0) : Type 0 where
  pub payload : List ℕ
  pub fds : List Fd

module _ {Fd : Type 0} where
  read_str :
      Result (List ℕ × List ℕ) MessageParseError
      → List ℕ
      → List ℕ × Result (Argument ℕ Fd) MessageParseError
  read_str (err x) tail = (tail, err x)
  read_str (ok ([], rest)) tail = (rest, ok (Argument.str none))
  read_str (ok (b ∷ bs, rest)) tail = elim (from_bytes_with_nul (b ∷ bs)) [
    | some s ↦ (rest, ok (Argument.str (some s)))
    | none ↦ (rest, err malformed)
  ]

  read_array :
      Result (List ℕ × List ℕ) MessageParseError
      → List ℕ
      → List ℕ × Result (Argument ℕ Fd) MessageParseError
  read_array (err x) tail = (tail, err x)
  read_array (ok (v, rest)) tail = (rest, ok (Argument.array v))

  -- The argument that begins with the word `front`, and the payload behind it. An `fd` takes no
  -- word: that case is `unreachable!()` in the source, and is not reached here either.
  parse_word : ArgumentType → ℕ × List ℕ → List ℕ × Result (Argument ℕ Fd) MessageParseError
  unfolding read_str read_array
  parse_word ArgumentType.int (front, tail) = (tail, ok (Argument.int (as_i32 front)))
  parse_word ArgumentType.uint (front, tail) = (tail, ok (Argument.uint front))
  parse_word ArgumentType.fixed (front, tail) = (tail, ok (Argument.fixed (as_i32 front)))
  parse_word (ArgumentType.str n) (front, tail) = read_str (read_array_from_payload front tail) tail
  parse_word (ArgumentType.object n) (front, tail) = (tail, ok (Argument.object front))
  parse_word ArgumentType.new_id (front, tail) = (tail, ok (Argument.new_id front))
  parse_word ArgumentType.array (front, tail) = read_array (read_array_from_payload front tail) tail
  parse_word ArgumentType.fd (front, tail) = (tail, err missing_fd)

  parse_fd : List Fd → List ℕ → Reader Fd × Result (Argument ℕ Fd) MessageParseError
  parse_fd [] payload = (record { payload = payload; fds = [] }, err missing_fd)
  parse_fd (f ∷ fds) payload = (record { payload = payload; fds = fds }, ok (Argument.fd f))

  in_payload :
      List Fd
      → List ℕ × Result (Argument ℕ Fd) MessageParseError
      → Reader Fd × Result (Argument ℕ Fd) MessageParseError
  in_payload fds (payload, r) = (record { payload = payload; fds = fds }, r)

  cons_arg :
      Argument ℕ Fd
      → Reader Fd × Result (List (Argument ℕ Fd)) MessageParseError
      → Reader Fd × Result (List (Argument ℕ Fd)) MessageParseError
  cons_arg a (r, ok args) = (r, ok (a ∷ args))
  cons_arg a (r, err x) = (r, err x)

  to_message :
      ℕ
      → ℕ
      → List ℕ
      → Reader Fd × Result (List (Argument ℕ Fd)) MessageParseError
      → List Fd × Result (Message ℕ Fd × List ℕ) MessageParseError
  to_message sender_id opcode rest (r, err x) = (r.fds, err x)
  to_message sender_id opcode rest (r, ok args) =
      (r.fds, ok (record { sender_id = sender_id; opcode = opcode; args = args }, rest))

module _ (e : Endian) {Fd : Type 0} where
  unfoldable pub parse_arg :
      ArgumentType → Reader Fd → Reader Fd × Result (Argument ℕ Fd) MessageParseError
  unfolding is_fd parse_word parse_fd in_payload
  parse_arg t r =
      if is_fd t
      then parse_fd r.fds r.payload
      else if leb 4 (length r.payload)
      then in_payload r.fds (parse_word t (split_u32 e r.payload))
      else (r, err missing_data)

  -- `collect::<Result<_, _>>()` stops at the first error.
  unfoldable pub parse_args :
      List ArgumentType → Reader Fd → Reader Fd × Result (List (Argument ℕ Fd)) MessageParseError
  unfolding cons_arg
  parse_args [] r = (r, ok [])
  parse_args (t ∷ ts) r =
      let (r', x) = parse_arg t r in
      elim x [ err x ↦ (r', err x) | ok a ↦ cons_arg a (parse_args ts r') ]

  parse_body :
      ℕ
      → ℕ
      → List ℕ
      → List ArgumentType
      → List Fd
      → List Fd × Result (Message ℕ Fd × List ℕ) MessageParseError
  unfolding to_message
  parse_body sender_id word_2 raw signature fds =
      let len = header_len word_2 in
      if ltb len 8
      then (fds, err malformed)
      else if ltb (length raw) len
      then (fds, err missing_data)
      else if ltb (length fds) (fd_count signature)
      then (fds, err missing_fd)
      else to_message sender_id (header_opcode word_2) (drop len raw)
          (parse_args signature (record { payload = drop 8 (take len raw); fds = fds }))

  -- Returns the descriptors that are left, and the result.
  unfoldable pub parse_message :
      List ℕ
      → List ArgumentType
      → List Fd
      → List Fd × Result (Message ℕ Fd × List ℕ) MessageParseError
  unfolding parse_body
  parse_message raw signature fds =
      if ltb (length raw) 8
      then (fds, err missing_data)
      else let (sender_id, tail) = split_u32 e raw in
        parse_body sender_id (split_u32 e tail).0 raw signature fds
