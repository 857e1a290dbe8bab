-- ===== src/Examples/Socket.antt =====
-- A socket over a kernel that takes a given number of bytes at a time.
use wayland_rs.Common.{ℕ, ◌≡◌, refl, List, [], ◌∷◌, Option, some, if◌then◌else◌, replicate, ok, err}
use wayland_rs.Common.Word.{little, to_ne_bytes, header_len, header_opcode, split_u32}
use wayland_rs.Io.{toobig}
use wayland_rs.Protocol.{Argument, Message}
use wayland_rs.Wire.{
  parse_message, parse_args, parse_arg, fd_count, write_to_buffers, write_args, write_arg,
  write_buf, write_array_to_payload, next_multiple_of,
}
use wayland_rs.Examples.Pipe.{Pipe, kernel, law, dup}
use wayland_rs.Socket.Bytes.{
  get_writable_storage, new_buffer, get_contents, put_writable, move_to_front, advance,
  advance_offset,
}
use wayland_rs.Socket.{attempt_write_message, BufferedSocket, new_socket, flush, write_message}
use wayland_rs.Socket.Invariant.{Inv, flushes, writes, fills, used_all, used_all-new_socket}
use wayland_rs.Protocol.{ArgumentType}
use wayland_rs.Socket.{fill_incoming_buffers, read_one_message}
use wayland_rs.Socket.Reading.{Taken, read_one_message-Taken}
use wayland_rs.Socket.TooBig.{fits, after, write_message-verdict}
use wayland_rs.Socket.Stream.{
  handed, flush-handed, Queued, write_message-Queued, write_message-failed,
}

abbrev stream : Pipe
stream = record { sent = []; sent_fds = []; accepts = 5; incoming = [] }

abbrev message : Message ℕ ℕ
message = record { sender_id = 2; opcode = 1; args = Argument.uint 6 ∷ Argument.fd 9 ∷ [] }

used_all-new_socket_example :
    Inv (
      used_all little dup kernel (writes message ∷ flushes ∷ fills ∷ []) (new_socket kernel stream))
used_all-new_socket_example =
    used_all-new_socket little dup kernel law stream (writes message ∷ flushes ∷ fills ∷ [])

abbrev socket : BufferedSocket Pipe ℕ
socket = new_socket kernel stream

abbrev written : BufferedSocket Pipe ℕ
written = used_all little dup kernel (writes message ∷ []) socket

written-Inv : Inv written
written-Inv = used_all-new_socket little dup kernel law stream (writes message ∷ [])

-- The kernel takes five of the twelve bytes.
flush-handed_example : handed kernel law (flush kernel written).0 ≡ handed kernel law written
flush-handed_example = flush-handed kernel law written written-Inv

write_run : write_message little dup kernel message socket ≡ (written, ok tt)
unfolding write_message new_socket attempt_write_message write_to_buffers get_writable_storage
    new_buffer write_args write_arg write_buf
write_run = refl

write_message-Queued_example : Queued little dup kernel law message socket written
write_message-Queued_example =
    write_message-Queued little dup kernel law message socket written
      (used_all-new_socket little dup kernel law stream []) write_run

-- Room for eight bytes is left, so that a first attempt has pushed the descriptor when it ends; the
-- flush sends it, and the second attempt pushes it again.
abbrev filling : Message ℕ ℕ
filling = record message { args = Argument.array (replicate 4076 1) ∷ [] }

abbrev fd_first : Message ℕ ℕ
fd_first = record message { args = Argument.fd 9 ∷ Argument.uint 6 ∷ [] }

abbrev fd_first_end : BufferedSocket Pipe ℕ
fd_first_end =
    (write_message little dup kernel fd_first (write_message little dup kernel filling socket).0).0

fd_first_run : (fd_first_end.socket.sent_fds ≡ 9 ∷ []) × (fd_first_end.out_fds ≡ 9 ∷ [])
unfolding write_message new_socket attempt_write_message write_to_buffers get_writable_storage
    new_buffer write_args write_arg write_array_to_payload next_multiple_of flush get_contents
    put_writable to_ne_bytes write_buf move_to_front advance advance_offset
fd_first_run = (refl, refl)

-- Four thousand bytes and a hundred more do not fit.
abbrev big : Message ℕ ℕ
big = record message { args = Argument.array (replicate 4100 1) ∷ [] }

big_run :
    write_message little dup kernel big socket
    ≡ ((write_message little dup kernel big socket).0, err toobig)
unfolding write_message new_socket attempt_write_message write_to_buffers get_writable_storage
    new_buffer write_args write_arg write_array_to_payload next_multiple_of flush get_contents
    put_writable to_ne_bytes
big_run = refl

write_message-failed_example :
    handed kernel law (write_message little dup kernel big socket).0 ≡ handed kernel law socket
write_message-failed_example =
    write_message-failed little dup kernel law big socket
      (write_message little dup kernel big socket).0 toobig
      (used_all-new_socket little dup kernel law stream []) big_run

-- Twelve bytes are there to be read: the event of the display that deletes the id 5.
abbrev loaded : BufferedSocket Pipe ℕ
loaded =
    new_socket kernel
      (record stream { incoming = 1 ∷ 0 ∷ 0 ∷ 0 ∷ 1 ∷ 0 ∷ 12 ∷ 0 ∷ 5 ∷ 0 ∷ 0 ∷ 0 ∷ [] })

loaded-Inv : Inv loaded
loaded-Inv = used_all-new_socket little dup kernel law _ []

abbrev full : BufferedSocket Pipe ℕ
full = (fill_incoming_buffers kernel loaded).0

fill_run : fill_incoming_buffers kernel loaded ≡ (full, ok tt)
unfolding fill_incoming_buffers new_socket get_writable_storage move_to_front new_buffer
fill_run = refl

abbrev one_uint : ℕ → ℕ → Option (List ArgumentType)
one_uint sender opcode = some (ArgumentType.uint ∷ [])

abbrev delete_five : Message ℕ ℕ
delete_five = record { sender_id = 1; opcode = 1; args = Argument.uint 5 ∷ [] }

abbrev emptied : BufferedSocket Pipe ℕ
emptied = (read_one_message little one_uint full).0

read_run : read_one_message little one_uint full ≡ (emptied, ok delete_five)
unfolding read_one_message fill_incoming_buffers new_socket get_writable_storage move_to_front
    new_buffer get_contents advance put_writable parse_message header_len split_u32 fd_count
    parse_args parse_arg header_opcode
read_run = refl

read_one_message-Taken_example : Taken little one_uint full emptied delete_five
read_one_message-Taken_example =
    read_one_message-Taken little one_uint full emptied delete_five
      (used_all-new_socket little dup kernel law _ (fills ∷ [])) read_run

write_message-verdict_example : (write_message little dup kernel message socket).1 ≡ (
    if fits little dup kernel message socket
    then ok tt
    else after little dup kernel message
        (flush kernel (attempt_write_message little dup message socket).0))
write_message-verdict_example =
    write_message-verdict little dup kernel message (tt, ((9, refl), tt)) socket
