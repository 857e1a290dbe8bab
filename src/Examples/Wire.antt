-- ===== src/Examples/Wire.antt =====
-- A message with an array, a string and a descriptor goes over the wire.
use wayland_rs.Common.{
  ℕ, zero, suc, ◌+◌, ◌≤◌, ◌≡◌, refl, Option, none, some, List, [], ◌∷◌, ◌++◌, arith, length, take,
  drop, ok, err, if◌then◌else◌, leb,
}
use wayland_rs.Common.Word.{
  little, negsuc, to_ne_bytes, as_u32, as_i32, pack_header, header_len, header_opcode,
  from_ne_bytes, split_u32,
}
use wayland_rs.Io.{IoResult}
use wayland_rs.Protocol.{Argument, ArgumentType, Message}
use wayland_rs.Protocol.Signature.{Fits, HasType}
use wayland_rs.Protocol.Interfaces.{Interface, wl_callback_interface}
use wayland_rs.Wire.{
  buffer_too_small, missing_data, next_multiple_of, write_to_buffers, parse_message, write_args,
  write_arg, write_buf, write_array_to_payload, parse_args, parse_arg, fd_count,
  read_array_from_payload,
}
use wayland_rs.Wire.Size.{write_to_buffers-size, size_args}
use wayland_rs.Wire.Parse.{parse_message_sound, parse_message-incomplete, word_of}
use wayland_rs.Wire.RoundTrip.{
  EncodesMessage, DupMessage, IsMessage, parse_message-write_to_buffers,
}

abbrev dup : ℕ → IoResult ℕ
dup f = ok (f + 100)

-- An array of three bytes, a descriptor, and -1.
abbrev message : Message ℕ ℕ
message = record {
  sender_id = 3;
  opcode = 2;
  args = Argument.array (7 ∷ 8 ∷ 9 ∷ []) ∷ Argument.fd 5 ∷ Argument.int (negsuc 0) ∷ [];
}

abbrev received : Message ℕ ℕ
received = record message {
  args = Argument.array (7 ∷ 8 ∷ 9 ∷ []) ∷ Argument.fd 105 ∷ Argument.int (negsuc 0) ∷ [];
}

abbrev signature : List ArgumentType
signature = ArgumentType.array ∷ ArgumentType.fd ∷ ArgumentType.int ∷ []

abbrev room : List ℕ
room = 1 ∷ 1 ∷ 1 ∷ 1 ∷ 1 ∷ 1 ∷ 1 ∷ 1 ∷ 1 ∷ 1 ∷ 1 ∷ 1 ∷ 1 ∷ 1 ∷ 1 ∷ 1 ∷ 1 ∷ 1 ∷ 1 ∷ 1 ∷ 1 ∷ 1 ∷ []

-- The bytes of the message; the padding of the array is what the buffer held.
abbrev wire : List ℕ
wire = 3 ∷ 0 ∷ 0 ∷ 0 ∷ 2 ∷ 0 ∷ 20 ∷ 0 ∷ 3 ∷ 0 ∷ 0 ∷ 0 ∷ 7 ∷ 8 ∷ 9 ∷ 1 ∷ 255 ∷ 255 ∷ 255 ∷ 255 ∷ []

write_run :
    write_to_buffers little dup message room (1 ∷ []) ≡ (wire ++ 1 ∷ 1 ∷ [], 1 ∷ 105 ∷ [], ok 20)
unfolding write_to_buffers write_args write_arg write_buf write_array_to_payload next_multiple_of
    to_ne_bytes as_u32 pack_header
write_run = refl

parse_run :
    parse_message little (wire ++ 9 ∷ []) signature (105 ∷ 4 ∷ []) ≡ (4 ∷ [], ok (received, 9 ∷ []))
unfolding parse_message parse_args parse_arg split_u32 from_ne_bytes header_len header_opcode as_i32
    next_multiple_of fd_count read_array_from_payload
parse_run = refl

fits : Fits signature message.args
fits = (HasType.array, (HasType.fd, (HasType.int, tt)))

message-IsMessage : IsMessage message
message-IsMessage = record { sender = omega arith; opcode = omega arith; args = omega arith }

received-IsMessage : IsMessage received
received-IsMessage = record { sender = omega arith; opcode = omega arith; args = omega arith }

wire-EncodesMessage : EncodesMessage little received wire
unfolding to_ne_bytes pack_header next_multiple_of as_u32
wire-EncodesMessage = (
  drop 8 wire,
  (
    take 8 (drop 8 wire),
    drop 16 wire,
    refl,
    record { pad = 1 ∷ []; padded = refl; bytes = refl },
    ([], drop 16 wire, refl, refl, (drop 16 wire, [], refl, refl, refl)),
  ),
  refl,
)

parse_message-write_to_buffers_example :
    (new : List ℕ) × (r : Message ℕ ℕ) × DupMessage dup message r
    × (◌≡◌ {A = List ℕ} (1 ∷ 105 ∷ []) (1 ∷ [] ++ new))
    × (parse_message little (take 20 (wire ++ 1 ∷ 1 ∷ []) ++ 9 ∷ []) signature (new ++ 4 ∷ [])
        ≡ (4 ∷ [], ok (r, 9 ∷ [])))
parse_message-write_to_buffers_example =
    parse_message-write_to_buffers little dup message signature room (wire ++ 1 ∷ 1 ∷ []) (1 ∷ [])
      (1 ∷ 105 ∷ []) 20 (9 ∷ []) (4 ∷ []) (omega arith) message-IsMessage fits write_run

parse_message-incomplete_example :
    parse_message little {Fd = ℕ} (take 14 wire) signature (6 ∷ []) ≡ (6 ∷ [], err missing_data)
parse_message-incomplete_example =
    parse_message-incomplete little received signature wire (take 14 wire) (drop 14 wire) (6 ∷ [])
      received-IsMessage wire-EncodesMessage (omega arith) refl (omega arith)

parse_message_sound_example :
    (8 ≤ header_len (word_of little (wire ++ 9 ∷ [])))
    × (header_len (word_of little (wire ++ 9 ∷ [])) ≤ length (wire ++ 9 ∷ []))
    × (9 ∷ [] ≡ drop (header_len (word_of little (wire ++ 9 ∷ []))) (wire ++ 9 ∷ []))
    × (received.sender_id ≡ (split_u32 little (wire ++ 9 ∷ [])).0)
    × (received.opcode ≡ header_opcode (word_of little (wire ++ 9 ∷ [])))
    × Fits signature received.args
    × (used : List ℕ) × (105 ∷ 4 ∷ [] ≡ used ++ 4 ∷ [])
    × (length used ≡ fd_count signature)
parse_message_sound_example =
    parse_message_sound little (wire ++ 9 ∷ []) (9 ∷ []) signature (105 ∷ 4 ∷ []) (4 ∷ []) received
      parse_run

-- The same message does not fit in 16 bytes.
write_to_buffers-size_example : (write_to_buffers little dup message (take 16 room) []).2 ≡ (
    if leb (8 + size_args message.args) 16
    then ok (8 + size_args message.args)
    else err buffer_too_small)
write_to_buffers-size_example =
    write_to_buffers-size little dup message (take 16 room) [] (tt, ((105, refl), (tt, tt)))

abbrev statics : ℕ → Interface
statics n = wl_callback_interface

-- An enum with the one value 1.
abbrev one_value : ℕ → Option (Unit {0})
one_value (suc zero) = some tt
one_value _ = none

one_value-number : (u : ℕ) (t : Unit {0}) → one_value u ≡ some t → 1 ≡ u
one_value-number zero t h = absurd (ground arith)
one_value-number (suc zero) t h = refl
one_value-number (suc (suc u)) t h = absurd (ground arith)
