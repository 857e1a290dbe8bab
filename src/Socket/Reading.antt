-- ===== src/Socket/Reading.antt =====
-- What `read_one_message` takes from the incoming buffers.
use wayland_rs.Common.{
  ℕ, ◌-◌, ◌*◌, ◌≤◌, ◌<◌, ◌≡◌, ◌==◌, refl, sym, ap, ◌∙◌, Bool-cases, inl, inr, Option, none, some,
  List, ◌++◌, arith, ltb, length, length-drop, drop, Result, ok, err,
}
use wayland_rs.Common.Word.{Endian, split_u32, header_opcode, header_len}
use wayland_rs.Protocol.{ArgumentType, Message}
use wayland_rs.Protocol.Signature.{Fits}
use wayland_rs.Wire.{MessageParseError, parse_message, fd_count}
use wayland_rs.Wire.Parse.{parse_message_sound, word_of}
use wayland_rs.Io.{IoResult}
use wayland_rs.Socket.System.{Kernel, IsStream}
use wayland_rs.Socket.{
  BufferedSocket, max_bytes_out, read_one_message, read_signed, read_part, received,
  fill_incoming_buffers,
}
use wayland_rs.Socket.Bytes.{
  get_contents, get_contents-advance_offset, move_to_front, get_writable_storage,
  get_contents-move_to_front, get_contents-write, move_to_front-IsValid,
}
use wayland_rs.Socket.Invariant.{Inv}

module _ (e : Endian) {Sys Fd : Type 0} (signature : ℕ → ℕ → Option (List ArgumentType)) where
  -- The effect of reading `m`: it was the next whole message of the buffer.
  pub record Taken (s s' : BufferedSocket Sys Fd) (m : Message ℕ Fd) : Type 0 where
    pub types : List ArgumentType
    pub known : signature m.sender_id m.opcode ≡ some types
    pub fits : Fits types m.args
    pub size : ℕ
    pub says : size ≡ header_len (word_of e (get_contents s.in_data))
    pub header : 8 ≤ size
    pub whole : size ≤ length (get_contents s.in_data)
    pub left : get_contents s'.in_data ≡ drop size (get_contents s.in_data)
    pub fds : List Fd
    pub fds_left : s.in_fds ≡ fds ++ s'.in_fds
    pub fds_size : length fds ≡ fd_count types
    pub same_socket : s'.socket ≡ s.socket
    pub same_out : s'.out_data ≡ s.out_data
    pub same_out_fds : s'.out_fds ≡ s.out_fds

  read_part-Taken :
      (s s' : BufferedSocket Sys Fd) (m : Message ℕ Fd) (types : List ArgumentType)
      → (r : List Fd × Result (Message ℕ Fd × List ℕ) MessageParseError)
      → parse_message e (get_contents s.in_data) types s.in_fds ≡ r
      → read_part e s r ≡ (s', ok m)
      → signature
          (split_u32 e (get_contents s.in_data)).0
          (header_opcode (word_of e (get_contents s.in_data)))
        ≡ some types
      → Inv s
      → Taken s s' m
  unfolding read_part
  read_part-Taken s s' m types (fds, err x) p h k v = absurd (ground arith)
  read_part-Taken s s' m types (fds, ok (n, rest)) p h k v =
      let same : n ≡ m = ground arith in
      let (a, b, c, sender, opcode, fit, used, x, y) =
        parse_message_sound e (get_contents s.in_data) rest types s.in_fds fds n p in
      let after : s' ≡ (read_part e s (fds, ok (n, rest))).0 = ap (λ q. q.0) (sym h) in
      let taken : length (get_contents s.in_data) - length rest ≡ _ =
        rw c (omega (arith, length-drop _ (get_contents s.in_data))) in
      rw (after, ← same)
        (record {
          types = types;
          known = rw (sender, opcode) k;
          fits = fit;
          size = header_len (word_of e (get_contents s.in_data));
          says = refl;
          header = a;
          whole = b;
          left =
              get_contents-advance_offset (2 * max_bytes_out) s.in_data v.in_valid
                (length (get_contents s.in_data) - length rest)
              ∙ ap (λ t. drop t (get_contents s.in_data)) taken;
          fds = used;
          fds_left = x;
          fds_size = y;
          same_socket = refl;
          same_out = refl;
          same_out_fds = refl;
        })

  read_signed-Taken :
      (s s' : BufferedSocket Sys Fd) (m : Message ℕ Fd) (found : Option (List ArgumentType))
      → signature
          (split_u32 e (get_contents s.in_data)).0
          (header_opcode (word_of e (get_contents s.in_data)))
        ≡ found
      → read_signed e s found ≡ (s', ok m)
      → Inv s
      → Taken s s' m
  unfolding read_signed
  read_signed-Taken s s' m none p h v = absurd (ground arith)
  read_signed-Taken s s' m (some types) p h v = read_part-Taken s s' m types _ refl h p v

  -- A message that is read is the next one of the incoming buffer: it has the size that its header
  -- says, and exactly its bytes and its descriptors are taken. The signature is the one given for its
  -- sender and opcode, and its arguments fit that. Nothing else of the socket changes.
  pub read_one_message-Taken :
      (s s' : BufferedSocket Sys Fd) (m : Message ℕ Fd)
      → Inv s
      → read_one_message e signature s ≡ (s', ok m)
      → Taken s s' m
  unfolding read_one_message
  read_one_message-Taken s s' m v h = elim (Bool-cases (ltb (length (get_contents s.in_data)) 8)) [
    | inl short ↦ absurd (ground arith)
    | inr enough ↦ read_signed-Taken s s' m _ refl (rw enough at h) v
  ]

  -- A read that fails may have taken descriptors, but leaves the bytes and the stream alone.
  pub record Unread (s s' : BufferedSocket Sys Fd) : Type 0 where
    pub same_in : s'.in_data ≡ s.in_data
    pub same_socket : s'.socket ≡ s.socket

  read_part-Unread :
      (s s' : BufferedSocket Sys Fd) (x : MessageParseError)
      → (r : List Fd × Result (Message ℕ Fd × List ℕ) MessageParseError)
      → read_part e s r ≡ (s', err x)
      → Unread s s'
  unfolding read_part
  read_part-Unread s s' x (fds, err y) h = record {
    same_in = ap (λ q. q.0.in_data) (sym h);
    same_socket = ap (λ q. q.0.socket) (sym h);
  }
  read_part-Unread s s' x (fds, ok (m, rest)) h = absurd (ground arith)

  read_signed-Unread :
      (s s' : BufferedSocket Sys Fd) (x : MessageParseError) (found : Option (List ArgumentType))
      → read_signed e s found ≡ (s', err x)
      → Unread s s'
  unfolding read_signed
  read_signed-Unread s s' x none h = record {
    same_in = ap (λ q. q.0.in_data) (sym h);
    same_socket = ap (λ q. q.0.socket) (sym h);
  }
  read_signed-Unread s s' x (some types) h = read_part-Unread s s' x _ h

  pub read_one_message-Unread :
      (s s' : BufferedSocket Sys Fd) (x : MessageParseError)
      → read_one_message e signature s ≡ (s', err x)
      → Unread s s'
  unfolding read_one_message
  read_one_message-Unread s s' x h = elim (Bool-cases (ltb (length (get_contents s.in_data)) 8)) [
    | inl short ↦
        let same = rw short at h in
        record {
          same_in = ap (λ q. q.0.in_data) (sym same);
          same_socket = ap (λ q. q.0.socket) (sym same);
        }
    | inr enough ↦ read_signed-Unread s s' x _ (rw enough at h)
  ]

module _ {Fd : Type 0} (k : Kernel Fd) (law : IsStream k) where
  open k use {Sys, recvmsg}

  -- The effect of a successful fill: one `recvmsg`, whose bytes and descriptors are appended.
  pub record Filled (s s' : BufferedSocket Sys Fd) : Type 0 where
    pub bytes : List ℕ
    pub fds : List Fd
    pub room : ℕ
    pub call : recvmsg s.socket room ≡ (s'.socket, ok (bytes, fds))
    pub some_byte : 0 < length bytes
    pub more : get_contents s'.in_data ≡ get_contents s.in_data ++ bytes
    pub more_fds : s'.in_fds ≡ s.in_fds ++ fds

  received-Filled :
      (s s' : BufferedSocket Sys Fd) (r : Sys × IoResult (List ℕ × List Fd))
      → recvmsg s.socket (length (get_writable_storage s.in_data)) ≡ r
      → received k s r ≡ (s', ok tt)
      → Inv s
      → Filled s s'
  unfolding received
  received-Filled s s' (socket, err x) p h v = absurd (ground arith)
  received-Filled s s' (socket, ok (bytes, fds)) p h v = elim (Bool-cases (length bytes == 0)) [
    | inl closed ↦ absurd (ground arith)
    | inr open_yet ↦
        let after = ap (λ q. q.0) (sym (rw open_yet at h)) in
        rw after (record {
          bytes = bytes;
          fds = fds;
          room = length (get_writable_storage s.in_data);
          call = p;
          some_byte = ground arith;
          more = get_contents-write (2 * max_bytes_out) s.in_data v.in_valid bytes _;
          more_fds = refl;
        })
  ]

  -- A fill that succeeds appends what one `recvmsg` gave, at least one byte, to the unread bytes and
  -- descriptors.
  pub fill_incoming_buffers-Filled :
      (s s' : BufferedSocket Sys Fd) → Inv s → fill_incoming_buffers k s ≡ (s', ok tt) → Filled s s'
  unfolding fill_incoming_buffers
  fill_incoming_buffers-Filled s s' v h =
      let moved = record s { in_data = move_to_front s.in_data } in
      let f = received-Filled moved s' _ refl h (record {
        in_valid = move_to_front-IsValid (2 * max_bytes_out) s.in_data v.in_valid;
        out_valid = v.out_valid;
      }) in
      record {
        bytes = f.bytes;
        fds = f.fds;
        room = f.room;
        call = f.call;
        some_byte = f.some_byte;
        more =
            f.more
            ∙ ap (λ b. b ++ f.bytes)
                (get_contents-move_to_front (2 * max_bytes_out) s.in_data v.in_valid);
        more_fds = f.more_fds;
      }
