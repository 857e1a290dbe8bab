-- ===== src/Socket/Invariant.antt =====
-- The buffers of a socket stay in order through every operation.
use wayland_rs.Common.{
  ℕ, ◌*◌, ◌≤◌, ◌≡◌, refl, Bool-cases, inl, inr, Bool, true, false, Option, none, some, List, [],
  ◌∷◌, ◌++◌, arith, ltb, ◌==◌, length, length-append, length-drop, drop, Result, ok, err,
}
use wayland_rs.Common.Word.{Endian}
use wayland_rs.Protocol.{ArgumentType, Message}
use wayland_rs.Io.{IoResult, would_block, errno}
use wayland_rs.Wire.{
  MessageWriteError, buffer_too_small, dup_fd_failed, MessageParseError, write_to_buffers,
  parse_message,
}
use wayland_rs.Wire.Length.{write_to_buffers-length}
use wayland_rs.Wire.RoundTrip.{write_bound}
use wayland_rs.Socket.{
  BufferedSocket, max_bytes_out, new_socket, flush, sent_part, is_empty, received,
  fill_incoming_buffers, attempted, attempt_write_message, second_attempt, after_flush,
  first_attempt, write_message, read_part, read_signed, read_one_message,
}
use wayland_rs.Socket.System.{Kernel, IsStream}
use wayland_rs.Socket.Bytes.{
  IsValid, get_contents, get_writable_storage, new_buffer-IsValid, move_to_front-IsValid,
  advance_offset-IsValid, write-IsValid, put_writable-IsValid,
}

pub record Inv {Sys Fd : Type 0} (s : BufferedSocket Sys Fd) : Type 0 where
  pub in_valid : IsValid (2 * max_bytes_out) s.in_data
  pub out_valid : IsValid max_bytes_out s.out_data

module _ {Fd : Type 0} (k : Kernel Fd) (law : IsStream k) where
  open k use {Sys, sendmsg, recvmsg}

  new_socket-Inv : (socket : Sys) → Inv (new_socket k socket)
  unfolding new_socket
  new_socket-Inv socket = record {
    in_valid = new_buffer-IsValid (2 * max_bytes_out);
    out_valid = new_buffer-IsValid max_bytes_out;
  }

  sent_part-Inv :
      (s : BufferedSocket Sys Fd) (r : Sys × IoResult ℕ)
      → sendmsg s.socket (get_contents s.out_data) s.out_fds ≡ r
      → Inv s
      → Inv (sent_part k s r).0
  unfolding sent_part
  sent_part-Inv s (socket, err x) e v = record { in_valid = v.in_valid; out_valid = v.out_valid }
  sent_part-Inv s (socket, ok n) e v = record {
    in_valid = v.in_valid;
    out_valid = move_to_front-IsValid max_bytes_out _ (
        advance_offset-IsValid max_bytes_out s.out_data v.out_valid n
          (law.send_bound s.socket socket _ _ n e));
  }

  pub flush-Inv : (s : BufferedSocket Sys Fd) → Inv s → Inv (flush k s).0
  unfolding flush
  flush-Inv s v = elim (Bool-cases (is_empty k (get_contents s.out_data))) [
    | inl e ↦ rw e v
    | inr e ↦ rw e (sent_part-Inv s _ refl v)
  ]

  received-Inv :
      (s : BufferedSocket Sys Fd) (r : Sys × IoResult (List ℕ × List Fd))
      → recvmsg s.socket (length (get_writable_storage s.in_data)) ≡ r
      → Inv s
      → Inv (received k s r).0
  unfolding received
  received-Inv s (socket, err x) e v = record { in_valid = v.in_valid; out_valid = v.out_valid }
  received-Inv s (socket, ok (bytes, fds)) e v =
      let room : length bytes ≤ length (get_writable_storage s.in_data) =
        law.recv_bound s.socket socket _ bytes fds e in
      let storage : List ℕ = bytes ++ drop (length bytes) (get_writable_storage s.in_data) in
      let size : length storage ≡ length (get_writable_storage s.in_data) = omega (
        arith,
        length-append bytes (drop (length bytes) (get_writable_storage s.in_data)),
        length-drop (length bytes) (get_writable_storage s.in_data),
      ) in
      elim (Bool-cases (length bytes == 0)) [
        | inl closed ↦ rw closed (record {
          in_valid = put_writable-IsValid (2 * max_bytes_out) s.in_data v.in_valid storage size;
          out_valid = v.out_valid;
        })
        | inr open_yet ↦ rw open_yet (record {
          in_valid =
              write-IsValid (2 * max_bytes_out) s.in_data v.in_valid storage (length bytes) size
                (omega arith);
          out_valid = v.out_valid;
        })
      ]

  pub fill_incoming_buffers-Inv :
      (s : BufferedSocket Sys Fd) → Inv s → Inv (fill_incoming_buffers k s).0
  unfolding fill_incoming_buffers
  fill_incoming_buffers-Inv s v = received-Inv _ _ refl (record {
    in_valid = move_to_front-IsValid (2 * max_bytes_out) s.in_data v.in_valid;
    out_valid = v.out_valid;
  })

module _ (e : Endian) {Sys RawFd Fd : Type 0} (dup : RawFd → IoResult Fd) where
  attempted-Inv :
      (m : Message ℕ RawFd) (s : BufferedSocket Sys Fd)
      → (r : List ℕ × List Fd × Result ℕ MessageWriteError)
      → write_to_buffers e dup m (get_writable_storage s.out_data) s.out_fds ≡ r
      → Inv s
      → Inv (attempted e dup s r).0
  unfolding attempted
  attempted-Inv m s (storage, fds, ok n) p v =
      let size : length storage ≡ length (get_writable_storage s.out_data) =
        (rw p at (write_to_buffers-length e dup m (get_writable_storage s.out_data) s.out_fds)) in
      record {
        in_valid = v.in_valid;
        out_valid =
            write-IsValid max_bytes_out s.out_data v.out_valid storage n size
              (omega (arith, write_bound e dup m _ s.out_fds p));
      }
  attempted-Inv m s (storage, fds, err buffer_too_small) p v = record {
    in_valid = v.in_valid;
    out_valid =
        put_writable-IsValid max_bytes_out s.out_data v.out_valid storage
          (rw p at (write_to_buffers-length e dup m (get_writable_storage s.out_data) s.out_fds));
  }
  attempted-Inv m s (storage, fds, err (dup_fd_failed x)) p v = record {
    in_valid = v.in_valid;
    out_valid =
        put_writable-IsValid max_bytes_out s.out_data v.out_valid storage
          (rw p at (write_to_buffers-length e dup m (get_writable_storage s.out_data) s.out_fds));
  }

  pub attempt-Inv :
      (m : Message ℕ RawFd) (s : BufferedSocket Sys Fd)
      → Inv s
      → Inv (attempt_write_message e dup m s).0
  unfolding attempt_write_message
  attempt-Inv m s v = attempted-Inv m s _ refl v

module _ (e : Endian) {RawFd Fd : Type 0} (dup : RawFd → IoResult Fd) (k : Kernel Fd)
    (law : IsStream k) where
  open k use {Sys}

  second_attempt-Inv :
      (r : BufferedSocket Sys Fd × IoResult Bool) → Inv r.0 → Inv (second_attempt e dup k r).0
  unfolding second_attempt
  second_attempt-Inv (s, err x) v = v
  second_attempt-Inv (s, ok true) v = v
  second_attempt-Inv (s, ok false) v = v

  retry-Inv :
      (m : Message ℕ RawFd) (s : BufferedSocket Sys Fd)
      → Inv s
      → Inv (second_attempt e dup k (attempt_write_message e dup m s)).0
  retry-Inv m s v = second_attempt-Inv _ (attempt-Inv e dup m s v)

  after_flush-Inv :
      (m : Message ℕ RawFd) (r : BufferedSocket Sys Fd × IoResult (Unit {0}))
      → Inv r.0
      → Inv (after_flush e dup k m r).0
  unfolding after_flush
  after_flush-Inv m (s, ok _) v = retry-Inv m s v
  after_flush-Inv m (s, err would_block) v = retry-Inv m s v
  after_flush-Inv m (s, err (errno n)) v = v

  first_attempt-Inv :
      (m : Message ℕ RawFd) (r : BufferedSocket Sys Fd × IoResult Bool)
      → Inv r.0
      → Inv (first_attempt e dup k m r).0
  unfolding first_attempt
  first_attempt-Inv m (s, err x) v = v
  first_attempt-Inv m (s, ok true) v = v
  first_attempt-Inv m (s, ok false) v = after_flush-Inv m (flush k s) (flush-Inv k law s v)

  pub write_message-Inv :
      (m : Message ℕ RawFd) (s : BufferedSocket Sys Fd) → Inv s → Inv (write_message e dup k m s).0
  unfolding write_message
  write_message-Inv m s v = first_attempt-Inv m _ (attempt-Inv e dup m s v)

module _ (e : Endian) {Sys Fd : Type 0} where
  read_part-Inv :
      (s : BufferedSocket Sys Fd) (sig : List ArgumentType)
      → (r : List Fd × Result (Message ℕ Fd × List ℕ) MessageParseError)
      → parse_message e (get_contents s.in_data) sig s.in_fds ≡ r
      → Inv s
      → Inv (read_part e s r).0
  unfolding read_part
  read_part-Inv s sig (fds, err x) p v = record { in_valid = v.in_valid; out_valid = v.out_valid }
  read_part-Inv s sig (fds, ok (m, rest)) p v = record {
    in_valid = advance_offset-IsValid (2 * max_bytes_out) s.in_data v.in_valid _ (omega arith);
    out_valid = v.out_valid;
  }

  read_signed-Inv :
      (s : BufferedSocket Sys Fd) (sig : Option (List ArgumentType))
      → Inv s
      → Inv (read_signed e s sig).0
  unfolding read_signed
  read_signed-Inv s none v = v
  read_signed-Inv s (some sig) v = read_part-Inv s sig _ refl v

  pub read_one_message-Inv :
      (signature : ℕ → ℕ → Option (List ArgumentType)) (s : BufferedSocket Sys Fd)
      → Inv s
      → Inv (read_one_message e signature s).0
  unfolding read_one_message
  read_one_message-Inv signature s v = elim (Bool-cases (ltb (length (get_contents s.in_data)) 8)) [
    | inl short ↦ rw short v
    | inr enough ↦ rw enough (read_signed-Inv s _ v)
  ]

-- What a connection does with its socket.
pub data Use (RawFd : Type 0) : Type 0 where
  flushes : Use RawFd
  writes : Message ℕ RawFd → Use RawFd
  fills : Use RawFd
  reads : (ℕ → ℕ → Option (List ArgumentType)) → Use RawFd

module _ (e : Endian) {RawFd Fd : Type 0} (dup : RawFd → IoResult Fd) (k : Kernel Fd) where
  abbrev pub used : Use RawFd → BufferedSocket k.Sys Fd → BufferedSocket k.Sys Fd
  used flushes s = (flush k s).0
  used (writes m) s = (write_message e dup k m s).0
  used fills s = (fill_incoming_buffers k s).0
  used (reads signature) s = (read_one_message e signature s).0

  abbrev pub used_all : List (Use RawFd) → BufferedSocket k.Sys Fd → BufferedSocket k.Sys Fd
  used_all [] s = s
  used_all (u ∷ us) s = used_all us (used u s)

  used-Inv : IsStream k → (u : Use RawFd) (s : BufferedSocket k.Sys Fd) → Inv s → Inv (used u s)
  used-Inv law flushes s v = flush-Inv k law s v
  used-Inv law (writes m) s v = write_message-Inv e dup k law m s v
  used-Inv law fills s v = fill_incoming_buffers-Inv k law s v
  used-Inv law (reads signature) s v = read_one_message-Inv e signature s v

  used_all-Inv :
      IsStream k
      → (us : List (Use RawFd)) (s : BufferedSocket k.Sys Fd) → Inv s
      → Inv (used_all us s)
  used_all-Inv law [] s v = v
  used_all-Inv law (u ∷ us) s v = used_all-Inv law us (used u s) (used-Inv law u s v)

  -- From a new socket, after any sequence of flushes, writes, fills and reads, successful or not, both
  -- buffers have `offset ≤ occupied ≤ storage.len()`, and the storage has its first size: no slice
  -- of them is out of range.
  pub used_all-new_socket :
      IsStream k
      → (socket : k.Sys) (us : List (Use RawFd)) → Inv (used_all us (new_socket k socket))
  used_all-new_socket law socket us = used_all-Inv law us _ (new_socket-Inv k law socket)
