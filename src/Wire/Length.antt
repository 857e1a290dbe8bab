-- ===== src/Wire/Length.antt =====
-- A write, whether it succeeds or not, never changes the size of its buffer.
use wayland_rs.Common.{
  ℕ, ◌+◌, ◌-◌, ◌%◌, ◌^◌, ◌≤◌, ◌≡◌, refl, ◌∙◌, Bool-cases, inl, inr, Option, none, some, List, [],
  ◌∷◌, ◌++◌, arith, ltb, length, length-append, length-drop, length-take, take, drop, ok, err,
  le_of_ltb,
}
use wayland_rs.Common.Word.{Endian, as_u32, to_ne_bytes, length-to_ne_bytes, pack_header}
use wayland_rs.Protocol.{Argument, Message}
use wayland_rs.Io.{IoResult}
use wayland_rs.Wire.{
  Writer, Slice, MessageWriteError, next_multiple_of, write_buf, write_array_body,
  write_array_to_payload, write_arg, write_args, write_to_buffers, push_fd, finish,
}
use wayland_rs.Wire.Encoding.{next_multiple-le}
use wayland_rs.Wire.RoundTrip.{length-head}

abbrev total : Slice → ℕ
total s = length s.written + length s.free

module _ (e : Endian) where
  write_buf-total : (u : ℕ) (s : Slice) → total (write_buf e u s).0 ≡ total s
  unfolding write_buf
  write_buf-total u s = ground (
    arith,
    length-append s.written (to_ne_bytes e u),
    length-to_ne_bytes e u,
    length-drop 4 s.free,
  )

  write_array_body-total : (a : List ℕ) (s : Slice) → total (write_array_body a s).0 ≡ total s
  unfolding write_array_body
  write_array_body-total a s =
      let len : ℕ = next_multiple_of (length a) 4 in
      let pad : List ℕ = drop (length a) (take len s.free) in
      ground (
        arith,
        length-append s.written (a ++ pad),
        length-append a pad,
        length-drop (length a) (take len s.free),
        length-take len s.free,
        length-drop len s.free,
        next_multiple-le (length a),
      )

  write_array-total : (a : List ℕ) (s : Slice) → total (write_array_to_payload e a s).0 ≡ total s
  unfolding write_array_to_payload
  write_array-total a s = ground (
    arith,
    write_buf-total (length a % 2 ^ 32) s,
    write_array_body-total a (write_buf e (length a % 2 ^ 32) s).0,
  )

module _ (e : Endian) {RawFd Fd : Type 0} (dup : RawFd → IoResult Fd) where
  write_arg-total :
      (a : Argument ℕ RawFd) (w : Writer Fd) → total (write_arg e dup a w).0.slice ≡ total w.slice
  unfolding write_arg
  write_arg-total (Argument.int i) w = write_buf-total e (as_u32 i) w.slice
  write_arg-total (Argument.uint u) w = write_buf-total e u w.slice
  write_arg-total (Argument.fixed f) w = write_buf-total e (as_u32 f) w.slice
  write_arg-total (Argument.str (some s)) w = write_array-total e (s ++ 0 ∷ []) w.slice
  write_arg-total (Argument.str none) w = write_array-total e [] w.slice
  write_arg-total (Argument.object o) w = write_buf-total e o w.slice
  write_arg-total (Argument.new_id n) w = write_buf-total e n w.slice
  write_arg-total (Argument.array a) w = write_array-total e a w.slice
  write_arg-total (Argument.fd f) w = push_fd-total w (dup f)
    where
      push_fd-total :
          (w : Writer Fd) (r : IoResult Fd) → total (push_fd e dup w r).0.slice ≡ total w.slice
      push_fd-total w (ok fd) = refl
      push_fd-total w (err x) = refl

  write_args-total :
      (args : List (Argument ℕ RawFd)) (w : Writer Fd)
      → total (write_args e dup args w).0.slice ≡ total w.slice
  unfolding write_args
  write_args-total [] w = refl
  write_args-total (a ∷ args) w =
      ground (arith, write_arg-total a w, write_args-total args (write_arg e dup a w).0)

  finish-length :
      (m : Message ℕ RawFd) (payload : List ℕ) (r : Writer Fd × Option MessageWriteError)
      → 8 ≤ length payload
      → total r.0.slice ≡ length payload - 8
      → length (finish e dup m payload r).0 ≡ length payload
  unfolding finish
  finish-length m payload (w, some x) h k = omega (
    arith,
    length-append (take 8 payload) (w.slice.written ++ w.slice.free),
    length-append w.slice.written w.slice.free,
    length-take 8 payload,
  )
  finish-length m payload (w, none) h k =
      let word : ℕ = pack_header ((length payload - length w.slice.free) % 2 ^ 32) m.opcode in
      omega (
        arith,
        length-append (to_ne_bytes e m.sender_id ++ to_ne_bytes e word)
            (w.slice.written ++ w.slice.free),
        length-append w.slice.written w.slice.free,
        length-head e m.sender_id word,
      )

  -- A write, successful or not, leaves its payload as long as it was.
  pub write_to_buffers-length :
      (m : Message ℕ RawFd) (payload : List ℕ) (fds : List Fd)
      → length (write_to_buffers e dup m payload fds).0 ≡ length payload
  unfolding write_to_buffers
  write_to_buffers-length m payload fds = elim (Bool-cases (ltb (length payload) 8)) [
    | inl short ↦ rw short
    | inr enough ↦
        let w : Writer Fd = record {
          slice = record { written = []; free = drop 8 payload };
          fds = fds;
        } in
        rw enough (
          finish-length m payload _ (le_of_ltb _ _ enough)
            (write_args-total m.args w ∙ omega (arith, length-drop 8 payload)))
  ]
