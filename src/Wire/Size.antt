-- ===== src/Wire/Size.antt =====
-- How long a message is on the wire, and that a write fails exactly when that is too much.
use wayland_rs.Common.{
  ℕ, ◌+◌, ◌-◌, ◌≤◌, ◌≡◌, All, Bool-cases, inl, inr, Option, none, some, List, [], ◌∷◌, ◌++◌, arith,
  ltb, leb, if◌then◌else◌, length, length-drop, drop, ok, err,
}
use wayland_rs.Common.Word.{Endian, as_u32}
use wayland_rs.Protocol.{Argument, Message}
use wayland_rs.Io.{IoResult}
use wayland_rs.Wire.{
  Writer, Slice, MessageWriteError, buffer_too_small, next_multiple_of, write_buf, write_array_body,
  write_array_to_payload, write_arg, write_args, write_to_buffers, finish,
}

-- A word, or a length word and the bytes padded to whole words; a descriptor takes none.
abbrev pub size_arg : {Fd : Type 0} → Argument ℕ Fd → ℕ
size_arg (Argument.str (some s)) = 4 + next_multiple_of (length (s ++ 0 ∷ [])) 4
size_arg (Argument.str none) = 4
size_arg (Argument.array a) = 4 + next_multiple_of (length a) 4
size_arg (Argument.fd f) = 0
size_arg _ = 4

abbrev pub size_args : {Fd : Type 0} → List (Argument ℕ Fd) → ℕ
size_args [] = 0
size_args (a ∷ args) = size_arg a + size_args args

-- The outcome of a write that wants `size` bytes of `room`.
abbrev fits_error : ℕ → ℕ → Option MessageWriteError
fits_error size room = if leb size room then none else some buffer_too_small

module _ (e : Endian) where
  write_buf-size :
      (u : ℕ) (s : Slice)
      → ((write_buf e u s).1 ≡ fits_error 4 (length s.free))
        × (4 ≤ length s.free → length (write_buf e u s).0.free ≡ length s.free - 4)
  unfolding write_buf
  write_buf-size u s = (ground arith, λ h. ground (arith, length-drop 4 s.free))

  write_array-size :
      (a : List ℕ) (s : Slice)
      → ((write_array_to_payload e a s).1
          ≡ fits_error (4 + next_multiple_of (length a) 4) (length s.free))
        × (4 + next_multiple_of (length a) 4 ≤ length s.free
            → length (write_array_to_payload e a s).0.free
              ≡ length s.free - (4 + next_multiple_of (length a) 4))
  unfolding write_array_to_payload write_array_body write_buf
  write_array-size a s = (
    ground (arith, length-drop 4 s.free),
    λ h.
        ground (
          arith,
          length-drop 4 s.free,
          length-drop (next_multiple_of (length a) 4) (drop 4 s.free),
        ),
  )

module _ (e : Endian) {RawFd Fd : Type 0} (dup : RawFd → IoResult Fd) where
  -- Every descriptor among the arguments can be duplicated.
  abbrev pub CanDup : Argument ℕ RawFd → Type 0
  CanDup (Argument.fd f) = (d : Fd) × (dup f ≡ ok d)
  CanDup _ = Unit {0}

  abbrev Sized : ℕ → Writer Fd → Writer Fd × Option MessageWriteError → Type 0
  Sized size w r =
      (r.1 ≡ fits_error size (length w.slice.free))
      × (size ≤ length w.slice.free → length r.0.slice.free ≡ length w.slice.free - size)

  write_arg-size :
      (a : Argument ℕ RawFd) (w : Writer Fd) → CanDup a → Sized (size_arg a) w (write_arg e dup a w)
  unfolding write_arg next_multiple_of
  write_arg-size (Argument.int i) w c = write_buf-size e (as_u32 i) w.slice
  write_arg-size (Argument.uint u) w c = write_buf-size e u w.slice
  write_arg-size (Argument.fixed f) w c = write_buf-size e (as_u32 f) w.slice
  write_arg-size (Argument.str (some s)) w c = write_array-size e (s ++ 0 ∷ []) w.slice
  write_arg-size (Argument.str none) w c = write_array-size e [] w.slice
  write_arg-size (Argument.object o) w c = write_buf-size e o w.slice
  write_arg-size (Argument.new_id n) w c = write_buf-size e n w.slice
  write_arg-size (Argument.array a) w c = write_array-size e a w.slice
  write_arg-size (Argument.fd f) w (d, p) = rw p (ground arith, λ h. omega arith)

  write_args-size :
      (args : List (Argument ℕ RawFd)) (w : Writer Fd)
      → All CanDup args
      → Sized (size_args args) w (write_args e dup args w)
  unfolding write_args
  write_args-size [] w c = (ground arith, λ h. omega arith)
  write_args-size (a ∷ args) w (c, cs) =
      let (p, q) = write_arg-size a w c in
      let (r, s) = write_args-size args (write_arg e dup a w).0 cs in
      (ground arith, λ h. ground arith)

  finish-result :
      (m : Message ℕ RawFd) (payload : List ℕ) (r : Writer Fd × Option MessageWriteError) (size : ℕ)
      → 8 ≤ length payload
      → r.1 ≡ fits_error size (length payload - 8)
      → (size ≤ length payload - 8 → length r.0.slice.free ≡ length payload - 8 - size)
      → (finish e dup m payload r).2
        ≡ (if leb (8 + size) (length payload) then ok (8 + size) else err buffer_too_small)
  unfolding finish
  finish-result m payload (w, none) size room p q = ground arith
  finish-result m payload (w, some x) size room p q = ground arith

  -- Where every descriptor can be duplicated, a write succeeds exactly when the header, the argument
  -- words and the padded arrays fit in the payload, and then returns their total size. Otherwise the
  -- error is `BufferTooSmall`.
  pub write_to_buffers-size :
      (m : Message ℕ RawFd) (payload : List ℕ) (fds : List Fd)
      → All CanDup m.args
      → (write_to_buffers e dup m payload fds).2 ≡ (
          if leb (8 + size_args m.args) (length payload)
          then ok (8 + size_args m.args)
          else err buffer_too_small)
  unfolding write_to_buffers
  write_to_buffers-size m payload fds c =
      let w : Writer Fd = record {
        slice = record { written = []; free = drop 8 payload };
        fds = fds;
      } in
      let (p, q) = write_args-size m.args w c in
      let free : length (drop 8 payload) ≡ length payload - 8 = length-drop 8 payload in
      elim (Bool-cases (ltb (length payload) 8)) [
        | inl short ↦ rw short (ground arith)
        | inr enough ↦ rw enough (
            finish-result m payload _ (size_args m.args) (ground arith) (rw (← free) p)
              (rw (← free) q))
      ]
