-- ===== src/Wire/Encoding.antt =====
-- What `write_to_buffers` leaves in its buffers, described without the buffers.
use wayland_rs.Common.{
  ℕ, ◌+◌, ◌%◌, ◌^◌, ◌≤◌, ◌≡◌, refl, sym, ap, ◌∙◌, none, some, List, [], ◌∷◌, ◌++◌, append_assoc,
  append-nil, arith, length, length-append, length-take, length-drop, take, drop, ok, err,
}
use wayland_rs.Common.Word.{Endian, to_ne_bytes, length-to_ne_bytes, as_u32}
use wayland_rs.Protocol.{Argument}
use wayland_rs.Io.{IoResult}
use wayland_rs.Wire.{
  next_multiple_of, Slice, Writer, write_buf, write_array_body, write_array_to_payload, write_arg,
  write_args, in_slice, push_fd,
}

module _ (e : Endian) where
  -- A length word, the bytes, and padding of any content up to a multiple of four.
  pub record EncodesArray (a bs : List ℕ) : Type 0 where
    pub pad : List ℕ
    pub padded : length (a ++ pad) ≡ next_multiple_of (length a) 4
    pub bytes : bs ≡ to_ne_bytes e (length a % 2 ^ 32) ++ (a ++ pad)

module _ (e : Endian) {Fd : Type 0} where
  -- The bytes of one argument; a descriptor has none.
  abbrev pub Encodes : Argument ℕ Fd → List ℕ → Type 0
  Encodes (Argument.int i) bs = bs ≡ to_ne_bytes e (as_u32 i)
  Encodes (Argument.uint u) bs = bs ≡ to_ne_bytes e u
  Encodes (Argument.fixed f) bs = bs ≡ to_ne_bytes e (as_u32 f)
  Encodes (Argument.str (some s)) bs = EncodesArray e (s ++ 0 ∷ []) bs
  Encodes (Argument.str none) bs = EncodesArray e [] bs
  Encodes (Argument.object o) bs = bs ≡ to_ne_bytes e o
  Encodes (Argument.new_id n) bs = bs ≡ to_ne_bytes e n
  Encodes (Argument.array a) bs = EncodesArray e a bs
  Encodes (Argument.fd f) bs = bs ≡ []

  -- Those of an argument list, one after the other.
  abbrev pub EncodesAll : List (Argument ℕ Fd) → List ℕ → Type 0
  EncodesAll [] bs = bs ≡ []
  EncodesAll (a ∷ args) bs =
      (b : List ℕ) × (c : List ℕ) × (bs ≡ b ++ c) × Encodes a b × EncodesAll args c

-- The descriptors among the arguments, in order.
abbrev pub fd_of : {Fd : Type 0} → Argument ℕ Fd → List Fd
fd_of (Argument.fd f) = f ∷ []
fd_of _ = []

abbrev pub fds_of : {Fd : Type 0} → List (Argument ℕ Fd) → List Fd
fds_of [] = []
fds_of (a ∷ args) = fd_of a ++ fds_of args

-- The two argument lists differ in the descriptors only, and each is the duplicate of the other's.
module _ {RawFd Fd : Type 0} (dup : RawFd → IoResult Fd) where
  abbrev pub DupArg : Argument ℕ RawFd → Argument ℕ Fd → Type 0
  DupArg (Argument.int i) a = a ≡ Argument.int i
  DupArg (Argument.uint u) a = a ≡ Argument.uint u
  DupArg (Argument.fixed f) a = a ≡ Argument.fixed f
  DupArg (Argument.str s) a = a ≡ Argument.str s
  DupArg (Argument.object o) a = a ≡ Argument.object o
  DupArg (Argument.new_id n) a = a ≡ Argument.new_id n
  DupArg (Argument.array x) a = a ≡ Argument.array x
  DupArg (Argument.fd f) a = (d : Fd) × (dup f ≡ ok d) × (a ≡ Argument.fd d)

  abbrev pub DupArgs : List (Argument ℕ RawFd) → List (Argument ℕ Fd) → Type 0
  DupArgs [] [] = Unit {0}
  DupArgs (a ∷ args) (b ∷ brgs) = DupArg a b × DupArgs args brgs
  DupArgs _ _ = ⊥

-- `s'` is `s` after `bs` has been written.
pub record Wrote (s s' : Slice) (bs : List ℕ) : Type 0 where
  pub written : s'.written ≡ s.written ++ bs
  pub room : length s.free ≡ length bs + length s'.free

Wrote-trans : (s t u : Slice) (bs cs : List ℕ) → Wrote s t bs → Wrote t u cs → Wrote s u (bs ++ cs)
Wrote-trans s t u bs cs p q = record {
  written = q.written ∙ ap (λ x. x ++ cs) p.written ∙ append_assoc s.written bs cs;
  room = omega (arith, p.room, q.room, length-append bs cs);
}

pub next_multiple-le : (n : ℕ) → n ≤ next_multiple_of n 4
unfolding next_multiple_of
next_multiple-le n = ground arith

module _ (e : Endian) where
  pub write_buf_lem :
      (u : ℕ) (s s' : Slice) → write_buf e u s ≡ (s', none) → Wrote s s' (to_ne_bytes e u)
  unfolding write_buf
  write_buf_lem u s s' h = ground (arith, length-drop 4 s.free, length-to_ne_bytes e u)

  length-padded :
      (a f : List ℕ)
      → next_multiple_of (length a) 4 ≤ length f
      → length (a ++ drop (length a) (take (next_multiple_of (length a) 4) f))
        ≡ next_multiple_of (length a) 4
  length-padded a f h = omega (
    arith,
    length-append a (drop (length a) (take (next_multiple_of (length a) 4) f)),
    length-drop (length a) (take (next_multiple_of (length a) 4) f),
    length-take (next_multiple_of (length a) 4) f,
    next_multiple-le (length a),
  )

  write_array_body_lem :
      (a : List ℕ) (s s' : Slice)
      → write_array_body a s ≡ (s', none)
      → (pad : List ℕ) × (length (a ++ pad) ≡ next_multiple_of (length a) 4) × Wrote s s' (a ++ pad)
  unfolding write_array_body
  write_array_body_lem a s s' h = (
    drop (length a) (take (next_multiple_of (length a) 4) s.free),
    ground (arith, length-padded a s.free),
    ground (arith, length-padded a s.free, length-drop (next_multiple_of (length a) 4) s.free),
  )

  write_array_cases :
      (a : List ℕ) (s s' : Slice)
      → write_array_to_payload e a s ≡ (s', none)
      → (t : Slice) × (write_buf e (length a % 2 ^ 32) s ≡ (t, none))
        × (write_array_body a t ≡ (s', none))
  unfolding write_array_to_payload
  write_array_cases a s s' h = ((write_buf e (length a % 2 ^ 32) s).0, ground arith, ground arith)

  pub write_array_lem :
      (a : List ℕ) (s s' : Slice)
      → write_array_to_payload e a s ≡ (s', none)
      → (bs : List ℕ) × EncodesArray e a bs × Wrote s s' bs
  write_array_lem a s s' h =
      let (t, p, q) = write_array_cases a s s' h in
      let (pad, fits, w) = write_array_body_lem a t s' q in
      (
        to_ne_bytes e (length a % 2 ^ 32) ++ (a ++ pad),
        record { pad = pad; padded = fits; bytes = refl },
        Wrote-trans s t s' _ _ (write_buf_lem (length a % 2 ^ 32) s t p) w,
      )

module _ (e : Endian) {RawFd Fd : Type 0} (dup : RawFd → IoResult Fd) where
  -- What a successful write of one argument did: the bytes, the argument as its reader will have it,
  -- and the descriptors.
  abbrev pub Written : Argument ℕ RawFd → Writer Fd → Writer Fd → Type 0
  Written a w w' =
      (bs : List ℕ) × (b : Argument ℕ Fd) × Encodes e b bs
      × DupArg dup a b
      × Wrote w.slice w'.slice bs
      × (w'.fds ≡ w.fds ++ fd_of b)

  -- The cases that write a word, and those that write an array, with the equation that `write_arg`
  -- computes to.
  word_Wrote :
      (u : ℕ) (w w' : Writer Fd)
      → in_slice e dup w (write_buf e u w.slice) ≡ (w', none)
      → Wrote w.slice w'.slice (to_ne_bytes e u) × (w'.fds ≡ w.fds ++ [])
  unfolding in_slice
  word_Wrote u w w' h =
      (write_buf_lem e u w.slice w'.slice (ground arith), ground (arith, append-nil w.fds))

  array_Wrote :
      (a : List ℕ) (w w' : Writer Fd)
      → in_slice e dup w (write_array_to_payload e a w.slice) ≡ (w', none)
      → ((bs : List ℕ) × EncodesArray e a bs × Wrote w.slice w'.slice bs) × (w'.fds ≡ w.fds ++ [])
  unfolding in_slice
  array_Wrote a w w' h =
      (write_array_lem e a w.slice w'.slice (ground arith), ground (arith, append-nil w.fds))

  fd_Written :
      (f : RawFd) (w w' : Writer Fd) (r : IoResult Fd)
      → dup f ≡ r
      → push_fd e dup w r ≡ (w', none)
      → Written (Argument.fd f) w w'
  unfolding push_fd
  fd_Written f w w' (ok d) p h = (
    [],
    Argument.fd d,
    refl,
    (d, p, refl),
    record { written = ground (arith, append-nil w.slice.written); room = ground arith },
    ground arith,
  )
  fd_Written f w w' (err x) p h = absurd (ground arith)

  pub write_arg_lem :
      (a : Argument ℕ RawFd) (w w' : Writer Fd) → write_arg e dup a w ≡ (w', none) → Written a w w'
  unfolding write_arg
  write_arg_lem (Argument.int i) w w' h =
      let (wrote, same) = word_Wrote (as_u32 i) w w' h in
      (_, Argument.int i, refl, refl, wrote, same)
  write_arg_lem (Argument.uint u) w w' h =
      let (wrote, same) = word_Wrote u w w' h in (_, Argument.uint u, refl, refl, wrote, same)
  write_arg_lem (Argument.fixed f) w w' h =
      let (wrote, same) = word_Wrote (as_u32 f) w w' h in
      (_, Argument.fixed f, refl, refl, wrote, same)
  write_arg_lem (Argument.str (some s)) w w' h =
      let ((bs, enc, wrote), same) = array_Wrote (s ++ 0 ∷ []) w w' h in
      (bs, Argument.str (some s), enc, refl, wrote, same)
  write_arg_lem (Argument.str none) w w' h =
      let ((bs, enc, wrote), same) = array_Wrote [] w w' h in
      (bs, Argument.str none, enc, refl, wrote, same)
  write_arg_lem (Argument.object o) w w' h =
      let (wrote, same) = word_Wrote o w w' h in (_, Argument.object o, refl, refl, wrote, same)
  write_arg_lem (Argument.new_id n) w w' h =
      let (wrote, same) = word_Wrote n w w' h in (_, Argument.new_id n, refl, refl, wrote, same)
  write_arg_lem (Argument.array a) w w' h =
      let ((bs, enc, wrote), same) = array_Wrote a w w' h in
      (bs, Argument.array a, enc, refl, wrote, same)
  write_arg_lem (Argument.fd f) w w' h = fd_Written f w w' (dup f) refl h

  write_args_cases :
      (a : Argument ℕ RawFd) (args : List (Argument ℕ RawFd)) (w w' : Writer Fd)
      → write_args e dup (a ∷ args) w ≡ (w', none)
      → (v : Writer Fd) × (write_arg e dup a w ≡ (v, none)) × (write_args e dup args v ≡ (w', none))
  unfolding write_args
  write_args_cases a args w w' h = ((write_arg e dup a w).0, ground arith, ground arith)

  pub write_args_lem :
      (args : List (Argument ℕ RawFd)) (w w' : Writer Fd)
      → write_args e dup args w ≡ (w', none)
      → (bs : List ℕ) × (brgs : List (Argument ℕ Fd)) × EncodesAll e brgs bs
        × DupArgs dup args brgs
        × Wrote w.slice w'.slice bs
        × (w'.fds ≡ w.fds ++ fds_of brgs)
  write_args_lem [] w w' h =
      let e' : w ≡ w' = unfold write_args in ap (λ p. p.0) h in
      (
        [],
        [],
        refl,
        tt,
        rw (← e') (record { written = sym (append-nil _); room = omega arith }),
        rw (← e') (sym (append-nil w.fds)),
      )
  write_args_lem (a ∷ args) w w' h =
      let (v, p, q) = write_args_cases a args w w' h in
      let (bs, b, enc, d, wrote, same) = write_arg_lem a w v p in
      let (cs, brgs, encs, ds, wrotes, sames) = write_args_lem args v w' q in
      (
        bs ++ cs,
        b ∷ brgs,
        (bs, cs, refl, enc, encs),
        (d, ds),
        Wrote-trans w.slice v.slice w'.slice bs cs wrote wrotes,
        sames ∙ rw same (append_assoc w.fds (fd_of b) (fds_of brgs)),
      )
