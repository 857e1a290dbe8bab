-- ===== src/Wire/Pushed.antt =====
-- The descriptors that a `write_to_buffers` which ends with an error has pushed: `fds` keeps them.
use wayland_rs.Common.{
  ℕ, ◌≡◌, refl, sym, ap, ◌∙◌, none, some, List, [], ◌∷◌, ◌++◌, append_assoc, append-nil, arith, err,
  Bool-cases, inl, inr, Option, ltb, length, drop,
}
use wayland_rs.Protocol.{Argument, Message}
use wayland_rs.Io.{IoResult}
use wayland_rs.Common.Word.{Endian}
use wayland_rs.Wire.{
  MessageWriteError, Writer, in_slice, push_fd, write_arg, write_args, finish, write_to_buffers,
}
use wayland_rs.Wire.Encoding.{DupArg, DupArgs, fd_of, fds_of, write_arg_lem}

module _ {RawFd Fd : Type 0} (dup : RawFd → IoResult Fd) where
  -- `fds` are the first descriptors of every argument list that is the duplicate of `args`.
  abbrev pub Begins : List (Argument ℕ RawFd) → List Fd → Type 0
  Begins args fds =
      (brgs : List (Argument ℕ Fd))
      → DupArgs dup args brgs
      → (rest : List Fd) × (fds ++ rest ≡ fds_of brgs)

  -- `fds'` is `fds` with the first descriptors of `args` behind.
  pub record Pushed (args : List (Argument ℕ RawFd)) (fds fds' : List Fd) : Type 0 where
    pub part : List Fd
    pub begins : Begins args part
    pub more : fds' ≡ fds ++ part

  none-Pushed : (args : List (Argument ℕ RawFd)) (fds : List Fd) → Pushed args fds fds
  none-Pushed args fds = record {
    part = [];
    begins = λ brgs _. (fds_of brgs, refl);
    more = sym (append-nil fds);
  }

  -- A duplicate is one descriptor only.
  fd_of-DupArg :
      (a : Argument ℕ RawFd) (b c : Argument ℕ Fd)
      → DupArg dup a b
      → DupArg dup a c
      → fd_of b ≡ fd_of c
  fd_of-DupArg (Argument.int i) b c p q = ap fd_of (p ∙ sym q)
  fd_of-DupArg (Argument.uint i) b c p q = ap fd_of (p ∙ sym q)
  fd_of-DupArg (Argument.fixed i) b c p q = ap fd_of (p ∙ sym q)
  fd_of-DupArg (Argument.str i) b c p q = ap fd_of (p ∙ sym q)
  fd_of-DupArg (Argument.object i) b c p q = ap fd_of (p ∙ sym q)
  fd_of-DupArg (Argument.new_id i) b c p q = ap fd_of (p ∙ sym q)
  fd_of-DupArg (Argument.array i) b c p q = ap fd_of (p ∙ sym q)
  fd_of-DupArg (Argument.fd f) b c (d, p, p') (d', q, q') =
      let same : d ≡ d' = ground (arith, sym p ∙ q) in
      ap fd_of p' ∙ ap (λ x. x ∷ []) same ∙ sym (ap fd_of q')

  cons-Begins :
      (a : Argument ℕ RawFd) (args : List (Argument ℕ RawFd)) (b : Argument ℕ Fd) (fds : List Fd)
      → DupArg dup a b
      → Begins args fds
      → Begins (a ∷ args) (fd_of b ++ fds)
  cons-Begins a args b fds p h [] q = elim q [ ]
  cons-Begins a args b fds p h (c ∷ brgs) (q, qs) =
      let (rest, e) = h brgs qs in
      (
        rest,
        append_assoc (fd_of b) fds rest
            ∙ ap (λ x. fd_of b ++ x) e
            ∙ ap (λ x. x ++ fds_of brgs) (fd_of-DupArg a b c p q),
      )

  module _ (e : Endian) where
    -- An argument that fails pushes nothing.
    write_arg_failed :
        (a : Argument ℕ RawFd) (w w' : Writer Fd) (x : MessageWriteError)
        → write_arg e dup a w ≡ (w', some x)
        → w'.fds ≡ w.fds
    unfolding write_arg in_slice push_fd
    write_arg_failed (Argument.int i) w w' x h = ground arith
    write_arg_failed (Argument.uint i) w w' x h = ground arith
    write_arg_failed (Argument.fixed i) w w' x h = ground arith
    write_arg_failed (Argument.str none) w w' x h = ground arith
    write_arg_failed (Argument.str (some s)) w w' x h = ground arith
    write_arg_failed (Argument.object i) w w' x h = ground arith
    write_arg_failed (Argument.new_id i) w w' x h = ground arith
    write_arg_failed (Argument.array i) w w' x h = ground arith
    write_arg_failed (Argument.fd f) w w' x h = ground arith

    cons-Pushed :
        (a : Argument ℕ RawFd) (args : List (Argument ℕ RawFd)) (w w' : Writer Fd)
        → (x : MessageWriteError) (r : Writer Fd × Option MessageWriteError)
        → write_arg e dup a w ≡ r
        → elim r.1 [ some y ↦ (r.0, some y) | none ↦ write_args e dup args r.0 ] ≡ (w', some x)
        → (write_args e dup args r.0 ≡ (w', some x) → Pushed args r.0.fds w'.fds)
        → Pushed (a ∷ args) w.fds w'.fds
    cons-Pushed a args w w' x (v, some y) p q others =
        let same : w'.fds ≡ w.fds = ap (λ z. z.0.fds) (sym q) ∙ write_arg_failed a w v y p in
        rw same (none-Pushed (a ∷ args) w.fds)
    cons-Pushed a args w w' x (v, none) p q others =
        let (_, b, _, d, _, one) = write_arg_lem e dup a w v p in
        let tail = others q in
        record {
          part = fd_of b ++ tail.part;
          begins = cons-Begins a args b tail.part d tail.begins;
          more = tail.more ∙ ap (λ z. z ++ tail.part) one ∙ append_assoc w.fds (fd_of b) tail.part;
        }

    write_args_failed :
        (args : List (Argument ℕ RawFd)) (w w' : Writer Fd) (x : MessageWriteError)
        → write_args e dup args w ≡ (w', some x)
        → Pushed args w.fds w'.fds
    unfolding write_args
    write_args_failed [] w w' x h = absurd (ground arith)
    write_args_failed (a ∷ args) w w' x h =
        cons-Pushed a args w w' x (write_arg e dup a w) refl h
          (λ q. write_args_failed args (write_arg e dup a w).0 w' x q)

    finish-Pushed :
        (m : Message ℕ RawFd) (payload : List ℕ) (w : Writer Fd)
        → (r : Writer Fd × Option MessageWriteError)
        → {buf : List ℕ} {fds' : List Fd} {x : MessageWriteError} → write_args e dup m.args w ≡ r
        → finish e dup m payload r ≡ (buf, fds', err x)
        → Pushed m.args w.fds fds'
    unfolding finish
    finish-Pushed m payload w (v, some y) {fds' = fds'} p q =
        let same : fds' ≡ v.fds = ap (λ z. z.1) (sym q) in
        rw same (write_args_failed m.args w v y p)
    finish-Pushed m payload w (v, none) p q = absurd (ground arith)

    -- A write that ends with an error keeps the descriptors before, and pushes behind them the first
    -- ones of the message, as many as it has come to.
    pub write_to_buffers-Pushed :
        (m : Message ℕ RawFd) (payload : List ℕ) (fds : List Fd)
        → {buf : List ℕ} {fds' : List Fd} {x : MessageWriteError}
        → write_to_buffers e dup m payload fds ≡ (buf, fds', err x)
        → Pushed m.args fds fds'
    unfolding write_to_buffers
    write_to_buffers-Pushed m payload fds {buf = buf} {fds' = fds'} {x = x} h =
        elim (Bool-cases (ltb (length payload) 8)) [
          | inl short ↦ let same : fds' ≡ fds = ground arith in rw same (none-Pushed m.args fds)
          | inr room ↦
              let start : Writer Fd = record {
                slice = record { written = []; free = drop 8 payload };
                fds = fds;
              } in
              finish-Pushed m payload start (write_args e dup m.args start) {buf = buf}
                {fds' = fds'} {x = x} refl (ground arith)
        ]
