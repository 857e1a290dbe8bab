-- ===== src/Socket/TooBig.antt =====
-- When a message is too big for `write_message`.
use wayland_rs.Common.{
  ℕ, ◌+◌, ◌≡◌, refl, Bool, true, false, Bool-cases, inl, inr, List, leb, arith, if◌then◌else◌,
  length, All, Result, ok, err,
}
use wayland_rs.Common.Word.{Endian}
use wayland_rs.Io.{IoResult, is_would_block, toobig}
use wayland_rs.Protocol.{Message}
use wayland_rs.Wire.{MessageWriteError, buffer_too_small, dup_fd_failed}
use wayland_rs.Wire.Size.{CanDup, size_args, write_to_buffers-size}
use wayland_rs.Socket.{
  BufferedSocket, flush, attempted, attempt_write_message, second_attempt, after_flush,
  first_attempt, write_message,
}
use wayland_rs.Socket.Bytes.{get_writable_storage}
use wayland_rs.Socket.System.{Kernel}

module _ (e : Endian) {RawFd Fd : Type 0} (dup : RawFd → IoResult Fd) (k : Kernel Fd) where
  open k use {Sys}

  -- The bytes for which the outgoing buffer has room.
  abbrev pub room : BufferedSocket Sys Fd → ℕ
  room s = length (get_writable_storage s.out_data)

  abbrev pub fits : Message ℕ RawFd → BufferedSocket Sys Fd → Bool
  fits m s = leb (8 + size_args m.args) (room s)

  -- The last word on a message, once the buffer has been flushed as far as possible.
  abbrev pub verdict : Message ℕ RawFd → BufferedSocket Sys Fd → IoResult (Unit {0})
  verdict m s = if fits m s then ok tt else err toobig

  abbrev pub after :
      Message ℕ RawFd → BufferedSocket Sys Fd × IoResult (Unit {0}) → IoResult (Unit {0})
  after m (s, ok x) = verdict m s
  after m (s, err x) = if is_would_block x then verdict m s else err x

  attempted-result :
      (s : BufferedSocket Sys Fd) (r : List ℕ × List Fd × Result ℕ MessageWriteError) (n : ℕ)
      (b : Bool)
      → r.2 ≡ (if b then ok n else err buffer_too_small)
      → (attempted e dup s r).1 ≡ ok b
  unfolding attempted
  attempted-result s (bytes, fds, ok i) n true h = refl
  attempted-result s (bytes, fds, ok i) n false h = absurd (ground arith)
  attempted-result s (bytes, fds, err buffer_too_small) n true h = absurd (ground arith)
  attempted-result s (bytes, fds, err buffer_too_small) n false h = refl
  attempted-result s (bytes, fds, err (dup_fd_failed x)) n true h = absurd (ground arith)
  attempted-result s (bytes, fds, err (dup_fd_failed x)) n false h = absurd cc

  module _ (m : Message ℕ RawFd) (can : All (CanDup e dup) m.args) where
    attempt-fits : (s : BufferedSocket Sys Fd) → (attempt_write_message e dup m s).1 ≡ ok (fits m s)
    unfolding attempt_write_message
    attempt-fits s =
        attempted-result s _ (8 + size_args m.args) (fits m s)
          (write_to_buffers-size e dup m (get_writable_storage s.out_data) s.out_fds can)

    second-result :
        (r : BufferedSocket Sys Fd × IoResult Bool) (b : Bool)
        → r.1 ≡ ok b
        → (second_attempt e dup k r).1 ≡ (if b then ok tt else err toobig)
    unfolding second_attempt
    second-result (t, ok true) true h = refl
    second-result (t, ok true) false h = absurd (ground arith)
    second-result (t, ok false) true h = absurd (ground arith)
    second-result (t, ok false) false h = refl
    second-result (t, err x) b h = absurd cc

    second-verdict :
        (s : BufferedSocket Sys Fd)
        → (second_attempt e dup k (attempt_write_message e dup m s)).1 ≡ verdict m s
    second-verdict s = second-result (attempt_write_message e dup m s) (fits m s) (attempt-fits s)

    after_flush-after :
        (r : BufferedSocket Sys Fd × IoResult (Unit {0})) → (after_flush e dup k m r).1 ≡ after m r
    unfolding after_flush
    after_flush-after (s, ok x) = second-verdict s
    after_flush-after (s, err x) = elim (Bool-cases (is_would_block x)) [
      | inl h ↦ rw h (second-verdict s)
      | inr h ↦ rw h refl
    ]

    first-result :
        (r : BufferedSocket Sys Fd × IoResult Bool) (b : Bool)
        → r.1 ≡ ok b
        → (first_attempt e dup k m r).1 ≡ (if b then ok tt else after m (flush k r.0))
    unfolding first_attempt
    first-result (t, ok true) true h = refl
    first-result (t, ok true) false h = absurd (ground arith)
    first-result (t, ok false) true h = absurd (ground arith)
    first-result (t, ok false) false h = after_flush-after (flush k t)
    first-result (t, err x) b h = absurd cc

    -- Where every descriptor can be duplicated, write_message succeeds at once when the message
    -- fits in the room of the outgoing buffer. Otherwise it flushes: an error of the flush other than
    -- WouldBlock is the result, and else the message is accepted if it fits in the room that there
    -- is now, and is too big if it does not.
    pub write_message-verdict :
        (s : BufferedSocket Sys Fd)
        → (write_message e dup k m s).1
          ≡ (if fits m s then ok tt else after m (flush k (attempt_write_message e dup m s).0))
    unfolding write_message
    write_message-verdict s =
        first-result (attempt_write_message e dup m s) (fits m s) (attempt-fits s)
