-- ===== src/Socket/Stream.antt =====
-- What a socket has been handed: the bytes that the kernel took, and those that wait in `out_data`;
-- likewise the descriptors.
use wayland_rs.Common.{
  ℕ, ◌≤◌, ◌≡◌, refl, sym, ap, ◌∙◌, Bool-cases, ◌⊎◌, inl, inr, Bool, true, false, List, [], ◌++◌,
  append-nil, append_assoc, arith, length, take, drop, take-append-drop, Result, ok, err,
}
use mathlib.Core.Path.{subst}
use wayland_rs.Common.Word.{Endian}
use wayland_rs.Protocol.{Message}
use wayland_rs.Io.{IoError, IoResult, would_block, errno}
use wayland_rs.Wire.{MessageWriteError, buffer_too_small, dup_fd_failed, write_to_buffers}
use wayland_rs.Wire.Encoding.{fds_of}
use wayland_rs.Wire.Pushed.{Begins, write_to_buffers-Pushed}
use wayland_rs.Wire.RoundTrip.{EncodesMessage, DupMessage, write_to_buffers-Sent}
use wayland_rs.Socket.{
  BufferedSocket, max_bytes_out, flush, sent_part, is_empty, attempted, attempt_write_message,
  second_attempt, after_flush, first_attempt, write_message,
}
use wayland_rs.Socket.System.{Kernel, IsStream}
use wayland_rs.Socket.Bytes.{
  advance_offset, move_to_front, get_contents, get_writable_storage, advance_offset-IsValid,
  get_contents-move_to_front, get_contents-advance_offset, get_contents-write,
  get_contents-put_writable, length-get_writable,
}
use wayland_rs.Socket.Invariant.{Inv, flush-Inv, attempt-Inv}

module _ {Fd : Type 0} (k : Kernel Fd) (law : IsStream k) where
  open k use {Sys, sendmsg}

  abbrev pub handed : BufferedSocket Sys Fd → List ℕ
  handed s = law.sent s.socket ++ get_contents s.out_data

  abbrev pub handed_fds : BufferedSocket Sys Fd → List Fd
  handed_fds s = law.sent_fds s.socket ++ s.out_fds

  sent_part-handed :
      (s : BufferedSocket Sys Fd) (r : Sys × IoResult ℕ)
      → sendmsg s.socket (get_contents s.out_data) s.out_fds ≡ r
      → Inv s
      → handed (sent_part k s r).0 ≡ handed s
  unfolding sent_part
  sent_part-handed s (socket, err x) e v =
      ap (λ b. b ++ get_contents s.out_data) (law.send_err s.socket socket _ _ x e).0
  sent_part-handed s (socket, ok n) e v =
      let bytes : List ℕ = get_contents s.out_data in
      let bound : n ≤ length bytes = law.send_bound s.socket socket _ _ n e in
      let kept : get_contents (move_to_front (advance_offset s.out_data n)) ≡ drop n bytes =
        get_contents-move_to_front max_bytes_out (advance_offset s.out_data n)
          (advance_offset-IsValid max_bytes_out s.out_data v.out_valid n bound)
        ∙ get_contents-advance_offset max_bytes_out s.out_data v.out_valid n in
      rw (kept, (law.send_ok s.socket socket _ _ n e).0)
        (append_assoc (law.sent s.socket) (take n bytes) (drop n bytes)
          ∙ ap (λ b. law.sent s.socket ++ b) (take-append-drop n bytes))

  -- A flush, complete, partial or failed, loses, repeats and reorders no byte: what the kernel has
  -- taken and what still waits are together what they were.
  pub flush-handed : (s : BufferedSocket Sys Fd) → Inv s → handed (flush k s).0 ≡ handed s
  unfolding flush
  flush-handed s v = elim (Bool-cases (is_empty k (get_contents s.out_data))) [
    | inl e ↦ rw e
    | inr e ↦ rw e (sent_part-handed s _ refl v)
  ]

  sent_part-handed_fds :
      (s : BufferedSocket Sys Fd) (r : Sys × IoResult ℕ)
      → sendmsg s.socket (get_contents s.out_data) s.out_fds ≡ r
      → handed_fds (sent_part k s r).0 ≡ handed_fds s
  unfolding sent_part
  sent_part-handed_fds s (socket, err x) e =
      ap (λ b. b ++ s.out_fds) (law.send_err s.socket socket _ _ x e).1
  sent_part-handed_fds s (socket, ok n) e =
      append-nil (law.sent_fds socket) ∙ (law.send_ok s.socket socket _ _ n e).1

  -- The same of the descriptors.
  flush-handed_fds : (s : BufferedSocket Sys Fd) → handed_fds (flush k s).0 ≡ handed_fds s
  unfolding flush
  flush-handed_fds s = elim (Bool-cases (is_empty k (get_contents s.out_data))) [
    | inl e ↦ rw e
    | inr e ↦ rw e (sent_part-handed_fds s _ refl)
  ]

module _ (e : Endian) {RawFd Fd : Type 0} (dup : RawFd → IoResult Fd) (k : Kernel Fd)
    (law : IsStream k) where
  open k use {Sys}

  -- `s'` has been handed one encoded message more than `s`: `m`, with duplicated descriptors.
  record Handed (m : Message ℕ RawFd) (s s' : BufferedSocket Sys Fd) : Type 0 where
    received : Message ℕ Fd
    same : DupMessage dup m received
    bytes : List ℕ
    encodes : EncodesMessage e received bytes
    more : handed k law s' ≡ handed k law s ++ bytes
    more_fds : handed_fds k law s' ≡ handed_fds k law s ++ fds_of received.args

  -- The same, where the descriptors of the message may follow on some of them, `repeated`, that the
  -- first attempt has pushed before it ended for want of room.
  pub record Queued (m : Message ℕ RawFd) (s s' : BufferedSocket Sys Fd) : Type 0 where
    pub received : Message ℕ Fd
    pub same : DupMessage dup m received
    pub bytes : List ℕ
    pub encodes : EncodesMessage e received bytes
    pub more : handed k law s' ≡ handed k law s ++ bytes
    pub repeated : List Fd
    pub others : List Fd
    pub begins : repeated ++ others ≡ fds_of received.args
    pub more_fds : handed_fds k law s' ≡ (handed_fds k law s ++ repeated) ++ fds_of received.args
    pub once : (repeated ≡ []) ⊎ ((attempt_write_message e dup m s).1 ≡ ok false)

  -- `s'` has been handed no byte more than `s`, and the first descriptors of `m` only.
  record Begun (m : Message ℕ RawFd) (s s' : BufferedSocket Sys Fd) : Type 0 where
    same_bytes : handed k law s' ≡ handed k law s
    part : List Fd
    begins : Begins dup m.args part
    more_fds : handed_fds k law s' ≡ handed_fds k law s ++ part

  -- What an attempt does, by its result.
  abbrev Tried :
      Message ℕ RawFd → BufferedSocket Sys Fd → BufferedSocket Sys Fd × IoResult Bool → Type 0
  Tried m s (s', ok true) = Handed m s s'
  Tried m s (s', ok false) = Begun m s s'
  Tried m s (s', err x) = handed k law s' ≡ handed k law s

  abbrev Write :
      Message ℕ RawFd → BufferedSocket Sys Fd → BufferedSocket Sys Fd × IoResult (Unit {0}) → Type 0
  Write m s (s', ok _) = Queued m s s'
  Write m s (s', err x) = handed k law s' ≡ handed k law s

  attempted-Tried :
      (m : Message ℕ RawFd) (s : BufferedSocket Sys Fd)
      → (r : List ℕ × List Fd × Result ℕ MessageWriteError)
      → write_to_buffers e dup m (get_writable_storage s.out_data) s.out_fds ≡ r
      → Inv s
      → Tried m s (attempted e dup s r)
  unfolding attempted
  attempted-Tried m s (storage, fds, ok n) p v =
      let room = length-get_writable max_bytes_out s.out_data v.out_valid in
      let w =
        write_to_buffers-Sent e dup m (get_writable_storage s.out_data) s.out_fds (omega arith) p in
      record {
        received = w.received;
        same = w.same;
        bytes = w.bytes;
        encodes = w.encodes;
        more =
            rw (w.front, ← w.size)
              (ap (λ b. law.sent s.socket ++ b)
                  (get_contents-write max_bytes_out s.out_data v.out_valid w.bytes w.tail)
                ∙ sym (append_assoc (law.sent s.socket) (get_contents s.out_data) w.bytes));
        more_fds =
            ap (λ b. law.sent_fds s.socket ++ b) w.pushed
            ∙ sym (append_assoc (law.sent_fds s.socket) s.out_fds (fds_of w.received.args));
      }
  attempted-Tried m s (storage, fds, err buffer_too_small) p v =
      let w = write_to_buffers-Pushed dup e m (get_writable_storage s.out_data) s.out_fds p in
      record {
        same_bytes =
            ap (λ b. law.sent s.socket ++ b)
              (get_contents-put_writable max_bytes_out s.out_data v.out_valid storage);
        part = w.part;
        begins = w.begins;
        more_fds =
            ap (λ b. law.sent_fds s.socket ++ b) w.more
            ∙ sym (append_assoc (law.sent_fds s.socket) s.out_fds w.part);
      }
  attempted-Tried m s (storage, fds, err (dup_fd_failed x)) p v =
      ap (λ b. law.sent s.socket ++ b)
        (get_contents-put_writable max_bytes_out s.out_data v.out_valid storage)

  attempt-Tried :
      (m : Message ℕ RawFd) (s : BufferedSocket Sys Fd)
      → Inv s
      → Tried m s (attempt_write_message e dup m s)
  unfolding attempt_write_message
  attempt-Tried m s v = attempted-Tried m s _ refl v

  -- An attempt after a first one had no room, and a flush left `t`.
  second-Write :
      (m : Message ℕ RawFd) (s t : BufferedSocket Sys Fd)
      (r : BufferedSocket Sys Fd × IoResult Bool)
      → (attempt_write_message e dup m s).1 ≡ ok false
      → Begun m s t
      → Tried m t r
      → Write m s (second_attempt e dup k r)
  unfolding second_attempt
  second-Write m s t (u, ok true) full b q =
      let (others, begins) = b.begins q.received.args q.same.args in
      record {
        received = q.received;
        same = q.same;
        bytes = q.bytes;
        encodes = q.encodes;
        more = q.more ∙ ap (λ x. x ++ q.bytes) b.same_bytes;
        repeated = b.part;
        others = others;
        begins = begins;
        more_fds = q.more_fds ∙ ap (λ x. x ++ fds_of q.received.args) b.more_fds;
        once = inr full;
      }
  second-Write m s t (u, ok false) full b q = q.same_bytes ∙ b.same_bytes
  second-Write m s t (u, err x) full b q = q ∙ b.same_bytes

  after_flush-Write :
      (m : Message ℕ RawFd) (s : BufferedSocket Sys Fd)
      → (r : BufferedSocket Sys Fd × IoResult (Unit {0}))
      → (attempt_write_message e dup m s).1 ≡ ok false
      → Begun m s r.0
      → Inv r.0
      → Write m s (after_flush e dup k m r)
  unfolding after_flush
  after_flush-Write m s (t, ok _) full b v = second-Write m s t _ full b (attempt-Tried m t v)
  after_flush-Write m s (t, err would_block) full b v =
      second-Write m s t _ full b (attempt-Tried m t v)
  after_flush-Write m s (t, err (errno n)) full b v = b.same_bytes

  flush-Begun :
      (m : Message ℕ RawFd) (s t : BufferedSocket Sys Fd)
      → Inv t
      → Begun m s t
      → Begun m s (flush k t).0
  flush-Begun m s t v b = record {
    same_bytes = flush-handed k law t v ∙ b.same_bytes;
    part = b.part;
    begins = b.begins;
    more_fds = flush-handed_fds k law t ∙ b.more_fds;
  }

  first_attempt-Write :
      (m : Message ℕ RawFd) (s : BufferedSocket Sys Fd) (r : BufferedSocket Sys Fd × IoResult Bool)
      → attempt_write_message e dup m s ≡ r
      → Inv r.0
      → Tried m s r
      → Write m s (first_attempt e dup k m r)
  unfolding first_attempt
  first_attempt-Write m s (t, ok true) p v q = record {
    received = q.received;
    same = q.same;
    bytes = q.bytes;
    encodes = q.encodes;
    more = q.more;
    repeated = [];
    others = fds_of q.received.args;
    begins = refl;
    more_fds =
        q.more_fds ∙ ap (λ x. x ++ fds_of q.received.args) (sym (append-nil (handed_fds k law s)));
    once = inl refl;
  }
  first_attempt-Write m s (t, ok false) p v b =
      after_flush-Write m s (flush k t) (ap (λ z. z.1) p) (flush-Begun m s t v b)
        (flush-Inv k law t v)
  first_attempt-Write m s (t, err x) p v q = q

  write_message-Write :
      (m : Message ℕ RawFd) (s : BufferedSocket Sys Fd)
      → Inv s
      → Write m s (write_message e dup k m s)
  unfolding write_message
  write_message-Write m s v =
      first_attempt-Write m s _ refl (attempt-Inv e dup m s v) (attempt-Tried m s v)

  -- A write that succeeds, with or without a flush of its own, hands over one encoding of the message
  -- behind all earlier bytes, and the duplicates of its descriptors, all of them in order, behind all
  -- earlier descriptors. If the first attempt had no room, the first few of the duplicates may stand
  -- there a second time, before these; otherwise nothing else is handed over.
  pub write_message-Queued :
      (m : Message ℕ RawFd) (s s' : BufferedSocket Sys Fd)
      → Inv s
      → write_message e dup k m s ≡ (s', ok tt)
      → Queued m s s'
  write_message-Queued m s s' v h = subst (Write m s) h (write_message-Write m s v)

  -- A write that fails, whatever the error, hands over no byte of its message.
  pub write_message-failed :
      (m : Message ℕ RawFd) (s s' : BufferedSocket Sys Fd) (x : IoError)
      → Inv s
      → write_message e dup k m s ≡ (s', err x)
      → handed k law s' ≡ handed k law s
  write_message-failed m s s' x v h = subst (Write m s) h (write_message-Write m s v)
