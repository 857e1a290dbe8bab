-- ===== src/Client/Dispatch/Termination.antt =====
-- The loop of `dispatch_events` ends: every turn that goes on reads a message or fills the buffer.
use wayland_rs.Common.{
  ℕ, zero, suc, ◌+◌, ◌*◌, ◌≤◌, ◌<◌, ◌≡◌, refl, sym, ap, Bool-cases, inl, inr, Bool, Option, none,
  some, List, ◌++◌, arith, ◌==◌, if◌then◌else◌, length, length-append, length-drop, drop, Result,
  ok, err, Outcome, returns, fails, panics,
}
use wayland_rs.Common.Post.{Post}
use wayland_rs.Common.Word.{Endian}
use wayland_rs.Io.{IoResult, is_would_block}
use wayland_rs.Protocol.{Message}
use wayland_rs.Protocol.Interfaces.{Interface}
use wayland_rs.Wire.{MessageParseError, missing_data, missing_fd, malformed}
use wayland_rs.Socket.{BufferedSocket, read_one_message, fill_incoming_buffers}
use wayland_rs.Socket.System.{Kernel, IsStream}
use wayland_rs.Socket.Bytes.{get_contents}
use wayland_rs.Socket.Invariant.{Inv, read_one_message-Inv, fill_incoming_buffers-Inv}
use wayland_rs.Socket.Reading.{
  read_one_message-Taken, read_one_message-Unread, fill_incoming_buffers-Filled,
}
use wayland_rs.Client.State.{ObjectId, WaylandError, ProtocolState}
use wayland_rs.Client.Dispatch.{
  Turn, again, stop, handled, refilled, after_read, turn, event_signature, dispatch_loop,
  begin_dispatch, dispatch_events,
}
use wayland_rs.Client.Dispatch.Kept.{on_message-Keeps, Stored}

-- A peer that sends so many bytes more: what `recvmsg` returns is taken from those.
pub record IsFinite {Fd : Type 0} (k : Kernel Fd) : Type 0 where
  pub pending : k.Sys → ℕ
  pub recv_less :
      (s s' : k.Sys) (room : ℕ) (bytes : List ℕ) (fds : List Fd)
      → k.recvmsg s room ≡ (s', ok (bytes, fds))
      → pending s' + length bytes ≤ pending s

module _ {Fd : Type 0} (k : Kernel Fd) (finite : IsFinite k) where
  open k use {Sys}

  -- Each byte counts once while it is unread, and twice before it arrives.
  abbrev pub measure : BufferedSocket Sys Fd → ℕ
  measure b = 2 * finite.pending b.socket + length (get_contents b.in_data)

  -- Both buffers are in order, and there is no more to read than `n`.
  pub record Bounded (n : ℕ) (b : BufferedSocket Sys Fd) : Type 0 where
    pub valid : Inv b
    pub bound : measure b ≤ n

module _ (e : Endian) {Fd : Type 0} (k : Kernel Fd) (finite : IsFinite k) where
  open k use {Sys}

  pub taken-Bounded :
      (sig : ℕ → ℕ → Option _) (b b' : BufferedSocket Sys Fd) (m : Message ℕ Fd) (n : ℕ)
      → read_one_message e sig b ≡ (b', ok m)
      → Bounded k finite n b
      → (j : ℕ) × (j < n) × Bounded k finite j b'
  taken-Bounded sig b b' m n h v =
      let t = read_one_message-Taken e sig b b' m v.valid h in
      let left : length (get_contents b'.in_data) ≡ length (drop t.size (get_contents b.in_data)) =
        ap length t.left in
      let same : finite.pending b'.socket ≡ finite.pending b.socket =
        ap finite.pending t.same_socket in
      (
        measure k finite b',
        omega (
          arith,
          left,
          same,
          length-drop t.size (get_contents b.in_data),
          t.header,
          t.whole,
          v.bound,
        ),
        record {
          valid = rw (ap (λ q. q.0) (sym h)) (read_one_message-Inv e sig b v.valid);
          bound = omega arith;
        },
      )

  pub unread-Bounded :
      (sig : ℕ → ℕ → Option _) (b b' : BufferedSocket Sys Fd) (x : MessageParseError) (n : ℕ)
      → read_one_message e sig b ≡ (b', err x)
      → Bounded k finite n b
      → Bounded k finite n b'
  unread-Bounded sig b b' x n h v =
      let t = read_one_message-Unread e sig b b' x h in
      record {
        valid = rw (ap (λ q. q.0) (sym h)) (read_one_message-Inv e sig b v.valid);
        bound = rw (t.same_in, t.same_socket) v.bound;
      }

module _ {Fd : Type 0} (k : Kernel Fd) (law : IsStream k) (finite : IsFinite k) where
  open k use {Sys}

  pub filled-Bounded :
      (b b' : BufferedSocket Sys Fd) (n : ℕ)
      → fill_incoming_buffers k b ≡ (b', ok tt)
      → Bounded k finite n b
      → (j : ℕ) × (j < n) × Bounded k finite j b'
  filled-Bounded b b' n h v =
      let f = fill_incoming_buffers-Filled k law b b' v.valid h in
      let more : length (get_contents b'.in_data) ≡ length (get_contents b.in_data ++ f.bytes) =
        ap length f.more in
      (
        measure k finite b',
        omega (
          arith,
          more,
          length-append (get_contents b.in_data) f.bytes,
          finite.recv_less b.socket b'.socket f.room f.bytes f.fds f.call,
          f.some_byte,
          v.bound,
        ),
        record {
          valid = rw (ap (λ q. q.0) (sym h)) (fill_incoming_buffers-Inv k law b v.valid);
          bound = omega arith;
        },
      )

module _ (statics : ℕ → Interface) (e : Endian) {Fd U : Type 0} (k : Kernel Fd) (law : IsStream k)
    (finite : IsFinite k) where
  open k use {Sys}

  -- A turn that goes on leaves less than it found.
  abbrev Shrinks : ℕ → Turn (ProtocolState Sys Fd U) → Type 0
  Shrinks n (again c s) = (m : ℕ) × (m < n) × Bounded k finite m s.socket
  Shrinks n (stop r) = Unit {0}

  refilled-Shrinks :
      (d n : ℕ) (s : ProtocolState Sys Fd U) (r : BufferedSocket Sys Fd × IoResult (Unit {0}))
      → fill_incoming_buffers k s.socket ≡ r
      → Bounded k finite n s.socket
      → Shrinks n (refilled statics e k d s r)
  unfolding refilled
  refilled-Shrinks d n s (b, ok x) h v = filled-Bounded k law finite s.socket b n h v
  refilled-Shrinks d n s (b, err x) h v = elim (Bool-cases (is_would_block x)) [
    | inr p ↦ rw p tt
    | inl p ↦ elim (Bool-cases (d == 0)) [ inl q ↦ rw (p, q) tt | inr q ↦ rw (p, q) tt ]
  ]

  module _
      (event : U → Message ObjectId Fd → ProtocolState Sys Fd U → ProtocolState Sys Fd U × Option U)
      (calm : (n : ℕ) (u : U) (m : Message ObjectId Fd) (s : ProtocolState Sys Fd U)
        → Bounded k finite n s.socket
        → Bounded k finite n (event u m s).0.socket) where
    handled-Shrinks :
        (j n : ℕ)
        → (o : Outcome (ProtocolState Sys Fd U × Bool) (ProtocolState Sys Fd U × WaylandError))
        → j < n
        → Post (λ t _. Bounded k finite j t.socket) (Stored statics (Bounded k finite j)) o
        → Shrinks n (handled statics e k o)
    unfolding handled
    handled-Shrinks j n (returns (s, c)) l p = (j, l, p)
    handled-Shrinks j n (fails x) l p = tt
    handled-Shrinks j n panics l p = tt

    after_read-Shrinks :
        (d n : ℕ) (s : ProtocolState Sys Fd U)
        → (r : BufferedSocket Sys Fd × Result (Message ℕ Fd) MessageParseError)
        → read_one_message e (event_signature statics s.map) s.socket ≡ r
        → Bounded k finite n s.socket
        → Shrinks n (after_read statics e k event d s r)
    unfolding after_read
    after_read-Shrinks d n s (b, ok m) h v =
        let (j, less, w) = taken-Bounded e k finite _ s.socket b m n h v in
        handled-Shrinks j n _ less (
          on_message-Keeps statics (Bounded k finite j) event (calm j) m (record s { socket = b })
            w)
    after_read-Shrinks d n s (b, err missing_data) h v =
        refilled-Shrinks d n (record s { socket = b }) _ refl
          (unread-Bounded e k finite _ s.socket b missing_data n h v)
    after_read-Shrinks d n s (b, err missing_fd) h v =
        refilled-Shrinks d n (record s { socket = b }) _ refl
          (unread-Bounded e k finite _ s.socket b missing_fd n h v)
    after_read-Shrinks d n s (b, err malformed) h v = tt

    next_ends :
        (fuel n d : ℕ) (s : ProtocolState Sys Fd U) (t : Turn (ProtocolState Sys Fd U))
        → ((j d' : ℕ) (s' : ProtocolState Sys Fd U)
            → j < n
            → Bounded k finite j s'.socket
            → (r : _) × (dispatch_loop statics e k event fuel d' s' ≡ some r))
        → turn statics e k event d s ≡ t
        → Shrinks n t
        → (r : _) × (dispatch_loop statics e k event (suc fuel) d s ≡ some r)
    unfolding dispatch_loop
    next_ends fuel n d s (stop r) ends p q = (r, rw (p, dispatch_loop))
    next_ends fuel n d s (again c s') ends p (j, less, w) =
        let (r, done) = ends j (if c then d + 1 else d) s' less w in (r, rw (p, dispatch_loop) done)

    loop_ends :
        (fuel n d : ℕ) (s : ProtocolState Sys Fd U)
        → n < fuel
        → Bounded k finite n s.socket
        → (r : _) × (dispatch_loop statics e k event fuel d s ≡ some r)
    loop_ends zero n d s l v = absurd (omega arith)
    loop_ends (suc fuel) n d s l v =
        next_ends fuel n d s (turn statics e k event d s)
          (λ j d' s' less w. loop_ends fuel j d' s' (omega arith) w) refl
          (unfold turn in after_read-Shrinks d n s _ refl v)

    begin_ends :
        (fuel : ℕ) (s : ProtocolState Sys Fd U) (o : Option WaylandError)
        → Inv s.socket
        → measure k finite s.socket < fuel
        → (r : _) × (begin_dispatch statics e k event fuel s o ≡ some r)
    unfolding begin_dispatch
    begin_ends fuel s (some x) v l = (_, refl)
    begin_ends fuel s none v l =
        loop_ends fuel (measure k finite s.socket) 0 s l (record { valid = v; bound = omega arith })

    -- `dispatch_events` ends whatever the server sends: with more fuel than twice the bytes that are
    -- still to arrive and those that are unread, it gives a result. Both buffers of the socket are in
    -- order, and a callback leaves them so and no more to read than before.
    pub dispatch_events_ends :
        (fuel : ℕ) (s : ProtocolState Sys Fd U)
        → Inv s.socket
        → measure k finite s.socket < fuel
        → (r : _) × (dispatch_events statics e k event fuel s ≡ some r)
    unfolding dispatch_events
    dispatch_events_ends fuel s v l = begin_ends fuel s s.last_error v l
