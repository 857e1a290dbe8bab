-- ===== src/Client/Dispatch/Errors.antt =====
-- The errors that `dispatch_events` returns.
use wayland_rs.Common.{
  ℕ, zero, suc, ◌≡◌, refl, ◌⊎◌, Bool-cases, inl, inr, Bool, Option, none, some, arith, ◌==◌, Result,
  ok, err, Outcome, returns, fails, panics,
}
use wayland_rs.Common.Post.{Post}
use wayland_rs.Common.Word.{Endian}
use wayland_rs.Io.{IoResult, would_block, errno}
use wayland_rs.Protocol.{Message}
use wayland_rs.Protocol.Interfaces.{Interface}
use wayland_rs.Wire.{MessageParseError, missing_data, missing_fd, malformed}
use wayland_rs.Socket.{BufferedSocket}
use wayland_rs.Socket.System.{Kernel}
use wayland_rs.Client.State.{ObjectId, WaylandError, io, ProtocolState, store_and_return_error}
use wayland_rs.Client.Dispatch.{
  Turn, again, stop, handled, refilled, after_read, turn, dispatch_loop, begin_dispatch,
  dispatch_events,
}
use wayland_rs.Client.Dispatch.Kept.{on_message-Keeps, Stored}

module _ (statics : ℕ → Interface) (e : Endian) {Fd U : Type 0} (k : Kernel Fd)
    (event : U
      → Message ObjectId Fd
      → ProtocolState k.Sys Fd U
      → ProtocolState k.Sys Fd U × Option U) where
  open k use {Sys}

  -- Of a result: if it is an error, there was nothing to read, or the error is the stored one.
  abbrev Recorded :
      {A : Type 0}
      → Outcome (ProtocolState Sys Fd U × A) (ProtocolState Sys Fd U × WaylandError)
      → Type 0
  Recorded (fails (t, x)) = (x ≡ io would_block) ⊎ (t.last_error ≡ some x)
  Recorded _ = Unit {0}

  abbrev TurnRecorded : Turn (ProtocolState Sys Fd U) → Type 0
  TurnRecorded (again c s) = Unit {0}
  TurnRecorded (stop r) = Recorded r

  refilled-Recorded :
      (d : ℕ) (s : ProtocolState Sys Fd U) (r : BufferedSocket Sys Fd × IoResult (Unit {0}))
      → TurnRecorded (refilled statics e k d s r)
  unfolding refilled store_and_return_error
  refilled-Recorded d s (b, ok x) = tt
  refilled-Recorded d s (b, err would_block) = elim (Bool-cases (d == 0)) [
    | inl p ↦ rw p (inl refl)
    | inr p ↦ rw p tt
  ]
  refilled-Recorded d s (b, err (errno n)) = inr refl

  handled-Recorded :
      (o : Outcome (ProtocolState Sys Fd U × Bool) (ProtocolState Sys Fd U × WaylandError))
      → Post (λ t _. Unit {0}) (Stored statics (λ _. Unit {0})) o
      → TurnRecorded (handled statics e k o)
  unfolding handled
  handled-Recorded (returns (s, c)) p = tt
  handled-Recorded (fails (t, x)) p = inr p.1
  handled-Recorded panics p = tt

  after_read-Recorded :
      (d : ℕ) (s : ProtocolState Sys Fd U)
      → (r : BufferedSocket Sys Fd × Result (Message ℕ Fd) MessageParseError)
      → TurnRecorded (after_read statics e k event d s r)
  unfolding after_read store_and_return_error
  after_read-Recorded d s (b, ok m) = handled-Recorded _ (
      on_message-Keeps statics (λ _. Unit {0}) event (λ u m s p. tt) m (record s { socket = b }) tt)
  after_read-Recorded d s (b, err missing_data) = refilled-Recorded d (record s { socket = b }) _
  after_read-Recorded d s (b, err missing_fd) = refilled-Recorded d (record s { socket = b }) _
  after_read-Recorded d s (b, err malformed) = inr refl

  next-Recorded :
      (fuel d : ℕ) (s : ProtocolState Sys Fd U) (t : Turn (ProtocolState Sys Fd U))
      → (r : Outcome (ProtocolState Sys Fd U × ℕ) (ProtocolState Sys Fd U × WaylandError))
      → ((d' : ℕ) (s' : ProtocolState Sys Fd U)
          → dispatch_loop statics e k event fuel d' s' ≡ some r
          → Recorded r)
      → turn statics e k event d s ≡ t
      → TurnRecorded t
      → dispatch_loop statics e k event (suc fuel) d s ≡ some r
      → Recorded r
  unfolding dispatch_loop
  next-Recorded fuel d s (stop q) r ih p w h =
      let same : q ≡ r = ground (arith, rw (p, dispatch_loop) at h) in rw (← same) w
  next-Recorded fuel d s (again c s') r ih p w h = ih _ s' (rw (p, dispatch_loop) at h)

  loop-Recorded :
      (fuel d : ℕ) (s : ProtocolState Sys Fd U)
      → (r : Outcome (ProtocolState Sys Fd U × ℕ) (ProtocolState Sys Fd U × WaylandError))
      → dispatch_loop statics e k event fuel d s ≡ some r
      → Recorded r
  loop-Recorded zero d s r h = absurd (unfold dispatch_loop in ground arith)
  loop-Recorded (suc fuel) d s r h =
      next-Recorded fuel d s (turn statics e k event d s) r
        (λ d' s' q. loop-Recorded fuel d' s' r q) refl (unfold turn in after_read-Recorded d s _) h

  begin-Recorded :
      (fuel : ℕ) (s : ProtocolState Sys Fd U) (o : Option WaylandError)
      → (r : Outcome (ProtocolState Sys Fd U × ℕ) (ProtocolState Sys Fd U × WaylandError))
      → s.last_error ≡ o
      → begin_dispatch statics e k event fuel s o ≡ some r
      → Recorded r
  unfolding begin_dispatch
  begin-Recorded fuel s (some x) r p h =
      let same : fails (s, x) ≡ r = ground (arith, h) in rw (← same) (inr p)
  begin-Recorded fuel s none r p h = loop-Recorded fuel 0 s r h

  -- Every error of `dispatch_events`, unless it is the `WouldBlock` of an empty socket, is stored as
  -- the last error of the connection, whatever the callback does.
  pub dispatch_events_stores :
      (fuel : ℕ) (s t : ProtocolState Sys Fd U) (x : WaylandError)
      → dispatch_events statics e k event fuel s ≡ some (fails (t, x))
      → (x ≡ io would_block) ⊎ (t.last_error ≡ some x)
  unfolding dispatch_events
  dispatch_events_stores fuel s t x h = begin-Recorded fuel s s.last_error (fails (t, x)) refl h
