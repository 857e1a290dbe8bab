-- ===== src/Server/Requests/Termination.antt =====
-- The loop of `next_request` ends: a turn that goes on has read bytes that the peer sent.
use wayland_rs.Common.{
  if◌then◌else◌, Option, ℕ, zero, suc, ◌<◌, ◌≡◌, refl, Bool, true, false, some, arith, Result, ok,
  err, Outcome,
}
use wayland_rs.Io.{IoError, IoResult}
use wayland_rs.Protocol.{Message}
use wayland_rs.Wire.{MessageParseError, missing_data, missing_fd, malformed}
use wayland_rs.Map.{Object}
use wayland_rs.Socket.{BufferedSocket, read_one_message, fill_incoming_buffers}
use wayland_rs.Socket.System.{IsStream}
use wayland_rs.Socket.Invariant.{Inv}
use wayland_rs.Client.Dispatch.Termination.{
  IsFinite, measure, Bounded, unread-Bounded, filled-Bounded,
}
use wayland_rs.Server.Client.{ServerData, Host, Client}
use wayland_rs.Server.Requests.{
  request_signature, refill, after_request, request_turn, request_loop, next_request,
}

-- A result that is there at once, or after a loop that ends.
either_ends :
    {A : Type 0} (b : Bool) (a : A) (o : Option A)
    → (r : A) × (o ≡ some r)
    → (r : A) × ((if b then some a else o) ≡ some r)
either_ends true a o h = (a, refl)
either_ends false a o h = h

module _ {Fd : Type 0} (host : Host ℕ Fd) (law : IsStream host.kernel)
    (finite : IsFinite host.kernel) where
  open host use {statics, endian, kernel}
  open kernel use {Sys}

  -- What a turn of the loop of `next_request` gives at its end.
  abbrev Ended : (U V : Type 0) → Type 0
  Ended U V =
      Outcome (Client Sys Fd U V × (Message ℕ Fd × Object (ServerData U)))
        (Client Sys Fd U V × IoError)

  module _ {U V : Type 0} where
    -- A turn that goes on leaves less to read than it found.
    abbrev Shrinks : ℕ → Result (Client Sys Fd U V) (Ended U V) → Type 0
    Shrinks n (ok c) = (j : ℕ) × (j < n) × Bounded kernel finite j c.socket
    Shrinks n (err r) = Unit {0}

    refill-Shrinks :
        (n : ℕ) (c : Client Sys Fd U V) (b : BufferedSocket Sys Fd)
        → (r : BufferedSocket Sys Fd × IoResult (Unit {0})) → fill_incoming_buffers kernel b ≡ r
        → Bounded kernel finite n b
        → Shrinks n (refill host c r)
    unfolding refill
    refill-Shrinks n c b (b', ok x) h v = filled-Bounded kernel law finite b b' n h v
    refill-Shrinks n c b (b', err x) h v = tt

    after_request-Shrinks :
        (n : ℕ) (c : Client Sys Fd U V)
        → (r : BufferedSocket Sys Fd × Result (Message ℕ Fd) MessageParseError)
        → read_one_message endian (request_signature statics c.map) c.socket ≡ r
        → Bounded kernel finite n c.socket
        → Shrinks n (after_request host c r)
    unfolding after_request
    after_request-Shrinks n c (b, ok m) h v = tt
    after_request-Shrinks n c (b, err missing_data) h v =
        refill-Shrinks n (record c { socket = b }) b _ refl
          (unread-Bounded endian kernel finite _ c.socket b missing_data n h v)
    after_request-Shrinks n c (b, err missing_fd) h v =
        refill-Shrinks n (record c { socket = b }) b _ refl
          (unread-Bounded endian kernel finite _ c.socket b missing_fd n h v)
    after_request-Shrinks n c (b, err malformed) h v = tt

    next_ends :
        (fuel n : ℕ) (c : Client Sys Fd U V) (t : Result (Client Sys Fd U V) (Ended U V))
        → ((j : ℕ) (c' : Client Sys Fd U V)
            → j < n
            → Bounded kernel finite j c'.socket
            → (r : Ended U V) × (request_loop host fuel c' ≡ some r))
        → request_turn host c ≡ t
        → Shrinks n t
        → (r : Ended U V) × (request_loop host (suc fuel) c ≡ some r)
    unfolding request_loop
    next_ends fuel n c (err r) ends p q = (r, rw (p, request_loop))
    next_ends fuel n c (ok c') ends p (j, less, w) =
        let (r, done) = ends j c' less w in (r, rw (p, request_loop) done)

    loop_ends :
        (fuel n : ℕ) (c : Client Sys Fd U V)
        → n < fuel
        → Bounded kernel finite n c.socket
        → (r : Ended U V) × (request_loop host fuel c ≡ some r)
    loop_ends zero n c l v = absurd (omega arith)
    loop_ends (suc fuel) n c l v =
        next_ends fuel n c (request_turn host c)
          (λ j c' less w. loop_ends fuel j c' (omega arith) w) refl
          (unfold request_turn in after_request-Shrinks n c _ refl v)

    -- `next_request` ends whatever the client sends: with more fuel than twice the bytes that are
    -- still to arrive and those that are unread, it gives a result. Both buffers of the client's
    -- socket are in order.
    pub next_request_ends :
        (fuel : ℕ) (c : Client Sys Fd U V)
        → Inv c.socket
        → measure kernel finite c.socket < fuel
        → (r : Ended U V) × (next_request host fuel c ≡ some r)
    unfolding next_request
    next_request_ends fuel c v l = either_ends c.killed _ _ (
        loop_ends fuel (measure kernel finite c.socket) c l
          (record { valid = v; bound = omega arith }))
