-- ===== src/Queue/Polling.antt =====
-- `poll_dispatch_pending` and the event handler of `QueueProxyData`, of wayland-client/src/event_queue.rs.
use wayland_rs.Common.{
  ℕ, zero, suc, Bool, false, not, ◌||◌, Option, none, some, List, [], ◌∷◌, if◌then◌else◌, Result,
  ok, err,
}
use wayland_rs.Protocol.{Argument, Message}
use wayland_rs.Client.State.{ObjectId, is_null}
use wayland_rs.Queue.{EventQueueInner, enqueue_event, poll_next}

-- `Poll<Result<Infallible, DispatchError>>`
pub data Polled (X : Type 0) : Type 0 where
  pending : Polled X
  ready : X → Polled X

module _ {E W S X : Type 0}
    (dispatch_inner_queue : S × EventQueueInner E W → (S × EventQueueInner E W) × Result ℕ X)
    (callback : E → S × EventQueueInner E W → (S × EventQueueInner E W) × Result (Unit {0}) X) where
  after_callback :
      (S × EventQueueInner E W) × Result (Unit {0}) X
      → Result (S × EventQueueInner E W) ((S × EventQueueInner E W) × Polled X)
  after_callback (s, ok x) = ok s
  after_callback (s, err x) = err (s, ready x)

  after_poll :
      S
      → EventQueueInner E W × Option E
      → Result (S × EventQueueInner E W) ((S × EventQueueInner E W) × Polled X)
  unfolding after_callback
  after_poll s (q, none) = err ((s, q), pending)
  after_poll s (q, some e) = after_callback (callback e (s, q))

  poll_turn :
      W
      → (S × EventQueueInner E W) × Result ℕ X
      → Result (S × EventQueueInner E W) ((S × EventQueueInner E W) × Polled X)
  unfolding after_poll
  poll_turn w (s, err x) = err (s, ready x)
  poll_turn w ((s, q), ok n) = after_poll s (poll_next w q)

  -- `none` means that the fuel ran out.
  unfoldable pub poll_dispatch_pending :
      ℕ → W → S × EventQueueInner E W → Option ((S × EventQueueInner E W) × Polled X)
  unfolding poll_turn
  poll_dispatch_pending zero w s = none
  poll_dispatch_pending (suc fuel) w s = elim (poll_turn w (dispatch_inner_queue s)) [
    | ok t ↦ poll_dispatch_pending fuel w t
    | err r ↦ some r
  ]

-- `matches!(arg, Argument::NewId(id) if !id.is_null())` of some argument
unfoldable pub creates_object : {Fd : Type 0} → List (Argument ObjectId Fd) → Bool
unfolding is_null
creates_object [] = false
creates_object (Argument.new_id o ∷ args) = not (is_null o) || creates_object args
creates_object (_ ∷ args) = creates_object args

module _ {Fd W D : Type 0} (event_created_child : ℕ → Option D) where
  -- `event_created_child` may panic, and then so does the handler, before it queues the event.
  unfoldable pub proxy_event :
      Message ObjectId Fd
      → EventQueueInner (Message ObjectId Fd) W
      → Option (EventQueueInner (Message ObjectId Fd) W × Option D)
  unfolding creates_object
  proxy_event msg q =
      if creates_object msg.args
      then elim (event_created_child msg.opcode) [
        | none ↦ none
        | some d ↦ some (enqueue_event msg q, some d)
      ]
      else some (enqueue_event msg q, none)
