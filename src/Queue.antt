-- ===== src/Queue.antt =====
-- `EventQueueInner` of wayland-client/src/event_queue.rs: the events that wait for the program, the guards
-- that hold them back, and the waker of the thread or task that waits for them.
pub mod Wakeup
pub mod Order
pub mod Polling
use wayland_rs.Common.{
  ℕ, zero, suc, ◌+◌, ◌-◌, ◌%◌, ◌^◌, Bool, true, false, not, ◌&&◌, Option, none, some, List, [], ◌∷◌,
  ◌++◌, ◌==◌, if◌then◌else◌, Result, ok, err,
}

-- `woken` collects the wakers that `wake` has been called on.
pub record EventQueueInner (E W : Type 0) : Type 0 where
  pub queue : List E
  pub freeze_count : ℕ
  pub waker : Option W
  pub woken : List W

-- What `try_next` does at a look at the queue: it waits, or it gives what it has taken from the front.
pub data Next (E : Type 0) : Type 0 where
  waits : Next E
  next : Option E → Next E

-- How a dispatch ends: with a number of events, with an error of a callback, or it waits for a guard.
pub data Dispatched (X : Type 0) : Type 0 where
  finished : ℕ → Dispatched X
  failed : X → Dispatched X
  blocked : Dispatched X

unfoldable pub is_empty : {E : Type 0} → List E → Bool
is_empty [] = true
is_empty (e ∷ es) = false

module _ {E W : Type 0} where
  unfoldable pub new_queue : EventQueueInner E W
  new_queue = record { queue = []; freeze_count = 0; waker = none; woken = [] }

  -- `if let Some(waker) = lock.waker.take() { waker.wake() }`
  unfoldable pub wake : EventQueueInner E W → EventQueueInner E W
  wake q = elim q.waker [ none ↦ q | some w ↦ record q { waker = none; woken = q.woken ++ w ∷ [] } ]

  unfoldable pub enqueue_event : E → EventQueueInner E W → EventQueueInner E W
  unfolding wake
  enqueue_event e q =
      let pushed = record q { queue = q.queue ++ e ∷ [] } in
      if q.freeze_count == 0 then wake pushed else pushed

  unfoldable pub freeze : EventQueueInner E W → EventQueueInner E W
  freeze q = record q { freeze_count = (q.freeze_count + 1) % 2 ^ 64 }

  -- The drop of a guard.
  unfoldable pub unfreeze : EventQueueInner E W → EventQueueInner E W
  unfolding wake is_empty
  unfreeze q =
      let left = record q { freeze_count = (q.freeze_count + (2 ^ 64 - 1)) % 2 ^ 64 } in
      if left.freeze_count == 0 && not (is_empty left.queue) then wake left else left

  pop_front : EventQueueInner E W → List E → EventQueueInner E W × Option E
  pop_front q [] = (q, none)
  pop_front q (e ∷ es) = (record q { queue = es }, some e)

  -- The look of a thread that has been woken, with the waker `w`.
  unfoldable pub look_again : W → EventQueueInner E W → EventQueueInner E W × Next E
  unfolding pop_front
  look_again w q =
      if not (q.freeze_count == 0)
      then (record q { waker = some w }, waits)
      else let (q', e) = pop_front q q.queue in (q', next e)

  unfoldable pub try_next : W → EventQueueInner E W → EventQueueInner E W × Next E
  unfolding look_again pop_front is_empty
  try_next w q =
      if not (q.freeze_count == 0) && not (is_empty q.queue)
      then look_again w q
      else let (q', e) = pop_front q q.queue in (q', next e)

  parked : W → EventQueueInner E W × Option E → EventQueueInner E W × Option E
  parked w (q, none) = (record q { waker = some w }, none)
  parked w (q, some e) = (q, some e)

  -- A turn of `poll_dispatch_pending` with the task's waker; `none` is `Pending`.
  unfoldable pub poll_next : W → EventQueueInner E W → EventQueueInner E W × Option E
  unfolding pop_front parked
  poll_next w q =
      if not (q.freeze_count == 0)
      then (record q { waker = some w }, none)
      else parked w (pop_front q q.queue)

  -- The callback of an event gets the program's data; it, and other threads meanwhile, may change the
  -- queue.
  module _ {S X : Type 0}
      (callback : E
        → S × EventQueueInner E W
        → (S × EventQueueInner E W) × Result (Unit {0}) X) where
    -- A turn of `dispatching_impl` on the state and the number of events.
    called :
        S × EventQueueInner E W
        → (S × EventQueueInner E W) × Result (Unit {0}) X
        → Result (S × EventQueueInner E W) ((S × EventQueueInner E W) × Dispatched X)
    called s (t, ok x) = ok t
    called s (t, err x) = err (t, failed x)

    dispatch_turn :
        W
        → ℕ
        → S × EventQueueInner E W
        → Result (S × EventQueueInner E W) ((S × EventQueueInner E W) × Dispatched X)
    unfolding called
    dispatch_turn w n (s, q) =
        let (q', found) = try_next w q in
        elim found [
          | waits ↦ err ((s, q'), blocked)
          | next none ↦ err ((s, q'), finished n)
          | next (some e) ↦ called (s, q') (callback e (s, q'))
        ]

    -- `none` means that the fuel ran out. `n` counts from what `dispatch_inner_queue` returned, and from
    -- zero if that failed.
    unfoldable pub dispatching_impl :
        ℕ → W → ℕ → S × EventQueueInner E W → Option ((S × EventQueueInner E W) × Dispatched X)
    unfolding dispatch_turn
    dispatching_impl zero w n s = none
    dispatching_impl (suc fuel) w n s = elim (dispatch_turn w n s) [
      | ok t ↦ dispatching_impl fuel w (n + 1) t
      | err r ↦ some r
    ]
