-- ===== src/Queue/Order.antt =====
-- The events are dispatched in the order in which they came.
use wayland_rs.Common.{
  ℕ, zero, suc, ◌+◌, ◌<◌, ◌≡◌, ap, ◌∙◌, Option, some, List, [], ◌∷◌, arith, length, Result, ok,
}
use wayland_rs.Queue.{EventQueueInner, finished, try_next, dispatching_impl}

-- The data after the callbacks of all events.
abbrev pub after_all : {E S : Type 0} → (E → S → S) → List E → S → S
after_all effect [] s = s
after_all effect (e ∷ es) s = after_all effect es (effect e s)

module _ {E W : Type 0} where
  abbrev pub unfrozen : List E → Option W → List W → EventQueueInner E W
  unfrozen es waker woken = record { queue = es; freeze_count = 0; waker = waker; woken = woken }

module _ {E W S X : Type 0} (effect : E → S → S) where
  -- A callback that succeeds and leaves the queue alone.
  abbrev pub plain : E → S × EventQueueInner E W → (S × EventQueueInner E W) × Result (Unit {0}) X
  plain e (s, q) = ((effect e s, q), ok tt)

  -- On a queue that no guard freezes, with callbacks that succeed and leave the queue alone, a
  -- dispatch calls the callback of every event that is queued, in the order in which they were
  -- queued, leaves none, and counts them. Fuel for one turn more than there are events is enough.
  pub dispatching_impl-after_all :
      (w : W) (fuel n : ℕ) (es : List E) (s : S) (waker : Option W) (woken : List W)
      → length es < fuel
      → dispatching_impl plain fuel w n (s, unfrozen es waker woken)
        ≡ some ((after_all effect es s, unfrozen [] waker woken), finished (n + length es))
  unfolding dispatching_impl try_next
  dispatching_impl-after_all w zero n es s waker woken l = absurd (omega arith)
  dispatching_impl-after_all w (suc fuel) n [] s waker woken l =
      ap (λ k. some ((s, unfrozen [] waker woken), finished k)) (omega arith)
  dispatching_impl-after_all w (suc fuel) n (e ∷ es) s waker woken l =
      dispatching_impl-after_all w fuel (n + 1) es (effect e s) waker woken (omega arith)
      ∙ ap (λ k. some ((after_all effect es (effect e s), unfrozen [] waker woken), finished k))
          (omega arith)
