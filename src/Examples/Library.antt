-- ===== src/Examples/Library.antt =====
-- An event queue of numbers that one guard freezes, and a list of two globals.
use wayland_rs.Common.{ℕ, ◌+◌, ◌≡◌, ◌↔◌, refl, arith, some, none, [], ◌∷◌, returns}
use wayland_rs.Map.Iterate.{In}
use wayland_rs.Protocol.Interfaces.{Interface, bytes_of}
use wayland_rs.Queue.{
  EventQueueInner, waits, finished, enqueue_event, unfreeze, try_next, look_again, dispatching_impl,
}
use wayland_rs.Queue.Wakeup.{
  Others, none_yet, one_more, enqueued, dropped, in_try_next, woken_once_ready,
}
use wayland_rs.Queue.Order.{unfrozen, plain, after_all, dispatching_impl-after_all}
use wayland_rs.Globals.{Global, announced, withdrawn, bind, first_named}
use wayland_rs.Globals.Contents.{after_events, Announced, after_events_iff, Chosen, bind-Chosen}

-- One event behind one guard, and the dispatcher 7 that waits for it.
abbrev frozen_queue : EventQueueInner ℕ ℕ
frozen_queue = record { queue = 4 ∷ []; freeze_count = 1; waker = none; woken = [] }

abbrev parked_queue : EventQueueInner ℕ ℕ
parked_queue = record frozen_queue { waker = some 7 }

waits_run : try_next 7 frozen_queue ≡ (parked_queue, waits)
unfolding try_next look_again
waits_run = refl

abbrev released : ℕ × EventQueueInner ℕ ℕ
released = (0, unfreeze (enqueue_event 5 parked_queue))

released_by : Others (1, parked_queue) released
released_by =
    one_more _ _ _ (one_more _ _ _ (none_yet _) (enqueued 1 parked_queue 5))
      (dropped 0 (enqueue_event 5 parked_queue))

woken_once_ready_example : In 7 released.1.woken
unfolding unfreeze enqueue_event
woken_once_ready_example =
    woken_once_ready 7 1 frozen_queue parked_queue refl (omega arith) (in_try_next waits_run)
      released released_by (refl, refl)

dispatching_impl-after_all_example :
    dispatching_impl {W = ℕ} {X = ℕ}
      (plain (λ e s. s + e))
      3
      7
      0
      (10, unfrozen (4 ∷ 5 ∷ []) none [])
    ≡ some ((after_all (λ e s. s + e) (4 ∷ 5 ∷ []) 10, unfrozen [] none []), finished 2)
dispatching_impl-after_all_example =
    dispatching_impl-after_all (λ e s. s + e) 7 3 0 (4 ∷ 5 ∷ []) 10 none [] (omega arith)

abbrev seat : Global
seat = record { name = 1; interface = bytes_of "wl_seat"; version = 5 }

abbrev output : Global
output = record { name = 2; interface = bytes_of "wl_output"; version = 3 }

abbrev seat_interface : Interface
seat_interface = record { name = bytes_of "wl_seat"; version = 9; requests = []; events = [] }

after_events_iff_example :
    In output (after_events (announced seat ∷ announced output ∷ withdrawn 1 ∷ []) [])
    ↔ Announced output (announced seat ∷ announced output ∷ withdrawn 1 ∷ [])
after_events_iff_example =
    after_events_iff output (announced seat ∷ announced output ∷ withdrawn 1 ∷ [])

bind_run : bind seat_interface 1 7 (output ∷ seat ∷ []) ≡ returns (1, 5)
unfolding bind first_named
bind_run = refl

bind-Chosen_example : Chosen seat_interface 1 7 (output ∷ seat ∷ []) 1 5
bind-Chosen_example = bind-Chosen seat_interface 1 7 (output ∷ seat ∷ []) 1 5 bind_run
