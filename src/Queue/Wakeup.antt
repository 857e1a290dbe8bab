-- ===== src/Queue/Wakeup.antt =====
-- A dispatcher that waits is woken once there is something for it to do.
use mathlib.Core.Path.{subst}
use wayland_rs.Common.{
  ℕ, ◌+◌, ◌-◌, ◌%◌, ◌^◌, ◌<◌, ◌≡◌, ◌⊎◌, refl, ap, ◌∙◌, inl, inr, false, Bool-cases, Option-cases,
  none, some, List, [], ◌∷◌, ◌++◌, arith, ◌==◌, not, ◌&&◌,
}
use wayland_rs.Map.Iterate.{In, In-append_left, In-append_right}
use wayland_rs.Queue.{
  EventQueueInner, is_empty, wake, enqueue_event, freeze, unfreeze, Next, waits, next, try_next,
  look_again, poll_next, parked, pop_front,
}

module _ {E W : Type 0} where
  -- What other threads do while a dispatcher waits, with the number of guards that there are.
  pub data Other : ℕ × EventQueueInner E W → ℕ × EventQueueInner E W → Type 0 where
    enqueued : (g : ℕ) (q : EventQueueInner E W) (e : E) → Other (g, q) (g, enqueue_event e q)
    frozen : (g : ℕ) (q : EventQueueInner E W) → g + 1 < 2 ^ 64 → Other (g, q) (g + 1, freeze q)
    dropped : (g : ℕ) (q : EventQueueInner E W) → Other (g + 1, q) (g, unfreeze q)

  pub data Others : ℕ × EventQueueInner E W → ℕ × EventQueueInner E W → Type 0 where
    none_yet : (x : ℕ × EventQueueInner E W) → Others x x
    one_more : (x y z : ℕ × EventQueueInner E W) → Others x y → Other y z → Others x z

  -- There is an event that may be dispatched.
  abbrev pub Ready : EventQueueInner E W → Type 0
  Ready q = (q.freeze_count ≡ 0) × (is_empty q.queue ≡ false)

  -- A dispatcher with the waker `w` waits, rightly, or it has been woken.
  pub record Waiting (w : W) (g : ℕ) (q : EventQueueInner E W) : Type 0 where
    pub guards : q.freeze_count ≡ g
    pub bound : g < 2 ^ 64
    pub held : ((q.waker ≡ some w) × (Ready q → ⊥)) ⊎ In w q.woken

  -- The waker `w` is registered, or has been called.
  abbrev Reachable : W → EventQueueInner E W → Type 0
  Reachable w q = (q.waker ≡ some w) ⊎ In w q.woken

  wake-woken : (w : W) (q : EventQueueInner E W) → Reachable w q → In w (wake q).woken
  unfolding wake
  wake-woken w q (inl h) = rw (h, wake) (In-append_right w q.woken (w ∷ []) (inl refl))
  wake-woken w q (inr i) = elim (Option-cases q.waker) [
    | inl e ↦ rw (e, wake) i
    | inr (v, e) ↦ rw (e, wake) (In-append_left w q.woken (v ∷ []) i)
  ]

  reachable : {w : W} {g : ℕ} {q : EventQueueInner E W} → Waiting w g q → Reachable w q
  reachable v = elim v.held [ inl h ↦ inl h.0 | inr i ↦ inr i ]

  -- A queue that is not ready keeps a registered waker.
  still_held :
      (w : W) (q : EventQueueInner E W)
      → Reachable w q
      → (Ready q → ⊥)
      → ((q.waker ≡ some w) × (Ready q → ⊥)) ⊎ In w q.woken
  still_held w q (inl h) r = inl (h, r)
  still_held w q (inr i) r = inr i

  wake_count : (q : EventQueueInner E W) → (wake q).freeze_count ≡ q.freeze_count
  unfolding wake
  wake_count q = elim (Option-cases q.waker) [
    | inl e ↦ rw (e, wake) refl
    | inr (v, e) ↦ rw (e, wake) refl
  ]

  enqueued-Waiting :
      (w : W) (g : ℕ) (q : EventQueueInner E W) (e : E)
      → Waiting w g q
      → Waiting w g (enqueue_event e q)
  unfolding enqueue_event wake
  enqueued-Waiting w g q e v =
      let pushed = record q { queue = q.queue ++ e ∷ [] } in
      elim (Bool-cases (q.freeze_count == 0)) [
        | inl z ↦ rw z (record {
          guards = wake_count pushed ∙ v.guards;
          bound = v.bound;
          held = inr (wake-woken w pushed (reachable v));
        })
        | inr z ↦ rw z (record {
          guards = v.guards;
          bound = v.bound;
          held = still_held w pushed (reachable v) (λ r. absurd (ground arith));
        })
      ]

  frozen-Waiting :
      (w : W) (g : ℕ) (q : EventQueueInner E W)
      → g + 1 < 2 ^ 64
      → Waiting w g q
      → Waiting w (g + 1) (freeze q)
  unfolding freeze
  frozen-Waiting w g q b v = record {
    guards = omega (arith, v.guards);
    bound = b;
    held = still_held w (freeze q) (reachable v) (λ r. omega (arith, v.guards, r.0));
  }

  dropped-Waiting :
      (w : W) (g : ℕ) (q : EventQueueInner E W) → Waiting w (g + 1) q → Waiting w g (unfreeze q)
  unfolding unfreeze wake
  dropped-Waiting w g q v =
      let count : (q.freeze_count + (2 ^ 64 - 1)) % 2 ^ 64 ≡ g = omega (arith, v.guards, v.bound) in
      let left = record q { freeze_count = (q.freeze_count + (2 ^ 64 - 1)) % 2 ^ 64 } in
      elim (Bool-cases (left.freeze_count == 0 && not (is_empty left.queue))) [
        | inl z ↦ rw z (record {
          guards = wake_count left ∙ count;
          bound = omega (arith, v.bound);
          held = inr (wake-woken w left (reachable v));
        })
        | inr z ↦ rw z (record {
          guards = count;
          bound = omega (arith, v.bound);
          held = still_held w left (reachable v) (λ r. absurd (ground (arith, r.0, r.1)));
        })
      ]

  Other-Waiting :
      (w : W) (x y : ℕ × EventQueueInner E W) → Other x y → Waiting w x.0 x.1 → Waiting w y.0 y.1
  Other-Waiting w x y (enqueued g q e) v = enqueued-Waiting w g q e v
  Other-Waiting w x y (frozen g q b) v = frozen-Waiting w g q b v
  Other-Waiting w x y (dropped g q) v = dropped-Waiting w g q v

  Others-Waiting :
      (w : W) (x y : ℕ × EventQueueInner E W) → Others x y → Waiting w x.0 x.1 → Waiting w y.0 y.1
  Others-Waiting w x _ (none_yet _) v = v
  Others-Waiting w _ _ (one_more x y z r o) v = Other-Waiting w y z o (Others-Waiting w x y r v)

  -- How a dispatcher comes to wait: `try_next` or a later look at the queue finds it frozen, or
  -- `poll_dispatch_pending` finds nothing that it may dispatch.
  pub data Parks (w : W) (q q' : EventQueueInner E W) : Type 0 where
    in_try_next : try_next w q ≡ (q', waits) → Parks w q q'
    in_look_again : look_again w q ≡ (q', waits) → Parks w q q'
    in_poll_next : poll_next w q ≡ (q', none) → Parks w q q'

  module _ (w : W) (g : ℕ) (q : EventQueueInner E W) (guards : q.freeze_count ≡ g)
      (bound : g < 2 ^ 64) (q' : EventQueueInner E W) where
    -- A queue in which the waker has been registered, and that is not ready.
    registered-Waiting : record q { waker = some w } ≡ q' → (Ready q → ⊥) → Waiting w g q'
    registered-Waiting e r =
        subst (Waiting w g) e (record { guards = guards; bound = bound; held = inl (refl, r) })

    look_again-Waiting : look_again w q ≡ (q', waits) → Waiting w g q'
    unfolding look_again pop_front
    look_again-Waiting h = elim (Bool-cases (q.freeze_count == 0)) [
      | inl z ↦
          let clash : ◌≡◌ {A = Next E} (next _) waits = ap (λ p. p.1) (rw z at h) in
          absurd (ground arith)
      | inr z ↦ registered-Waiting (ap (λ p. p.0) (rw z at h)) (λ r. absurd (ground (arith, r.0)))
    ]

    try_next-Waiting : try_next w q ≡ (q', waits) → Waiting w g q'
    unfolding try_next pop_front
    try_next-Waiting h = elim (Bool-cases (not (q.freeze_count == 0) && not (is_empty q.queue))) [
      | inl z ↦ look_again-Waiting (rw z at h)
      | inr z ↦
          let clash : ◌≡◌ {A = Next E} (next _) waits = ap (λ p. p.1) (rw z at h) in
          absurd (ground arith)
    ]

    popped-Waiting :
        (es : List E) → q.queue ≡ es → parked w (pop_front q es) ≡ (q', none) → Waiting w g q'
    unfolding parked pop_front is_empty
    popped-Waiting [] e h = registered-Waiting (ap (λ p. p.0) h) (λ r.
        let filled : is_empty {E = E} [] ≡ false = subst (λ es. is_empty es ≡ false) e r.1 in
        absurd (ground arith))
    popped-Waiting (x ∷ es) e h =
        let clash : some x ≡ none = ap (λ p. p.1) h in absurd (ground arith)

    poll_next-Waiting : poll_next w q ≡ (q', none) → Waiting w g q'
    unfolding poll_next
    poll_next-Waiting h = elim (Bool-cases (q.freeze_count == 0)) [
      | inl z ↦ popped-Waiting q.queue refl (rw z at h)
      | inr z ↦ registered-Waiting (ap (λ p. p.0) (rw z at h)) (λ r. absurd (ground (arith, r.0)))
    ]

    Parks-Waiting : Parks w q q' → Waiting w g q'
    Parks-Waiting (in_try_next h) = try_next-Waiting h
    Parks-Waiting (in_look_again h) = look_again-Waiting h
    Parks-Waiting (in_poll_next h) = poll_next-Waiting h

  module _ (w : W) (g : ℕ) (q q' : EventQueueInner E W) where
    -- No wakeup is lost: a dispatcher that waits with the waker `w`, in `try_next` or in
    -- `poll_dispatch_pending`, on a queue whose count is that of its guards, has had that waker
    -- woken as soon as other threads have queued events, made guards and dropped guards so that
    -- no guard is left and the queue is not empty. There are less than 2^64 guards at any time.
    pub woken_once_ready :
        q.freeze_count ≡ g
        → g < 2 ^ 64
        → Parks w q q'
        → (y : ℕ × EventQueueInner E W) → Others (g, q') y
        → Ready y.1
        → In w y.1.woken
    woken_once_ready guards bound p y r ready =
        elim (Others-Waiting w (g, q') y r (Parks-Waiting w g q guards bound q' p)).held [
          | inl h ↦ absurd (h.1 ready)
          | inr i ↦ i
        ]
