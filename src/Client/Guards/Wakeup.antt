-- ===== src/Client/Guards/Wakeup.antt =====
-- No wake-up is lost, and `prepared_reads` counts the guards.
use wayland_rs.Common.{
  ℕ, ◌<◌, ◌≡◌, ◌≢◌, refl, ◌⊎◌, inl, inr, some, ◌↔◌, arith, get_elem?, Bool-cases, ◌==◌,
}
use wayland_rs.Client.Guards.{
  usize_mod, reads, read, outside, prepared, waiting, check_again, Threads, Reach,
}
use wayland_rs.Client.Guards.Counting.{guards, guards-set, guards_pos, All-get}
use wayland_rs.Client.Guards.Invariant.{Served, Reach-Inv}

-- No wake-up is lost: in every state that is reached by fewer than 2^64 steps of fewer than 2^64
-- threads, a thread that is in `wait_while` either has been notified since it fell asleep and its
-- next look at the condition lets it go on, or some thread still has a guard that is not done.
pub no_lost_wakeup :
    {n : ℕ} {s : Threads} (threads i m g : ℕ)
    → threads < usize_mod
    → n < usize_mod
    → Reach threads n s
    → get_elem? s.phases i ≡ some (waiting m g)
    → ((g ≢ s.state.read_condvar) × (check_again s.state m ≡ outside))
      ⊎ ((j : ℕ) × (get_elem? s.phases j ≡ some prepared))
unfolding check_again
no_lost_wakeup {s = s} threads i m g few short r e =
    let v = Reach-Inv threads few short r in
    let (_, _, more, asleep) = All-get (Served s.state) s.phases i (waiting m g) v.served e in
    elim (Bool-cases (m == s.state.read_serial)) [
      | inr other ↦ inl ((λ q. absurd (ground (arith, asleep q))), rw other refl)
      | inl same ↦ inr (guards_pos s.phases (omega (arith, more (ground arith), v.counted)))
    ]

-- In every such state `prepared_reads` is the number of threads with a guard that is not done, so
-- the subtraction of a thread with a guard never underflows.
pub prepared_reads_counts :
    {n : ℕ} {s : Threads} (threads : ℕ)
    → threads < usize_mod
    → n < usize_mod
    → Reach threads n s
    → s.state.prepared_reads ≡ guards s.phases
prepared_reads_counts threads few short r = (Reach-Inv threads few short r).counted

-- In every such state a thread that reads its guard dispatches the events itself exactly when there
-- is no other guard.
pub read-last :
    {n : ℕ} {s : Threads} (threads i : ℕ)
    → threads < usize_mod
    → n < usize_mod
    → Reach threads n s
    → get_elem? s.phases i ≡ some prepared
    → ((read s.state).1 ≡ reads) ↔ (guards s.phases ≡ 1)
unfolding read
read-last {s = s} threads i few short r e =
    let v = Reach-Inv threads few short r in
    let one = guards-set s.phases i prepared outside e in
    (λ h. ground (arith, v.counted), λ h. ground (arith, v.counted))
