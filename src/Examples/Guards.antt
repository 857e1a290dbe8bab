-- ===== src/Examples/Guards.antt =====
-- Two threads prepare to read; the first one waits for the second.
use wayland_rs.Common.{ℕ, ◌≡◌, ◌≢◌, ◌⊎◌, refl, some, [], ◌∷◌, arith, get_elem?}
use wayland_rs.Client.Guards.{
  Threads, outside, prepared, waiting, check_again, phase_after, prepare, read_events, Reach, start,
  next, try_new, read,
}
use wayland_rs.Client.Guards.Counting.{guards}
use wayland_rs.Client.Guards.Wakeup.{no_lost_wakeup, prepared_reads_counts}

record Run : Type 0 where
  last : Threads
  reach : Reach 2 3 last
  phases : last.phases ≡ waiting 0 0 ∷ prepared ∷ []
  counted : last.state.prepared_reads ≡ 1

two_threads : Run
unfolding try_new read phase_after
two_threads = record {
  last = _;
  reach = next (next (next start (prepare 0 refl)) (prepare 1 refl)) (read_events 0 refl);
  phases = refl;
  counted = refl;
}

no_lost_wakeup_example :
    ((0 ≢ two_threads.last.state.read_condvar) × (check_again two_threads.last.state 0 ≡ outside))
    ⊎ ((j : ℕ) × (get_elem? two_threads.last.phases j ≡ some prepared))
unfolding two_threads
no_lost_wakeup_example = no_lost_wakeup 2 0 0 0 (omega arith) (omega arith) two_threads.reach refl

prepared_reads_counts_example :
    two_threads.last.state.prepared_reads ≡ guards two_threads.last.phases
prepared_reads_counts_example =
    prepared_reads_counts 2 (omega arith) (omega arith) two_threads.reach
