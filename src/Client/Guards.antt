-- ===== src/Client/Guards.antt =====
-- `InnerReadEventsGuard`: several threads prepare to read, the last one reads and wakes the others.
-- Every operation runs under the mutex of `ReadingState`; `wait_while` gives it up while it waits.
-- The condvar counts its `notify_all` calls: a thread that waits remembers the count at which it fell
-- asleep, and sleeps until the count is another one, or until it wakes up spuriously.
pub mod Counting
pub mod Invariant
pub mod Wakeup
use wayland_rs.Common.{
  ℕ, zero, suc, ◌+◌, ◌-◌, ◌%◌, ◌^◌, ◌≡◌, ◌≢◌, some, List, [], ◌∷◌, ◌==◌, get_elem?, set, replicate,
  if◌then◌else◌,
}

pub record ReadingState : Type 0 where
  pub prepared_reads : ℕ
  pub read_condvar : ℕ
  pub read_serial : ℕ

abbrev pub usize_mod : ℕ
usize_mod = 2 ^ 64

abbrev pub first_reading : ReadingState
first_reading = record { prepared_reads = 0; read_condvar = 0; read_serial = 0 }

unfoldable pub try_new : ReadingState → ReadingState
try_new r = record r { prepared_reads = (r.prepared_reads + 1) % usize_mod }

-- `Condvar::notify_all`: every thread that is asleep now is woken.
unfoldable pub notify_all : ReadingState → ReadingState
notify_all r = record r { read_condvar = r.read_condvar + 1 }

-- The end of a round: the serial changes, and the threads that wait are woken.
unfoldable pub end_round : ReadingState → ReadingState
unfolding notify_all
end_round r = notify_all (record r { read_serial = (r.read_serial + 1) % usize_mod })

-- What `read` makes of its guard: it dispatches the events itself and ends the round, or it waits on
-- the condvar for another serial than the present one.
pub data Role : Type 0 where
  reads : Role
  waits : ℕ → Role

-- The subtraction is that of a `usize` that is not zero: see the invariant of `Wakeup`.
unfoldable pub read : ReadingState → ReadingState × Role
unfolding end_round
read r =
    let r' = record r { prepared_reads = r.prepared_reads - 1 } in
    if r'.prepared_reads == 0 then (end_round r', reads) else (r', waits r'.read_serial)

-- `drop` of a guard that has not been read.
unfoldable pub drop_guard : ReadingState → ReadingState
unfolding end_round
drop_guard r =
    let r' = record r { prepared_reads = r.prepared_reads - 1 } in
    if r'.prepared_reads == 0 then end_round r' else r'

-- Where a thread stands.
pub data Phase : Type 0 where
  outside : Phase  -- it has no guard
  prepared : Phase  -- it has one that is not done
  -- In `wait_while`, with the serial that it has read and the calls of `notify_all` before it slept.
  waiting : ℕ → ℕ → Phase

-- The condition of `wait_while`, which is read under the mutex before each sleep.
unfoldable pub check_again : ReadingState → ℕ → Phase
check_again r serial = if serial == r.read_serial then waiting serial r.read_condvar else outside

unfoldable pub phase_after : ReadingState × Role → Phase
unfolding check_again
phase_after (r, reads) = outside
phase_after (r, waits serial) = check_again r serial

pub record Threads : Type 0 where
  pub state : ReadingState
  pub phases : List Phase

-- A step of the thread `i`.
pub data Step (s : Threads) : Threads → Type 0 where
  prepare :
      (i : ℕ)
      → get_elem? s.phases i ≡ some outside
      → Step s (record { state = try_new s.state; phases = set s.phases i prepared })
  read_events :
      (i : ℕ)
      → get_elem? s.phases i ≡ some prepared
      → Step s (record {
        state = (read s.state).0;
        phases = set s.phases i (phase_after (read s.state));
      })
  cancel :
      (i : ℕ)
      → get_elem? s.phases i ≡ some prepared
      → Step s (record { state = drop_guard s.state; phases = set s.phases i outside })
  notified :
      (i serial calls : ℕ)
      → get_elem? s.phases i ≡ some (waiting serial calls)
      → calls ≢ s.state.read_condvar
      → Step s (record s { phases = set s.phases i (check_again s.state serial) })
  spurious :
      (i serial calls : ℕ)
      → get_elem? s.phases i ≡ some (waiting serial calls)
      → Step s (record s { phases = set s.phases i (check_again s.state serial) })

-- From a new connection with a number of threads, after so many steps.
pub data Reach (threads : ℕ) : ℕ → Threads → Type 0 where
  start : Reach threads 0 (record { state = first_reading; phases = replicate threads outside })
  next : {n : ℕ} {s t : Threads} → Reach threads n s → Step s t → Reach threads (suc n) t
