-- ===== src/Client/Guards/Invariant.antt =====
-- The guards are counted, and a thread that waits is served: kept by every step.
use wayland_rs.Common.{
  length, ℕ, suc, ◌+◌, ◌-◌, ◌≤◌, ◌<◌, ◌≡◌, refl, ◌⊎◌, inl, inr, some, arith, get_elem?, set,
  length-set, length-replicate, All, Bool-cases, ◌==◌,
}
use wayland_rs.Client.Guards.{
  ReadingState, usize_mod, try_new, notify_all, end_round, Role, reads, waits, read, drop_guard,
  Phase, outside, prepared, waiting, check_again, phase_after, Threads, Step, prepare, read_events,
  cancel, notified, spurious, Reach, start, next,
}
use wayland_rs.Client.Guards.Counting.{
  weight, guards, guards-set, guards-replicate, guards-length, All-set, All-mono, All-get,
  All-replicate,
}

-- A thread that waits for the present serial is waited for in turn: a guard is left. One that has not
-- been woken since it fell asleep waits for the present serial.
abbrev pub Served : ReadingState → Phase → Type 0
Served r (waiting n g) =
    (n ≤ r.read_serial)
    × (g ≤ r.read_condvar)
    × (n ≡ r.read_serial → 0 < r.prepared_reads)
    × (g ≡ r.read_condvar → n ≡ r.read_serial)
Served r _ = Unit {0}

-- A thread that sleeps again after a look at the condition is served if it was served before.
check_again-Served :
    (r : ReadingState) (n : ℕ)
    → n ≤ r.read_serial
    → (n ≡ r.read_serial → 0 < r.prepared_reads)
    → Served r (check_again r n)
unfolding check_again
check_again-Served r n le h = elim (Bool-cases (n == r.read_serial)) [
  | inl same ↦ rw same (le, omega arith, h, λ _. ground arith)
  | inr other ↦ rw other tt
]

check_again-weight : (r : ReadingState) (n : ℕ) → weight (check_again r n) ≡ 0
unfolding check_again
check_again-weight r n = elim (Bool-cases (n == r.read_serial)) [
  | inl same ↦ rw same refl
  | inr other ↦ rw other refl
]

-- `n` steps after the start, with a number of threads.
pub record Inv (threads n : ℕ) (s : Threads) : Type 0 where
  pub size : length s.phases ≡ threads
  pub counted : s.state.prepared_reads ≡ guards s.phases
  pub young : s.state.read_serial ≤ n
  pub served : All (Served s.state) s.phases

-- The end of a round changes the serial and wakes the threads; any other step leaves both as they
-- are, and a guard if there was one.
abbrev Ended : ReadingState → ReadingState → Type 0
Ended r t = (r.read_serial < t.read_serial) × (r.read_condvar < t.read_condvar)

abbrev Kept : ReadingState → ReadingState → Type 0
Kept r t =
    (t.read_serial ≡ r.read_serial)
    × (t.read_condvar ≡ r.read_condvar)
    × (0 < r.prepared_reads → 0 < t.prepared_reads)

-- Neither leaves a thread behind.
Served-later : (r t : ReadingState) → Ended r t ⊎ Kept r t → (p : Phase) → Served r p → Served t p
Served-later r t h outside k = tt
Served-later r t h prepared k = tt
Served-later r t (inl (newer, woken)) (waiting n g) (le, before, more, same) =
    (omega arith, omega arith, λ e. absurd (omega arith), λ e. absurd (omega arith))
Served-later r t (inr (serial, calls, kept)) (waiting n g) (le, before, more, same) = (
  omega arith,
  omega arith,
  λ e. kept (more (omega arith)),
  λ e. omega (arith, same (omega arith)),
)

-- The two results of `read`, by whether the guard is the last one.
read_cases :
    (r : ReadingState) (P : ReadingState × Role → Type 0)
    → let r' = record r { prepared_reads = r.prepared_reads - 1 } in
      (r'.prepared_reads ≡ 0 → P (end_round r', reads))
      → (0 < r'.prepared_reads → P (r', waits r'.read_serial))
      → P (read r)
unfolding read
read_cases r P f g = elim (Bool-cases (r.prepared_reads - 1 == 0)) [
  | inl last ↦ rw last (f (ground arith))
  | inr more ↦ rw more (g (ground arith))
]

module _ (threads n : ℕ) (few : threads < usize_mod) (short : n + 1 < usize_mod) where
  prepare-Inv :
      (s : Threads) (i : ℕ)
      → get_elem? s.phases i ≡ some outside
      → Inv threads n s
      → Inv threads (suc n) (record { state = try_new s.state; phases = set s.phases i prepared })
  unfolding try_new
  prepare-Inv s i e v =
      let more = guards-set s.phases i outside prepared e in
      let room = guards-length (set s.phases i prepared) in
      let size = length-set s.phases i prepared in
      record {
        size = omega (arith, v.size);
        counted = omega (arith, v.size, v.counted);
        young = omega (arith, v.young);
        served =
            All-set (Served (try_new s.state)) s.phases i prepared
              (All-mono (Served s.state) (Served (try_new s.state)) s.phases
                (Served-later s.state (try_new s.state)
                  (inr (refl, refl, λ h. omega (arith, v.size, v.counted))))
                v.served)
              tt;
      }

  -- A thread leaves its phase `p`, which is that of a guard, for `q`, and the others see `t`.
  leave-Inv :
      (s : Threads) (t : ReadingState) (i : ℕ) (q : Phase)
      → get_elem? s.phases i ≡ some prepared
      → weight q ≡ 0
      → (t.prepared_reads ≡ s.state.prepared_reads - 1)
        × (t.read_serial ≤ suc n)
        × (Ended s.state t ⊎ Kept s.state t)
      → Served t q
      → Inv threads n s
      → Inv threads (suc n) (record { state = t; phases = set s.phases i q })
  leave-Inv s t i q e w (one, young, later) k v =
      let less = guards-set s.phases i prepared q e in
      record {
        size = omega (arith, v.size, length-set s.phases i q);
        counted = omega (arith, v.counted);
        young = young;
        served =
            All-set (Served t) s.phases i q
              (All-mono (Served s.state) (Served t) s.phases (Served-later s.state t later)
                v.served)
              k;
      }

  cancel-Inv :
      (s : Threads) (i : ℕ)
      → get_elem? s.phases i ≡ some prepared
      → Inv threads n s
      → Inv threads (suc n) (record { state = drop_guard s.state; phases = set s.phases i outside })
  unfolding drop_guard
  cancel-Inv s i e v = elim (Bool-cases (s.state.prepared_reads - 1 == 0)) [
    | inl last ↦ rw last (
        leave-Inv s _ i outside e refl
          (refl, omega (arith, v.young), inl (omega (arith, v.young), omega arith)) tt v)
    | inr more ↦ rw more (
        leave-Inv s _ i outside e refl
          (refl, omega (arith, v.young), inr (refl, refl, λ _. ground arith)) tt v)
  ]

  read-Inv :
      (s : Threads) (i : ℕ)
      → get_elem? s.phases i ≡ some prepared
      → Inv threads n s
      → Inv threads (suc n) (record {
        state = (read s.state).0;
        phases = set s.phases i (phase_after (read s.state));
      })
  unfolding phase_after end_round notify_all
  read-Inv s i e v =
      let r' = record s.state { prepared_reads = s.state.prepared_reads - 1 } in
      read_cases s.state
        (λ q. Inv threads (suc n) (record { state = q.0; phases = set s.phases i (phase_after q) }))
        (λ last.
          leave-Inv s (end_round r') i outside e refl
            (refl, omega (arith, v.young), inl (omega (arith, v.young), omega arith)) tt v)
        (λ more.
          leave-Inv s r' i (check_again r' s.state.read_serial) e (check_again-weight r' _)
            (refl, omega (arith, v.young), inr (refl, refl, λ _. more))
            (check_again-Served r' s.state.read_serial (omega arith) (λ _. more)) v)

  -- A thread that is woken looks at the condition again.
  wake-Inv :
      (s : Threads) (i m g : ℕ)
      → get_elem? s.phases i ≡ some (waiting m g)
      → Inv threads n s
      → Inv threads (suc n) (record s { phases = set s.phases i (check_again s.state m) })
  wake-Inv s i m g e v =
      let q = check_again s.state m in
      let same = guards-set s.phases i (waiting m g) q e in
      let (le, _, more, _) = All-get (Served s.state) s.phases i (waiting m g) v.served e in
      record {
        size = omega (arith, v.size, length-set s.phases i q);
        counted = omega (arith, v.counted, check_again-weight s.state m);
        young = omega (arith, v.young);
        served =
            All-set (Served s.state) s.phases i q v.served (check_again-Served s.state m le more);
      }

Step-Inv :
    {s t : Threads} (threads n : ℕ)
    → threads < usize_mod
    → n + 1 < usize_mod
    → Step s t
    → Inv threads n s
    → Inv threads (suc n) t
Step-Inv {s} threads n few short (prepare i e) v = prepare-Inv threads n few short s i e v
Step-Inv {s} threads n few short (read_events i e) v = read-Inv threads n few short s i e v
Step-Inv {s} threads n few short (cancel i e) v = cancel-Inv threads n few short s i e v
Step-Inv {s} threads n few short (notified i m g e _) v = wake-Inv threads n few short s i m g e v
Step-Inv {s} threads n few short (spurious i m g e) v = wake-Inv threads n few short s i m g e v

pub Reach-Inv :
    (threads : ℕ) {n : ℕ} {s : Threads}
    → threads < usize_mod
    → n < usize_mod
    → Reach threads n s
    → Inv threads n s
Reach-Inv threads few short start = record {
  size = length-replicate threads outside;
  counted = omega (arith, guards-replicate threads);
  young = omega arith;
  served = All-replicate (Served _) threads tt;
}
Reach-Inv threads few short (next {n} r st) =
    Step-Inv threads n few (omega arith) st (Reach-Inv threads few (omega arith) r)
