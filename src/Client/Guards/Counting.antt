-- ===== src/Client/Guards/Counting.antt =====
-- Threads counted by their guards, and properties of all threads after one has moved.
use wayland_rs.Common.{
  ℕ, zero, suc, ◌+◌, ◌≤◌, ◌<◌, ◌≡◌, refl, some, List, [], ◌∷◌, arith, length, get_elem?, set,
  replicate, All,
}
use wayland_rs.Client.Guards.{Phase, outside, prepared, waiting}

abbrev pub weight : Phase → ℕ
weight prepared = 1
weight _ = 0

abbrev pub guards : List Phase → ℕ
guards [] = 0
guards (p ∷ ps) = weight p + guards ps

pub weight-le : (p : Phase) → weight p ≤ 1
weight-le prepared = omega arith
weight-le outside = omega arith
weight-le (waiting n g) = omega arith

pub guards-set :
    (ps : List Phase) (i : ℕ) (p q : Phase)
    → get_elem? ps i ≡ some p
    → guards (set ps i q) + weight p ≡ guards ps + weight q
guards-set [] i p q h = absurd (ground arith)
guards-set (x ∷ ps) zero p q h = ground arith
guards-set (x ∷ ps) (suc i) p q h = omega (arith, guards-set ps i p q h)

pub guards-replicate : (n : ℕ) → guards (replicate n outside) ≡ 0
guards-replicate zero = refl
guards-replicate (suc n) = omega (arith, guards-replicate n)

pub guards-length : (ps : List Phase) → guards ps ≤ length ps
guards-length [] = omega arith
guards-length (p ∷ ps) = omega (arith, guards-length ps, weight-le p)

-- With no guard left, no thread is prepared; with one, some thread is.
pub guards_pos : (ps : List Phase) → 0 < guards ps → (i : ℕ) × (get_elem? ps i ≡ some prepared)
guards_pos [] h = absurd (omega arith)
guards_pos (prepared ∷ ps) h = (0, refl)
guards_pos (outside ∷ ps) h = let (i, e) = guards_pos ps (omega arith) in (suc i, e)
guards_pos (waiting n g ∷ ps) h = let (i, e) = guards_pos ps (omega arith) in (suc i, e)

pub All-set :
    (P : Phase → Type 0) (ps : List Phase) (i : ℕ) (q : Phase) → All P ps → P q → All P (set ps i q)
All-set P [] i q h k = tt
All-set P (x ∷ ps) zero q h k = (k, h.1)
All-set P (x ∷ ps) (suc i) q h k = (h.0, All-set P ps i q h.1 k)

pub All-mono :
    (P Q : Phase → Type 0) (ps : List Phase) → ((p : Phase) → P p → Q p) → All P ps → All Q ps
All-mono P Q [] f h = tt
All-mono P Q (x ∷ ps) f h = (f x h.0, All-mono P Q ps f h.1)

pub All-get :
    (P : Phase → Type 0) (ps : List Phase) (i : ℕ) (p : Phase)
    → All P ps
    → get_elem? ps i ≡ some p
    → P p
All-get P [] i p h e = absurd (ground arith)
All-get P (x ∷ ps) zero p h e = let q : x ≡ p = ground arith in rw (← q) h.0
All-get P (x ∷ ps) (suc i) p h e = All-get P ps i p h.1 e

pub All-replicate : (P : Phase → Type 0) (n : ℕ) → P outside → All P (replicate n outside)
All-replicate P zero h = tt
All-replicate P (suc n) h = (h, All-replicate P n h)
