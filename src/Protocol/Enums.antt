-- ===== src/Protocol/Enums.antt =====
-- WEnum of wayland-backend/src/protocol.rs: an enum value that may be unknown to this side.
use wayland_rs.Common.{ℕ, ◌≡◌, Option, none, some, Option-cases, inl, inr}
use wayland_rs.Common.{Result, ok, err}

pub data WEnum (T : Type 0) : Type 0 where
  value : T → WEnum T
  unknown : ℕ → WEnum T

-- The `typ` of WEnumError is a name for messages.
pub record WEnumError : Type 0 where
  pub value : ℕ

module _ {T : Type 0} where
  unfoldable pub into_result : WEnum T → Result T WEnumError
  into_result (value v) = ok v
  into_result (unknown u) = err (record { value = u })

  -- `T::try_from` and `Into<u32>` are the generated conversions.
  unfoldable pub from_u32 : (ℕ → Option T) → ℕ → WEnum T
  from_u32 try_from v = elim (try_from v) [ some t ↦ value t | none ↦ unknown v ]

  unfoldable pub to_u32 : (T → ℕ) → WEnum T → ℕ
  to_u32 into (unknown u) = u
  to_u32 into (value t) = into t

  -- Where `try_from` accepts only the number that `into` gives back, no number is changed by the way
  -- through `WEnum`, known or not.
  pub to_u32-from_u32 :
      (try_from : ℕ → Option T) (into : T → ℕ)
      → ((u : ℕ) (t : T) → try_from u ≡ some t → into t ≡ u)
      → (u : ℕ) → to_u32 into (from_u32 try_from u) ≡ u
  unfolding from_u32 to_u32
  to_u32-from_u32 try_from into h u = elim (Option-cases (try_from u)) [
    | inl e ↦ rw (e, to_u32)
    | inr (t, e) ↦ rw (e, to_u32) (h u t e)
  ]
