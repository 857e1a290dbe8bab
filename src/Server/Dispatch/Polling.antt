-- ===== src/Server/Dispatch/Polling.antt =====
-- `dispatch_all_clients` of wayland-backend/src/rs/server_impl/common_poll.rs. What `epoll::wait` answers,
-- time after time, is given.
use wayland_rs.Common.{
  ℕ, ◌+◌, Option, none, some, List, [], ◌∷◌, ok, err, Outcome, returns, fails, panics,
}
use wayland_rs.Io.{IoError, IoResult}
use wayland_rs.Server.{from_u64}
use wayland_rs.Server.Client.{Host}
use wayland_rs.Server.Display.{ServerState}
use wayland_rs.Server.Dispatch.{DispatchError, Callbacks, dispatch_events_for, clean_up}

module _ {Fd : Type 0} (host : Host ℕ Fd) where
  open host use {kernel}
  open kernel use {Sys}

  module _ {U V H : Type 0} (calls : Callbacks Sys Fd U V H) where
    -- The count of a client is added; an error of a client is passed over.
    counted :
        ℕ
        → Outcome (ServerState Sys Fd U V H × ℕ) (ServerState Sys Fd U V H × DispatchError)
        → Option (ServerState Sys Fd U V H × ℕ)
    counted n (returns (s, k)) = some (s, n + k)
    counted n (fails (s, x)) = some (s, n)
    counted n panics = none

    -- The clients of one answer, in turn. `none` means that the fuel ran out, and `some none` a panic.
    unfoldable pub dispatch_batch :
        ℕ → List ℕ → ServerState Sys Fd U V H → ℕ → Option (Option (ServerState Sys Fd U V H × ℕ))
    unfolding counted
    dispatch_batch fuel [] s n = some (some (s, n))
    dispatch_batch fuel (e ∷ events) s n =
        elim (dispatch_events_for host calls fuel (from_u64 e) s) [
          | none ↦ none
          | some r ↦ elim (counted n r) [
            | none ↦ some none
            | some (s', k) ↦ dispatch_batch fuel events s' k
          ]
        ]

    -- `none` also means that the answers of `epoll::wait` have run out.
    unfoldable pub dispatch_all_clients :
        ℕ
        → List (IoResult (List ℕ))
        → ServerState Sys Fd U V H
        → ℕ
        → Option (Outcome (ServerState Sys Fd U V H × ℕ) (ServerState Sys Fd U V H × IoError))
    unfolding dispatch_batch
    dispatch_all_clients fuel [] s n = none
    dispatch_all_clients fuel (err x ∷ waits) s n = some (fails (s, x))
    dispatch_all_clients fuel (ok [] ∷ waits) s n = some (returns (s, n))
    dispatch_all_clients fuel (ok (e ∷ events) ∷ waits) s n =
        elim (dispatch_batch fuel (e ∷ events) s n) [
          | none ↦ none
          | some none ↦ some panics
          | some (some (s', k)) ↦ dispatch_all_clients fuel waits (clean_up host calls s') k
        ]
