-- ===== src/Server/Requests.antt =====
-- `Client::next_request` of wayland-backend/src/rs/server_impl/client.rs.
pub mod Termination
use wayland_rs.Common.{
  ℕ, zero, suc, not, Option, none, some, List, get_elem?, if◌then◌else◌, Result, ok, err, Outcome,
  returns, fails, panics,
}
use wayland_rs.Io.{IoError, IoResult, pipe, proto, is_would_block}
use wayland_rs.Protocol.{ArgumentType, Message}
use wayland_rs.Protocol.Interfaces.{Interface, deref}
use wayland_rs.Wire.{MessageParseError, missing_fd, missing_data, malformed}
use wayland_rs.Map.{ObjectMap, Object, find}
use wayland_rs.Socket.{BufferedSocket, read_one_message, fill_incoming_buffers}
use wayland_rs.Server.Client.{ServerData, connection_closed, Host, Client, kill}

-- The closure given to `read_one_message`.
unfoldable pub request_signature :
    (ℕ → Interface) → {U : Type 0} → ObjectMap (ServerData U) → ℕ → ℕ → Option (List ArgumentType)
request_signature statics map id opcode = elim (find map id) [
  | none ↦ none
  | some object ↦ elim (get_elem? (deref statics object.interface).requests opcode) [
    | none ↦ none
    | some desc ↦ some desc.signature
  ]
]

module _ {Fd : Type 0} (host : Host ℕ Fd) where
  open host use {statics, endian, kernel}
  open kernel use {Sys}

  module _ {U V : Type 0} where
    unread : IoError → Client Sys Fd U V → Client Sys Fd U V
    unfolding kill
    unread x c = if not (is_would_block x) then kill connection_closed c else c

    -- The object of a message that has been read.
    with_sender :
        Client Sys Fd U V
        → Message ℕ Fd
        → Option (Object (ServerData U))
        → Outcome
            (Client Sys Fd U V × (Message ℕ Fd × Object (ServerData U)))
            (Client Sys Fd U V × IoError)
    with_sender c m (some object) = returns (c, (m, object))
    with_sender c m none = panics

    -- A turn of the loop of `next_request`: its result, or the client for the next turn.
    refill :
        Client Sys Fd U V
        → BufferedSocket Sys Fd × IoResult (Unit {0})
        → Result (Client Sys Fd U V) (
            Outcome
              (Client Sys Fd U V × (Message ℕ Fd × Object (ServerData U)))
              (Client Sys Fd U V × IoError))
    unfolding unread
    refill c (socket, ok x) = ok (record c { socket = socket })
    refill c (socket, err x) = err (fails (unread x (record c { socket = socket }), x))

    after_request :
        Client Sys Fd U V
        → BufferedSocket Sys Fd × Result (Message ℕ Fd) MessageParseError
        → Result (Client Sys Fd U V) (
            Outcome
              (Client Sys Fd U V × (Message ℕ Fd × Object (ServerData U)))
              (Client Sys Fd U V × IoError))
    unfolding with_sender refill kill
    after_request c (socket, ok m) =
        err (with_sender (record c { socket = socket }) m (find c.map m.sender_id))
    after_request c (socket, err missing_data) =
        refill (record c { socket = socket }) (fill_incoming_buffers kernel socket)
    after_request c (socket, err missing_fd) =
        refill (record c { socket = socket }) (fill_incoming_buffers kernel socket)
    after_request c (socket, err malformed) =
        err (fails (kill connection_closed (record c { socket = socket }), proto))

    unfoldable pub request_turn :
        Client Sys Fd U V
        → Result (Client Sys Fd U V) (
            Outcome
              (Client Sys Fd U V × (Message ℕ Fd × Object (ServerData U)))
              (Client Sys Fd U V × IoError))
    unfolding after_request
    request_turn c =
        after_request c (read_one_message endian (request_signature statics c.map) c.socket)

    -- `none` means that the fuel ran out.
    unfoldable pub request_loop :
        ℕ
        → Client Sys Fd U V
        → Option (
            Outcome
              (Client Sys Fd U V × (Message ℕ Fd × Object (ServerData U)))
              (Client Sys Fd U V × IoError))
    request_loop zero c = none
    request_loop (suc fuel) c = elim (request_turn c) [
      | ok c' ↦ request_loop fuel c'
      | err r ↦ some r
    ]

    unfoldable pub next_request :
        ℕ
        → Client Sys Fd U V
        → Option (
            Outcome
              (Client Sys Fd U V × (Message ℕ Fd × Object (ServerData U)))
              (Client Sys Fd U V × IoError))
    next_request fuel c = if c.killed then some (fails (c, pipe)) else request_loop fuel c
