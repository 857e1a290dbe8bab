-- ===== src/Client/Dispatch/Events.antt =====
-- What a message that was read says of the object that it is for.
use wayland_rs.Common.{ℕ, ◌≡◌, Option-cases, inl, inr, some, List, arith, get_elem?, ok}
use wayland_rs.Common.Word.{Endian}
use wayland_rs.Protocol.{ArgumentType, Message}
use wayland_rs.Protocol.Interfaces.{Interface, MessageDesc, deref}
use wayland_rs.Protocol.Signature.{Fits}
use wayland_rs.Map.{ObjectMap, Object, find}
use wayland_rs.Socket.{BufferedSocket, read_one_message}
use wayland_rs.Socket.Invariant.{Inv}
use wayland_rs.Socket.Reading.{read_one_message-Taken}
use wayland_rs.Client.State.{Data}
use wayland_rs.Client.Dispatch.{event_signature}

module _ (statics : ℕ → Interface) {U : Type 0} where
  -- The object and the description behind a signature.
  pub record Known (map : ObjectMap (Data U)) (id opcode : ℕ) (types : List ArgumentType)
      : Type 0 where
    pub receiver : Object (Data U)
    pub desc : MessageDesc
    pub found : find map id ≡ some receiver
    pub described : get_elem? (deref statics receiver.interface).events opcode ≡ some desc
    pub signature : desc.signature ≡ types

  event_signature-Known :
      (map : ObjectMap (Data U)) (id opcode : ℕ) (types : List ArgumentType)
      → event_signature statics map id opcode ≡ some types
      → Known map id opcode types
  unfolding event_signature
  event_signature-Known map id opcode types h = elim (Option-cases (find map id)) [
    | inl e ↦ absurd (ground (arith, rw (e, event_signature) at h))
    | inr (object, e) ↦
        let g = rw (e, event_signature) at h in
        elim (Option-cases (get_elem? (deref statics object.interface).events opcode)) [
          | inl f ↦ absurd (ground (arith, rw (f, event_signature) at g))
          | inr (desc, f) ↦ record {
            receiver = object;
            desc = desc;
            found = e;
            described = f;
            signature = ground (arith, rw (f, event_signature) at g);
          }
        ]
  ]

  -- When a message has been read, its sender is an object of the map, the opcode is that of an event
  -- of its interface, and the arguments fit that event's signature; the buffers are in order.
  pub read_one_message-Known :
      {Sys Fd : Type 0} (e : Endian) (map : ObjectMap (Data U)) (b b' : BufferedSocket Sys Fd)
      → (m : Message ℕ Fd) → Inv b
      → read_one_message e (event_signature statics map) b ≡ (b', ok m)
      → (types : List ArgumentType) × Known map m.sender_id m.opcode types × Fits types m.args
  read_one_message-Known e map b b' m v h =
      let t = read_one_message-Taken e (event_signature statics map) b b' m v h in
      (t.types, event_signature-Known map m.sender_id m.opcode t.types t.known, t.fits)
