-- ===== src/Protocol.antt =====
-- wayland-backend/src/protocol.rs and core_interfaces.rs: arguments, messages, interfaces.
pub mod Interfaces
pub mod Signature
pub mod Enums
use wayland_rs.Common.{
  ℕ, Bool, true, false, ◌&&◌, ◌||◌, Option, none, some, List, [], ◌∷◌, map, ◌==◌, bytes_eq, length,
}
use wayland_rs.Common.Word.{ℤ, pos, negsuc}

-- `Yes` and `No` in the source.
pub data AllowNull : Type 0 where
  nullable non_null : AllowNull

pub data ArgumentType : Type 0 where
  int uint fixed : ArgumentType
  str : AllowNull → ArgumentType
  object : AllowNull → ArgumentType
  new_id array fd : ArgumentType

-- A C string is its bytes without the final nul; a vector of bytes is a list.
pub data Argument (Oid Fd : Type 0) : Type 0 where
  int : ℤ → Argument Oid Fd
  uint : ℕ → Argument Oid Fd
  fixed : ℤ → Argument Oid Fd
  str : Option (List ℕ) → Argument Oid Fd
  object : Oid → Argument Oid Fd
  new_id : Oid → Argument Oid Fd
  array : List ℕ → Argument Oid Fd
  fd : Fd → Argument Oid Fd

pub record Message (Oid Fd : Type 0) : Type 0 where
  pub sender_id : Oid
  pub opcode : ℕ
  pub args : List (Argument Oid Fd)

-- Equal discriminants.
unfoldable pub same_type : ArgumentType → ArgumentType → Bool
same_type ArgumentType.int ArgumentType.int = true
same_type ArgumentType.uint ArgumentType.uint = true
same_type ArgumentType.fixed ArgumentType.fixed = true
same_type (ArgumentType.str a) (ArgumentType.str b) = true
same_type (ArgumentType.object a) (ArgumentType.object b) = true
same_type ArgumentType.new_id ArgumentType.new_id = true
same_type ArgumentType.array ArgumentType.array = true
same_type ArgumentType.fd ArgumentType.fd = true
same_type _ _ = false

unfoldable pub is_fd : ArgumentType → Bool
is_fd ArgumentType.fd = true
is_fd _ = false

module _ {Oid Fd : Type 0} where
  unfoldable pub get_type : Argument Oid Fd → ArgumentType
  get_type (Argument.int i) = ArgumentType.int
  get_type (Argument.uint u) = ArgumentType.uint
  get_type (Argument.fixed f) = ArgumentType.fixed
  get_type (Argument.str s) = ArgumentType.str nullable
  get_type (Argument.object o) = ArgumentType.object nullable
  get_type (Argument.new_id n) = ArgumentType.new_id
  get_type (Argument.array a) = ArgumentType.array
  get_type (Argument.fd f) = ArgumentType.fd

  unfoldable pub map_fd_arg : {T : Type 0} → (Fd → T) → Argument Oid Fd → Argument Oid T
  map_fd_arg f (Argument.int i) = Argument.int i
  map_fd_arg f (Argument.uint u) = Argument.uint u
  map_fd_arg f (Argument.fixed x) = Argument.fixed x
  map_fd_arg f (Argument.str s) = Argument.str s
  map_fd_arg f (Argument.object o) = Argument.object o
  map_fd_arg f (Argument.new_id n) = Argument.new_id n
  map_fd_arg f (Argument.array a) = Argument.array a
  map_fd_arg f (Argument.fd x) = Argument.fd (f x)

  unfoldable pub map_fd : {T : Type 0} → (Fd → T) → Message Oid Fd → Message Oid T
  unfolding map_fd_arg
  map_fd f m = record {
    sender_id = m.sender_id;
    opcode = m.opcode;
    args = map (map_fd_arg f) m.args;
  }

  -- `for (typ, arg) in signature.iter().copied().zip(args.iter())`
  all_same_types : List ArgumentType → List (Argument Oid Fd) → Bool
  all_same_types (t ∷ ts) (a ∷ args) = same_type (get_type a) t && all_same_types ts args
  all_same_types _ _ = true

  unfoldable pub check_for_signature : List ArgumentType → List (Argument Oid Fd) → Bool
  unfolding all_same_types
  check_for_signature signature args =
      (length signature == length args) && all_same_types signature args
