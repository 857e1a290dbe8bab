-- ===== src/Protocol/Interfaces.antt =====
-- The statics that describe interfaces. They point at one another, cycles included, so a
-- `&'static Interface` is an address, and a table gives the interface that stands there.
use Prim.Native.Char.{code}
use Prim.Native.String.{String}
use wayland_rs.Common.{
  ℕ, Bool, true, false, ◌||◌, Option, none, some, List, [], ◌∷◌, ◌==◌, bytes_eq,
}
use wayland_rs.Protocol.{ArgumentType, non_null}

-- The core interfaces, and those that wayland-scanner generates.
pub data InterfaceRef : Type 0 where
  anonymous wl_display wl_registry wl_callback : InterfaceRef
  generated : ℕ → InterfaceRef

pub record MessageDesc : Type 0 where
  pub name : List ℕ
  pub signature : List ArgumentType
  pub since : ℕ
  pub is_destructor : Bool
  pub child_interface : Option InterfaceRef
  pub arg_interfaces : List InterfaceRef

pub record Interface : Type 0 where
  pub name : List ℕ
  pub version : ℕ
  pub requests : List MessageDesc
  pub events : List MessageDesc

-- The bytes of an ASCII name.
abbrev pub bytes_of : String → List ℕ
bytes_of String.[] = []
bytes_of (String.◌∷◌ c s) = code c ∷ bytes_of s

unfoldable pub anonymous_interface : Interface
anonymous_interface = record {
  name = bytes_of "<anonymous>";
  version = 0;
  requests = [];
  events = [];
}

unfoldable pub wl_display_interface : Interface
wl_display_interface = record {
  name = bytes_of "wl_display";
  version = 1;
  requests =
      record {
        name = bytes_of "sync";
        since = 1;
        is_destructor = false;
        signature = ArgumentType.new_id ∷ [];
        child_interface = some wl_callback;
        arg_interfaces = [];
      }
      ∷ record {
        name = bytes_of "get_registry";
        since = 1;
        is_destructor = false;
        signature = ArgumentType.new_id ∷ [];
        child_interface = some wl_registry;
        arg_interfaces = [];
      }
      ∷ [];
  events =
      record {
        name = bytes_of "error";
        since = 1;
        is_destructor = false;
        signature =
            ArgumentType.object non_null ∷ ArgumentType.uint ∷ ArgumentType.str non_null ∷ [];
        child_interface = none;
        arg_interfaces = anonymous ∷ [];
      }
      ∷ record {
        name = bytes_of "delete_id";
        since = 1;
        is_destructor = false;
        signature = ArgumentType.uint ∷ [];
        child_interface = none;
        arg_interfaces = [];
      }
      ∷ [];
}

unfoldable pub wl_registry_interface : Interface
wl_registry_interface = record {
  name = bytes_of "wl_registry";
  version = 1;
  requests =
      record {
        name = bytes_of "bind";
        since = 1;
        is_destructor = false;
        signature =
            ArgumentType.uint
            ∷ ArgumentType.str non_null
            ∷ ArgumentType.uint
            ∷ ArgumentType.new_id
            ∷ [];
        child_interface = none;
        arg_interfaces = [];
      }
      ∷ [];
  events =
      record {
        name = bytes_of "global";
        since = 1;
        is_destructor = false;
        signature = ArgumentType.uint ∷ ArgumentType.str non_null ∷ ArgumentType.uint ∷ [];
        child_interface = none;
        arg_interfaces = [];
      }
      ∷ record {
        name = bytes_of "global_remove";
        since = 1;
        is_destructor = false;
        signature = ArgumentType.uint ∷ [];
        child_interface = none;
        arg_interfaces = [];
      }
      ∷ [];
}

unfoldable pub wl_callback_interface : Interface
wl_callback_interface = record {
  name = bytes_of "wl_callback";
  version = 1;
  requests = [];
  events =
      record {
        name = bytes_of "done";
        since = 1;
        is_destructor = true;
        signature = ArgumentType.uint ∷ [];
        child_interface = none;
        arg_interfaces = [];
      }
      ∷ [];
}

-- `std::ptr::eq`
unfoldable pub ptr_eq : InterfaceRef → InterfaceRef → Bool
ptr_eq anonymous anonymous = true
ptr_eq wl_display wl_display = true
ptr_eq wl_registry wl_registry = true
ptr_eq wl_callback wl_callback = true
ptr_eq (generated a) (generated b) = a == b
ptr_eq _ _ = false

-- `statics` holds the interfaces that the scanner generated.
module _ (statics : ℕ → Interface) where
  unfoldable pub deref : InterfaceRef → Interface
  deref anonymous = anonymous_interface
  deref wl_display = wl_display_interface
  deref wl_registry = wl_registry_interface
  deref wl_callback = wl_callback_interface
  deref (generated n) = statics n

  unfoldable pub same_interface : InterfaceRef → InterfaceRef → Bool
  same_interface a b = ptr_eq a b || bytes_eq (deref a).name (deref b).name

  unfoldable pub same_interface_or_anonymous : InterfaceRef → InterfaceRef → Bool
  same_interface_or_anonymous a b = same_interface a b || same_interface a anonymous
