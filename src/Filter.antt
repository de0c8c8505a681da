-- ===== src/Filter.antt =====
-- grav/filter.go: messageFilter, which decides what reaches a pod's onFunc.
pub mod Allow
use grav.Common.{
  if◌then◌else◌, not, [], String, Bool, true, false, Option, none, some, Map, lookup, insert,
}
use grav.Message.{Message}

pub record MessageFilter : Type 0 where
  pub uuid_map : Map Bool
  pub uuid_inclusive : Bool
  pub type_map : Map Bool
  pub type_inclusive : Bool

unfoldable pub new_message_filter : MessageFilter
new_message_filter = record {
  uuid_map = [];
  uuid_inclusive = true;
  type_map = [];
  type_inclusive = true;
}

-- One of the two tests of `allow`: the entry, if there is one, or the inclusive flag.
unfoldable pub entry_denies : Option Bool → Bool → Bool
entry_denies (some allowed) inclusive = not allowed
entry_denies none inclusive = not inclusive

unfoldable pub allow : MessageFilter → Message → Bool
unfolding entry_denies
allow mf msg =
    if entry_denies (lookup msg.msg_type mf.type_map) mf.type_inclusive
    then false
    else if entry_denies (lookup msg.uuid mf.uuid_map) mf.uuid_inclusive
    then false
    else true

unfoldable pub filter_uuid : MessageFilter → String → Bool → MessageFilter
filter_uuid mf uuid allowed = record mf { uuid_map = insert uuid allowed mf.uuid_map }

unfoldable pub filter_type : MessageFilter → String → Bool → MessageFilter
filter_type mf msg_type allowed = record mf { type_map = insert msg_type allowed mf.type_map }
