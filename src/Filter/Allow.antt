-- ===== src/Filter/Allow.antt =====
-- What a filter allows, against the rule of the comment in filter.go.
use grav.Common.{
  ◌≡◌, ◌↔◌, ◌⊎◌, String, Bool, true, false, Option, none, some, arith, lookup, lookup-insert, ite,
  string_discrete, ◌&&◌, [],
}
use grav.Message.{Message}
use grav.Filter.{MessageFilter, allow, filter_uuid, filter_type}

-- The rule for one map: the entry's value, or the inclusive flag where there is no entry.
abbrev pub Permits : Option Bool → Bool → Type 0
Permits entry inclusive = (entry ≡ some true) ⊎ ((entry ≡ none) × (inclusive ≡ true))

-- A message is allowed exactly when its type and its UUID are both permitted, where an entry of the
-- map decides by its value and a missing entry by the inclusive flag.
pub allow_iff :
    (mf : MessageFilter) (msg : Message)
    → (allow mf msg ≡ true) ↔ (
        Permits (lookup msg.msg_type mf.type_map) mf.type_inclusive
        × Permits (lookup msg.uuid mf.uuid_map) mf.uuid_inclusive)
unfolding allow
allow_iff mf msg = ground arith

-- After FilterUUID with false, messages with that UUID are denied, and all others are judged as
-- before.
pub allow-filter_uuid :
    (mf : MessageFilter) (uuid : String) (msg : Message)
    → allow (filter_uuid mf uuid false) msg
      ≡ ite (string_discrete uuid msg.uuid) false (allow mf msg)
unfolding allow filter_uuid
allow-filter_uuid mf uuid msg = ground (arith, lookup-insert uuid msg.uuid false mf.uuid_map)

-- After FilterType, messages of that type are denied if the value is false and otherwise judged by
-- the UUID rule alone, and messages of other types are judged as before.
pub allow-filter_type :
    (mf : MessageFilter) (t : String) (b : Bool) (msg : Message)
    → allow (filter_type mf t b) msg
      ≡ ite
          (string_discrete t msg.msg_type)
          (b && allow (record mf { type_map = []; type_inclusive = true }) msg)
          (allow mf msg)
unfolding allow filter_type lookup
allow-filter_type mf t b msg = ground (arith, lookup-insert t msg.msg_type b mf.type_map)
