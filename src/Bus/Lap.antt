-- ===== src/Bus/Lap.antt =====
-- One lap of `traverse` over the list of members.
use grav.Common.{List, [], ◌∷◌, ◌++◌, Option, none, some}
use grav.Message.{Message}
use grav.Pool.Ring.{Member}
use grav.Pool.Prepare.{stays, goes, fate, status, prepared, member}

-- A member that has been sent the message, and one that has been prepared.
abbrev pub got : Message → Member → Member
got msg m = member m.id (record m.body { sends = m.sends ++ (some msg ∷ []) })

abbrev pub ready : List (Option Message) → Member → Member
ready msgs m = member m.id (prepared msgs m.body)

-- `conn` is the current connection, `todo` the members in front of it up to the start, and `seen`
-- those from the start on that have been sent the message. `none`: the ring has run empty.
module _ (msgs : List (Option Message)) (msg : Message) where
  unfoldable pub lap : Member → List Member → List Member → Option (List Member)
  lap conn [] [] = elim (fate (status (got msg conn).body)) [
    | stays ↦ some (ready msgs (got msg conn) ∷ [])
    | goes _ ↦ none
  ]
  lap conn [] (s ∷ seen) = elim (fate (status s.body)) [
    | stays ↦ some (ready msgs s ∷ seen ++ (got msg conn ∷ []))
    | goes _ ↦ some (seen ++ (got msg conn ∷ []))
  ]
  lap conn (b ∷ []) seen = elim (fate (status b.body)) [
    | stays ↦ lap (ready msgs b) [] (seen ++ (got msg conn ∷ []))
    | goes _ ↦ some (seen ++ (got msg conn ∷ []))
  ]
  lap conn (b ∷ c ∷ todo) seen = elim (fate (status b.body)) [
    | stays ↦ lap (ready msgs b) (c ∷ todo) (seen ++ (got msg conn ∷ []))
    | goes _ ↦ lap c todo (seen ++ (got msg conn ∷ []))
  ]
