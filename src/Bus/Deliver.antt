-- ===== src/Bus/Deliver.antt =====
-- What a lap comes to where the start has just been prepared.
use grav.Common.{
  ◌<◌, ◌≡◌, refl, ap, ◌∙◌, Bool, List, [], ◌∷◌, ◌++◌, Option, none, some, arith, append-nil,
  append_assoc, true, false, length, inl, inr, dec_le,
}
use grav.Message.{Message}
use grav.PodConnection.{ConnStatus, StatusError, no_status}
use grav.PodConnection.Status.{status_of, failures}
use grav.Pool.Ring.{Body, Member}
use grav.Pool.Prepare.{Fate-cases, stays, goes, fate, status, prepared, drained, replayed, flushed}
use grav.Bus.Lap.{got, ready, lap}

-- The channel is empty and the failed queue under the mark: nothing for `prepareNext` to do.
pub record IsSettled (x : Body) : Type 0 where
  pub drained : x.feedback_chan ≡ []
  pub low : length x.failed < 64

low_status : (failed : List Message) → length failed < 64 → status_of [] failed ≡ no_status
low_status failed h = ground (arith, append-nil failed)

status_settled : (x : Body) → IsSettled x → status x ≡ no_status
status_settled x s = ap (λ fs. status_of fs x.failed) s.drained ∙ low_status x.failed s.low

drained_settled : (x : Body) → IsSettled x → drained x ≡ x
drained_settled x s = ground (arith, s.drained, append-nil x.failed)

pub settled_fate : (x : Body) → IsSettled x → fate (status x) ≡ stays
settled_fate x s = ap fate (status_settled x s)

pub settled_prepared : (msgs : List (Option Message)) (x : Body) → IsSettled x → prepared msgs x ≡ x
settled_prepared msgs x s =
    ap (λ st. flushed st (replayed st msgs (drained x))) (status_settled x s) ∙ drained_settled x s

drained-IsSettled : (x : Body) → fate (status x) ≡ stays → IsSettled (drained x)
drained-IsSettled x h = record {
  drained = refl;
  low = elim (dec_le 64 (length (x.failed ++ failures x.feedback_chan))) [
    | yes p ↦ absurd (ground (arith, h, p))
    | no n ↦ omega arith
  ];
}

-- What `prepareNext` keeps it leaves settled.
pub prepared-IsSettled :
    (msgs : List (Option Message)) (x : Body)
    → fate (status x) ≡ stays
    → IsSettled (prepared msgs x)
prepared-IsSettled msgs x h =
    by_cases (status x).had_success (status x).wants_replay (status x).error (drained x)
      (drained-IsSettled x h)
  where
    by_cases :
        (had rep : Bool) (er : Option StatusError) (y : Body)
        → IsSettled y
        → let st : ConnStatus = record {
          had_success = had;
          wants_replay = rep;
          wants_disconnect = (status x).wants_disconnect;
          error = er;
        } in
          IsSettled (flushed st (replayed st msgs y))
    by_cases true true none y s = record { drained = s.drained; low = omega arith }
    by_cases true false none y s = record { drained = s.drained; low = omega arith }
    by_cases false true none y s = record { drained = s.drained; low = s.low }
    by_cases false false none y s = s
    by_cases true rep (some e) y s = record { drained = s.drained; low = omega arith }
    by_cases false rep (some e) y s = s

-- The members that stand behind the start after a lap. The one behind a deleted member is sent the
-- message as it is.
module _ (msgs : List (Option Message)) (msg : Message) where
  unfoldable pub delivered : List Member → List Member
  delivered [] = []
  delivered (b ∷ []) = elim (fate (status b.body)) [
    | stays ↦ got msg (ready msgs b) ∷ []
    | goes _ ↦ []
  ]
  delivered (b ∷ c ∷ ms) =
      let kept = delivered (c ∷ ms) in
      let skipped = got msg c ∷ delivered ms in
      elim (fate (status b.body)) [ stays ↦ got msg (ready msgs b) ∷ kept | goes _ ↦ skipped ]

  abbrev StartSettled : Member → List Member → Type 0
  StartSettled conn [] = IsSettled conn.body
  StartSettled conn (s ∷ seen) = IsSettled s.body

  StartSettled-next :
      (conn b : Member) (seen : List Member)
      → StartSettled conn seen
      → StartSettled b (seen ++ (got msg conn ∷ []))
  StartSettled-next conn b [] s = record { drained = s.drained; low = s.low }
  StartSettled-next conn b (x ∷ seen) s = s

  pub lap_lem :
      (conn : Member) (todo seen : List Member)
      → StartSettled conn seen
      → lap msgs msg conn todo seen ≡ some (seen ++ (got msg conn ∷ delivered todo))
  unfolding lap delivered
  lap_lem conn [] [] s =
      let t = StartSettled-next conn conn [] s in
      ground
        (arith, settled_fate (got msg conn).body t, settled_prepared msgs (got msg conn).body t)
  lap_lem conn [] (x ∷ seen) s =
      ground (arith, settled_fate x.body s, settled_prepared msgs x.body s)
  lap_lem conn (b ∷ []) seen s = elim (Fate-cases (fate (status b.body))) [
    | inl h ↦ ground (
      arith,
      h,
      lap_lem (ready msgs b) [] (seen ++ (got msg conn ∷ []))
          (StartSettled-next conn (ready msgs b) seen s),
      append_assoc seen (got msg conn ∷ []) (got msg (ready msgs b) ∷ []),
    )
    | inr (g, h) ↦ ground (arith, h)
  ]
  lap_lem conn (b ∷ c ∷ todo) seen s = elim (Fate-cases (fate (status b.body))) [
    | inl h ↦ ground (
      arith,
      h,
      lap_lem (ready msgs b) (c ∷ todo) (seen ++ (got msg conn ∷ []))
          (StartSettled-next conn (ready msgs b) seen s),
      append_assoc seen (got msg conn ∷ []) (got msg (ready msgs b) ∷ delivered (c ∷ todo)),
    )
    | inr (g, h) ↦ ground (
      arith,
      h,
      lap_lem c todo (seen ++ (got msg conn ∷ [])) (StartSettled-next conn c seen s),
      append_assoc seen (got msg conn ∷ []) (got msg c ∷ delivered todo),
    )
  ]
