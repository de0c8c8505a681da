-- ===== src/Pool/Feed.antt =====
-- What pods put into their feedback channels between two messages of the bus.
use grav.Common.{◌≡◌, List, ◌++◌, Option, some, arith, ◌>>=◌, Option-cases, inl, inr, subst}
use grav.PodConnection.{Ptr, Feedback}
use grav.Pool.{ConnectionPool, store}
use grav.Pool.Ring.{Body, Member, head_or, Represents}
use grav.Pool.Change.{
  with_body, changed, changed_all, id-changed, head_or-changed_all, store_refines,
}

-- `p.feedbackChan <- msg` of the pod whose connection is at `a`, for each of `feedback`.
unfoldable pub feed : ConnectionPool → Ptr → List Feedback → Option ConnectionPool
unfolding store
feed p a feedback = do
  c ← p.heap a
  some (store p a (record c { feedback_chan = c.feedback_chan ++ feedback }))

module _ (a : Ptr) (feedback : List Feedback) where
  abbrev pub more : Body → Body
  more x = record x { feedback_chan = x.feedback_chan ++ feedback }

  abbrev pub grown : Member → Member
  grown = with_body a more

  abbrev pub fed : Member → Member
  fed = changed a more

  abbrev pub fed_all : List Member → List Member
  fed_all = changed_all a more

  pub id-fed : (m : Member) → (fed m).id ≡ m.id
  id-fed = id-changed a more

  pub head_or-fed_all : (ms : List Member) (e : Ptr) → head_or (fed_all ms) e ≡ head_or ms e
  head_or-fed_all = head_or-changed_all a more

  -- On the list of members the fed one has more in its channel.
  pub feed_refines :
      (p p' : ConnectionPool) (ms : List Member)
      → feed p a feedback ≡ some p'
      → Represents p ms
      → Represents p' (fed_all ms)
  unfolding feed
  feed_refines p p' ms e r = elim (Option-cases (p.heap a)) [
    | inl out ↦ absurd (ground (arith, out, e))
    | inr (c, l) ↦
        let new = record c { feedback_chan = c.feedback_chan ++ feedback } in
        let same : store p a new ≡ p' = ground (arith, l, e) in
        subst (λ q. Represents q (fed_all ms)) same
          (store_refines a more c new (λ m k q. ground (arith, q)) p ms l r)
  ]
