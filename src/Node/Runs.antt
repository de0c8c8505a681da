-- ===== src/Node/Runs.antt =====
-- The steps of the goroutines and of the bus.
use grav.Common.{
  ℕ, ◌<◌, ◌≡◌, ◌≢◌, ◌⊎◌, refl, sym, subst, ◌∙◌, arith, List, [], ◌∷◌, ◌++◌, Option, some, inl, inr,
  All, All-map, length,
}
use grav.Message.{Message}
use grav.MsgBuffer.Range.{InRange}
use grav.PodConnection.{Ptr, PodConnection, run_send}
use grav.PodConnection.Delivery.{default_pod_chan_size}
use grav.Pool.{store}
use grav.Pool.Ring.{Body, Member, conn_at, head_or, Represents}
use grav.Pool.Change.{with_body, changed_all, store_refines}
use grav.Pool.Prepare.{stays, goes}
use grav.Bus.{MessageBus, handle}
use grav.Bus.Members.{HasId, Gone}
use grav.Bus.Lap.{ready}
use grav.Bus.Fuel.{handle_agrees}
use grav.Bus.Everyone.{Got, handle_everyone}
use grav.Pod.{receive, disconnect}
use grav.Instance.Ring.{All-In, find_id, clean-Stays}
use grav.Node.{
  Owner, Node, NodeStep, connected, posted, handled, ran, took, left, tell, take, taken_from, leave,
  left_from, set_owner,
}
use grav.Node.Fair.{IsFaithful, Fair, got-Fair, tell-IsFaithful, IsFaithful-tell}
use grav.Node.Moves.{
  take-Fair, ready-Fair, ran-Fair, leave-Fair, take-IsFaithful, IsFaithful-take, leave-IsFaithful,
}
use grav.Node.Steps.{
  IsSound, at_member, owner_ne, owner_at, all_changed, HasId-changed_all, connected-IsSound,
  posted-IsSound, IsFaithful-set, IsFaithful-back, IsFaithful-elsewhere,
}

-- A write to the connection at `a` that keeps its member fair.
stored-IsSound :
    (n : Node) (a : Ptr) (g : Body → Body) (c c' : PodConnection) (os : ℕ → Owner) (s : IsSound n)
    → n.bus.pool.heap a ≡ some c
    → ((m : Member) (k : Ptr) → c ≡ conn_at m k → c' ≡ conn_at (with_body a g m) k)
    → ((m : Member) (k : Ptr)
        → m.id ≡ a
        → c ≡ conn_at m k
        → Fair (n.owners m.id) m
        → Fair (os m.id) (with_body a g m))
    → ((m : Member) → m.id ≢ a → Fair (n.owners m.id) m → Fair (os m.id) m)
    → IsFaithful (os 1)
    → ((x : ℕ) → IsFaithful (os x) → IsFaithful (n.owners x))
    → IsSound (record n { bus = record n.bus { pool = store n.bus.pool a c' }; owners = os })
unfolding store
stored-IsSound n a g c c' os s l f at else_ hub back = record {
  ring = changed_all a g s.ring;
  represents = store_refines a g c c' f n.bus.pool s.ring l s.represents;
  buffered = s.buffered;
  hub = hub;
  first = HasId-changed_all a g n.owners os 1 s.ring s.first;
  present = λ x i h. HasId-changed_all a g n.owners os x s.ring (s.present x i (back x h));
  fair =
      all_changed a g n.owners os s.ring
        (λ m i e h.
          let (k, q) = at_member n.bus.pool.heap (head_or s.ring 0) s.ring m s.represents.ring i in
          at m k e (ground (arith, l, q, e)) h)
        else_ s.fair;
}

ran-IsSound :
    (n : Node) (a : Ptr) (c c' : PodConnection) (xs ys : List (Option Message))
    (msg : Option Message)
    → n.bus.pool.heap a ≡ some c
    → c.sends ≡ xs ++ (msg ∷ ys)
    → length c.message_chan < default_pod_chan_size
    → run_send msg (record c { sends = xs ++ ys }) ≡ some c'
    → IsSound n
    → IsSound (record n { bus = record n.bus { pool = store n.bus.pool a c' } })
unfolding run_send
ran-IsSound n a c c' xs ys msg l e room done s =
    let g =
      λ (x : Body). record x { sends = xs ++ ys; message_chan = x.message_chan ++ (msg ∷ []) } in
    stored-IsSound n a g c c' n.owners s l (λ m k q. ground (arith, q, done))
      (λ m k i q h.
        ran-Fair (n.owners m.id) m xs ys msg (ground (arith, q, e)) (ground (arith, q, room)) h)
      (λ m i h. h) s.hub (λ x h. h)

took-IsSound :
    (n : Node) (a : Ptr) (c : PodConnection) (msg : Message) (rest : List (Option Message))
    → n.bus.pool.heap a ≡ some c
    → c.message_chan ≡ some msg ∷ rest
    → IsSound n
    → IsSound (record n {
      bus = record n.bus { pool = store n.bus.pool a (taken_from c (n.owners a) msg rest) };
      owners = set_owner n.owners a (take (n.owners a) msg);
    })
unfolding taken_from
took-IsSound n a c msg rest l e s =
    let o = n.owners a in
    let g = λ (x : Body). record x {
      message_chan = rest;
      feedback_chan = x.feedback_chan ++ (receive o.pod msg).feedback_chan;
    } in
    stored-IsSound n a g c (taken_from c o msg rest) (set_owner n.owners a (take o msg)) s l
      (λ m k q. ground (arith, q))
      (λ m k i q h.
        owner_at n.owners a (take o msg) m (with_body a g m) i
          (take-Fair o m msg rest (ground (arith, q, e)) (subst (λ x. Fair (n.owners x) m) i h)))
      (λ m i h. owner_ne n.owners a (take o msg) m i h)
      (IsFaithful-set n.owners a (take o msg) 1 (IsFaithful-take o msg) s.hub)
      (λ x h. IsFaithful-back n.owners a (take o msg) x (take-IsFaithful o msg) h)

left-IsSound :
    (n : Node) (a : Ptr) (c : PodConnection)
    → a ≢ 1
    → n.bus.pool.heap a ≡ some c
    → IsSound n
    → IsSound (record n {
      bus = record n.bus { pool = store n.bus.pool a (left_from c (n.owners a)) };
      owners = set_owner n.owners a (leave (n.owners a));
    })
unfolding left_from
left-IsSound n a c ne l s =
    let o = n.owners a in
    let g = λ (x : Body). record x {
      feedback_chan = x.feedback_chan ++ (disconnect o.pod).feedback_chan;
    } in
    stored-IsSound n a g c (left_from c o) (set_owner n.owners a (leave o)) s l
      (λ m k q. ground (arith, q))
      (λ m k i q h.
        owner_at n.owners a (leave o) m (with_body a g m) i
          (leave-Fair o m (subst (λ x. Fair (n.owners x) m) i h)))
      (λ m i h. owner_ne n.owners a (leave o) m i h)
      (IsFaithful-elsewhere n.owners a (leave o) 1 (λ k. ne (sym k)) s.hub)
      (λ x h. IsFaithful-back n.owners a (leave o) x (λ f. absurd (leave-IsFaithful o f)) h)

-- The bus does not delete the connection of a faithful pod.
not_deleted : (m : Member) (o : Owner) → Fair o m → IsFaithful o → Gone m → ⊥
not_deleted m o h f (g, k) = let e : stays ≡ goes g = sym (clean-Stays m (h.clean f)) ∙ k in cc

-- A member of the new ring is fair, since it was.
told-Fair :
    (n : Node) (msg : Message) (old : List Member) (replay : List (Option Message)) (m : Member)
    → All (λ x. Fair (n.owners x.id) x) old
    → Got replay msg old m
    → Fair (tell (n.owners m.id) msg) m
told-Fair n msg old replay m fair (b, i, inl e) =
    subst (λ (x : Member). Fair (tell (n.owners x.id) msg) x) (sym e)
      (got-Fair (n.owners b.id) b msg (All-In (λ x. Fair (n.owners x.id) x) old b fair i))
told-Fair n msg old replay m fair (b, i, inr e) =
    subst (λ (x : Member). Fair (tell (n.owners x.id) msg) x) (sym e)
      (got-Fair (n.owners b.id) (ready replay b) msg
        (ready-Fair (n.owners b.id) b replay (All-In (λ x. Fair (n.owners x.id) x) old b fair i)))

-- What the bus makes of a fair ring.
pub handle-Fair :
    (n : Node) (msg : Message) (s : IsSound n) (ring : List Member)
    → ring ≡ s.ring
    → (bus : MessageBus) × (ring' : List Member) × (handle (length ring) n.bus msg ≡ some bus)
      × Represents bus.pool ring'
      × InRange bus.buffer
      × ((a : ℕ) → IsFaithful (n.owners a) → HasId a ring → HasId a ring')
      × All (λ m. Fair (tell (n.owners m.id) msg) m) ring'
handle-Fair n msg s [] q = absurd (subst (HasId 1) (sym q) s.first)
handle-Fair n msg s (cur ∷ rest) q =
    let old = cur ∷ rest in
    let r = subst (Represents n.bus.pool) (sym q) s.represents in
    let fair = subst (All (λ m. Fair (n.owners m.id) m)) (sym q) s.fair in
    let (hub, i, z, h) =
      find_id (λ m. Fair (n.owners m.id) m) 1 old fair (subst (HasId 1) (sym q) s.first) in
    let faithful = subst (λ x. IsFaithful (n.owners x)) (sym z) s.hub in
    let (bus, ring, e, k) =
      handle_everyone n.bus msg cur rest (length old) hub r s.buffered (omega arith) i
        (clean-Stays hub (h.clean faithful)) in
    (
      bus,
      ring,
      e,
      k.represents,
      k.buffered,
      (λ a f j.
          let (m, i', z', p) = find_id (λ m. Gone m ⊎ HasId m.id ring) a old k.kept j in
          elim p [
            | inl g ↦ absurd (
                not_deleted m (n.owners m.id) (All-In (λ x. Fair (n.owners x.id) x) old m fair i')
                  (subst (λ x. IsFaithful (n.owners x)) (sym z') f) g)
            | inr there ↦ subst (λ x. HasId x ring) z' there
          ]),
      All-map _ _ ring (λ (m : Member) o. told-Fair n msg old k.replay m fair o) k.everyone,
    )

handled-IsSound :
    (n : Node) (fuel : ℕ) (msg : Message) (rest : List Message) (bus : MessageBus)
    → handle fuel n.bus msg ≡ some bus
    → IsSound n
    → IsSound (record n { bus = bus; queue = rest; owners = λ a. tell (n.owners a) msg })
handled-IsSound n fuel msg rest bus e s =
    let (bus', ring, e', r, v, stay, fair) = handle-Fair n msg s s.ring refl in
    let same : bus' ≡ bus = handle_agrees (length s.ring) fuel n.bus bus' bus msg e' e in
    subst (λ b. IsSound (record n { bus = b; queue = rest; owners = λ a. tell (n.owners a) msg }))
      same
      (record {
        ring = ring;
        represents = r;
        buffered = v;
        hub = IsFaithful-tell (n.owners 1) msg s.hub;
        first = stay 1 s.hub s.first;
        present = λ a i f. let g = tell-IsFaithful (n.owners a) msg f in stay a g (s.present a i g);
        fair = fair;
      })

pub step-IsSound : {n n' : Node} → NodeStep n n' → IsSound n → IsSound n'
step-IsSound {n} (connected f bus e) s = connected-IsSound n f bus s e s.ring refl
step-IsSound {n} (posted a msg) s = posted-IsSound n a msg _ s
step-IsSound {n} (handled fuel msg rest bus q e) s = handled-IsSound n fuel msg rest bus e s
step-IsSound {n} (ran a c c' xs ys msg l e room done) s =
    ran-IsSound n a c c' xs ys msg l e room done s
step-IsSound {n} (took a c msg rest l e) s = took-IsSound n a c msg rest l e s
step-IsSound {n} (left a c ne l) s = left-IsSound n a c ne l s
