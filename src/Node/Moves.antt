-- ===== src/Node/Moves.antt =====
-- What the pod and the goroutines do keeps the pod and its connection fair.
use grav.Common.{
  ◌<◌, ◌≡◌, ◌⊎◌, refl, sym, ap, ap₂, subst, ◌∙◌, arith, true, false, List, [], ◌∷◌, ◌++◌, map,
  Option, some, inl, inr, All, All-append, length, length-append, append-nil, append_assoc,
  Bool-cases, string_discrete,
}
use mathlib.Core.List.{Perm, perm_middle}
use mathlib.Core.List.Perm
use grav.Message.{Message}
use grav.Filter.{allow}
use grav.Filter.Allow.{allow-filter_uuid}
use grav.PodConnection.{msg_success, msg_disconnect, failed_msg}
use grav.PodConnection.Status.{failures, any, is_replay}
use grav.PodConnection.Delivery.{default_pod_chan_size}
use grav.Pool.Ring.{Body, Member}
use grav.Bus.Lap.{ready}
use grav.Pod.{Pod, is_ok, send, receive, report, disconnect}
use grav.Pod.Life.{receive-handle}
use grav.Instance.Ring.{IsSuccess, IsClean-ready}
use grav.Node.{Owner, emptied, post, take, leave}
use grav.Node.Fair.{
  Owns, IsFaithful, Listens, Fair, to_retry, whereabouts, to_retry-append, any-append,
}

-- A goroutine of send has put its message into the channel.
pub ran-Fair :
    (o : Owner) (m : Member) (xs ys : List (Option Message)) (msg : Option Message)
    → m.sends ≡ xs ++ (msg ∷ ys)
    → length m.message_chan < default_pod_chan_size
    → Fair o m
    → Fair o (record m {
      body = record m.body { sends = xs ++ ys; message_chan = m.message_chan ++ (msg ∷ []) };
    })
ran-Fair o m xs ys msg e space h =
    let chan = m.message_chan in
    let kept = to_retry m.body in
    let before : chan ++ (m.sends ++ kept) ≡ chan ++ (xs ++ (msg ∷ (ys ++ kept))) =
      ap (λ ss. chan ++ (ss ++ kept)) e ∙ ap (λ ss. chan ++ ss) (append_assoc xs (msg ∷ ys) kept) in
    let after : chan ++ (msg ∷ (xs ++ (ys ++ kept)))
        ≡ (chan ++ (msg ∷ [])) ++ ((xs ++ ys) ++ kept) =
      sym (append_assoc chan (msg ∷ []) (xs ++ (ys ++ kept)))
      ∙ ap (λ ss. (chan ++ (msg ∷ [])) ++ ss) (sym (append_assoc xs ys kept)) in
    record {
      no_replay = h.no_replay;
      complete =
          subst (λ zs. Perm (o.settled ++ zs) o.told) after
            (Perm.trans
              (Perm.append_left o.settled
                (Perm.append_left chan (Perm.symm (perm_middle xs (ys ++ kept)))))
              (subst (λ zs. Perm (o.settled ++ zs) o.told) before h.complete));
      room = omega (arith, length-append chan (msg ∷ []));
      listens = h.listens;
      clean = λ f. record {
        nothing_failed = (h.clean f).nothing_failed;
        successes = (h.clean f).successes;
      };
    }

-- After its status check the connection is as fair as before.
pub ready-Fair :
    (o : Owner) (m : Member) (msgs : List (Option Message)) → Fair o m → Fair o (ready msgs m)
ready-Fair o m msgs h = record {
  no_replay = ap (any is_replay) (drained_chan m msgs);
  complete = subst (λ ys. Perm (o.settled ++ ys) o.told) (sym rest) h.complete;
  room = ground (arith, h.room);
  listens = h.listens;
  clean = λ f. IsClean-ready msgs m (h.clean f);
}
  where
    drained_chan : (x : Member) (ms : List (Option Message)) → (ready ms x).feedback_chan ≡ []
    drained_chan x ms = ground arith

    kept : (ready msgs m).sends ++ to_retry (ready msgs m).body ≡ m.sends ++ to_retry m.body
    kept = ground (
      arith,
      h.no_replay,
      append-nil m.sends,
      append-nil (m.failed ++ failures m.feedback_chan),
      append-nil (m.sends ++ map some (m.failed ++ failures m.feedback_chan)),
    )

    rest :
        (ready msgs m).message_chan ++ ((ready msgs m).sends ++ to_retry (ready msgs m).body)
        ≡ m.message_chan ++ (m.sends ++ to_retry m.body)
    rest = ground (arith, kept)

post-Listens :
    (o : Owner) (msg : Message)
    → Listens o.pod o.own
    → Listens (post o msg).1.pod (post o msg).1.own
unfolding post send emptied
post-Listens o msg l = record {
  func = l.func;
  set = ground (arith, l.set);
  sent_on = refl;
  told_on = refl;
  blocked = λ (x : Message) i. blocked_by x (Bool-cases o.pod.dead) i;
  admits = λ (x : Message) i. admitted_by x (Bool-cases o.pod.dead) i;
}
  where
    blocked_by :
        (x : Message)
        → (o.pod.dead ≡ true) ⊎ (o.pod.dead ≡ false)
        → Owns x.uuid (post o msg).1.own
        → allow (post o msg).1.pod.message_filter x ≡ false
    blocked_by x (inl d) i =
        let same : (post o msg).1.own ≡ o.own = ground (arith, d) in
        ground (arith, d, l.blocked x (subst (Owns x.uuid) same i))
    blocked_by x (inr d) i =
        let same : (post o msg).1.own ≡ msg.uuid ∷ o.own = ground (arith, d) in
        elim (subst (Owns x.uuid) same i) [
          | inl e ↦ ground (arith, d, e, allow-filter_uuid o.pod.message_filter msg.uuid x)
          | inr j ↦
              ground (arith, d, l.blocked x j, allow-filter_uuid o.pod.message_filter msg.uuid x)
        ]

    admitted_by :
        (x : Message)
        → (o.pod.dead ≡ true) ⊎ (o.pod.dead ≡ false)
        → (Owns x.uuid (post o msg).1.own → ⊥)
        → allow (post o msg).1.pod.message_filter x ≡ true
    admitted_by x (inl d) i =
        let same : (post o msg).1.own ≡ o.own = ground (arith, d) in
        ground (arith, d, l.admits x (λ j. i (subst (Owns x.uuid) (sym same) j)))
    admitted_by x (inr d) i =
        let same : (post o msg).1.own ≡ msg.uuid ∷ o.own = ground (arith, d) in
        let k = l.admits x (λ j. i (subst (Owns x.uuid) (sym same) (inr j))) in
        elim (string_discrete msg.uuid x.uuid) [
          | yes e ↦ absurd (i (subst (Owns x.uuid) (sym same) (inl e)))
          | no n ↦ ground (arith, d, k, n, allow-filter_uuid o.pod.message_filter msg.uuid x)
        ]

-- Who is faithful after a send was so before, and the other way round.
pub post-IsFaithful : (o : Owner) (msg : Message) → IsFaithful (post o msg).1 → IsFaithful o
unfolding post send emptied
post-IsFaithful o msg f = record {
  func = f.func;
  set = ground (arith, f.set);
  always = f.always;
  live = ground (arith, f.live);
}

pub IsFaithful-post : (o : Owner) (msg : Message) → IsFaithful o → IsFaithful (post o msg).1
unfolding post send emptied
IsFaithful-post o msg f = record {
  func = f.func;
  set = ground (arith, f.set);
  always = f.always;
  live = ground (arith, f.live);
}

-- The pod has sent a message.
pub post-Fair : (o : Owner) (m : Member) (msg : Message) → Fair o m → Fair (post o msg).1 m
unfolding post
post-Fair o m msg h = record {
  no_replay = h.no_replay;
  complete = h.complete;
  room = h.room;
  listens = post-Listens o msg h.listens;
  clean = λ f. h.clean (post-IsFaithful o msg f);
}

-- What the pod reports of a message: nothing or a success, or that it failed.
reports :
    (o : Owner) (msg : Message)
    → Listens o.pod o.own
    → ((failures (receive o.pod msg).feedback_chan ≡ [])
        × (any is_replay (receive o.pod msg).feedback_chan ≡ false))
      ⊎ ((receive o.pod msg).feedback_chan ≡ failed_msg msg ∷ [])
reports o msg l =
    let e = receive-handle o.pod l.func msg l.set in
    elim (Bool-cases (allow o.pod.message_filter msg)) [
      | inr out ↦
          let c : (receive o.pod msg).feedback_chan ≡ [] = ground (arith, e, out, l.told_on) in
          inl (ap failures c, ap (any is_replay) c)
      | inl in_ ↦ elim (Bool-cases (is_ok (l.func msg))) [
        | inl fine ↦
            let c : (receive o.pod msg).feedback_chan ≡ msg_success ∷ [] =
              ground (arith, e, in_, fine, l.told_on) in
            inl (ap failures c, ap (any is_replay) c)
        | inr bad ↦ inr (ground (arith, e, in_, bad, l.told_on))
      ]
    ]

receive-Listens :
    (o : Owner) (msg : Message) → Listens o.pod o.own → Listens (emptied (receive o.pod msg)) o.own
unfolding emptied
receive-Listens o msg l =
    let e = receive-handle o.pod l.func msg l.set in
    let f : (receive o.pod msg).message_filter ≡ o.pod.message_filter = ground (arith, e) in
    record {
      func = l.func;
      set = ground (arith, e, l.set);
      sent_on = refl;
      told_on = refl;
      blocked = λ x i. ap (λ mf. allow mf x) f ∙ l.blocked x i;
      admits = λ x i. ap (λ mf. allow mf x) f ∙ l.admits x i;
    }

receive_keeps :
    (p : Pod) (msg : Message)
    → ((receive p msg).on_func ≡ p.on_func) × ((receive p msg).dead ≡ p.dead)
unfolding receive report
receive_keeps p msg = ground arith

pub take-IsFaithful : (o : Owner) (msg : Message) → IsFaithful (take o msg) → IsFaithful o
unfolding take emptied
take-IsFaithful o msg f =
    let (e, d) = receive_keeps o.pod msg in
    record { func = f.func; set = sym e ∙ f.set; always = f.always; live = sym d ∙ f.live }

pub IsFaithful-take : (o : Owner) (msg : Message) → IsFaithful o → IsFaithful (take o msg)
unfolding take emptied
IsFaithful-take o msg f =
    let (e, d) = receive_keeps o.pod msg in
    record { func = f.func; set = e ∙ f.set; always = f.always; live = d ∙ f.live }

receive-successes :
    (o : Owner) (msg : Message)
    → Listens o.pod o.own
    → IsFaithful o
    → All IsSuccess (receive o.pod msg).feedback_chan
receive-successes o msg l f =
    let e = receive-handle o.pod f.func msg f.set in
    elim (Bool-cases (allow o.pod.message_filter msg)) [
      | inl in_ ↦
          let c : (receive o.pod msg).feedback_chan ≡ msg_success ∷ [] =
            ground (arith, e, in_, f.always msg, l.told_on) in
          subst (All IsSuccess) (sym c) (tt, tt)
      | inr out ↦
          let c : (receive o.pod msg).feedback_chan ≡ [] = ground (arith, e, out, l.told_on) in
          subst (All IsSuccess) (sym c) tt
    ]

-- Where its messages are when the pod has taken one.
module _ (o : Owner) (m : Member) (msg : Message) (rest : List (Option Message))
    (e : m.message_chan ≡ some msg ∷ rest) (h : Fair o m) where
  abbrev after : Body
  after = record m.body {
    message_chan = rest;
    feedback_chan = m.feedback_chan ++ (receive o.pod msg).feedback_chan;
  }

  settled_whereabouts :
      failures (receive o.pod msg).feedback_chan ≡ []
      → Perm (whereabouts (take o msg) (record m { body = after })) o.told
  unfolding take
  settled_whereabouts none_failed =
      let kept = to_retry m.body in
      let same : to_retry after ≡ kept =
        to_retry-append m rest (receive o.pod msg).feedback_chan
        ∙ ap (λ ms. kept ++ map some ms) none_failed
        ∙ append-nil kept in
      let settled : (take o msg).settled ≡ o.settled ++ (some msg ∷ []) =
        ground (arith, none_failed) in
      subst (λ xs. Perm xs o.told)
        (ap (λ ms. o.settled ++ (ms ++ (m.sends ++ kept))) e
          ∙ sym (append_assoc o.settled (some msg ∷ []) (rest ++ (m.sends ++ kept)))
          ∙ ap₂ (λ (xs ys : List (Option Message)). xs ++ (rest ++ (m.sends ++ ys))) (sym settled)
              (sym same))
        h.complete

  failed_whereabouts :
      (receive o.pod msg).feedback_chan ≡ failed_msg msg ∷ []
      → Perm (whereabouts (take o msg) (record m { body = after })) o.told
  unfolding take
  failed_whereabouts failed =
      let kept = to_retry m.body in
      let one = some msg ∷ [] in
      let behind = rest ++ (m.sends ++ kept) in
      let same : to_retry after ≡ kept ++ one =
        to_retry-append m rest (receive o.pod msg).feedback_chan
        ∙ ap (λ fs. kept ++ map some (failures fs)) failed in
      let settled : o.settled ≡ (take o msg).settled = ground (arith, failed) in
      let moved : behind ++ one ≡ rest ++ (m.sends ++ to_retry after) =
        append_assoc rest (m.sends ++ kept) one
        ∙ ap (λ ys. rest ++ ys)
            (append_assoc m.sends kept one ∙ ap (λ ys. m.sends ++ ys) (sym same)) in
      subst (λ xs. Perm xs o.told) (ap₂ (λ (xs ys : List (Option Message)). xs ++ ys) settled moved)
        (Perm.trans
          (Perm.append_left o.settled (
            subst (λ ys. Perm (behind ++ one) (some msg ∷ ys)) (append-nil behind)
              (perm_middle behind [])))
          (subst (λ ms. Perm (o.settled ++ (ms ++ (m.sends ++ kept))) o.told) e h.complete))

  pub take-Fair : Fair (take o msg) (record m { body = after })
  unfolding take
  take-Fair = record {
    no_replay =
        any-append m.feedback_chan (receive o.pod msg).feedback_chan h.no_replay
          (elim (reports o msg h.listens) [
            | inl (f, r) ↦ r
            | inr failed ↦ ap (any is_replay) failed
          ]);
    complete = elim (reports o msg h.listens) [
      | inl (f, r) ↦ settled_whereabouts f
      | inr failed ↦ failed_whereabouts failed
    ];
    room = ground (arith, e, h.room);
    listens = receive-Listens o msg h.listens;
    clean = λ f.
        let g = take-IsFaithful o msg f in
        record {
          nothing_failed = (h.clean g).nothing_failed;
          successes =
              All-append IsSuccess m.feedback_chan (receive o.pod msg).feedback_chan
                (h.clean g).successes (receive-successes o msg h.listens g);
        };
  }

leave-Listens : (o : Owner) → Listens o.pod o.own → Listens (leave o).pod o.own
unfolding leave disconnect emptied
leave-Listens o l = record {
  func = l.func;
  set = l.set;
  sent_on = refl;
  told_on = refl;
  blocked = l.blocked;
  admits = l.admits;
}

pub leave-IsFaithful : (o : Owner) → IsFaithful (leave o) → ⊥
unfolding leave disconnect emptied
leave-IsFaithful o f = ground (arith, f.live)

-- The pod has disconnected.
pub leave-Fair :
    (o : Owner) (m : Member)
    → Fair o m
    → Fair (leave o) (record m {
      body = record m.body { feedback_chan = m.feedback_chan ++ (disconnect o.pod).feedback_chan };
    })
unfolding leave disconnect
leave-Fair o m h =
    let fs = (disconnect o.pod).feedback_chan in
    let said : fs ≡ msg_disconnect ∷ [] = ground (arith, h.listens.told_on) in
    let same : to_retry (record m.body { feedback_chan = m.feedback_chan ++ fs })
        ≡ to_retry m.body =
      to_retry-append m m.message_chan fs
      ∙ ap (λ xs. to_retry m.body ++ map some (failures xs)) said
      ∙ append-nil (to_retry m.body) in
    record {
      no_replay = any-append m.feedback_chan fs h.no_replay (ap (any is_replay) said);
      complete =
          subst (λ xs. Perm (o.settled ++ (m.message_chan ++ (m.sends ++ xs))) o.told) (sym same)
            h.complete;
      room = h.room;
      listens = leave-Listens o h.listens;
      clean = λ f. absurd (leave-IsFaithful o f);
    }
