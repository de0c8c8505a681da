-- ===== src/Node/Fair.antt =====
-- What is true of a pod and its connection at any time.
use grav.Common.{
  ◌≤◌, ℕ, ◌≡◌, ◌⊎◌, refl, sym, ap, subst, ◌∙◌, arith, String, true, false, List, [], ◌∷◌, ◌++◌, map,
  map-append, Option, some, length, append-nil, append_assoc, lookup,
}
use mathlib.Core.List.{Perm, perm_middle}
use mathlib.Core.List.Perm
use grav.Message.{Message}
use grav.Filter.{allow}
use grav.PodConnection.{Feedback, msg_success, msg_replay, msg_disconnect, failed_msg}
use grav.PodConnection.Status.{failures, any, is_replay}
use grav.PodConnection.Delivery.{default_pod_chan_size}
use grav.Pool.Ring.{Body, Member}
use grav.Pool.Refines.{fresh_member}
use grav.Bus.Lap.{got}
use grav.Pod.{Pod, FuncResult, ok, handle}
use grav.Instance.Ring.{IsClean, IsClean-got}
use grav.Node.{Owner, newcomer, tell}

abbrev pub Owns : String → List String → Type 0
Owns u [] = ⊥
Owns u (x ∷ xs) = (x ≡ u) ⊎ Owns u xs

-- The function of the pod returns nil for every message, and the pod has not disconnected.
pub record IsFaithful (o : Owner) : Type 0 where
  pub func : Message → FuncResult
  pub set : o.pod.on_func ≡ some (handle func)
  pub always : (msg : Message) → func msg ≡ ok
  pub live : o.pod.dead ≡ false

-- The pod has a function, and what it has put into its channels has been passed on. Messages with a
-- UUID of its own do not reach the function, and all others do.
pub record Listens (p : Pod) (own : List String) : Type 0 where
  pub func : Message → FuncResult
  pub set : p.on_func ≡ some (handle func)
  pub sent_on : p.bus_chan ≡ []
  pub told_on : p.feedback_chan ≡ []
  pub blocked : (msg : Message) → Owns msg.uuid own → allow p.message_filter msg ≡ false
  pub admits : (msg : Message) → (Owns msg.uuid own → ⊥) → allow p.message_filter msg ≡ true

-- The messages that the pod failed on, and that are kept for it.
abbrev pub to_retry : Body → List (Option Message)
to_retry x = map some (x.failed ++ failures x.feedback_chan)

-- Where the messages for a pod are: settled, in the channel, with the goroutines of send, or kept.
abbrev pub whereabouts : Owner → Member → List (Option Message)
whereabouts o m = o.settled ++ (m.message_chan ++ (m.sends ++ to_retry m.body))

pub record Fair (o : Owner) (m : Member) : Type 0 where
  pub no_replay : any is_replay m.feedback_chan ≡ false
  pub complete : Perm (whereabouts o m) o.told
  pub room : length m.message_chan ≤ default_pod_chan_size
  pub listens : Listens o.pod o.own
  pub clean : IsFaithful o → IsClean m.body

pub newcomer-Fair : (f : Message → FuncResult) (a : ℕ) → Fair (newcomer f) (fresh_member a [])
unfolding newcomer allow lookup
newcomer-Fair f a = record {
  no_replay = refl;
  complete = Perm.refl [];
  room = omega arith;
  listens = record {
    func = f;
    set = refl;
    sent_on = refl;
    told_on = refl;
    blocked = λ msg i. absurd i;
    admits = λ msg i. refl;
  };
  clean = λ h. record { nothing_failed = refl; successes = tt };
}

-- Of two reports one behind the other.
pub failures-append : (xs ys : List Feedback) → failures (xs ++ ys) ≡ failures xs ++ failures ys
failures-append [] ys = refl
failures-append (failed_msg m ∷ xs) ys = ap (λ ms. m ∷ ms) (failures-append xs ys)
failures-append (msg_success ∷ xs) ys = failures-append xs ys
failures-append (msg_replay ∷ xs) ys = failures-append xs ys
failures-append (msg_disconnect ∷ xs) ys = failures-append xs ys

pub any-append :
    (xs ys : List Feedback)
    → any is_replay xs ≡ false
    → any is_replay ys ≡ false
    → any is_replay (xs ++ ys) ≡ false
any-append [] ys h k = k
any-append (failed_msg m ∷ xs) ys h k = any-append xs ys h k
any-append (msg_success ∷ xs) ys h k = any-append xs ys h k
any-append (msg_replay ∷ xs) ys h k = cc
any-append (msg_disconnect ∷ xs) ys h k = any-append xs ys h k

-- What is kept after another report.
pub to_retry-append :
    (m : Member) (chan : List (Option Message)) (fs : List Feedback)
    → to_retry (record m.body { message_chan = chan; feedback_chan = m.feedback_chan ++ fs })
      ≡ to_retry m.body ++ map some (failures fs)
to_retry-append m chan fs =
    ap (λ ms. map some (m.failed ++ ms)) (failures-append m.feedback_chan fs)
    ∙ ap (map some) (sym (append_assoc m.failed (failures m.feedback_chan) (failures fs)))
    ∙ map-append some (m.failed ++ failures m.feedback_chan) (failures fs)

pub tell-IsFaithful : (o : Owner) (msg : Message) → IsFaithful (tell o msg) → IsFaithful o
unfolding tell
tell-IsFaithful o msg f = record { func = f.func; set = f.set; always = f.always; live = f.live }

pub IsFaithful-tell : (o : Owner) (msg : Message) → IsFaithful o → IsFaithful (tell o msg)
unfolding tell
IsFaithful-tell o msg f = record { func = f.func; set = f.set; always = f.always; live = f.live }

pub newcomer-IsFaithful :
    (f : Message → FuncResult) → ((msg : Message) → f msg ≡ ok) → IsFaithful (newcomer f)
unfolding newcomer
newcomer-IsFaithful f h = record { func = f; set = refl; always = h; live = refl }

-- The bus has sent a message.
pub got-Fair : (o : Owner) (m : Member) (msg : Message) → Fair o m → Fair (tell o msg) (got msg m)
unfolding tell
got-Fair o m msg h =
    let one = some msg ∷ [] in
    let xs = o.settled ++ (m.message_chan ++ m.sends) in
    let kept = to_retry m.body in
    let before : xs ++ kept ≡ whereabouts o m =
      append_assoc o.settled (m.message_chan ++ m.sends) kept
      ∙ ap (λ ys. o.settled ++ ys) (append_assoc m.message_chan m.sends kept) in
    let after : xs ++ (some msg ∷ kept) ≡ whereabouts o (got msg m) =
      append_assoc o.settled (m.message_chan ++ m.sends) (some msg ∷ kept)
      ∙ ap (λ ys. o.settled ++ ys)
          (append_assoc m.message_chan m.sends (some msg ∷ kept)
            ∙ ap (λ ys. m.message_chan ++ ys) (sym (append_assoc m.sends one kept))) in
    record {
      no_replay = h.no_replay;
      complete =
          subst (λ ys. Perm ys (o.told ++ one)) after
            (Perm.trans (perm_middle xs kept) (
              Perm.trans
                (Perm.cons (some msg) (subst (λ ys. Perm ys o.told) (sym before) h.complete))
                (subst (λ ys. Perm (some msg ∷ ys) (o.told ++ one)) (append-nil o.told)
                  (Perm.symm (perm_middle o.told [])))));
      room = h.room;
      listens = h.listens;
      clean = λ f. IsClean-got msg m (h.clean (tell-IsFaithful o msg f));
    }
