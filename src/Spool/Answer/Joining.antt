-- ===== src/Spool/Answer/Joining.antt =====
-- `spooler_add_subscriber`, and who waits where after it.
use nchan.Spool.Ensures.{
  Ensures, after-Ensures, assert-Ensures, bind-Ensures, none-Ensures, some-Ensures,
}
use nchan.Spool.Fetch.Next.{spool_fetch_msg-IsTracking}
use nchan.Spool.Fetch.{is_none}
use nchan.Spool.Answer.{add_at, spooler_add_subscriber, welcome}
use nchan.Spool.Answer.Missing.{get_spool-IsTracking}
use mathlib.Core.Option.{some_inj}
use nchan.Prelude.{
  Bool, Bool-cases, List, Option, Rc, false, if◌then◌else◌, inl, inr, ngx_error, none, refl, some,
  subst, sym, true, [], ◌∙◌, ◌∷◌, ◌≡◌,
}
use nchan.Prelude.Int.{eqb_ℤ}
use nchan.Msg.Id.{MsgId, newest_msgid_time}
use nchan.Msg.Compare.{spool_rbtree_compare}
use nchan.Memstore.Buffer.{
  MsgStatus, msg_channel_notready, msg_error, msg_expected, msg_expired, msg_found, msg_invalid,
  msg_notfound, msg_pending,
}
use nchan.Spool.{
  Env, Ref, Spool, Spooler, Subscriber, call, find_node, get_node, get_spool, in_tree, init_spool,
  is_at, spool_add_subscriber, spool_at, used,
}
use nchan.Spool.Tracks.{
  IsOne, IsTracking, SameId, Tracked, find_node-All, find_node-is_at, is_at-SameId,
}
use nchan.Spool.Keep.{Fits, write_spool-IsTracking}

-- The tree is searched by what two ids of a message have in common.
find_node-SameId : (a b : MsgId) (ss : List Spool) → SameId a b → find_node a ss ≡ find_node b ss
unfolding find_node spool_rbtree_compare
find_node-SameId a b [] same = refl
find_node-SameId a b (s ∷ ss) same =
    rw (same.same_time, same.same_tags, find_node-SameId a b ss same) refl

-- The spool that a subscriber is added to: it holds the subscriber as well as its own, and no message.
abbrev pub Welcomed : Subscriber → Ref → Spool → Type 0
Welcomed u ref s = (Fits ref (spool_add_subscriber u s)) × ¬ (s.msg_status ≡ msg_found)

abbrev pub Welcomes : Subscriber → Option Ref → Spooler → Type 0
Welcomes u none spl = Unit
Welcomes u (some ref) spl = (s : Spool) → spool_at ref spl ≡ some s → Welcomed u ref s

get_spool-Welcomes :
    (env : Env) (u : Subscriber) (spl : Spooler)
    → IsOne u.last_msgid
    → ((s : Spool) → find_node u.last_msgid spl.tree ≡ some s → ¬ (s.msg_status ≡ msg_found))
    → IsTracking spl
    → Welcomes u (get_spool env u.last_msgid spl).0 (get_spool env u.last_msgid spl).1
unfolding get_spool spool_at spool_add_subscriber
get_spool-Welcomes env u spl one empty h =
    elim (Bool-cases (eqb_ℤ u.last_msgid.time newest_msgid_time)) [
      | inl newest ↦ rw newest (λ s e.
          subst (λ x. (x.id.time ≡ newest_msgid_time) × ¬ (x.msg_status ≡ msg_found)) (some_inj.0 e)
            (h.1, λ f. cc))
      | inr old ↦ rw old (rw h.2 (made env.memory (find_node u.last_msgid spl.tree) old refl))
    ]
  where
    added_Tracked :
        (t : Spool) → SameId u.last_msgid t.id → Tracked t → Tracked (spool_add_subscriber u t)
    added_Tracked t same (one_t, old_t, follow) = (one_t, old_t, ((λ f. same), follow))

    made :
        (memory : Bool) (o : Option Spool)
        → eqb_ℤ u.last_msgid.time newest_msgid_time ≡ false
        → find_node u.last_msgid spl.tree ≡ o
        → Welcomes u (get_node memory u.last_msgid spl o).0 (get_node memory u.last_msgid spl o).1
    made memory (some t) old e = λ s at.
        let one_t = (find_node-All Tracked u.last_msgid spl.tree t h.0 e).0 in
        let same =
          is_at-SameId u.last_msgid t one one_t (find_node-is_at u.last_msgid spl.tree t e) in
        let t_is_s : t ≡ s =
          some_inj.0 (sym e ∙ find_node-SameId u.last_msgid t.id spl.tree same ∙ at) in
        subst (Welcomed u (in_tree t.id)) t_is_s
          (added_Tracked t same (find_node-All Tracked u.last_msgid spl.tree t h.0 e), empty t e)
    made true none old e = λ s it.
        elim (Bool-cases (is_at u.last_msgid (init_spool u.last_msgid))) [
          | inl found ↦
              let made_it : init_spool u.last_msgid ≡ s = some_inj.0 (rw found at it) in
              subst (Welcomed u (in_tree u.last_msgid)) made_it (
                (one, old, ((λ f. record { same_time = refl; same_tags = refl }), tt)),
                λ (f : msg_invalid ≡ msg_found). cc,
              )
          | inr other ↦ absurd (let missing : none ≡ some s = sym e ∙ (rw other at it) in cc)
        ]
    made false none old e = tt

welcome-IsTracking :
    (env : Env) (u : Subscriber) (st : MsgStatus) (ref : Ref) (s : Spool) (spl : Spooler)
    → ¬ (st ≡ msg_found)
    → IsTracking spl
    → Ensures IsTracking (welcome env u st ref s spl)
welcome-IsTracking env u msg_found ref s spl other h = absurd (other refl)
welcome-IsTracking env u msg_invalid ref s spl other h =
    assert-Ensures (is_none s.msg) _ (λ unset. spool_fetch_msg-IsTracking ref spl h)
welcome-IsTracking env u msg_channel_notready ref s spl other h = some-Ensures spl h
welcome-IsTracking env u msg_pending ref s spl other h = some-Ensures spl h
welcome-IsTracking env u msg_expected ref s spl other h = some-Ensures _ h
welcome-IsTracking env u msg_expired ref s spl other h = none-Ensures
welcome-IsTracking env u msg_notfound ref s spl other h = none-Ensures
welcome-IsTracking env u msg_error ref s spl other h = none-Ensures

add_at-IsTracking :
    (env : Env) (u : Subscriber) (to : Option Ref) (spl : Spooler)
    → Welcomes u to spl
    → IsTracking spl
    → Ensures (λ r. IsTracking r.1) (add_at env u to spl)
unfolding spool_add_subscriber
add_at-IsTracking env u none spl welcomes h = some-Ensures _ h
add_at-IsTracking env u (some ref) spl welcomes h = bind-Ensures (spool_at ref spl) (λ s at.
    let (fits, other) = welcomes s at in
    after-Ensures (welcome env u s.msg_status ref (spool_add_subscriber u s) _)
      (welcome-IsTracking env u s.msg_status ref (spool_add_subscriber u s) _ other
        (write_spool-IsTracking ref (spool_add_subscriber u s) spl h fits))
      (λ welcomed kept. some-Ensures _ (counted u.internal welcomed kept)))
  where
    counted :
        (b : Bool) (welcomed : Spooler)
        → IsTracking welcomed
        → IsTracking (if b then welcomed else call used welcomed)
    counted true welcomed kept = kept
    counted false welcomed kept = kept

-- A subscriber that is added waits at the spool of the message that it had last, and so do all others,
-- if its id is of one channel and the spool holds no message.
pub spooler_add_subscriber-IsTracking :
    (env : Env) (u : Subscriber) (spl : Spooler) (r : Rc × Spooler)
    → IsOne u.last_msgid
    → ((s : Spool) → find_node u.last_msgid spl.tree ≡ some s → ¬ (s.msg_status ≡ msg_found))
    → IsTracking spl
    → spooler_add_subscriber env u spl ≡ some r
    → IsTracking r.1
unfolding spooler_add_subscriber
spooler_add_subscriber-IsTracking env u spl r one empty h e = (added_at spl.want_to_stop).gives r e
  where
    added_at :
        (stop : Bool)
        → Ensures
            (λ x. IsTracking x.1)
            (if stop
              then some (ngx_error, spl)
              else add_at env u
                  (get_spool env u.last_msgid spl).0
                  (get_spool env u.last_msgid spl).1)
    added_at true = some-Ensures _ h
    added_at false =
        add_at-IsTracking env u _ _ (get_spool-Welcomes env u spl one empty h)
          (get_spool-IsTracking env u.last_msgid spl one h)
