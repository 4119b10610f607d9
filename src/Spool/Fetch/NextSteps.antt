-- ===== src/Spool/Fetch/NextSteps.antt =====
-- The calls that `spool_nextmsg` makes.
use nchan.Prelude.{Bool, Option, false, none, not, some, true, ◌≡◌}
use nchan.Prelude.Int.{eqb_ℤ}
use nchan.Msg.Id.{MsgId, newest_msgid_time}
use nchan.Msg.Compare.{msg_ids_equal}
use nchan.Spool.{
  Env, Spool, Spooler, current, find_node, get_node, in_tree, is_passthrough, spool_at,
}
use nchan.Spool.Ensures.{Ensures, assert-Ensures, weaken-Ensures}
use nchan.Spool.Keep.{find_spool-node, get_spool-node, update_multi_msgid-one}
use nchan.Spool.Grows.{Steps}
use nchan.Spool.Fetch.{spool_nextmsg, to_next}
use nchan.Spool.Fetch.Steps.{to_next-Steps}

to_found :
    (env : Env) (i : MsgId) (s : Spool) (id : MsgId) (found : Option Spool) (spl : Spooler)
    → Ensures (Steps true spl) (
        to_next env false
          (in_tree i)
          s
          id
          (elim found [ none ↦ none | some t ↦ some (in_tree t.id) ])
          spl)
to_found env i s id none spl = to_next-Steps env false (in_tree i) s id none spl
to_found env i s id (some t) spl =
    to_next-Steps env false (in_tree i) s id (some (in_tree t.id)) spl

-- From a spool of the tree.
pub spool_nextmsg-node :
    (env : Env) (i id : MsgId) (s : Spool) (spl : Spooler)
    → id.tagcount ≡ 1
    → eqb_ℤ id.time newest_msgid_time ≡ false
    → is_passthrough spl.fetching_strategy ≡ false
    → spool_at (in_tree i) spl ≡ some s
    → eqb_ℤ s.id.time newest_msgid_time ≡ false
    → Ensures (Steps true spl) (spool_nextmsg env (in_tree i) id spl)
unfolding spool_nextmsg
spool_nextmsg-node env i id s spl one old fetching at mortal = rw at (
    rw fetching (
      rw (update_multi_msgid-one env.overlap env.memory s.id id one) (
        assert-Ensures (not (msg_ids_equal s.id id)) _ (λ differ. rw mortal (
          rw (find_spool-node id spl old fetching)
            (to_found env i s id (find_node id spl.tree) spl))))))

to_gotten :
    (env : Env) (memory : Bool) (s : Spool) (id : MsgId) (found : Option Spool) (spl : Spooler)
    → Ensures (Steps false spl) (
        to_next env true current s id
          (get_node memory id spl found).0
          (get_node memory id spl found).1)
to_gotten env memory s id (some t) spl =
    to_next-Steps env true current s id (some (in_tree t.id)) spl
to_gotten env false s id none spl = to_next-Steps env true current s id none spl
to_gotten env true s id none spl =
    weaken-Ensures (to_next-Steps env true current s id (some (in_tree id)) _)
      (λ spl' h. (h.0, λ e. cc))

-- From the spool of the newest messages.
pub spool_nextmsg-current :
    (env : Env) (id : MsgId) (s : Spool) (spl : Spooler)
    → id.tagcount ≡ 1
    → eqb_ℤ id.time newest_msgid_time ≡ false
    → is_passthrough spl.fetching_strategy ≡ false
    → spool_at current spl ≡ some s
    → eqb_ℤ s.id.time newest_msgid_time ≡ true
    → Ensures (Steps false spl) (spool_nextmsg env current id spl)
unfolding spool_nextmsg
spool_nextmsg-current env id s spl one old fetching at immortal = rw at (
    rw fetching (
      rw (update_multi_msgid-one env.overlap env.memory s.id id one) (
        assert-Ensures (not (msg_ids_equal s.id id)) _ (λ differ. rw immortal (
          rw (get_spool-node env id spl old fetching)
            (to_gotten env env.memory s id (find_node id spl.tree) spl))))))
