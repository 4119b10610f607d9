-- ===== src/Spool/Answer/Respond.antt =====
-- A message told to the spools that wait for it, and who waits where after it.
use nchan.Prelude.{
  Bool-cases, List, Option, false, if◌then◌else◌, inl, inr, ltb, none, refl, some, [], ◌&&◌, ◌>>=◌,
  ◌∷◌, ◌≡◌,
}
use nchan.Prelude.Int.{eqb_ℤ}
use nchan.Msg.Id.{MsgId, newest_msgid_time}
use nchan.Memstore.Message.{Message}
use nchan.Spool.{
  Env, Ref, Spool, Spooler, current, expect_current, in_tree, message, spool_at,
  spool_respond_general,
}
use nchan.Spool.Ensures.{Ensures, after-Ensures, bind-Ensures, none-Ensures, some-Ensures}
use nchan.Spool.Tracks.{IsOne, IsTracking}
use nchan.Spool.Keep.{spool_at-current}
use nchan.Spool.Told.{respond_message-ToldAll}
use nchan.Spool.Fetch.Nextmsg.{spool_nextmsg-IsTracking}
use nchan.Spool.Answer.{collect, respond_and_move, respond_collected, spooler_respond_message}

-- A message of one channel, which has an id of its own.
abbrev pub IsPublished : Message → Type 0
IsPublished m = IsOne m.id × (eqb_ℤ m.id.time newest_msgid_time ≡ false)

pub respond_and_move-IsTracking :
    (env : Env) (m : Message) (ref : Ref) (spl : Spooler) (s : Spool)
    → IsPublished m
    → spool_at ref spl ≡ some s
    → IsTracking spl
    → Ensures IsTracking (respond_and_move env m ref spl)
unfolding respond_and_move
respond_and_move-IsTracking env m ref spl s (one, old) at h =
    after-Ensures (spool_respond_general env (message m) ref spl)
      (respond_message-ToldAll env m ref spl s h one.0 at)
      (λ told_them all. spool_nextmsg-IsTracking env ref m.id told_them one old all)

-- A pointer to a spool that is gone is a fault.
respond_and_move-node :
    (env : Env) (m : Message) (id : MsgId) (spl : Spooler)
    → IsPublished m
    → IsTracking spl
    → Ensures IsTracking (respond_and_move env m (in_tree id) spl)
unfolding respond_and_move spool_respond_general
respond_and_move-node env m id spl published h =
    elim (spool_at (in_tree id) spl)
        as (λ o.
          spool_at (in_tree id) spl ≡ o
          → Ensures IsTracking (respond_and_move env m (in_tree id) spl)) [
            | none ↦ λ at. rw at none-Ensures
            | some s ↦ λ at. respond_and_move-IsTracking env m (in_tree id) spl s published at h
          ]
      refl

respond_collected-IsTracking :
    (env : Env) (m : Message) (ids : List MsgId) (spl : Spooler)
    → IsPublished m
    → IsTracking spl
    → Ensures IsTracking (respond_collected env m ids spl)
unfolding respond_collected
respond_collected-IsTracking env m [] spl published h = some-Ensures spl h
respond_collected-IsTracking env m (id ∷ ids) spl published h =
    after-Ensures (respond_and_move env m (in_tree id) spl)
      (respond_and_move-node env m id spl published h)
      (λ spl' h'. respond_collected-IsTracking env m ids spl' published h')

pub respond_message_keeps :
    (env : Env) (m : Message) (spl : Spooler)
    → IsPublished m
    → IsTracking spl
    → Ensures IsTracking (spooler_respond_message env m spl)
unfolding spooler_respond_message
respond_message_keeps env m spl published h = rw (h.2) (
    after-Ensures (collect m spl.tree >>= (λ ids. respond_collected env m ids spl))
      (bind-Ensures (collect m spl.tree)
        (λ ids e. respond_collected-IsTracking env m ids spl published h))
      (λ told_tree tracked.
        after-Ensures (to_current (expect_current told_tree))
          (respond_current (expect_current told_tree) tracked)
          (λ told_all kept. some-Ensures _ kept)))
  where
    to_current : Spooler → Option Spooler
    to_current waiting =
        if ltb 0 waiting.current_msg_spool.sub_count && waiting.channel_buffer_complete
        then respond_and_move env m current waiting
        else some waiting

    respond_current :
        (waiting : Spooler) → IsTracking waiting → Ensures IsTracking (to_current waiting)
    respond_current waiting tracked =
        elim (Bool-cases
          (ltb 0 waiting.current_msg_spool.sub_count && waiting.channel_buffer_complete)) [
            | inl waited ↦ rw waited (
                respond_and_move-IsTracking env m current waiting waiting.current_msg_spool
                  published (spool_at-current waiting) tracked)
            | inr alone ↦ rw alone (some-Ensures waiting tracked)
          ]
