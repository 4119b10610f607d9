-- ===== src/Spool/Fetch/Transfer.antt =====
-- `spool_transfer_subscribers`, `destroy_spool` and the requests of the store, and who waits where.
use nchan.Prelude.{Bool, List, ap, false, length, none, refl, some, true, [], ◌==◌, ◌∙◌, ◌∷◌, ◌≡◌}
use nchan.Msg.Id.{MsgId}
use nchan.Spool.{
  Ref, Spool, Spooler, Subscriber, current, find_node, in_tree, spool_at, write_spool,
}
use nchan.Spool.Fetch.{destroy_spool, emptied, spool_transfer_subscribers, transfer_loop}
use nchan.Spool.Ensures.{Ensures, assert-Ensures, bind-Ensures, none-Ensures, some-Ensures}
use nchan.Spool.Tracks.{Follow, IsTracking, Tracked, remove_node-All}
use nchan.Spool.Told.{same_again}
use nchan.Spool.Keep.{Fits, Fits-gone, spool_at-Fits, write_spool-IsTracking}

transfer_loop-id :
    (update : Bool) (us : List Subscriber) (new : Spool) → (transfer_loop update us new).id ≡ new.id
unfolding transfer_loop
transfer_loop-id update [] new = refl
transfer_loop-id update (u ∷ us) new = transfer_loop-id update us _

transfer_loop-Follow :
    (update : Bool) (us : List Subscriber) (new : Spool)
    → (update ≡ false → Follow new.id us)
    → Follow new.id new.subs
    → Follow new.id (transfer_loop update us new).subs
unfolding transfer_loop
transfer_loop-Follow update [] new h follow = follow
transfer_loop-Follow true (u ∷ us) new h follow =
    transfer_loop-Follow true us _ (λ e. cc)
      ((λ e. record { same_time = refl; same_tags = refl }), follow)
transfer_loop-Follow false (u ∷ us) new h follow =
    transfer_loop-Follow false us _ (λ e. (h refl).1) ((h refl).0, follow)

-- Subscribers that keep their ids had the message of the spool in the tree that they go to.
abbrev pub Joins : Bool → Ref → List Subscriber → Spooler → Type 0
Joins update current us spl = Unit
Joins true (in_tree id) us spl = Unit
Joins false (in_tree id) us spl =
    (new : Spool) → spool_at (in_tree id) spl ≡ some new → Follow new.id us

pub spool_transfer_subscribers-IsTracking :
    (update : Bool) (ref newref : Ref) (spl : Spooler) (s : Spool)
    → spool_at ref spl ≡ some s
    → IsTracking (write_spool ref (emptied s) spl)
    → Joins update newref s.subs (write_spool ref (emptied s) spl)
    → Ensures IsTracking (spool_transfer_subscribers update ref newref spl)
unfolding spool_transfer_subscribers
spool_transfer_subscribers-IsTracking update ref newref spl s at h joins = rw at (
    bind-Ensures (spool_at newref (write_spool ref (emptied s) spl)) (λ new at'. some-Ensures _ (
      write_spool-IsTracking newref _ (write_spool ref (emptied s) spl) h (
        moved update newref new at' (spool_at-Fits newref (write_spool ref (emptied s) spl) h at')
          joins))))
  where
    moved :
        (update : Bool) (newref : Ref) (new : Spool)
        → spool_at newref (write_spool ref (emptied s) spl) ≡ some new
        → Fits newref new
        → Joins update newref s.subs (write_spool ref (emptied s) spl)
        → Fits newref (transfer_loop update s.subs new)
    moved update current new at' fits joins =
        ap (λ i. i.time) (transfer_loop-id update s.subs new) ∙ fits
    moved true (in_tree id) new at' fits joins =
        same_again new (transfer_loop true s.subs new) (transfer_loop-id true s.subs new) fits
          (transfer_loop-Follow true s.subs new (λ e. cc) fits.2)
    moved false (in_tree id) new at' fits joins =
        same_again new (transfer_loop false s.subs new) (transfer_loop-id false s.subs new) fits
          (transfer_loop-Follow false s.subs new (λ e. joins new at') fits.2)

pub destroy_spool-IsTracking :
    (id : MsgId) (spl : Spooler) → IsTracking spl → Ensures IsTracking (destroy_spool id spl)
unfolding destroy_spool
destroy_spool-IsTracking id spl h = bind-Ensures (find_node id spl.tree) (λ s e.
    assert-Ensures (s.reserved == 0) _ (λ unreserved.
      assert-Ensures (s.sub_count == length s.subs) _
        (λ counted. some-Ensures _ (remove_node-All Tracked id spl.tree h.0, h.1, h.2))))

-- Subscribers that get the id of the spool that they go to.
pub spool_transfer_subscribers-updates :
    (ref newref : Ref) (spl : Spooler)
    → IsTracking spl
    → Ensures IsTracking (spool_transfer_subscribers true ref newref spl)
unfolding spool_transfer_subscribers
spool_transfer_subscribers-updates ref newref spl h =
    elim (spool_at ref spl)
        as (λ o.
          spool_at ref spl ≡ o
          → Ensures IsTracking (spool_transfer_subscribers true ref newref spl)) [
            | none ↦ λ at. rw at none-Ensures
            | some s ↦ λ at.
                spool_transfer_subscribers-IsTracking true ref newref spl s at
                  (write_spool-IsTracking ref (emptied s) spl h
                    (Fits-gone ref s (emptied s) refl refl (spool_at-Fits ref spl h at)))
                  (joins newref s.subs (write_spool ref (emptied s) spl))
          ]
      refl
  where
    joins : (newref : Ref) (us : List Subscriber) (spl' : Spooler) → Joins true newref us spl'
    joins current us spl' = tt
    joins (in_tree id) us spl' = tt
