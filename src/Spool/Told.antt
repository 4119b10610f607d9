-- ===== src/Spool/Told.antt =====
-- `spool_respond_general`, and who waits where after it.
use nchan.Memstore.Message.{Message}
use nchan.Spool.Fetch.{emptied}
use nchan.Prelude.{All, List, ap, false, refl, some, subst, sym, true, ℕ, [], ◌∙◌, ◌∷◌, ◌≡◌}
use nchan.Prelude.Int.{eqb_ℤ}
use nchan.Msg.Id.{MsgId, newest_msgid_time}
use nchan.Spool.{
  Call, Env, Ref, Response, Spool, Spooler, Subscriber, current, in_tree, message, notice, spool_at,
  spool_respond_general, status, told, write_spool,
}
use nchan.Spool.Ensures.{Ensures, some-Ensures, weaken-Ensures}
use nchan.Spool.Tracks.{Follow, IsOne, IsTracking, SameId, Tracked, write_node-All}
use nchan.Spool.Keep.{
  Fits, Fits-gone, spool_at-Fits, spool_at-write_spool, spool_respond_general-Responded,
  told-message, write_spool-IsTracking, write_spool-write_spool,
}

-- A response that is no message.
abbrev pub IsQuiet : Response → Type 0
IsQuiet (message m) = true ≡ false
IsQuiet (status code) = Unit
IsQuiet (notice code) = Unit

-- It changes nobody's id.
told-quiet : (env : Env) (r : Response) (u : Subscriber) → IsQuiet r → told env r u ≡ some u
unfolding told
told-quiet env (message m) u quiet = absurd (cc quiet)
told-quiet env (status code) u quiet = refl
told-quiet env (notice code) u quiet = refl

told_same {κ} :
    {P : Subscriber → Type κ} (env : Env) (r : Response) (u : Subscriber)
    → IsQuiet r
    → P u
    → Ensures P (told env r u)
told_same env r u quiet h = rw (told-quiet env r u quiet) (some-Ensures u h)

pub same_again : (s s' : Spool) → s'.id ≡ s.id → Tracked s → Follow s.id s'.subs → Tracked s'
same_again s s' same (one, old, was) follow = (
  subst IsOne (sym same) one,
  ap (λ i. eqb_ℤ i.time newest_msgid_time) same ∙ old,
  subst (λ i. Follow i s'.subs) (sym same) follow,
)

All-trivial : (us : List Subscriber) → All (λ u. Unit {0}) us
All-trivial [] = tt
All-trivial (u ∷ us) = (tt, All-trivial us)

-- A status or a notice told to a spool.
pub respond_quiet-IsTracking :
    (env : Env) (r : Response) (ref : Ref) (spl : Spooler) (s : Spool)
    → IsQuiet r
    → IsTracking spl
    → spool_at ref spl ≡ some s
    → Ensures IsTracking (spool_respond_general env r ref spl)
respond_quiet-IsTracking env r current spl s quiet h at =
    weaken-Ensures
      (spool_respond_general-Responded (λ u. Unit {0}) env r current spl s
        (λ u x. told_same env r u quiet x) at (All-trivial s.subs))
      (λ spl' (s', cs, same, follow, eq). subst IsTracking (sym eq) (
        write_spool-IsTracking current s' spl h
          (ap (λ i. i.time) same ∙ spool_at-Fits current spl h at)))
respond_quiet-IsTracking env r (in_tree id) spl s quiet h at =
    let (one, old, follow) = spool_at-Fits (in_tree id) spl h at in
    weaken-Ensures
      (spool_respond_general-Responded (λ u. u.updates ≡ true → SameId u.last_msgid s.id) env r
        (in_tree id) spl s (λ u x. told_same env r u quiet x) at follow)
      (λ spl' (s', cs, same, stay, eq). subst IsTracking (sym eq) (
        write_spool-IsTracking (in_tree id) s' spl h
          (same_again s s' same (one, old, follow) stay)))

pub respond_status-IsTracking :
    (env : Env) (code : ℕ) (ref : Ref) (spl : Spooler) (s : Spool)
    → IsTracking spl
    → spool_at ref spl ≡ some s
    → Ensures IsTracking (spool_respond_general env (status code) ref spl)
respond_status-IsTracking env code ref spl s h at =
    respond_quiet-IsTracking env (status code) ref spl s tt h at

-- The spool of a pointer whose subscribers all had the message `id` last; all else is tracked.
abbrev pub ToldAll : MsgId → Ref → Spooler → Type 0
ToldAll id ref spl =
    (s : Spool) × (spool_at ref spl ≡ some s)
    × IsTracking (write_spool ref (emptied s) spl)
    × All (λ t. IsOne t.id) spl.tree
    × Follow id s.subs

pub ones : (ss : List Spool) → All Tracked ss → All (λ t. IsOne t.id) ss
ones [] h = tt
ones (s ∷ ss) (here, there) = (here.0, ones ss there)

write_spool-ones :
    (ref : Ref) (s s' : Spool) (cs : List Call) (spl : Spooler)
    → IsTracking spl
    → s'.id ≡ s.id
    → Fits ref s
    → All (λ t. IsOne t.id) (write_spool ref s' spl).tree
unfolding write_spool
write_spool-ones current s s' cs spl h same fits = ones spl.tree h.0
write_spool-ones (in_tree id) s s' cs spl h same fits =
    write_node-All (λ t. IsOne t.id) id s' spl.tree (subst IsOne (sym same) fits.0)
      (ones spl.tree h.0)

ToldAll-calls :
    (id : MsgId) (ref : Ref) (spl : Spooler) (cs : List Call)
    → ToldAll id ref spl
    → ToldAll id ref (record spl { calls = cs })
unfolding spool_at write_spool
ToldAll-calls id current spl cs h = h
ToldAll-calls id (in_tree i) spl cs h = h

pub respond_message-ToldAll :
    (env : Env) (m : Message) (ref : Ref) (spl : Spooler) (s : Spool)
    → IsTracking spl
    → m.id.tagcount ≡ 1
    → spool_at ref spl ≡ some s
    → Ensures (ToldAll m.id ref) (spool_respond_general env (message m) ref spl)
respond_message-ToldAll env m ref spl s h one at =
    let fits = spool_at-Fits ref spl h at in
    weaken-Ensures
      (spool_respond_general-Responded (λ u. u.updates ≡ true → SameId u.last_msgid m.id) env
        (message m) ref spl s (λ u x. told-message env m u one) at (All-trivial s.subs))
      (λ spl' (s', cs, same, stay, eq). subst (ToldAll m.id ref) (sym eq) (
        ToldAll-calls m.id ref (write_spool ref s' spl) cs (
          s',
          spool_at-write_spool ref spl s' at same,
          subst IsTracking (sym (write_spool-write_spool ref spl s' (emptied s') at same)) (
              write_spool-IsTracking ref (emptied s') spl h
                (Fits-gone ref s (emptied s') (sym same) refl fits)),
          write_spool-ones ref s s' cs spl h same fits,
          stay,
        )))
