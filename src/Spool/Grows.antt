-- ===== src/Spool/Grows.antt =====
-- The calls that the operations on one spool make.
use mathlib.Core.List.{Memᴰ}
use nchan.Prelude.{
  All, Bool, List, false, if◌then◌else◌, inl, inr, refl, some, true, [], ◌∙◌, ◌∷◌, ◌≡◌, ◌⊎◌,
}
use nchan.Spool.{
  Call, Env, Ref, Response, Spool, Spooler, Subscriber, call, count_removed, current, dequeued,
  in_tree, respond, respond_loop, spool_at, spool_respond_general, told, write_spool,
}
use nchan.Spool.Ensures.{Ensures, after-Ensures, bind-Ensures, some-Ensures}

abbrev pub is_node : Ref → Bool
is_node current = false
is_node (in_tree id) = true

abbrev pub kept : Spooler → Spool × Bool
kept spl = (spl.current_msg_spool, spl.channel_buffer_complete)

-- Calls that were made stay made; `apart` is whether the spool of the newest messages stays as it is.
abbrev pub Steps : Bool → Spooler → Spooler → Type 0
Steps apart spl spl' =
    ((c : Call) → Memᴰ c spl.calls → Memᴰ c spl'.calls) × (apart ≡ true → kept spl' ≡ kept spl)

pub Steps-refl : (apart : Bool) (spl : Spooler) → Steps apart spl spl
Steps-refl apart spl = ((λ c h. h), λ e. refl)

pub Steps-trans :
    (apart : Bool) (a b c : Spooler) → Steps apart a b → Steps apart b c → Steps apart a c
Steps-trans apart a b c ab bc = ((λ x h. bc.0 x (ab.0 x h)), λ e. bc.1 e ∙ ab.1 e)

pub Steps-call : (apart : Bool) (c : Call) (spl : Spooler) → Steps apart spl (call c spl)
Steps-call apart c spl = ((λ x h. Memᴰ.tail h), λ e. refl)

pub Steps-write_spool :
    (ref : Ref) (s : Spool) (spl : Spooler) → Steps (is_node ref) spl (write_spool ref s spl)
unfolding write_spool
Steps-write_spool current s spl = ((λ x h. h), λ e. cc)
Steps-write_spool (in_tree id) s spl = ((λ x h. h), λ e. refl)

-- All subscribers of a spool were told.
abbrev pub Told : Response → List Subscriber → List Call → Type 0
Told r us calls = All (λ u. Memᴰ (respond u r) calls) us

respond_loop-Told :
    (env : Env) (r : Response) (us : List Subscriber) (s : Spool) (calls : List Call)
    → Ensures
        (λ rest. ((c : Call) → Memᴰ c calls → Memᴰ c rest.2) × Told r us rest.2)
        (respond_loop env r us s calls)
unfolding respond_loop
respond_loop-Told env r [] s calls = some-Ensures _ ((λ c h. h), tt)
respond_loop-Told env r (u ∷ us) s calls = bind-Ensures (told env r u) (λ u' e.
    bind-Ensures (if env.leaves u r then count_removed u s else some s) (λ s' e'.
      after-Ensures _ (respond_loop-Told env r us s' _) (λ rest ok. some-Ensures _ (
        (λ c h. ok.0 c (logged (env.leaves u r) c (inl h))),
        (ok.0 (respond u r) (logged (env.leaves u r) (respond u r) (inr refl)), ok.1),
      ))))
  where
    logged :
        (left : Bool) (c : Call)
        → Memᴰ c calls ⊎ (c ≡ respond u r)
        → Memᴰ c (if left then dequeued u ∷ respond u r ∷ calls else respond u r ∷ calls)
    logged true c (inl h) = Memᴰ.tail (Memᴰ.tail h)
    logged true c (inr e) = Memᴰ.tail (Memᴰ.head e)
    logged false c (inl h) = Memᴰ.tail h
    logged false c (inr e) = Memᴰ.head e

pub spool_respond_general-Told :
    (env : Env) (r : Response) (ref : Ref) (spl : Spooler) (s : Spool)
    → spool_at ref spl ≡ some s
    → Ensures
        (λ spl'. Steps (is_node ref) spl spl' × Told r s.subs spl'.calls)
        (spool_respond_general env r ref spl)
unfolding spool_respond_general
spool_respond_general-Told env r ref spl s at = rw at (
    after-Ensures _ (respond_loop-Told env r s.subs s spl.calls)
      (λ rest ok. some-Ensures _ ((ok.0, (Steps-write_spool ref _ spl).1), ok.1)))

pub spool_respond_general-Steps :
    (env : Env) (r : Response) (ref : Ref) (spl : Spooler)
    → Ensures (Steps (is_node ref) spl) (spool_respond_general env r ref spl)
unfolding spool_respond_general
spool_respond_general-Steps env r ref spl = bind-Ensures (spool_at ref spl) (λ s at.
    after-Ensures _ (respond_loop-Told env r s.subs s spl.calls)
      (λ rest ok. some-Ensures _ (ok.0, (Steps-write_spool ref _ spl).1)))
