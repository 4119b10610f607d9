-- ===== src/Memstore/Ipc/Broadcast.antt =====
-- A broadcast reaches each other worker once, and a worker reads what it was sent.
use mathlib.Core.Option.{some_inj}
use nchan.Prelude.{
  All, Bool, Bool-cases, List, Rc, ap, append-nil, append_assoc, arith, false, get_elem?,
  get_elem?-set_ne, get_elem?-set_self, if◌then◌else◌, inl, inr, leb, length, ngx_ok, refl,
  replicate, set, some, subst, suc, sym, true, zero, ℕ, ==_iff, [], ◌++◌, ◌<◌, ◌==◌, ◌∙◌, ◌∷◌, ◌≡◌,
  ◌≢◌, ◌≤◌, ◌⊎◌,
}
use nchan.Memstore.Ipc.{
  Alert, Env, Process, Sender, init_process, ipc_alert, ipc_broadcast_alert, ipc_data_size,
  ipc_read_handler, make_alert,
}
use nchan.Memstore.Ipc.Fifo.{Represents}
use nchan.Memstore.Ipc.Advance.{ge→ltb}
use nchan.Memstore.Ipc.Delivery.{
  Event, HasSent, accepted, init_process-HasSent, process_alert-HasSent, run, run-HasSent,
}

-- How often a broadcast sends to the slot.
abbrev pub copies : ℕ → ℕ → List ℕ → ℕ
copies mine slot [] = 0
copies mine slot (s ∷ slots) =
    if mine == s
    then copies mine slot slots
    else if s == slot
    then suc (copies mine slot slots)
    else copies mine slot slots

-- The process at a slot is active and queues properly.
abbrev pub IsWorking : List Process → ℕ → Type 0
IsWorking procs s =
    (p : Process) × (sent : List Alert) × (get_elem? procs s ≡ some p) × HasSent p sent

abbrev pub AllWorking : List Process → List ℕ → Type 0
AllWorking procs slots = All (IsWorking procs) slots

get_elem?-bound :
    (procs : List Process) (s : ℕ) (p : Process) → get_elem? procs s ≡ some p → s < length procs
get_elem?-bound [] s p e = cc
get_elem?-bound (x ∷ xs) zero p e = omega arith
get_elem?-bound (x ∷ xs) (suc s) p e = let rest = get_elem?-bound xs s p e in omega arith

unequal : (s j : ℕ) → (s == j) ≡ false → s ≢ j
unequal s j h e = ground arith

-- The slots stay those of working processes when one of them is sent an alert.
AllWorking-set :
    (procs : List Process) (s : ℕ) (p : Process) (sent : List Alert) (slots : List ℕ)
    → s < length procs
    → HasSent p sent
    → AllWorking procs slots
    → AllWorking (set procs s p) slots
AllWorking-set procs s p sent [] bound h working = tt
AllWorking-set procs s p sent (t ∷ slots) bound h ((q, sent_t, at, ht), working) =
    (here (Bool-cases (s == t)), AllWorking-set procs s p sent slots bound h working)
  where
    here : ((s == t) ≡ true) ⊎ ((s == t) ≡ false) → IsWorking (set procs s p) t
    here (inl same) = (
      p,
      sent,
      subst (λ i. get_elem? (set procs s p) i ≡ some p) ((==_iff s t).0 same)
          (get_elem?-set_self procs s p bound),
      h,
    )
    here (inr other) =
        (q, sent_t, get_elem?-set_ne procs s t p (λ eq. unequal s t other eq) ∙ at, ht)

-- A slot that is sent nothing is another one.
copies-none : (b : Bool) (n : ℕ) → (if b then suc n else n) ≡ 0 → (b ≡ false) × (n ≡ 0)
copies-none b n h = ground arith

-- One alert to one slot.
ipc_alert-HasSent :
    (env : Env) (from : Sender) (slot code : ℕ) (bytes : List ℕ) (procs : List Process)
    (p : Process) (sent : List Alert)
    → length bytes ≤ ipc_data_size
    → env.memory ≡ true
    → get_elem? procs slot ≡ some p
    → HasSent p sent
    → (p' : Process) × (ipc_alert env from slot code bytes procs ≡ some (ngx_ok, set procs slot p'))
      × HasSent p' (sent ++ make_alert from code bytes ∷ [])
unfolding ipc_alert
ipc_alert-HasSent env from slot code bytes procs p sent size memory at h =
    let (rc, p', e, h', ok) = process_alert-HasSent env (make_alert from code bytes) p sent h in
    let fits : leb (length bytes) ipc_data_size ≡ true = ground arith in
    (
      p',
      rw (fits, at, e, ok memory) refl,
      subst (λ r. HasSent p' (sent ++ accepted r (make_alert from code bytes))) (ok memory) h',
    )

module _ (env : ℕ → Env) (from : Sender) (code : ℕ) (bytes : List ℕ) where
  broadcast-skip :
      (slot : ℕ) (slots : List ℕ) (ret : Rc) (procs : List Process)
      → (from.slot == slot) ≡ true
      → ipc_broadcast_alert env from code bytes (slot ∷ slots) ret procs
        ≡ ipc_broadcast_alert env from code bytes slots ret procs
  unfolding ipc_broadcast_alert
  broadcast-skip slot slots ret procs h = rw h refl

  broadcast-send :
      (slot : ℕ) (slots : List ℕ) (ret : Rc) (procs procs' : List Process)
      → (from.slot == slot) ≡ false
      → ipc_alert (env slot) from slot code bytes procs ≡ some (ngx_ok, procs')
      → ipc_broadcast_alert env from code bytes (slot ∷ slots) ret procs
        ≡ ipc_broadcast_alert env from code bytes slots ret procs'
  unfolding ipc_broadcast_alert
  broadcast-send slot slots ret procs procs' h e = rw (h, e) refl

-- Where memory is granted, a broadcast of a payload that fits, over slots that all have working processes,
-- succeeds. Every working process `j` is sent one copy for each time that its slot is among those of the
-- workers, after all that was sent to it before, and none if the slot is the sender's own. A slot `idle`
-- that is the sender's own, or that of no worker, is left as it is, whether its process works or not.
pub ipc_broadcast_alert-HasSent :
    (env : ℕ → Env) (from : Sender) (code : ℕ) (bytes : List ℕ) (slots : List ℕ) (ret : Rc)
    (procs : List Process) (j : ℕ) (p : Process) (sent : List Alert) (idle : ℕ)
    → length bytes ≤ ipc_data_size
    → ((s : ℕ) → (env s).memory ≡ true)
    → AllWorking procs slots
    → get_elem? procs j ≡ some p
    → HasSent p sent
    → copies from.slot idle slots ≡ 0
    → (procs' : List Process) × (p' : Process) × (ipc_broadcast_alert env from code bytes slots ret
          procs
        ≡ some (ret, procs'))
      × (get_elem? procs' j ≡ some p')
      × HasSent p' (sent ++ replicate (copies from.slot j slots) (make_alert from code bytes))
      × (get_elem? procs' idle ≡ get_elem? procs idle)
unfolding ipc_broadcast_alert
ipc_broadcast_alert-HasSent env from code bytes [] ret procs j p sent idle size memory working at h
      none_sent =
    (procs, p, refl, at, subst (HasSent p) (sym (append-nil sent)) h, refl)
ipc_broadcast_alert-HasSent env from code bytes (s ∷ slots) ret procs j p sent idle size memory
      ((q, sent_s, at_s, hs), working) at h none_sent =
    elim (Bool-cases (from.slot == s)) [
      | inl mine ↦
          rw (broadcast-skip env from code bytes s slots ret procs mine, mine)
            (ipc_broadcast_alert-HasSent env from code bytes slots ret procs j p sent idle size
              memory working at h (rw mine at none_sent))
      | inr other ↦
          let (p1, e, h1) =
            ipc_alert-HasSent (env s) from s code bytes procs q sent_s size (memory s) at_s hs in
          let bound = get_elem?-bound procs s q at_s in
          let working1 = AllWorking-set procs s p1 _ slots bound h1 working in
          let apart =
            copies-none (s == idle) (copies from.slot idle slots) (rw other at none_sent) in
          let sends =
            broadcast-send env from code bytes s slots ret procs (set procs s p1) other e in
          let idle_stays = get_elem?-set_ne procs s idle p1 (λ eq. unequal s idle apart.0 eq) in
          elim (Bool-cases (s == j)) [
            | inl same ↦
                let here = (==_iff s j).0 same in
                let at_s' : get_elem? procs s ≡ some p =
                  subst (λ i. get_elem? procs i ≡ some p) (sym here) at in
                let (p2, e2, h2) =
                  ipc_alert-HasSent (env s) from s code bytes procs p sent size (memory s) at_s'
                    h in
                let (procs', p', e', at', h', stays) =
                  ipc_broadcast_alert-HasSent env from code bytes slots ret (set procs s p2) j p2
                    (sent ++ make_alert from code bytes ∷ []) idle size memory
                    (AllWorking-set procs s p2 _ slots bound h2 working)
                    (subst (λ i. get_elem? (set procs s p2) i ≡ some p2) here
                      (get_elem?-set_self procs s p2 bound))
                    h2 apart.1 in
                let sends2 =
                  broadcast-send env from code bytes s slots ret procs (set procs s p2) other e2 in
                (
                  procs',
                  p',
                  sends2 ∙ e',
                  at',
                  rw (other, same)
                      (subst (HasSent p') (append_assoc sent (make_alert from code bytes ∷ []) _)
                        h'),
                  stays ∙ get_elem?-set_ne procs s idle p2 (λ eq. unequal s idle apart.0 eq),
                )
            | inr different ↦
                let (procs', p', e', at', h', stays) =
                  ipc_broadcast_alert-HasSent env from code bytes slots ret (set procs s p1) j p
                    sent idle size memory working1
                    (get_elem?-set_ne procs s j p1 (λ eq. unequal s j different eq) ∙ at) h
                    apart.1 in
                (procs', p', sends ∙ e', at', rw (other, different) h', stays ∙ idle_stays)
          ]
    ]

abbrev pub IsCurrent : ℕ → Alert → Type 0
IsCurrent generation a = generation ≤ a.worker_generation

read-current :
    (generation : ℕ) (xs ys : List Alert)
    → All (IsCurrent generation) (xs ++ ys)
    → ipc_read_handler generation xs ≡ xs
unfolding ipc_read_handler
read-current generation [] ys h = refl
read-current generation (a ∷ xs) ys h =
    rw (ge→ltb a.worker_generation generation h.0)
      (ap (λ l. a ∷ l) (read-current generation xs ys h.1))

-- From one worker to another: whatever happens at a pipe since `ipc_init`, if the alerts that were accepted are not of a
-- generation before the reader's, then what the reader's handler is given, when it has read all that was written, followed by
-- what is still queued at the sender, is those alerts in the order in which they were sent.
pub read-run :
    (es : List Event) (generation : ℕ) (more : List Alert) (p' : Process)
    → run es (record init_process { active = true }) ≡ some (more, p')
    → All (IsCurrent generation) more
    → (queue : List Alert) × Represents p'.wbuf queue
      × (more ≡ ipc_read_handler generation p'.written ++ queue)
read-run es generation more p' e current =
    let (more', q, e', h) =
      run-HasSent es (record init_process { active = true }) [] init_process-HasSent in
    let same = some_inj.0 (sym e ∙ e') in
    let sent : HasSent p' more = subst (λ r. HasSent r.1 r.0) (sym same) h in
    (
      sent.queue,
      sent.represents,
      sent.all_sent
          ∙ ap (λ l. l ++ sent.queue)
              (sym (
                read-current generation p'.written sent.queue
                  (subst (All (IsCurrent generation)) sent.all_sent current))),
    )
