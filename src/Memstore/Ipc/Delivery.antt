-- ===== src/Memstore/Ipc/Delivery.antt =====
-- Sending and broadcasting over the queues of the workers.
use native.Mathlib.Decide.{dec_lt}
use nchan.Prelude.{
  Bool, Bool-cases, List, Option, Rc, ap, append-nil, append_assoc, arith, drop, false, inl, inr,
  length-append, length-set, ltb, lt→ltb, ngx_error, ngx_ok, not, refl, some, subst, sym, take,
  take-append-drop, true, [], ◌%◌, ◌&&◌, ◌++◌, ◌+◌, ◌>>=◌, ◌∙◌, ◌∷◌, ◌≡◌,
}
use nchan.Memstore.Ipc.{
  Alert, Env, Process, Writebuf, init_process, ipc_write_handler, ipc_writebuf_size, process_alert,
  queue_alert,
}
use nchan.Memstore.Ipc.Fifo.{Holds-push, Represents}
use nchan.Memstore.Ipc.Advance.{ge→ltb}
use nchan.Memstore.Ipc.Handler.{nothing_over, write_handler-take}

-- All that was ever sent to a process is `sent`: what was written to its pipe, and then the queue.
pub record HasSent (p : Process) (sent : List Alert) : Type 0 where
  pub is_active : p.active ≡ true
  pub queue : List Alert
  pub represents : Represents p.wbuf queue
  pub all_sent : sent ≡ p.written ++ queue

ipc_write_handler-HasSent :
    (env : Env) (p : Process) (sent : List Alert)
    → HasSent p sent
    → (p' : Process) × (ipc_write_handler env p ≡ some p') × HasSent p' sent
unfolding ipc_write_handler
ipc_write_handler-HasSent env p sent h = elim (Bool-cases env.ready) [
  | inl ready ↦
      let (wb', e, rep) =
        write_handler-take (p.wbuf.overflow_n + 1) env.room p.wbuf h.queue h.represents
          (omega arith) in
      (
        record p { wbuf = wb'; written = p.written ++ take env.room h.queue },
        rw (ready, e) refl,
        record {
          is_active = h.is_active;
          queue = drop env.room h.queue;
          represents = rep;
          all_sent =
              h.all_sent
              ∙ ap (◌++◌ p.written) (sym (take-append-drop env.room h.queue))
              ∙ sym (append_assoc p.written (take env.room h.queue) (drop env.room h.queue));
        },
      )
  | inr waiting ↦ (p, rw waiting refl, h)
]

queue_alert-Represents :
    (a : Alert) (wb : Writebuf) (q : List Alert)
    → Represents wb q
    → Represents (queue_alert a wb) (q ++ a ∷ [])
unfolding queue_alert
queue_alert-Represents a wb q r = elim (dec_lt wb.n 32) [
  | yes ring ↦
      let none_over = nothing_over wb q r (r.overflow_full ring) in
      rw (lt→ltb wb.n 32 ring) (record {
        ring = r.ring ++ a ∷ [];
        whole =
            rw (r.whole, none_over)
              (ap (λ l. l ++ a ∷ []) (append-nil r.ring) ∙ sym (append-nil (r.ring ++ a ∷ [])));
        holds =
            Holds-push wb.alerts wb.first (wb.first + wb.n) r.ring a r.size
              (omega (arith, r.counted)) (omega (arith, r.counted)) r.holds;
        counted = omega (arith, r.counted, length-append r.ring (a ∷ []));
        fits = omega arith;
        overflow_counted = r.overflow_counted;
        overflow_full = λ less. r.overflow_full ring;
        size = length-set wb.alerts ((wb.first + wb.n) % 32) a ∙ r.size;
      })
  | no full_ring ↦ rw (ge→ltb wb.n 32 (omega arith)) (record {
    ring = r.ring;
    whole = ap (λ l. l ++ a ∷ []) r.whole ∙ append_assoc r.ring wb.overflow (a ∷ []);
    holds = r.holds;
    counted = r.counted;
    fits = r.fits;
    overflow_counted = omega (arith, r.overflow_counted, length-append wb.overflow (a ∷ []));
    overflow_full = λ less. absurd (full_ring less);
    size = r.size;
  })
]

abbrev pub accepted : Rc → Alert → List Alert
accepted ngx_ok a = a ∷ []
accepted rc a = []

queue_alert-HasSent :
    (a : Alert) (p : Process) (sent : List Alert)
    → HasSent p sent
    → HasSent (record p { wbuf = queue_alert a p.wbuf }) (sent ++ a ∷ [])
queue_alert-HasSent a p sent h = record {
  is_active = h.is_active;
  queue = h.queue ++ a ∷ [];
  represents = queue_alert-Represents a p.wbuf h.queue h.represents;
  all_sent = ap (λ l. l ++ a ∷ []) h.all_sent ∙ append_assoc p.written h.queue (a ∷ []);
}

process_alert-refused :
    (env : Env) (a : Alert) (p : Process)
    → p.active ≡ true
    → (not (ltb p.wbuf.n ipc_writebuf_size) && not env.memory) ≡ true
    → process_alert env a p ≡ some (ngx_error, p)
unfolding process_alert
process_alert-refused env a p h k = simp (h, k) refl

process_alert-fine :
    (env : Env) (a : Alert) (p : Process)
    → p.active ≡ true
    → (not (ltb p.wbuf.n ipc_writebuf_size) && not env.memory) ≡ false
    → process_alert env a p
      ≡ ipc_write_handler env (record p { wbuf = queue_alert a p.wbuf }) >>= λ p'. some (ngx_ok, p')
unfolding process_alert
process_alert-fine env a p h k = simp (h, k) refl

-- An alert is refused only when there is no memory; otherwise it is the last of all that was sent.
pub process_alert-HasSent :
    (env : Env) (a : Alert) (p : Process) (sent : List Alert)
    → HasSent p sent
    → (rc : Rc) × (p' : Process) × (process_alert env a p ≡ some (rc, p'))
      × HasSent p' (sent ++ accepted rc a)
      × (env.memory ≡ true → rc ≡ ngx_ok)
process_alert-HasSent env a p sent h =
    elim (Bool-cases (not (ltb p.wbuf.n ipc_writebuf_size) && not env.memory)) [
      | inl refused ↦ (
        ngx_error,
        p,
        process_alert-refused env a p h.is_active refused,
        subst (HasSent p) (sym (append-nil sent)) h,
        λ memory. no_memory (ltb p.wbuf.n ipc_writebuf_size) env.memory refused memory,
      )
      | inr fine ↦
          let (p', e, h') =
            ipc_write_handler-HasSent env (record p { wbuf = queue_alert a p.wbuf })
              (sent ++ a ∷ []) (queue_alert-HasSent a p sent h) in
          (
            ngx_ok,
            p',
            process_alert-fine env a p h.is_active fine ∙ ap (λ o. o >>= λ x. some (ngx_ok, x)) e,
            h',
            λ memory. refl,
          )
    ]
  where
    no_memory : (l m : Bool) → (not l && not m) ≡ true → m ≡ true → ngx_error ≡ ngx_ok
    no_memory l m h k = ground arith

-- What happens at a pipe: an alert is sent, or the pipe can be written.
pub data Event : Type 0 where
  send : Env → Alert → Event
  writable : Env → Event

-- A process after the events, with the alerts that were accepted.
unfoldable pub run : List Event → Process → Option (List Alert × Process)
run [] p = some ([], p)
run (send env a ∷ es) p =
    process_alert env a p >>= λ r. run es r.1 >>= λ s. some (accepted r.0 a ++ s.0, s.1)
run (writable env ∷ es) p = ipc_write_handler env p >>= run es

-- First in, first out, over any sequence of sends and write events at an active process whose ring and
-- overflow are as the code keeps them, however much the pipe takes each time and with whatever memory: no assertion fails, no read is outside the
-- ring, every handler ends, and what was written to the pipe followed by what is still queued is all
-- the alerts that were accepted, in the order in which they were sent.
pub run-HasSent :
    (es : List Event) (p : Process) (sent : List Alert)
    → HasSent p sent
    → (more : List Alert) × (p' : Process) × (run es p ≡ some (more, p'))
      × HasSent p' (sent ++ more)
unfolding run
run-HasSent [] p sent h = ([], p, refl, subst (HasSent p) (sym (append-nil sent)) h)
run-HasSent (send env a ∷ es) p sent h =
    let (rc, p1, e, h1, ok) = process_alert-HasSent env a p sent h in
    let (more, p', e', h') = run-HasSent es p1 (sent ++ accepted rc a) h1 in
    (
      accepted rc a ++ more,
      p',
      rw (e, e') refl,
      subst (HasSent p') (append_assoc sent (accepted rc a) more) h',
    )
run-HasSent (writable env ∷ es) p sent h =
    let (p1, e, h1) = ipc_write_handler-HasSent env p sent h in
    let (more, p', e', h') = run-HasSent es p1 sent h1 in (more, p', rw (e, e') refl, h')

-- A process that `ipc_init` made and `ipc_open` opened has sent nothing.
pub init_process-HasSent : HasSent (record init_process { active = true }) []
unfolding init_process
init_process-HasSent = record {
  is_active = refl;
  queue = [];
  represents = record {
    ring = [];
    whole = refl;
    holds = tt;
    counted = refl;
    fits = omega arith;
    overflow_counted = refl;
    overflow_full = λ less. refl;
    size = refl;
  };
  all_sent = refl;
}
