-- ===== src/Memstore/Ipc/Tests.antt =====
-- Runs of the queues between the workers, and uses of their theorems.
use nchan.Prelude.{
  List, arith, get_elem?, ngx_ok, refl, replicate, set, some, true, ℕ, [], ◌++◌, ◌∷◌, ◌≡◌,
}
use nchan.Prelude.Int.{pos}
use nchan.Memstore.Ipc.{
  Alert, Env, Process, Sender, Writebuf, advance, init_process, ipc_broadcast_alert,
  ipc_read_handler, ipc_write_handler, make_alert, process_alert, queue_alert, write_alerts,
  write_handler,
}
use nchan.Memstore.Ipc.Fifo.{Represents}
use nchan.Memstore.Ipc.Handler.{write_handler-take}
use nchan.Memstore.Ipc.Delivery.{
  Event, HasSent, init_process-HasSent, run, run-HasSent, send, writable,
}
use nchan.Memstore.Ipc.Broadcast.{AllWorking, ipc_broadcast_alert-HasSent, read-run}

abbrev alert : ℕ → Alert
alert n = record {
  src_slot = pos 1;
  time_sent = pos 100;
  code = n;
  worker_generation = 7;
  bytes = [];
}

abbrev open_process : Process
open_process = record init_process { active = true }

-- The pipe takes nothing, and then two alerts.
abbrev stuck : Env
stuck = record { ready = true; memory = true; room = 0 }

abbrev flowing : Env
flowing = record { ready = true; memory = true; room = 2 }

abbrev some_events : List Event
some_events =
    send stuck (alert 1) ∷ send stuck (alert 2) ∷ send stuck (alert 3) ∷ writable flowing ∷ []

-- Two alerts in the ring, from index 31 on, so that the second is at index 0.
abbrev wrapped : Writebuf
wrapped = record {
  n = 2;
  first = 31;
  overflow_n = 0;
  overflow = [];
  alerts = set (set (replicate 32 (alert 0)) 31 (alert 1)) 0 (alert 2);
}

write_handler-take_example :
    (wb' : Writebuf) × (write_handler 1 1 wrapped ≡ some (alert 1 ∷ [], wb'))
    × Represents wb' (alert 2 ∷ [])
write_handler-take_example =
    write_handler-take 1 1 wrapped (alert 1 ∷ alert 2 ∷ [])
      (record {
        ring = alert 1 ∷ alert 2 ∷ [];
        whole = refl;
        holds = (refl, (refl, tt));
        counted = refl;
        fits = omega arith;
        overflow_counted = refl;
        overflow_full = λ less. refl;
        size = refl;
      })
      (omega arith)

run-HasSent_example :
    (more : List Alert) × (p' : Process) × (run some_events open_process ≡ some (more, p'))
    × HasSent p' ([] ++ more)
run-HasSent_example = run-HasSent some_events open_process [] init_process-HasSent

abbrev no_alert : Alert
no_alert = record {
  src_slot = pos 0;
  time_sent = pos 0;
  code = 0;
  worker_generation = 0;
  bytes = [];
}

abbrev two_written : Process
two_written = record {
  active = true;
  wbuf = record {
    n = 1;
    first = 2;
    overflow_n = 0;
    overflow = [];
    alerts = set (set (set (replicate 32 no_alert) 0 (alert 1)) 1 (alert 2)) 2 (alert 3);
  };
  written = alert 1 ∷ alert 2 ∷ [];
}

some_events-run :
    run some_events open_process ≡ some (alert 1 ∷ alert 2 ∷ alert 3 ∷ [], two_written)
unfolding run process_alert ipc_write_handler write_handler write_alerts advance queue_alert
    init_process
some_events-run = refl

read-run_example :
    (queue : List Alert) × Represents two_written.wbuf queue
    × (alert 1 ∷ alert 2 ∷ alert 3 ∷ [] ≡ ipc_read_handler 7 two_written.written ++ queue)
read-run_example =
    read-run some_events 7 (alert 1 ∷ alert 2 ∷ alert 3 ∷ []) two_written some_events-run
      (omega arith, (omega arith, (omega arith, tt)))

-- Three workers, of which the broadcasting one is the second, and a slot of the array that is not used.
abbrev processes : List Process
processes = open_process ∷ open_process ∷ open_process ∷ init_process ∷ []

abbrev sender : Sender
sender = record { slot = 1; now = pos 100; generation = 7 }

abbrev working : AllWorking processes (0 ∷ 1 ∷ 2 ∷ [])
working = (
  (open_process, [], refl, init_process-HasSent),
  (
    (open_process, [], refl, init_process-HasSent),
    ((open_process, [], refl, init_process-HasSent), tt),
  ),
)

ipc_broadcast_alert-HasSent_example :
    (procs' : List Process) × (p' : Process) × (ipc_broadcast_alert
        (λ s. stuck)
        sender
        5
        []
        (0 ∷ 1 ∷ 2 ∷ [])
        ngx_ok
        processes
      ≡ some (ngx_ok, procs'))
    × (get_elem? procs' 2 ≡ some p')
    × HasSent p' ([] ++ replicate 1 (make_alert sender 5 []))
    × (get_elem? procs' 3 ≡ get_elem? processes 3)
ipc_broadcast_alert-HasSent_example =
    ipc_broadcast_alert-HasSent (λ s. stuck) sender 5 [] (0 ∷ 1 ∷ 2 ∷ []) ngx_ok processes 2
      open_process [] 3 (omega arith) (λ s. refl) working refl init_process-HasSent refl
