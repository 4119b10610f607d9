-- ===== src/Memstore/Ipc.antt =====
-- Alerts between the workers, store/memory/ipc.c: the write buffer of a pipe, its overflow, and
-- sending, broadcasting and reading.
pub mod Fifo
pub mod Advance
pub mod Handler
pub mod Delivery
pub mod Broadcast
mod Tests
use nchan.Prelude.{
  Bool, List, Option, Rc, assert, false, get_elem?, if◌then◌else◌, leb, length, ltb, ngx_error,
  ngx_ok, none, not, replicate, set, some, suc, zero, ℕ, [], ◌%◌, ◌&&◌, ◌++◌, ◌+◌, ◌-◌, ◌==◌, ◌>>=◌,
  ◌>>◌, ◌∷◌,
}
use nchan.Prelude.Int.{pos, to_i16, ℤ}

-- `ipc_alert_t`. `bytes` is what the sender gave; the bytes after it are left over from before.
pub record Alert : Type 0 where
  pub src_slot : ℤ
  pub time_sent : ℤ
  pub code : ℕ
  pub worker_generation : ℕ
  pub bytes : List ℕ

-- IPC_WRITEBUF_SIZE and IPC_DATA_SIZE
abbrev pub ipc_writebuf_size : ℕ
ipc_writebuf_size = 32

abbrev pub ipc_data_size : ℕ
ipc_data_size = 64

-- `ipc_writebuf_t`; `overflow` is the linked list from `overflow_first` to `overflow_last`.
pub record Writebuf : Type 0 where
  pub n : ℕ
  pub first : ℕ
  pub overflow_n : ℕ
  pub overflow : List Alert
  pub alerts : List Alert

-- `ipc_process_t`: the write buffer, and all that was written to the pipe.
pub record Process : Type 0 where
  pub active : Bool
  pub wbuf : Writebuf
  pub written : List Alert

-- A process as `ipc_init` leaves it; `ngx_memzero` clears the alerts.
pub init_process : Process
init_process = record {
  active = false;
  wbuf = record {
    n = 0;
    first = 0;
    overflow_n = 0;
    overflow = [];
    alerts = replicate ipc_writebuf_size (record {
      src_slot = pos 0;
      time_sent = pos 0;
      code = 0;
      worker_generation = 0;
      bytes = [];
    });
  };
  written = [];
}

-- An error of write() other than EAGAIN, on which the code stops with a failed assertion, is not modelled.
-- The first loop of `ipc_write_handler`, with `k` rounds left from index `i`, when the pipe takes
-- `room` more alerts and then reports EAGAIN: the index it ends at, what it wrote, and the room left.
-- `none` is a read outside the ring.
pub write_alerts : List Alert → ℕ → ℕ → ℕ → Option (ℕ × List Alert × ℕ)
write_alerts alerts zero i room = some (i, [], room)
write_alerts alerts (suc k) i zero = some (i, [], zero)
write_alerts alerts (suc k) i (suc room) = do
  a ← get_elem? alerts (i % ipc_writebuf_size)
  (last, wrote, left) ← write_alerts alerts k (i + 1) room
  some (last, a ∷ wrote, left)

-- The index and the count after the first loop, which began at `first` and ended at `i`.
pub advance : ℕ → ℕ → Writebuf → Writebuf
advance first i wb =
    if i == first + wb.n
    then record wb { first = 0; n = 0 }
    else record wb { first = i % 65536; n = wb.n - (i - first) }

-- The second loop, with `k` rounds left from index `i`; `none` is the null pointer or the assertion.
pub squeeze_in : ℕ → ℕ → Writebuf → Option Writebuf
squeeze_in zero i wb = some wb
squeeze_in (suc k) i wb = elim wb.overflow [
  | [] ↦ none
  | a ∷ next ↦
      assert (leb 1 wb.overflow_n)
      >> (let wb' = record wb {
        alerts = set wb.alerts (i % ipc_writebuf_size) a;
        overflow_n = wb.overflow_n - 1;
        n = wb.n + 1;
        overflow = next;
      } in
          let rest = squeeze_in k (i + 1) wb' in elim next [ [] ↦ some wb' | b ∷ more ↦ rest ])
]

-- `ipc_write_handler` once the store is ready, with a bound on its calls of itself: what it wrote,
-- and the buffer.
pub write_handler : ℕ → ℕ → Writebuf → Option (List Alert × Writebuf)
unfolding advance
write_handler zero room wb = none
write_handler (suc calls) room wb = do
  (i, wrote, left) ← write_alerts wb.alerts wb.n wb.first room
  let wb' = advance wb.first i wb
  let aborted = ltb i (wb.first + wb.n)
  if ltb 0 wb.overflow_n && ltb 0 (i - wb.first)
      then (do
        squeezed ← squeeze_in (ipc_writebuf_size - wb'.n) (wb'.first + wb'.n) wb'
        let retry = write_handler calls left squeezed
        if aborted then some (wrote, squeezed) else retry >>= λ r. some (wrote ++ r.0, r.1))
      else some (wrote, wb')

-- What `ipc_alert` and the write handler meet: whether the store is ready, whether memory is granted,
-- and how much the pipe takes.
pub record Env : Type 0 where
  pub ready : Bool
  pub memory : Bool
  pub room : ℕ

-- `ipc_write_handler`. Until the store is ready it only sets a timer. Each call of itself moves at
-- least one alert out of the overflow, so these are enough.
pub ipc_write_handler : Env → Process → Option Process
ipc_write_handler env proc =
    if not env.ready
    then some proc
    else write_handler (proc.wbuf.overflow_n + 1) env.room proc.wbuf >>= λ r.
        some (record proc { wbuf = r.1; written = proc.written ++ r.0 })

-- The alert in the ring, or in the overflow when the ring is full.
pub queue_alert : Alert → Writebuf → Writebuf
queue_alert a wb =
    if ltb wb.n ipc_writebuf_size
    then record wb {
      alerts = set wb.alerts ((wb.first + wb.n) % ipc_writebuf_size) a;
      n = wb.n + 1;
    }
    else record wb { overflow = wb.overflow ++ a ∷ []; overflow_n = wb.overflow_n + 1 }

-- What `ipc_alert` does with the process of the slot.
pub process_alert : Env → Alert → Process → Option (Rc × Process)
unfolding queue_alert
process_alert env a proc = do
  assert proc.active
  if not (ltb proc.wbuf.n ipc_writebuf_size) && not env.memory
      then some (ngx_error, proc)
      else ipc_write_handler env (record proc { wbuf = queue_alert a proc.wbuf }) >>= λ p.
          some (ngx_ok, p)

-- The sender: its slot, the clock, and its generation.
pub record Sender : Type 0 where
  pub slot : ℕ
  pub now : ℤ
  pub generation : ℕ

pub make_alert : Sender → ℕ → List ℕ → Alert
make_alert from code bytes = record {
  src_slot = to_i16 (pos from.slot);
  time_sent = from.now;
  code = code % 256;
  worker_generation = from.generation % 65536;
  bytes = bytes;
}

-- `ipc_alert` to a slot; `none` is a failed assertion or a slot outside the processes.
pub ipc_alert : Env → Sender → ℕ → ℕ → List ℕ → List Process → Option (Rc × List Process)
unfolding process_alert make_alert
ipc_alert env from slot code bytes procs = do
  assert (leb (length bytes) ipc_data_size)
  proc ← get_elem? procs slot
  (rc, proc') ← process_alert env (make_alert from code bytes) proc
  some (rc, set procs slot proc')

-- `ipc_broadcast_alert` over the slots of the workers that are left; `env` gives what is met at each slot.
pub ipc_broadcast_alert :
    (ℕ → Env) → Sender → ℕ → List ℕ → List ℕ → Rc → List Process → Option (Rc × List Process)
ipc_broadcast_alert env from code bytes [] ret procs = some (ret, procs)
ipc_broadcast_alert env from code bytes (slot ∷ slots) ret procs =
    if from.slot == slot
    then ipc_broadcast_alert env from code bytes slots ret procs
    else ipc_alert (env slot) from slot code bytes procs >>= λ r. elim r.0 [
      | ngx_ok ↦ ipc_broadcast_alert env from code bytes slots ret r.1
      | _ ↦ ipc_broadcast_alert env from code bytes slots ngx_error r.1
    ]

-- `ipc_read_handler` on what the pipe holds: the alerts given to the handler.
pub ipc_read_handler : ℕ → List Alert → List Alert
ipc_read_handler generation [] = []
ipc_read_handler generation (a ∷ more) =
    if ltb a.worker_generation generation
    then ipc_read_handler generation more
    else a ∷ ipc_read_handler generation more
