-- ===== src/Memstore/Ipc/Fifo.antt =====
-- The write buffer is a queue: alerts are written to the pipe in the order they were sent.
use nchan.Prelude.{
  List, Option, ap, append-nil, append_assoc, ap₂, arith, drop, get_elem?, get_elem?-set_ne,
  get_elem?-set_self, leb, length, length-append, length-set, min, refl, set, some, subst, suc, sym,
  take, true, zero, ℕ, [], ◌%◌, ◌++◌, ◌+◌, ◌-◌, ◌<◌, ◌∙◌, ◌∷◌, ◌≡◌, ◌≤◌,
}
use nchan.Memstore.Ipc.{Alert, Writebuf, ipc_writebuf_size, squeeze_in, write_alerts}

-- The ring holds the alerts from index `f` on.
abbrev pub Holds : List Alert → ℕ → List Alert → Type 0
Holds alerts f [] = Unit {0}
Holds alerts f (a ∷ q) =
    (get_elem? alerts (f % ipc_writebuf_size) ≡ some a) × Holds alerts (f + 1) q

-- The write buffer stands for a queue: the alerts of the ring, and then those of the overflow, which
-- has none unless the ring is full.
pub record Represents (wb : Writebuf) (q : List Alert) : Type 0 where
  pub ring : List Alert
  pub whole : q ≡ ring ++ wb.overflow
  pub holds : Holds wb.alerts wb.first ring
  pub counted : wb.n ≡ length ring
  pub fits : wb.n ≤ ipc_writebuf_size
  pub overflow_counted : wb.overflow_n ≡ length wb.overflow
  pub overflow_full : wb.n < ipc_writebuf_size → wb.overflow_n ≡ 0
  pub size : length wb.alerts ≡ ipc_writebuf_size

pub Holds-mod :
    (alerts : List Alert) (i j : ℕ) (q : List Alert)
    → i % 32 ≡ j % 32
    → Holds alerts i q
    → Holds alerts j q
Holds-mod alerts i j [] e h = tt
Holds-mod alerts i j (a ∷ q) e h =
    (rw⁻¹ e h.0, Holds-mod alerts (i + 1) (j + 1) q (omega arith) h.1)

pub Holds-drop :
    (alerts : List Alert) (k i : ℕ) (q : List Alert)
    → k ≤ length q
    → Holds alerts i q
    → Holds alerts (i + k) (drop k q)
Holds-drop alerts zero i q b h = Holds-mod alerts i (i + 0) q (omega arith) h
Holds-drop alerts (suc k) i [] b h = tt
Holds-drop alerts (suc k) i (a ∷ q) b h =
    Holds-mod alerts (i + 1 + k) (i + suc k) (drop k q) (omega arith)
      (Holds-drop alerts k (i + 1) q (omega arith) h.1)

-- Writing another place of the ring changes nothing.
Holds-set :
    (alerts : List Alert) (f p : ℕ) (q : List Alert) (x : Alert)
    → f + length q ≤ p
    → p < f + 32
    → Holds alerts f q
    → Holds (set alerts (p % 32) x) f q
Holds-set alerts f p [] x h k r = tt
Holds-set alerts f p (a ∷ q) x h k r = (
  get_elem?-set_ne alerts (p % 32) (f % 32) x (λ e. omega arith) ∙ r.0,
  Holds-set alerts (f + 1) p q x (omega arith) (omega arith) r.1,
)

Holds-append :
    (alerts : List Alert) (f : ℕ) (q r : List Alert)
    → Holds alerts f q
    → Holds alerts (f + length q) r
    → Holds alerts f (q ++ r)
Holds-append alerts f [] r h k = Holds-mod alerts (f + 0) f r (omega arith) k
Holds-append alerts f (a ∷ q) r h k = (
  h.0,
  Holds-append alerts (f + 1) q r h.1
      (Holds-mod alerts (f + suc (length q)) (f + 1 + length q) r (omega arith) k),
)

pub Holds-push :
    (alerts : List Alert) (f i : ℕ) (q : List Alert) (x : Alert)
    → length alerts ≡ 32
    → i ≡ f + length q
    → length q < 32
    → Holds alerts f q
    → Holds (set alerts (i % 32) x) f (q ++ x ∷ [])
Holds-push alerts f i q x size e h r =
    Holds-append (set alerts (i % 32) x) f q (x ∷ [])
      (Holds-set alerts f i q x (omega arith) (omega arith) r)
      (rw⁻¹ e (get_elem?-set_self alerts (i % 32) x (omega arith)), tt)

abbrev loop_result : ℕ → List Alert → ℕ → Option (ℕ × List Alert × ℕ)
loop_result i wrote left = some (i, wrote, left)

-- The first loop writes what there is room for.
pub write_alerts-Holds :
    (alerts : List Alert) (q : List Alert) (i room : ℕ)
    → Holds alerts i q
    → write_alerts alerts (length q) i room
      ≡ some (i + min room (length q), take room q, room - length q)
unfolding write_alerts
write_alerts-Holds alerts [] i zero h = ap₂ (λ x y. loop_result x [] y) (omega arith) (omega arith)
write_alerts-Holds alerts [] i (suc room) h =
    ap₂ (λ x y. loop_result x [] y) (omega arith) (omega arith)
write_alerts-Holds alerts (a ∷ q) i zero h =
    ap₂ (λ x y. loop_result x [] y) (omega arith) (omega arith)
write_alerts-Holds alerts (a ∷ q) i (suc room) h =
    rw (h.0, write_alerts-Holds alerts q (i + 1) room h.1)
      (ap₂ (λ x y. loop_result x (a ∷ take room q) y) (omega arith) (omega arith))

squeezed : Alert → List Alert → ℕ → Writebuf → Writebuf
squeezed a next i wb = record wb {
  alerts = set wb.alerts (i % ipc_writebuf_size) a;
  overflow_n = wb.overflow_n - 1;
  n = wb.n + 1;
  overflow = next;
}

squeeze_in-zero : (i : ℕ) (wb : Writebuf) → squeeze_in 0 i wb ≡ some wb
unfolding squeeze_in
squeeze_in-zero i wb = refl

squeeze_in-one :
    (k i : ℕ) (wb : Writebuf) (a : Alert)
    → wb.overflow ≡ a ∷ []
    → wb.overflow_n ≡ 1
    → squeeze_in (suc k) i wb ≡ some (squeezed a [] i wb)
unfolding squeeze_in squeezed
squeeze_in-one k i wb a e c = rw (e, c) refl

squeeze_in-more :
    (k i : ℕ) (wb : Writebuf) (a b : Alert) (next : List Alert)
    → wb.overflow ≡ a ∷ b ∷ next
    → leb 1 wb.overflow_n ≡ true
    → squeeze_in (suc k) i wb ≡ squeeze_in k (i + 1) (squeezed a (b ∷ next) i wb)
unfolding squeeze_in squeezed
squeeze_in-more k i wb a b next e c = rw (e, c) refl

-- The second loop moves the overflow into the ring, as far as it goes.
pub squeeze_in-Represents :
    (k i : ℕ) (wb : Writebuf) (ring o : List Alert)
    → wb.overflow ≡ o
    → i ≡ wb.first + wb.n
    → Holds wb.alerts wb.first ring
    → wb.n ≡ length ring
    → wb.n + k ≡ ipc_writebuf_size
    → wb.overflow_n ≡ length o
    → 0 < wb.overflow_n
    → length wb.alerts ≡ ipc_writebuf_size
    → (wb' : Writebuf) × (squeeze_in k i wb ≡ some wb')
      × Represents wb' (ring ++ o)
      × (wb'.overflow_n ≡ wb.overflow_n - k)
unfolding squeezed
squeeze_in-Represents zero i wb ring o e at h c room oc some_left size = (
  wb,
  squeeze_in-zero i wb,
  record {
    ring = ring;
    whole = rw e refl;
    holds = h;
    counted = c;
    fits = omega arith;
    overflow_counted = oc ∙ sym (ap length e);
    overflow_full = λ less. omega arith;
    size = size;
  },
  omega arith,
)
squeeze_in-Represents (suc k) i wb ring [] e at h c room oc some_left size = absurd (omega arith)
squeeze_in-Represents (suc k) i wb ring (a ∷ []) e at h c room oc some_left size = (
  squeezed a [] i wb,
  squeeze_in-one k i wb a e oc,
  record {
    ring = ring ++ a ∷ [];
    whole = sym (append-nil (ring ++ a ∷ []));
    holds = Holds-push wb.alerts wb.first i ring a size (omega arith) (omega arith) h;
    counted = omega (arith, length-append ring (a ∷ []));
    fits = omega arith;
    overflow_counted = omega arith;
    overflow_full = λ less. omega arith;
    size = length-set wb.alerts _ a ∙ size;
  },
  omega arith,
)
squeeze_in-Represents (suc k) i wb ring (a ∷ b ∷ next) e at h c room oc some_left size =
    let (wb', rest, rep, left) =
      squeeze_in-Represents k (i + 1) (squeezed a (b ∷ next) i wb) (ring ++ a ∷ []) (b ∷ next) refl
        (omega arith) (Holds-push wb.alerts wb.first i ring a size (omega arith) (omega arith) h)
        (omega (arith, length-append ring (a ∷ []))) (omega arith) (omega arith) (omega arith)
        (length-set wb.alerts (i % ipc_writebuf_size) a ∙ size) in
    (
      wb',
      squeeze_in-more k i wb a b next e (lt→leb (omega arith)) ∙ rest,
      subst (Represents wb') (append_assoc ring (a ∷ []) (b ∷ next)) rep,
      omega arith,
    )
  where
    lt→leb : 0 < wb.overflow_n → leb 1 wb.overflow_n ≡ true
    lt→leb h = ground arith
