-- ===== src/Memstore/Message/Lifetime.antt =====
-- The life of a stored message: it may be freed when nothing holds it, or when the reaper is forced to,
-- as it is when a worker exits, and is not used after.
use nchan.Prelude.{
  Bool, Bool-cases, List, Option, ap, arith, false, if◌then◌else◌, inl, inr, none, not, refl, some,
  subst, suc, sym, true, zero, ℕ, [], ◌&&◌, ◌+◌, ◌==◌, ◌>>=◌, ◌||◌, ◌∙◌, ◌∷◌, ◌≡◌, ◌⊎◌,
}
use mathlib.Core.Option.{some_inj}
use nchan.Prelude.Int.{ltb_ℤ, pos, ℤ, ◌+ℤ◌, ◌-ℤ◌}
use nchan.Memstore.Message.{
  Message, msg_refcount_invalidate_if_zero, msg_release, msg_reserve, refcount_invalid,
  store_msg_ready_to_reap_generic,
}

-- What is done to a message: it is reserved, released, or tried by the reaper, at a second, with the
-- expiry respected or not, and by force or not.
pub data Step : Type 0 where
  reserve release : Step
  try_reap : ℤ → Bool → Bool → Step

pub step : Step → Message → Option Message
step reserve m = msg_reserve m
step release m = msg_release m
step (try_reap now respect_expire force) m =
    some (store_msg_ready_to_reap_generic now respect_expire force m).1

pub run_steps : List Step → Message → Option Message
unfolding step
run_steps [] m = some m
run_steps (s ∷ ss) m = step s m >>= run_steps ss

-- The message is there with so many holders, or the reaper was told that it may be freed.
pub data Fate : Type 0 where
  held : ℕ → Fate
  freed : Fate

-- What the steps mean; `none` is a use that is not allowed.
unfoldable pub fate : ℤ → Step → Fate → Option Fate
fate expires reserve (held n) = some (held (suc n))
fate expires release (held zero) = none
fate expires release (held (suc n)) = some (held n)
fate expires (try_reap now respect_expire force) (held n) =
    some (if force || n == 0 && not (respect_expire && ltb_ℤ now expires) then freed else held n)
fate expires reserve freed = none
fate expires release freed = none
fate expires (try_reap now respect_expire force) freed = some freed

unfoldable pub fates : ℤ → List Step → Fate → Option Fate
unfolding fate
fates expires [] f = some f
fates expires (s ∷ ss) f = fate expires s f >>= fates expires ss

-- The count of the message for its fate.
abbrev pub count_of : Fate → ℤ
count_of (held n) = pos n
count_of freed = refcount_invalid

abbrev pub with_count : Message → Fate → Message
with_count m f = record m { refcount = count_of f }

abbrev option_map : (Fate → Message) → Option Fate → Option Message
option_map f none = none
option_map f (some x) = some (f x)

step-fate :
    (s : Step) (m : Message) (f : Fate)
    → step s (with_count m f) ≡ option_map (with_count m) (fate m.expires s f)
unfolding step fate msg_reserve msg_release store_msg_ready_to_reap_generic
    msg_refcount_invalidate_if_zero ◌+ℤ◌ ◌-ℤ◌
step-fate reserve m (held n) = ground arith
step-fate release m (held zero) = refl
step-fate release m (held (suc n)) = ground arith
step-fate (try_reap now respect_expire force) m (held n) = ground arith
step-fate reserve m freed = refl
step-fate release m freed = refl
step-fate (try_reap now respect_expire force) m freed = ground arith

bind-option_map :
    (m : Message) (k : Message → Option Message) (h : Fate → Option Fate)
    → ((f : Fate) → k (with_count m f) ≡ option_map (with_count m) (h f))
    → (o : Option Fate) → (option_map (with_count m) o >>= k) ≡ option_map (with_count m) (o >>= h)
bind-option_map m k h same none = refl
bind-option_map m k h same (some f) = same f

-- A message whose count stands for a fate goes through any sequence of reservations, releases and
-- reaper's tries, forced ones among them, as the fates do: a try frees it when it is forced, or when
-- nothing holds the message and the expiry is past or not respected. Once it is freed, a reservation or
-- a release fails an assertion, and a try changes nothing. A release without a holder fails an assertion
-- too, and every other sequence runs to the end, with the count of the holders that are left or the
-- invalid count.
pub run_steps-fates :
    (ss : List Step) (m : Message) (f : Fate)
    → run_steps ss (with_count m f) ≡ option_map (with_count m) (fates m.expires ss f)
unfolding run_steps fates
run_steps-fates [] m f = refl
run_steps-fates (s ∷ ss) m f =
    ap (λ o. o >>= run_steps ss) (step-fate s m f)
    ∙ bind-option_map m (run_steps ss) (fates m.expires ss) (run_steps-fates ss m)
        (fate m.expires s f)

-- Whether the reaper is forced.
abbrev pub any_forced : List Step → Bool
any_forced [] = false
any_forced (reserve ∷ ss) = any_forced ss
any_forced (release ∷ ss) = any_forced ss
any_forced (try_reap now respect_expire force ∷ ss) = force || any_forced ss

abbrev pub reserves : List Step → ℕ
reserves [] = 0
reserves (reserve ∷ ss) = suc (reserves ss)
reserves (release ∷ ss) = reserves ss
reserves (try_reap now respect_expire force ∷ ss) = reserves ss

abbrev pub releases : List Step → ℕ
releases [] = 0
releases (reserve ∷ ss) = releases ss
releases (release ∷ ss) = suc (releases ss)
releases (try_reap now respect_expire force ∷ ss) = releases ss

-- How many hold the message in the end, or held it when it was freed: none, unless it was by force.
abbrev Ends : Fate → ℕ → Bool → Type 0
Ends (held n) k forced = n ≡ k
Ends freed k forced = (k ≡ 0) ⊎ (forced ≡ true)

abbrev Balance : List Step → ℕ → Fate → Type 0
Balance ss n f = (k : ℕ) × (n + reserves ss ≡ k + releases ss) × Ends f k (any_forced ss)

-- Nothing is reserved or released after that.
fates-freed :
    (e : ℤ) (ss : List Step) (f : Fate)
    → fates e ss freed ≡ some f
    → (freed ≡ f) × (reserves ss ≡ 0) × (releases ss ≡ 0)
unfolding fates fate
fates-freed e [] f p = (some_inj.0 p, refl, refl)
fates-freed e (reserve ∷ ss) f p = ground arith
fates-freed e (release ∷ ss) f p = ground arith
fates-freed e (try_reap now respect_expire force ∷ ss) f p = fates-freed e ss f p

freed_now :
    (e : ℤ) (ss : List Step) (n : ℕ) (force late : Bool) (f : Fate)
    → (force || n == 0 && late) ≡ true
    → fates e ss freed ≡ some f
    → (k : ℕ) × (n + reserves ss ≡ k + releases ss) × Ends f k (force || any_forced ss)
freed_now e ss n force late f now p =
    let (same, reserved, released) = fates-freed e ss f p in
    (
      n,
      omega arith,
      subst (λ g. Ends g n (force || any_forced ss)) same (by_force force n late now),
    )
  where
    by_force :
        (force : Bool) (n : ℕ) (late : Bool)
        → (force || n == 0 && late) ≡ true
        → (n ≡ 0) ⊎ ((force || any_forced ss) ≡ true)
    by_force true n late now = inr refl
    by_force false n late now = inl (ground arith)

fates-Balance :
    (e : ℤ) (ss : List Step) (n : ℕ) (f : Fate) → fates e ss (held n) ≡ some f → Balance ss n f
unfolding fates fate
fates-Balance e [] n f p = (n, refl, subst (λ g. Ends g n false) (some_inj.0 p) refl)
fates-Balance e (reserve ∷ ss) n f p =
    let (k, total, ends) = fates-Balance e ss (suc n) f p in (k, omega arith, ends)
fates-Balance e (release ∷ ss) zero f p = ground arith
fates-Balance e (release ∷ ss) (suc n) f p =
    let (k, total, ends) = fates-Balance e ss n f p in (k, omega arith, ends)
fates-Balance e (try_reap now respect_expire force ∷ ss) n f p =
    let late = not (respect_expire && ltb_ℤ now e) in
    elim (Bool-cases (force || n == 0 && late)) [
      | inl frees ↦ freed_now e ss n force late f frees (rw frees at p)
      | inr keeps ↦
          let (k, total, ends) = fates-Balance e ss n f (rw keeps at p) in
          let gentle : (force || any_forced ss) ≡ any_forced ss = unforced force n late keeps in
          (k, total, subst (Ends f k) (sym gentle) ends)
    ]
  where
    unforced :
        (force : Bool) (n : ℕ) (late : Bool)
        → (force || n == 0 && late) ≡ false
        → (force || any_forced ss) ≡ any_forced ss
    unforced true n late keeps = cc
    unforced false n late keeps = refl

some-option_map :
    (m m' : Message) (o : Option Fate)
    → option_map (with_count m) o ≡ some m'
    → (f : Fate) × (o ≡ some f) × (m'.refcount ≡ count_of f)
some-option_map m m' none p = ground arith
some-option_map m m' (some f) p = (f, refl, ap (λ x. x.refcount) (sym (some_inj.0 p)))

-- In every run that fails no assertion, from a message that n hold, the reservations and those n are as
-- many as the releases and some k. The message has the count k in the end; or it has the invalid count,
-- and then k is 0, every reservation and all n holders were released, unless the reaper was forced.
pub run_steps-balance :
    (ss : List Step) (m m' : Message) (n : ℕ)
    → m.refcount ≡ pos n
    → run_steps ss m ≡ some m'
    → (k : ℕ) × (n + reserves ss ≡ k + releases ss)
      × ((m'.refcount ≡ pos k)
          ⊎ ((m'.refcount ≡ refcount_invalid) × ((k ≡ 0) ⊎ (any_forced ss ≡ true))))
run_steps-balance ss m m' n p q = balance (
    some-option_map m m' (fates m.expires ss (held n)) (
      sym (run_steps-fates ss m (held n))
      ∙ ap (λ c. run_steps ss (record m { refcount = c })) (sym p)
      ∙ q))
  where
    balance :
        (f : Fate) × (fates m.expires ss (held n) ≡ some f) × (m'.refcount ≡ count_of f)
        → (k : ℕ) × (n + reserves ss ≡ k + releases ss)
          × ((m'.refcount ≡ pos k)
              ⊎ ((m'.refcount ≡ refcount_invalid) × ((k ≡ 0) ⊎ (any_forced ss ≡ true))))
    balance (freed, e, c) =
        let (k, total, ends) = fates-Balance m.expires ss n freed e in (k, total, inr (c, ends))
    balance (held h, e, c) =
        let (k, total, ends) = fates-Balance m.expires ss n (held h) e in
        (k, total, inl (c ∙ ap pos ends))
