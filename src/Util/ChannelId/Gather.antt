-- ===== src/Util/ChannelId/Gather.antt =====
-- The ids of a location: how they are split, and that they fit the array that holds them.
use nchan.Util.ChannelId.SplitId.{split_id-none, split_id-some, split_id-zero}
use mathlib.Core.Option.{some_inj}
use nchan.Prelude.{
  Bool, Bool-cases, List, Option, Option-cases, ap, arith, false, if◌then◌else◌, inl, inr, leb,
  length, length-append, ltb, none, refl, some, subst, suc, sym, true, zero, ℕ, [], ◌++◌, ◌+◌, ◌<◌,
  ◌>>=◌, ◌∙◌, ◌∷◌, ◌≡◌, ◌≤◌,
}
use nchan.Util.ChannelId.{gather, multitag_max, split_id, strsplit, validate_id, value_parts}

guarded :
    (b : Bool) (o : Option (List (List ℕ))) (out' : List (List ℕ))
    → (if b then none else o) ≡ some out'
    → (b ≡ false) × (o ≡ some out')
guarded true o out' e = cc
guarded false o out' e = (refl, e)

one_more : (n m : ℕ) → leb multitag_max n ≡ false → m ≡ n + 1 → m ≤ multitag_max
one_more n m h e = ground arith

split_id-bounded :
    (n : ℕ) (delim s : List ℕ) (out out' : List (List ℕ))
    → length out ≤ multitag_max
    → split_id n delim s out ≡ some out'
    → length out' ≤ multitag_max
split_id-bounded zero delim s out out' h e =
    subst (λ l. length l ≤ multitag_max) (some_inj.0 (sym (split_id-zero delim s out) ∙ e)) h
split_id-bounded (suc n) delim s out out' h e = elim (Option-cases (strsplit delim [] s)) [
  | inl stop ↦
      subst (λ l. length l ≤ multitag_max) (some_inj.0 (sym (split_id-none n delim s out stop) ∙ e))
        h
  | inr ((p, more), found) ↦
      let (room, rest) =
        guarded (leb multitag_max (length out)) (split_id n delim more (out ++ p ∷ [])) out'
          (sym (split_id-some n delim s p more out found) ∙ e) in
      split_id-bounded n delim more (out ++ p ∷ []) out'
        (one_more (length out) (length (out ++ p ∷ [])) room (length-append out (p ∷ []))) rest
]

value_parts-bounded :
    (delim v : List ℕ) (out out' : List (List ℕ))
    → length out ≤ multitag_max
    → value_parts delim v out ≡ some out'
    → length out' ≤ multitag_max
unfolding value_parts
value_parts-bounded delim v out out' h e = elim (Bool-cases (ltb 0 (length delim))) [
  | inl split ↦ split_id-bounded (length v + 1) delim v out out' h (rw split at e)
  | inr whole ↦
      let (room, rest) =
        guarded (leb multitag_max (length out)) (some (out ++ v ∷ [])) out' (rw whole at e) in
      one_more (length out) (length out') room
        (sym (ap length (some_inj.0 rest)) ∙ length-append out (v ∷ []))
]

gather-full :
    (max_len : ℕ) (delim v : List ℕ) (values out : List (List ℕ))
    → ltb (length out) multitag_max ≡ false
    → gather max_len delim (v ∷ values) out ≡ some out
unfolding gather
gather-full max_len delim v values out h = rw h refl

gather-more :
    (max_len : ℕ) (delim v : List ℕ) (values out : List (List ℕ))
    → ltb (length out) multitag_max ≡ true
    → gather max_len delim (v ∷ values) out ≡ (
        if validate_id max_len v
        then value_parts delim v out >>= gather max_len delim values
        else none)
unfolding gather
gather-more max_len delim v values out h = rw h refl

none≢ids : (ids : List (List ℕ)) → none ≡ some ids → 0 < 0
none≢ids ids e = cc

bound :
    (o : Option (List (List ℕ))) (f : List (List ℕ) → Option (List (List ℕ))) (out' : List (List ℕ))
    → o >>= f ≡ some out'
    → (parts : List (List ℕ)) × (o ≡ some parts) × (f parts ≡ some out')
bound none f out' e = cc
bound (some parts) f out' e = (parts, refl, e)

-- The ids of a location never exceed the array that holds them, however many values there are and whatever parts they have.
pub gather-bounded :
    (max_len : ℕ) (delim : List ℕ) (values out out' : List (List ℕ))
    → length out ≤ multitag_max
    → gather max_len delim values out ≡ some out'
    → length out' ≤ multitag_max
unfolding gather
gather-bounded max_len delim [] out out' h e = subst (λ l. length l ≤ multitag_max) (some_inj.0 e) h
gather-bounded max_len delim (v ∷ values) out out' h e =
    elim (Bool-cases (ltb (length out) multitag_max)) [
      | inr full ↦
          subst (λ l. length l ≤ multitag_max)
            (some_inj.0 (sym (gather-full max_len delim v values out full) ∙ e)) h
      | inl room ↦ elim (Bool-cases (validate_id max_len v)) [
        | inr long ↦ absurd (
            omega (
              arith,
              none≢ids out'
                  (sym (ap choice long) ∙ sym (gather-more max_len delim v values out room) ∙ e),
            ))
        | inl valid ↦
            let step =
              sym (ap choice valid) ∙ sym (gather-more max_len delim v values out room) ∙ e in
            let (parts, found, rest) =
              bound (value_parts delim v out) (gather max_len delim values) out' step in
            gather-bounded max_len delim values parts out'
              (value_parts-bounded delim v out parts h found) rest
      ]
    ]
  where
    choice : Bool → Option (List (List ℕ))
    choice b = if b then value_parts delim v out >>= gather max_len delim values else none
