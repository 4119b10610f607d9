-- ===== src/Util/Links.antt =====
-- The link fields of the elements of a doubly linked list, and what a list in them is. An element is the number
-- of its address; a null pointer is `none`.
pub mod Segment
pub mod Edit
use nchan.Prelude.{Bool, Option, false, if◌then◌else◌, none, some, true, ℕ, ◌==◌}

pub record Links : Type 0 where
  pub prev : ℕ → Option ℕ
  pub next : ℕ → Option ℕ

abbrev pub assign : (ℕ → Option ℕ) → ℕ → Option ℕ → ℕ → Option ℕ
assign f x v y = if y == x then v else f y

abbrev pub set_next : ℕ → Option ℕ → Links → Links
set_next x v h = record h { next = assign h.next x v }

abbrev pub set_prev : ℕ → Option ℕ → Links → Links
set_prev x v h = record h { prev = assign h.prev x v }

-- `if(p) p->next = v`
abbrev pub set_next_of : Option ℕ → Option ℕ → Links → Links
set_next_of none v h = h
set_next_of (some x) v h = set_next x v h

abbrev pub set_prev_of : Option ℕ → Option ℕ → Links → Links
set_prev_of none v h = h
set_prev_of (some x) v h = set_prev x v h

abbrev pub is_null : Option ℕ → Bool
is_null none = true
is_null (some x) = false

-- Whether a pointer is to the element.
abbrev pub points_to : Option ℕ → ℕ → Bool
points_to none x = false
points_to (some y) x = y == x
