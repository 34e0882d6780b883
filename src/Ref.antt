-- ===== src/Ref.antt =====
-- util/ref.hh: a reference that owns its object or borrows another's. A borrowed reference is
-- modelled by the object it points to, which nobody changes while it is borrowed; a C++ move hands
-- the reference on unchanged. `none` is the exception of `get_mut`.
use cs_144_minnow_tcp.Base.{Bool, true, false, not, Option, none, some, List, [], ◌∷◌}

pub data Ref {ℓ} (A : Type ℓ) : Type ℓ where
  owned : A → Ref A
  borrowed : A → Ref A

module _ {ℓ} {A : Type ℓ} where
  -- `get`, and the conversions to `const T&`
  abbrev pub get : Ref A → A
  get (Ref.owned a) = a
  get (Ref.borrowed a) = a

  -- `Ref::borrow`, on an object and on a reference
  abbrev pub borrow_object : A → Ref A
  borrow_object a = Ref.borrowed a

  abbrev pub borrow : Ref A → Ref A
  borrow (Ref.owned a) = Ref.borrowed a
  borrow (Ref.borrowed a) = Ref.borrowed a

  -- The copy constructor and the copy assignment
  abbrev pub copy : Ref A → Ref A
  copy r = Ref.owned (get r)

  abbrev pub is_owned : Ref A → Bool
  is_owned (Ref.owned a) = true
  is_owned (Ref.borrowed a) = false

  abbrev pub is_borrowed : Ref A → Bool
  is_borrowed r = not (is_owned r)

  -- `get_mut`: the object, where it may be changed
  abbrev pub get_mut : Ref A → Option A
  get_mut (Ref.owned a) = some a
  get_mut (Ref.borrowed a) = none

  abbrev pub release : Ref A → A
  release (Ref.owned a) = a
  release (Ref.borrowed a) = a

-- The objects behind some references.
abbrev pub objects {ℓ} : {A : Type ℓ} → List (Ref A) → List A
objects [] = []
objects (r ∷ rs) = get r ∷ objects rs
