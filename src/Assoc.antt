-- ===== src/Assoc.antt =====
-- A std::unordered_map with integer keys: the list of its entries in the order of its iteration.
use cs_144_minnow_tcp.Base.{
  ℕ, ◌≡◌, inl, inr, refl, ap, sym, ◌∙◌, ==_iff, Bool-cases, true, false, Option, none, some, List,
  [], ◌∷◌, if◌then◌else◌, ◌==◌, arith,
}

module _ {V : Type 0} where
  unfoldable pub find : ℕ → List (ℕ × V) → Option V
  find ip [] = none
  find ip ((k, e) ∷ m) = if k == ip then some e else find ip m

  unfoldable pub erase : ℕ → List (ℕ × V) → List (ℕ × V)
  erase ip [] = []
  erase ip ((k, e) ∷ m) = if k == ip then m else (k, e) ∷ erase ip m

  -- An entry that an iteration keeps, or erases.
  unfoldable pub keep : ℕ → Option V → List (ℕ × V) → List (ℕ × V)
  keep k none rest = rest
  keep k (some e) rest = (k, e) ∷ rest

  pub find-keep-here :
      (k : ℕ) (o : Option V) (m : List (ℕ × V)) → find k m ≡ none → find k (keep k o m) ≡ o
  unfolding find keep
  find-keep-here k none m h = h
  find-keep-here k (some e) m h = let t : (k == k) ≡ true = ground arith in rw t refl

  pub find-keep-other :
      (k ip : ℕ) (o : Option V) (m : List (ℕ × V))
      → (k == ip) ≡ false
      → find ip (keep k o m) ≡ find ip m
  unfolding find keep
  find-keep-other k ip none m h = refl
  find-keep-other k ip (some e) m h = rw h refl

  -- No key stands twice.
  abbrev pub Distinct : List (ℕ × V) → Type 0
  Distinct [] = Unit {0}
  Distinct ((k, e) ∷ m) = (find k m ≡ none) × Distinct m

  pub find-erase-here : (m : List (ℕ × V)) (ip : ℕ) → Distinct m → find ip (erase ip m) ≡ none
  unfolding find erase
  find-erase-here [] ip d = refl
  find-erase-here ((k, e) ∷ m) ip d = elim (Bool-cases (k == ip)) [
    | inl t ↦ rw t (ap (λ i. find i m) (sym ((==_iff k ip).0 t)) ∙ d.0)
    | inr t ↦ rw t (rw t (find-erase-here m ip d.1))
  ]

  pub find-erase-other :
      (m : List (ℕ × V)) (ip k : ℕ) → (ip == k) ≡ false → find ip (erase k m) ≡ find ip m
  unfolding find erase
  find-erase-other [] ip k h = refl
  find-erase-other ((j, e) ∷ m) ip k h = elim (Bool-cases (j == k)) [
    | inl t ↦ let f : (j == ip) ≡ false = ground arith in rw (t, f) refl
    | inr t ↦ rw t (elim (Bool-cases (j == ip)) [
      | inl f ↦ rw f refl
      | inr f ↦ rw f (find-erase-other m ip k h)
    ])
  ]

  pub find-erase-none :
      (m : List (ℕ × V)) (ip k : ℕ) → find ip m ≡ none → Distinct m → find ip (erase k m) ≡ none
  find-erase-none m ip k h d = elim (Bool-cases (ip == k)) [
    | inl t ↦ ap (λ i. find i (erase k m)) ((==_iff ip k).0 t) ∙ find-erase-here m k d
    | inr t ↦ find-erase-other m ip k t ∙ h
  ]
