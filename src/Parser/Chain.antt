-- ===== src/Parser/Chain.antt =====
-- Chains of parser operations: the parser is threaded through, and a fault ends the chain.
use cs_144_minnow_tcp.Base.{ℕ, Bool, Option, none, some, List, [], ◌∷◌}
use cs_144_minnow_tcp.Parser.{Parser, Parse, integer}

abbrev after {ℓ κ} :
    {A : Type ℓ} {B : Type κ} → Option (A × Parser) → (A → Parse B) → Option (B × Parser)
after none f = none
after (some r) f = f r.0 r.1

infixl 5 ◌>>=◌
abbrev pub ◌>>=◌ {ℓ κ} : {A : Type ℓ} {B : Type κ} → Parse A → (A → Parse B) → Parse B
◌>>=◌ m f p = after (m p) f

infixl 5 ◌>>◌
abbrev pub ◌>>◌ {ℓ κ} : {A : Type ℓ} {B : Type κ} → Parse A → Parse B → Parse B
◌>>◌ m f p = after (m p) (λ a. f)

abbrev pub return {ℓ} : {A : Type ℓ} → A → Parse A
return a p = some (a, p)

-- A computation that may fault and leaves the parser alone.
abbrev with_parser {ℓ} : {A : Type ℓ} → Parser → Option A → Option (A × Parser)
with_parser p none = none
with_parser p (some a) = some (a, p)

abbrev pub lift {ℓ} : {A : Type ℓ} → Option A → Parse A
lift o p = with_parser p o

-- A parse that ends with an operation that takes the input out of the parser: of the parser, only
-- the error flag is read after it.
abbrev ended {ℓ} : {B : Type ℓ} → Option B → Bool → Option (B × Bool)
ended none error = none
ended (some b) error = some (b, error)

abbrev last {ℓ κ} :
    {A : Type ℓ} {B : Type κ} → Option (A × Parser) → (A → Parser → Option B) → Option (B × Bool)
last none f = none
last (some r) f = ended (f r.0 r.1) r.1.error

abbrev pub ending {ℓ κ} :
    {A : Type ℓ} {B : Type κ} → Parse A → (A → Parser → Option B) → Parser → Option (B × Bool)
ending m f p = last (m p) f

-- `integer` on each of some bytes in turn
unfoldable pub integers : List ℕ → Parse (List ℕ)
integers [] = return []
integers (b ∷ bs) = do b' ← integer 1 b; bs' ← integers bs; return (b' ∷ bs')
