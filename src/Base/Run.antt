-- ===== src/Base/Run.antt =====
-- Code with a state: what it returns and the state afterwards.
use mathlib.Core.Option.{Option, none, some}

-- `none` is undefined behaviour, or fuel that has run out.
abbrev pub Run : Type 0 → Type 0 → Type 0
Run S A = S → Option (A × S)

abbrev pub and_then : {S A B : Type 0} → Option (A × S) → (A → Run S B) → Option (B × S)
and_then none f = none
and_then (some r) f = f r.0 r.1

infixl 5 ◌>>=◌ ◌>>◌
unfoldable pub ◌>>=◌ : {S A B : Type 0} → Run S A → (A → Run S B) → Run S B
◌>>=◌ m f s = and_then (m s) f

abbrev pub ◌>>◌ : {S A B : Type 0} → Run S A → Run S B → Run S B
m >> k = m >>= λ _. k

unfoldable pub pure : {S A : Type 0} → A → Run S A
pure a s = some (a, s)

unfoldable pub change : {S : Type 0} → (S → S) → Run S (Unit {0})
change f s = some (tt, f s)

unfoldable pub ask : {S A : Type 0} → (S → A) → Run S A
ask f s = some (f s, s)

abbrev pub paired : {S A : Type 0} → Option A → S → Option (A × S)
paired none s = none
paired (some a) s = some (a, s)

unfoldable pub checked : {S A : Type 0} → Option A → Run S A
checked o s = paired o s
