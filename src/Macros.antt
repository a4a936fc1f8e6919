-- ===== src/Macros.antt =====
-- include/pi-macros.h: big-endian numbers in memory. A pointer is the list of the bytes from it on;
-- `none` is a read past their end. `x >> k` is `x / 2 ^ k`, and `x & 0xff` is `x % 256`.
pub mod RoundTrip
mod Tests
use pilot_link.Base.{
  ℕ, ◌+◌, ◌-◌, ◌*◌, ◌/◌, ◌%◌, ◌^◌, ◌<◌, List, [], ◌∷◌, Option, none, some, ltb, if◌then◌else◌,
}
use pilot_link.Base.Int.{ℤ, pos, negsuc}
use pilot_link.Base.Partial.{◌>>=◌}

abbrev pub IsByte : ℕ → Type 0
IsByte b = b < 256

unfoldable pub get_byte : List ℕ → Option ℕ
get_byte (a ∷ _) = some a
get_byte _ = none

unfoldable pub get_short : List ℕ → Option ℕ
get_short (a ∷ b ∷ _) = some (a * 2 ^ 8 + b)
get_short _ = none

unfoldable pub get_treble : List ℕ → Option ℕ
get_treble (a ∷ b ∷ c ∷ _) = some (a * 2 ^ 16 + b * 2 ^ 8 + c)
get_treble _ = none

unfoldable pub get_long : List ℕ → Option ℕ
get_long (a ∷ b ∷ c ∷ d ∷ _) = some (a * 2 ^ 24 + b * 2 ^ 16 + c * 2 ^ 8 + d)
get_long _ = none

-- The signed readings: above the largest value of the sign, `(x & max) - half`.
abbrev signed : ℕ → ℕ → ℤ
signed half x = if ltb (half - 1) x then negsuc (half - x % half - 1) else pos x

unfoldable pub get_sbyte : List ℕ → Option ℤ
unfolding get_byte
get_sbyte m = do x ← get_byte m; some (signed (2 ^ 7) x)

unfoldable pub get_sshort : List ℕ → Option ℤ
unfolding get_short
get_sshort m = do x ← get_short m; some (signed (2 ^ 15) x)

unfoldable pub get_streble : List ℕ → Option ℤ
unfolding get_treble
get_streble m = do x ← get_treble m; some (signed (2 ^ 23) x)

unfoldable pub get_slong : List ℕ → Option ℤ
unfolding get_long
get_slong m = do x ← get_long m; some (signed (2 ^ 31) x)

-- The bytes that a macro writes at its pointer.
unfoldable pub set_byte : ℕ → List ℕ
set_byte v = (v % 256) ∷ []

unfoldable pub set_short : ℕ → List ℕ
set_short v = (v / 2 ^ 8 % 256) ∷ (v % 256) ∷ []

unfoldable pub set_treble : ℕ → List ℕ
set_treble v = (v / 2 ^ 16 % 256) ∷ (v / 2 ^ 8 % 256) ∷ (v % 256) ∷ []

unfoldable pub set_long : ℕ → List ℕ
set_long v = (v / 2 ^ 24 % 256) ∷ (v / 2 ^ 16 % 256) ∷ (v / 2 ^ 8 % 256) ∷ (v % 256) ∷ []

-- `v < 0 ? (v + half) | half : v`, for `v` not below `-half`.
abbrev unsigned : ℕ → ℤ → ℕ
unsigned half (pos n) = n
unsigned half (negsuc n) = half - (n + 1) + half

unfoldable pub set_sbyte : ℤ → List ℕ
unfolding set_byte
set_sbyte v = set_byte (unsigned (2 ^ 7) v)

unfoldable pub set_sshort : ℤ → List ℕ
unfolding set_short
set_sshort v = set_short (unsigned (2 ^ 15) v)

unfoldable pub set_streble : ℤ → List ℕ
unfolding set_treble
set_streble v = set_treble (unsigned (2 ^ 23) v)

unfoldable pub set_slong : ℤ → List ℕ
unfolding set_long
set_slong v = set_long (unsigned (2 ^ 31) v)
