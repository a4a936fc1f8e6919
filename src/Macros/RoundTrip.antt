-- ===== src/Macros/RoundTrip.antt =====
-- What the macros of include/pi-macros.h write is read back, and what they read is written back.
use pilot_link.Base.{ℕ, ◌*◌, ◌^◌, ◌<◌, List, [], ◌∷◌, ◌++◌, Option, some, ◌≡◌, arith, All, take}
use pilot_link.Base.Int.{ℤ, pos, negsuc}
use pilot_link.Macros.{
  IsByte, get_byte, get_short, get_treble, get_long, get_sbyte, get_sshort, get_streble, get_slong,
  set_byte, set_short, set_treble, set_long, set_sbyte, set_sshort, set_streble, set_slong,
}

pub data Width : Type 0 where
  byte short treble long : Width

abbrev pub size : Width → ℕ
size byte = 1
size short = 2
size treble = 3
size long = 4

-- 2 to the power of the number of value bits without the sign.
abbrev pub half : Width → ℕ
half byte = 2 ^ 7
half short = 2 ^ 15
half treble = 2 ^ 23
half long = 2 ^ 31

abbrev pub get : Width → List ℕ → Option ℕ
get byte = get_byte
get short = get_short
get treble = get_treble
get long = get_long

abbrev pub set : Width → ℕ → List ℕ
set byte = set_byte
set short = set_short
set treble = set_treble
set long = set_long

abbrev pub get_signed : Width → List ℕ → Option ℤ
get_signed byte = get_sbyte
get_signed short = get_sshort
get_signed treble = get_streble
get_signed long = get_slong

abbrev pub set_signed : Width → ℤ → List ℕ
set_signed byte = set_sbyte
set_signed short = set_sshort
set_signed treble = set_streble
set_signed long = set_slong

abbrev pub InRange : ℕ → ℤ → Type 0
InRange bound (pos n) = n < bound
InRange bound (negsuc n) = n < bound

-- An unsigned value that fits the width is read back, whatever follows it.
pub get-set :
    (w : Width) (v : ℕ) (rest : List ℕ) → v < 2 * half w → get w (set w v ++ rest) ≡ some v
unfolding get_byte get_short get_treble get_long set_byte set_short set_treble set_long
get-set byte v rest h = ground arith
get-set _ v rest h = ground arith

-- A signed value that fits the width is read back, whatever follows it.
get_signed-set_signed :
    (w : Width) (v : ℤ) (rest : List ℕ)
    → InRange (half w) v
    → get_signed w (set_signed w v ++ rest) ≡ some v
unfolding get_sbyte get_sshort get_streble get_slong set_sbyte set_sshort set_streble set_slong
get_signed-set_signed byte (pos n) rest h = ground arith
get_signed-set_signed byte (negsuc n) rest h = ground arith
get_signed-set_signed short (pos n) rest h = ground arith
get_signed-set_signed short (negsuc n) rest h = ground arith
get_signed-set_signed treble (pos n) rest h = ground arith
get_signed-set_signed treble (negsuc n) rest h = ground arith
get_signed-set_signed long (pos n) rest h = ground arith
get_signed-set_signed long (negsuc n) rest h = ground arith

-- What is read from bytes is written back as the same bytes.
set-get :
    (w : Width) (m : List ℕ) (v : ℕ) → All IsByte m → get w m ≡ some v → set w v ≡ take (size w) m
unfolding get_byte get_short get_treble get_long set_byte set_short set_treble set_long
set-get byte (a ∷ m) v h e = ground arith
set-get byte [] v h e = cc
set-get short (a ∷ b ∷ m) v h e = ground arith
set-get short (a ∷ []) v h e = cc
set-get short [] v h e = cc
set-get treble (a ∷ b ∷ c ∷ m) v h e = ground arith
set-get treble (a ∷ b ∷ []) v h e = cc
set-get treble (a ∷ []) v h e = cc
set-get treble [] v h e = cc
set-get long (a ∷ b ∷ c ∷ d ∷ m) v h e = ground arith
set-get long (a ∷ b ∷ c ∷ []) v h e = cc
set-get long (a ∷ b ∷ []) v h e = cc
set-get long (a ∷ []) v h e = cc
set-get long [] v h e = cc
