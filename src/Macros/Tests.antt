-- ===== src/Macros/Tests.antt =====
-- The theorems about include/pi-macros.h at concrete values.
use pilot_link.Base.{[], ◌∷◌, ◌++◌, some, ◌≡◌, arith}
use pilot_link.Macros.RoundTrip.{long, get, set, get-set}

get-set_example : get long (set long 0xdeadbeef ++ 7 ∷ []) ≡ some 0xdeadbeef
get-set_example = get-set long 0xdeadbeef (7 ∷ []) (omega arith)
