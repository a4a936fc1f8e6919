-- ===== src/AppInfo/Bits.antt =====
-- The flags of renamed categories, packed into the bits of a number.
use mathlib.Core.Path.{subst}
use native.Mathlib.Nat.{pow-succ', div-div-eq-div-mul}
use pilot_link.Base.{
  ℕ, zero, suc, ◌+◌, ◌*◌, ◌/◌, ◌%◌, ◌^◌, ◌==◌, ◌<◌, List, [], ◌∷◌, ◌≡◌, refl, sym, ap, ◌∙◌, arith,
  length, All, if◌then◌else◌,
}
use pilot_link.AppInfo.{unpack_renamed, pack_renamed}

abbrev pub IsFlag : ℕ → Type 0
IsFlag r = r < 2

-- The flags as the digits of a number, the first the lowest.
abbrev pub digits : List ℕ → ℕ
digits [] = 0
digits (r ∷ rs) = r + 2 * digits rs

digit_sum : (p h k : ℕ) → k ≡ 2 * p * h → p + k ≡ p * (1 + 2 * h)
digit_sum p h k e = grind arith

digit_none : (p h k : ℕ) → k ≡ 2 * p * h → 0 + k ≡ p * (0 + 2 * h)
digit_none p h k e = grind arith

pub pack-digits : (i : ℕ) (rs : List ℕ) → All IsFlag rs → pack_renamed i rs ≡ 2 ^ i * digits rs
unfolding pack_renamed
pack-digits i [] h = omega arith
pack-digits i (zero ∷ rs) h =
    digit_none (2 ^ i) (digits rs) (pack_renamed (suc i) rs)
      (pack-digits (suc i) rs (h.1) ∙ ap (λ p. p * digits rs) (pow-succ' 2 i))
pack-digits i (suc zero ∷ rs) h =
    digit_sum (2 ^ i) (digits rs) (pack_renamed (suc i) rs)
      (pack-digits (suc i) rs (h.1) ∙ ap (λ p. p * digits rs) (pow-succ' 2 i))
pack-digits i (suc (suc r) ∷ rs) h = absurd (grind arith)

quotient-shift : (i r n : ℕ) → r < 2 → (r + 2 * n) / 2 ^ suc i ≡ n / 2 ^ i
quotient-shift i r n h =
    ap (λ p. (r + 2 * n) / p) (pow-succ' 2 i)
    ∙ sym (div-div-eq-div-mul (r + 2 * n) 2 (2 ^ i))
    ∙ ap (λ q. q / 2 ^ i) (omega arith)

unpack-shift :
    (count i r n : ℕ) → r < 2 → unpack_renamed count (suc i) (r + 2 * n) ≡ unpack_renamed count i n
unfolding unpack_renamed
unpack-shift zero i r n h = refl
unpack-shift (suc count) i r n h =
    rw (quotient-shift i r n h)
      (ap (λ rs. (if n / 2 ^ i % 2 == 1 then 1 else 0) ∷ rs) (unpack-shift count (suc i) r n h))

lowest : (r n : ℕ) → r < 2 → (if (r + 2 * n) / 1 % 2 == 1 then 1 else 0) ≡ r
lowest r n h = ground arith

unpack-digits : (rs : List ℕ) → All IsFlag rs → unpack_renamed (length rs) 0 (digits rs) ≡ rs
unfolding unpack_renamed
unpack-digits [] h = refl
unpack-digits (r ∷ rs) h =
    rw
      (
        lowest r (digits rs) (h.0),
        unpack-shift (length rs) 0 r (digits rs) (h.0),
        unpack-digits rs (h.1),
      )
      refl

pub digits-lt : (rs : List ℕ) → All IsFlag rs → digits rs < 2 ^ length rs
digits-lt [] h = omega arith
digits-lt (r ∷ rs) h =
    subst (λ p. r + 2 * digits rs < p) (sym (pow-succ' 2 (length rs)))
      (omega (arith, h.0, digits-lt rs (h.1)))

-- The bits of sixteen flags fit in 16 bits, and give the flags back.
pub renamed-lt : (rs : List ℕ) → All IsFlag rs → length rs ≡ 16 → pack_renamed 0 rs < 2 ^ 16
renamed-lt rs h k =
    omega (arith, pack-digits 0 rs h, subst (λ n. digits rs < 2 ^ n) k (digits-lt rs h))

pub renamed-round :
    (rs : List ℕ) → All IsFlag rs → length rs ≡ 16 → unpack_renamed 16 0 (pack_renamed 0 rs) ≡ rs
renamed-round rs h k =
    ap (unpack_renamed 16 0) (pack-digits 0 rs h ∙ omega arith)
    ∙ ap (λ n. unpack_renamed n 0 (digits rs)) (sym k)
    ∙ unpack-digits rs h
