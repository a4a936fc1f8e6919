-- ===== src/ToDo/Dates.antt =====
-- Dates of to-do records in their sixteen bits.
use pilot_link.Base.{
  ℕ, zero, suc, ◌+◌, ◌*◌, ◌/◌, ◌%◌, ◌^◌, ◌==◌, ◌<◌, Bool, true, false, [], ◌∷◌, some, ◌≡◌, refl, ap,
  ◌∙◌, arith,
}
use pilot_link.Base.Int.{pos}
use pilot_link.Macros.{set_short}
use pilot_link.ToDo.{
  Tm, ToDo, midnight, shl, bit_or, date_bits, pack_due, unpack_due, pack_priority, unpack_priority,
}

-- `n * 2 ^ bits`
abbrev pub doubled : (bits : ℕ) → ℕ → ℕ
doubled zero n = n
doubled (suc bits) n = 2 * doubled bits n

-- `bits + k`
abbrev wider : (bits k : ℕ) → ℕ
wider zero k = k
wider (suc bits) k = suc (wider bits k)

bit_or-zero : (bits n : ℕ) → n < doubled bits 1 → bit_or bits n 0 ≡ n
unfolding bit_or
bit_or-zero zero n h = omega arith
bit_or-zero (suc bits) n h = let e = bit_or-zero bits (n / 2) (omega arith) in rw e (ground arith)

pub bit_or-doubled :
    (bits k n b : ℕ)
    → b < doubled bits 1
    → n < doubled k 1
    → bit_or (wider bits k) (doubled bits n) b ≡ doubled bits n + b
unfolding bit_or
bit_or-doubled zero k n b h l =
    let none_left : b ≡ 0 = omega arith in rw none_left (omega (arith, bit_or-zero k n l))
bit_or-doubled (suc bits) k n b h l =
    let e = bit_or-doubled bits k n (b / 2) (omega arith) l in
    let half : 2 * doubled bits n / 2 ≡ doubled bits n = omega arith in rw (half, e) (ground arith)

-- The numbers of a date that the sixteen bits have room for.
pub record Fits (due : Tm) : Type 0 where
  pub year : ℕ
  pub month : ℕ
  pub day : ℕ
  pub is_year : due.year ≡ pos (year + 4)
  pub is_month : due.mon ≡ pos month
  pub is_day : due.mday ≡ pos day
  pub year_bits : year < 128
  pub month_bits : month < 12
  pub day_bits : day < 32

abbrev pub packed : (year month day : ℕ) → ℕ
packed year month day = year * 512 + (month + 1) * 32 + day

date_bits-Fits : (due : Tm) (f : Fits due) → date_bits due ≡ some (packed f.year f.month f.day)
unfolding date_bits shl
date_bits-Fits due f =
    let years : bit_or 16 (f.year * 512) ((f.month + 1) * 32) ≡ f.year * 512 + (f.month + 1) * 32 =
      ap (λ n. bit_or 16 n ((f.month + 1) * 32)) (omega arith)
      ∙ bit_or-doubled 9 7 f.year ((f.month + 1) * 32) (omega (arith, f.month_bits))
          (omega (arith, f.year_bits))
      ∙ omega arith in
    let days : bit_or 16 (f.year * 512 + (f.month + 1) * 32) (f.day % 2 ^ 16)
        ≡ packed f.year f.month f.day =
      ap (λ n. bit_or 16 n (f.day % 2 ^ 16)) (omega arith)
      ∙ bit_or-doubled 5 11 (f.year * 16 + (f.month + 1)) (f.day % 2 ^ 16)
          (omega (arith, f.day_bits)) (omega (arith, f.year_bits, f.month_bits))
      ∙ omega (arith, f.day_bits) in
    rw (f.is_year, f.is_month, f.is_day) (ground arith)

-- A date that can be packed, or none.
abbrev pub IsDue : (indefinite : Bool) → Tm → Type 0
IsDue true due = Unit {0}
IsDue false due = Fits due

-- What unpacking makes of the due date, where there was one before.
abbrev pub due_after : (Tm → Tm) → (indefinite : Bool) → (due before : Tm) → Tm
due_after mktime true due before = before
due_after mktime false due before = mktime (midnight due.year due.mon due.mday)

abbrev pub with_due : ToDo → Bool → Tm → ToDo
with_due todo indefinite due = record todo { indefinite = indefinite; due = due }

unpack_due-packed :
    (mktime : Tm → Tm) (before : ToDo) (due : Tm) (f : Fits due)
    → unpack_due mktime before (packed f.year f.month f.day)
      ≡ with_due before false (mktime (midnight due.year due.mon due.mday))
unfolding unpack_due
unpack_due-packed mktime before due f =
    let p = packed f.year f.month f.day in
    let dated : (p == 0xffff) ≡ false = ground (arith, f.year_bits, f.month_bits, f.day_bits) in
    let years : p / 2 ^ 9 + 4 ≡ f.year + 4 = omega (arith, f.month_bits, f.day_bits) in
    let months : p / 2 ^ 5 % 16 ≡ suc f.month = omega (arith, f.month_bits, f.day_bits) in
    let days : p % 32 ≡ f.day = omega (arith, f.day_bits) in
    rw (f.is_year, f.is_month, f.is_day, dated, years, months, days) refl

pub unpack_due-pack_due :
    (mktime : Tm → Tm) (before : ToDo) (indefinite : Bool) (due : Tm)
    → IsDue indefinite due
    → (a b : ℕ) × (pack_due indefinite due ≡ some (a ∷ b ∷ []))
      × (unpack_due mktime before (a * 2 ^ 8 + b)
          ≡ with_due before indefinite (due_after mktime indefinite due before.due))
unfolding pack_due set_short unpack_due
unpack_due-pack_due mktime before true due f = (0xff, 0xff, refl, refl)
unpack_due-pack_due mktime before false due f =
    let p = packed f.year f.month f.day in
    let whole : p / 2 ^ 8 % 256 * 2 ^ 8 + p % 256 ≡ p =
      omega (arith, f.year_bits, f.month_bits, f.day_bits) in
    (
      p / 2 ^ 8 % 256,
      p % 256,
      rw (date_bits-Fits due f) refl,
      ap (unpack_due mktime before) whole ∙ unpack_due-packed mktime before due f,
    )

pub unpack_priority-pack_priority :
    (todo : ToDo) (complete : Bool) (priority : ℕ)
    → priority < 128
    → unpack_priority todo (pack_priority complete priority)
      ≡ record todo { priority = priority; complete = complete }
unfolding unpack_priority pack_priority
unpack_priority-pack_priority todo true priority h =
    let e : bit_or 8 128 (priority % 256) ≡ 128 + priority =
      bit_or-doubled 7 1 1 (priority % 256) (omega arith) (omega arith) ∙ omega arith in
    let done : ((128 + priority) / 128 % 2 == 1) ≡ true = ground arith in
    let low : (128 + priority) % 128 ≡ priority = omega arith in rw (e, done, low) refl
unpack_priority-pack_priority todo false priority h =
    let low : priority % 256 ≡ priority = omega arith in
    let open_ : (priority / 128 % 2 == 1) ≡ false = ground arith in rw (low, open_) refl
