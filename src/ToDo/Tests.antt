-- ===== src/ToDo/Tests.antt =====
-- A to-do record with a date, a priority and a description.
use pilot_link.Base.{true, false, [], ◌∷◌, none, some, ◌≡◌, refl, arith, replicate}
use pilot_link.Base.Int.{pos}
use pilot_link.Buffer.{Buffer, pi_buffer_expect, grow, extended, carry_over}
use pilot_link.Buffer.Blocks.{IsValid}
use pilot_link.Buffer.Tests.{zeroed, small, small-IsValid}
use pilot_link.ToDo.{
  Tm, ToDo, todo_v1, midnight, bit_or, shl, date_bits, dest_len, unpack_to_do, pack_to_do,
}
use pilot_link.ToDo.Dates.{Fits}
use pilot_link.ToDo.RoundTrip.{IsPackable, unpacked, unpack_to_do-pack_to_do}

-- 15 March 2024
abbrev ides : Tm
ides = midnight (pos 124) (pos 2) (pos 15)

abbrev errand : ToDo
errand = record {
  indefinite = false;
  due = ides;
  priority = 2;
  complete = true;
  description = some (104 ∷ 105 ∷ []);
  note = none;
}

abbrev blank : ToDo
blank = record {
  indefinite = true;
  due = midnight (pos 0) (pos 0) (pos 0);
  priority = 0;
  complete = false;
  description = none;
  note = none;
}

ides_test : date_bits ides ≡ some 61551
unfolding date_bits shl bit_or
ides_test = refl

ides-Fits : Fits ides
ides-Fits = record {
  year = 120;
  month = 2;
  day = 15;
  is_year = refl;
  is_month = refl;
  is_day = refl;
  year_bits = omega arith;
  month_bits = omega arith;
  day_bits = omega arith;
}

errand-IsPackable : IsPackable errand
errand-IsPackable = record {
  due_fits = ides-Fits;
  priority_bits = omega arith;
  description_text = (omega arith, (omega arith, tt));
  note_text = tt;
}

room_for_seven : (pi_buffer_expect zeroed small (dest_len errand)).0 ≡ true
unfolding pi_buffer_expect grow extended carry_over dest_len
room_for_seven = refl

unpack_to_do-pack_to_do_example :
    (b' : Buffer) × (pack_to_do zeroed errand (some small) todo_v1 ≡ some (pos 0, some b'))
    × IsValid b'
    × (unpack_to_do zeroed (λ t. t) blank (some b') todo_v1
        ≡ some (pos 0, unpacked (λ t. t) errand blank))
unfolding dest_len
unpack_to_do-pack_to_do_example =
    unpack_to_do-pack_to_do zeroed (λ t. t) errand blank small (λ n. (replicate n 0, refl))
      errand-IsPackable small-IsValid (omega arith) room_for_seven
