-- ===== src/Memo/Tests.antt =====
-- A memo of two letters.
use pilot_link.Base.{true, [], ◌∷◌, some, ◌≡◌, refl, arith}
use pilot_link.Base.Int.{pos}
use pilot_link.Buffer.{Buffer, pi_buffer_expect, grow, extended, carry_over}
use pilot_link.Buffer.Blocks.{IsValid}
use pilot_link.Buffer.Tests.{zeroed, small, small-IsValid}
use pilot_link.Memo.{memo_v1, unpack_memo, pack_memo}
use pilot_link.Memo.RoundTrip.{unpack_memo-pack_memo}

room_for_three : (pi_buffer_expect zeroed small 3).0 ≡ true
unfolding pi_buffer_expect grow extended carry_over
room_for_three = refl

unpack_memo-pack_memo_example :
    (b' : Buffer) × (pack_memo zeroed (record { text = some (104 ∷ 105 ∷ []) }) (some small) memo_v1
      ≡ some (pos 0, some b'))
    × IsValid b'
    × (unpack_memo (some b') memo_v1 ≡ some (pos 0, some (record { text = some (104 ∷ 105 ∷ []) })))
unpack_memo-pack_memo_example =
    unpack_memo-pack_memo zeroed (104 ∷ 105 ∷ []) small (omega arith, (omega arith, tt))
      small-IsValid (omega arith) room_for_three
