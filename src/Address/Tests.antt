-- ===== src/Address/Tests.antt =====
-- An address with a name and a company.
use pilot_link.Base.{◌+◌, ◌<◌, [], ◌∷◌, none, some, ◌≡◌, refl, arith, replicate}
use pilot_link.Base.Int.{pos}
use pilot_link.Buffer.{Buffer, size_mod}
use pilot_link.Buffer.Blocks.{IsValid}
use pilot_link.Buffer.Tests.{zeroed, zeroed-Ample, small, small-IsValid}
use pilot_link.Address.{
  Address, address_v1, address_bytes, company_offset, contents_of, dest_len, entry_strings,
  pack_address, phone_flag, unpack_address,
}
use pilot_link.Address.RoundTrip.{IsPackable, unpacked, unpack_address-pack_address}
use pilot_link.Macros.{set_byte, set_long}
use pilot_link.ToDo.{bit_or}

abbrev shop : Address
shop = record {
  phone_label0 = 0;
  phone_label1 = 1;
  phone_label2 = 2;
  phone_label3 = 3;
  phone_label4 = 4;
  show_phone = 1;
  entry = some (65 ∷ 66 ∷ []) ∷ some [] ∷ some (67 ∷ []) ∷ replicate 16 none;
}

abbrev empty : Address
empty = record {
  phone_label0 = 0;
  phone_label1 = 0;
  phone_label2 = 0;
  phone_label3 = 0;
  phone_label4 = 0;
  show_phone = 0;
  entry = replicate 19 none;
}

shop_test : address_bytes shop ≡ 0 ∷ 20 ∷ 50 ∷ 16 ∷ 0 ∷ 0 ∷ 0 ∷ 5 ∷ 4 ∷ 65 ∷ 66 ∷ 0 ∷ 67 ∷ 0 ∷ []
unfolding address_bytes set_long set_byte phone_flag contents_of company_offset entry_strings bit_or
shop_test = refl

shop-IsPackable : IsPackable shop
unfolding entry_strings
shop-IsPackable = record {
  label0 = omega arith;
  label1 = omega arith;
  label2 = omega arith;
  label3 = omega arith;
  label4 = omega arith;
  shown = omega arith;
  count = refl;
  texts = omega arith;
  size_bits = omega arith;
}

room_for_shop : small.used + dest_len shop < size_mod
unfolding dest_len entry_strings
room_for_shop = omega arith

unpack_address-pack_address_example :
    (b' : Buffer) × (pack_address zeroed (some shop) (some small) address_v1
      ≡ some (pos 0, some b'))
    × IsValid b'
    × (unpack_address zeroed empty (some b') address_v1 ≡ some (pos 0, unpacked shop))
unpack_address-pack_address_example =
    unpack_address-pack_address zeroed shop empty small zeroed-Ample shop-IsPackable refl
      small-IsValid room_for_shop
