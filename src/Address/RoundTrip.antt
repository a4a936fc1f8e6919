-- ===== src/Address/RoundTrip.antt =====
-- An address record that is packed into a buffer, unpacked.
use pilot_link.Base.{
  ℕ, suc, ◌+◌, ◌*◌, ◌/◌, ◌%◌, ◌^◌, ◌==◌, ◌≤◌, ◌<◌, true, false, List, [], ◌∷◌, ◌++◌, Option, none,
  some, ◌≡◌, refl, sym, ◌∙◌, arith, length, drop, ltb-false, All, length-append,
}
use mathlib.Core.List.{append_assoc}
use mathlib.Core.Path.{subst}
use pilot_link.Base.Int.{ℤ, pos}
use pilot_link.AppInfo.Bits.{digits}
use pilot_link.Buffer.{Buffer, Allocator, pi_buffer_expect, size_mod}
use pilot_link.Buffer.Append.{expect-Ample}
use pilot_link.Buffer.Blocks.{IsValid, Ample, stored}
use pilot_link.Buffer.Expect.{buffer, pi_buffer_expect_lem}
use pilot_link.Macros.{get_byte, set_byte, set_long}
use pilot_link.Memo.RoundTrip.{IsText, has_room, copied_text}
use pilot_link.PiFile.Headers.{get_long-set_long}
use pilot_link.PiFile.Indexes.{drop-piece}
use pilot_link.ToDo.RoundTrip.{strdup-text, at_end-inside, stored-front}
use pilot_link.Address.{
  Address, address_v1, field, unpack_field, unpack_entries, unpack_fields, unpack_data,
  unpack_address, entry_strings, contents_of, company_offset, dest_len, phone_flag, address_bytes,
  pack_address, high_nibble, low_nibble,
}
use pilot_link.Address.Contents.{
  kept_entries, IsString, presences, contents_of-digits, contents_of-lt, next_digits,
}
use pilot_link.Address.Phones.{or_4, or_8, or_12, or_16, or_20}

module _ (m : Allocator) (k : Ample m) (contents : ℕ) (block : List ℕ) (used : ℕ)
    (fits : used < size_mod) where
  field_absent :
      (v ofs d : ℕ)
      → contents / 2 ^ v ≡ 0 + 2 * d
      → unpack_field m contents block used v ofs ≡ some (field none ofs)
  unfolding unpack_field
  field_absent v ofs d e =
      let bit : (contents / 2 ^ v % 2 == 1) ≡ false = ground (arith, e) in rw bit refl

  field_present :
      (v ofs d : ℕ) (text rest : List ℕ)
      → contents / 2 ^ v ≡ 1 + 2 * d
      → IsText text
      → ofs < used
      → drop ofs block ≡ text ++ (0 ∷ []) ++ rest
      → unpack_field m contents block used v ofs
        ≡ some (field (some text) (ofs + (length text + 1)))
  unfolding unpack_field
  field_present v ofs d text rest e t h s =
      let bit : (contents / 2 ^ v % 2 == 1) ≡ true = ground (arith, e) in
      rw (bit, at_end-inside used ofs h fits, s, strdup-text m text rest k t) refl

  unpack_entries-packed :
      (v ofs : ℕ) (entries before : List (Option (List ℕ))) (rest : List ℕ)
      → contents / 2 ^ v ≡ digits (presences entries)
      → All IsString entries
      → length before ≡ length entries
      → ofs + length (entry_strings entries) ≡ used
      → drop ofs block ≡ entry_strings entries ++ rest
      → unpack_entries m contents block used v ofs before ≡ some (kept_entries entries)
  unfolding unpack_entries entry_strings
  unpack_entries-packed v ofs [] [] rest e t l u s = refl
  unpack_entries-packed v ofs [] (old ∷ before) rest e t l u s = absurd (omega arith)
  unpack_entries-packed v ofs (entry ∷ more) [] rest e t l u s = absurd (omega arith)
  unpack_entries-packed v ofs (none ∷ more) (old ∷ before) rest e t l u s =
      rw
        (
          field_absent v ofs (digits (presences more)) e,
          unpack_entries-packed (suc v) ofs more before rest
              (next_digits contents v 0 (digits (presences more)) (omega arith) e) (t.1)
              (omega arith) u s,
        )
        refl
  unpack_entries-packed v ofs (some [] ∷ more) (old ∷ before) rest e t l u s =
      rw
        (
          field_absent v ofs (digits (presences more)) e,
          unpack_entries-packed (suc v) ofs more before rest
              (next_digits contents v 0 (digits (presences more)) (omega arith) e) (t.1)
              (omega arith) u s,
        )
        refl
  unpack_entries-packed v ofs (some (b ∷ text) ∷ more) (old ∷ before) rest e t l u s =
      let string = (b ∷ text) ++ (0 ∷ []) in
      let size : length string ≡ length (b ∷ text) + 1 = length-append (b ∷ text) (0 ∷ []) in
      let s' : drop ofs block ≡ string ++ (entry_strings more ++ rest) =
        s ∙ append_assoc string (entry_strings more) rest in
      let u' : ofs + (length (b ∷ text) + 1) + length (entry_strings more) ≡ used =
        omega (arith, u, length-append string (entry_strings more), size) in
      rw
        (
          field_present v ofs (digits (presences more)) (b ∷ text) (entry_strings more ++ rest) e
              (t.0) (omega (arith, u')) s',
          unpack_entries-packed (suc v) (ofs + (length (b ∷ text) + 1)) more before rest
              (next_digits contents v 1 (digits (presences more)) (omega arith) e) (t.1)
              (omega arith) u'
              (drop-piece (length (b ∷ text) + 1) block string (entry_strings more ++ rest) ofs size
                s'),
        )
        refl

-- Numbers and strings that the record has room for.
pub record IsPackable (addr : Address) : Type 0 where
  pub label0 : addr.phone_label0 < 16
  pub label1 : addr.phone_label1 < 16
  pub label2 : addr.phone_label2 < 16
  pub label3 : addr.phone_label3 < 16
  pub label4 : addr.phone_label4 < 16
  pub shown : addr.show_phone < 16
  pub count : length addr.entry ≡ 19
  pub texts : All IsString addr.entry
  pub size_bits : 9 + length (entry_strings addr.entry) < 2 ^ 32

-- The phone flag as a number.
abbrev flag_number : Address → ℕ
flag_number a =
    a.phone_label0
    + a.phone_label1 * 2 ^ 4
    + a.phone_label2 * 2 ^ 8
    + a.phone_label3 * 2 ^ 12
    + a.phone_label4 * 2 ^ 16
    + a.show_phone * 2 ^ 20

phone_flag-IsPackable : (addr : Address) → IsPackable addr → phone_flag addr ≡ flag_number addr
unfolding phone_flag
phone_flag-IsPackable addr p =
    let a0 = p.label0 in
    let a1 = p.label1 in
    let a2 = p.label2 in
    let a3 = p.label3 in
    let a4 = p.label4 in
    let n1 = addr.phone_label0 + addr.phone_label1 * 2 ^ 4 in
    let n2 = n1 + addr.phone_label2 * 2 ^ 8 in
    let n3 = n2 + addr.phone_label3 * 2 ^ 12 in
    rw
      (
        or_4 addr.phone_label0 addr.phone_label1 a0 a1,
        or_8 n1 addr.phone_label2 (omega arith) a2,
        or_12 n2 addr.phone_label3 (omega arith) a3,
        or_16 n3 addr.phone_label4 (omega arith) a4,
      )
      (or_20 (n3 + addr.phone_label4 * 2 ^ 16) addr.show_phone (omega arith) p.shown)

-- The record after unpacking.
abbrev pub unpacked : Address → Address
unpacked addr = record addr { entry = kept_entries addr.entry }

length-address_bytes :
    (addr : Address) → IsPackable addr → length (address_bytes addr) ≡ dest_len addr
unfolding address_bytes dest_len set_long set_byte
length-address_bytes addr p = let s = p.size_bits in omega arith

-- The labels and the phone that is shown, from the bytes of the phone flag.
phones :
    (addr : Address)
    → IsPackable addr
    → ◌≡◌ {A = Option (ℤ × Address)}
        (some (
          pos 0,
          record {
            phone_label0 = low_nibble (flag_number addr % 256);
            phone_label1 = high_nibble (flag_number addr % 256);
            phone_label2 = low_nibble (flag_number addr / 2 ^ 8 % 256);
            phone_label3 = high_nibble (flag_number addr / 2 ^ 8 % 256);
            phone_label4 = low_nibble (flag_number addr / 2 ^ 16 % 256);
            show_phone = high_nibble (flag_number addr / 2 ^ 16 % 256);
            entry = kept_entries addr.entry;
          },
        ))
        (some (pos 0, unpacked addr))
phones addr p =
    let a0 = p.label0 in
    let a1 = p.label1 in
    let a2 = p.label2 in
    let a3 = p.label3 in
    let a4 = p.label4 in
    let a5 = p.shown in
    let e0 : low_nibble (flag_number addr % 256) ≡ addr.phone_label0 = omega arith in
    let e1 : high_nibble (flag_number addr % 256) ≡ addr.phone_label1 = omega arith in
    let e2 : low_nibble (flag_number addr / 2 ^ 8 % 256) ≡ addr.phone_label2 = omega arith in
    let e3 : high_nibble (flag_number addr / 2 ^ 8 % 256) ≡ addr.phone_label3 = omega arith in
    let e4 : low_nibble (flag_number addr / 2 ^ 16 % 256) ≡ addr.phone_label4 = omega arith in
    let e5 : high_nibble (flag_number addr / 2 ^ 16 % 256) ≡ addr.show_phone = omega arith in
    rw (e0, e1, e2, e3, e4, e5) refl

-- The bytes as unpack_Address finds them, with what the buffer holds behind them.
unpack_fields-packed :
    (m : Allocator) (addr before : Address) (rest : List ℕ)
    → Ample m
    → IsPackable addr
    → length before.entry ≡ 19
    → unpack_fields m before (address_bytes addr ++ rest) (dest_len addr)
      ≡ some (pos 0, unpacked addr)
unfolding unpack_fields address_bytes dest_len set_long set_byte get_byte
unpack_fields-packed m addr before rest k p b =
    let n = contents_of 0 addr.entry in
    let strings = entry_strings addr.entry in
    let s = p.size_bits in
    let block = address_bytes addr ++ rest in
    let c : n < 2 ^ 19 = contents_of-lt addr.entry p.count in
    let tail = set_byte (company_offset 0 9 addr.entry) ++ strings ++ rest in
    let whole : n / 1 ≡ digits (presences addr.entry) =
      omega (arith, contents_of-digits addr.entry) in
    rw
      (
        get_long-set_long n tail (omega arith),
        unpack_entries-packed m k n block (dest_len addr) (omega arith) 0 9 addr.entry before.entry
            rest whole p.texts (b ∙ sym p.count) (omega arith) refl,
        phone_flag-IsPackable addr p,
      )
      (phones addr p)

unpack_data-packed :
    (m : Allocator) (addr before : Address) (block : Option (List ℕ)) (rest : List ℕ)
    → Ample m
    → IsPackable addr
    → length before.entry ≡ 19
    → block ≡ some (address_bytes addr ++ rest)
    → unpack_data m before block (dest_len addr) ≡ some (pos 0, unpacked addr)
unpack_data-packed m addr before block rest k p b e =
    let size = p.size_bits in
    let long_enough : 9 ≤ dest_len addr = unfold dest_len in omega arith in
    rw (e, ltb-false (dest_len addr) 9 long_enough) (unpack_fields-packed m addr before rest k p b)

front :
    (addr : Address) (block : Option (List ℕ)) (n : ℕ)
    → stored block n ≡ address_bytes addr
    → (rest : List ℕ) × (block ≡ some (address_bytes addr ++ rest))
unfolding address_bytes set_long
front addr block n held = stored-front block n _ _ held

-- An address record, packed into a valid buffer, is unpacked from there, and the buffer stays
-- valid: the labels of the telephones, the one that is shown and the 19 entries come back as they were,
-- but that an empty string comes back as a missing one. The labels are below 16, the strings hold
-- no NUL and take less than 2 ^ 32 bytes, and the allocator refuses nothing.
pub unpack_address-pack_address :
    (m : Allocator) (addr before : Address) (b : Buffer)
    → Ample m
    → IsPackable addr
    → length before.entry ≡ 19
    → IsValid b
    → b.used + dest_len addr < size_mod
    → (b' : Buffer) × (pack_address m (some addr) (some b) address_v1 ≡ some (pos 0, some b'))
      × IsValid b'
      × (unpack_address m before (some b') address_v1 ≡ some (pos 0, unpacked addr))
unfolding pack_address unpack_address
unpack_address-pack_address m addr before b k p l v h =
    let r = (pi_buffer_expect m b (dest_len addr)).1 in
    let size = length-address_bytes addr p in
    let (v', fits) =
      has_room (pi_buffer_expect_lem m b (dest_len addr) v h)
        (expect-Ample m b (dest_len addr) k) in
    let (block, copied_, v'', held) =
      copied_text m r.bytes r.allocated r.used (address_bytes addr) v' (rw size fits) in
    let (rest, whole) = front addr block (length (address_bytes addr)) held in
    (
      buffer block r.allocated (dest_len addr),
      rw copied_ refl,
      subst (λ n. IsValid (buffer block r.allocated n)) size v'',
      unpack_data-packed m addr before block rest k p l whole,
    )
