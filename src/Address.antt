-- ===== src/Address.antt =====
-- libpisock/address.c: address records, packed into buffers.
pub mod Contents
pub mod Phones
pub mod RoundTrip
mod Tests
use pilot_link.Base.{
  ℕ, zero, suc, ◌+◌, ◌*◌, ◌/◌, ◌%◌, ◌^◌, ◌==◌, ◌&&◌, Bool, true, false, List, [], ◌∷◌, ◌++◌, Option,
  none, some, length, drop, ltb, if◌then◌else◌,
}
use pilot_link.Base.Int.{ℤ, pos, negsuc}
use pilot_link.Base.Partial.{◌>>=◌}
use pilot_link.Buffer.{Buffer, Allocator, pi_buffer_expect, copy_to}
use pilot_link.Macros.{get_byte, get_long, set_byte, set_long}
use pilot_link.ToDo.{strdup, at_end, bit_or}

-- phoneLabel is an array of five; labels and `show_phone` are the bits of an `unsigned long`, to which
-- they are cast. `entry` has 19 strings, each without its final NUL, or NULL.
pub record Address : Type 0 where
  pub phone_label0 : ℕ
  pub phone_label1 : ℕ
  pub phone_label2 : ℕ
  pub phone_label3 : ℕ
  pub phone_label4 : ℕ
  pub show_phone : ℕ
  pub entry : List (Option (List ℕ))

-- enum addressType has one value; any other `int` may be passed.
pub data AddressType : Type 0 where
  address_v1 other : AddressType

-- What becomes of an entry: the record has ended, or it is read, and the next one's offset.
pub data Field : Type 0 where
  past_end : Field
  field : Option (List ℕ) → (ofs : ℕ) → Field

abbrev pub high_nibble : ℕ → ℕ
high_nibble x = x / 2 ^ 4 % 16

abbrev pub low_nibble : ℕ → ℕ
low_nibble x = x % 16

-- strlen reads the string that strdup has made.
abbrev pub string_field : (ofs : ℕ) → Option (List ℕ) → Option Field
string_field ofs none = none
string_field ofs (some text) = some (field (some text) (ofs + (length text + 1)))

abbrev pub after_field :
    Field
    → List (Option (List ℕ))
    → (ℕ → Option (List (Option (List ℕ))))
    → Option (List (Option (List ℕ)))
after_field past_end before go = some before
after_field (field entry ofs) before go = do more ← go ofs; some (entry ∷ more)

module _ (m : Allocator) where
  unfoldable pub unpack_field : (contents : ℕ) → List ℕ → (used v ofs : ℕ) → Option Field
  unpack_field contents block used v ofs =
      if contents / 2 ^ v % 2 == 1
      then (if at_end used ofs
          then some past_end
          else (strdup m (drop ofs block) >>= string_field ofs))
      else some (field none ofs)

  -- The entries from `v` on, of those that were there before.
  unfoldable pub unpack_entries :
      (contents : ℕ)
      → List ℕ
      → (used v ofs : ℕ) → List (Option (List ℕ))
      → Option (List (Option (List ℕ)))
  unpack_entries contents block used v ofs [] = some []
  unpack_entries contents block used v ofs (old ∷ before) = do
    f ← unpack_field contents block used v ofs
    after_field f (old ∷ before) (λ next. unpack_entries contents block used (suc v) next before)

  unfoldable pub unpack_fields : Address → List ℕ → (used : ℕ) → Option (ℤ × Address)
  unpack_fields addr block used = do
    b1 ← get_byte (drop 1 block)
    b2 ← get_byte (drop 2 block)
    b3 ← get_byte (drop 3 block)
    contents ← get_long (drop 4 block)
    entry ← unpack_entries contents block used 0 9 addr.entry
    some (
      pos 0,
      record {
        phone_label0 = low_nibble b3;
        phone_label1 = high_nibble b3;
        phone_label2 = low_nibble b2;
        phone_label3 = high_nibble b2;
        phone_label4 = low_nibble b1;
        show_phone = high_nibble b1;
        entry = entry;
      },
    )

  abbrev pub unpack_data : Address → Option (List ℕ) → (used : ℕ) → Option (ℤ × Address)
  unpack_data addr none used = some (negsuc 0, addr)
  unpack_data addr (some block) used =
      if ltb used 9 then some (negsuc 0, addr) else unpack_fields addr block used

  -- What it returns, and the record as it leaves it. The buffer may be NULL.
  unfoldable pub unpack_address : Address → Option Buffer → AddressType → Option (ℤ × Address)
  unpack_address addr buffer other = some (negsuc 0, addr)
  unpack_address addr none address_v1 = some (negsuc 0, addr)
  unpack_address addr (some buffer) address_v1 = unpack_data addr buffer.bytes buffer.used

-- Whether an entry is packed.
abbrev pub is_present : Option (List ℕ) → Bool
is_present none = false
is_present (some []) = false
is_present (some (b ∷ text)) = true

-- What memcpy takes of an entry.
abbrev pub entry_string : Option (List ℕ) → List ℕ
entry_string none = []
entry_string (some []) = []
entry_string (some (b ∷ text)) = (b ∷ text) ++ (0 ∷ [])

unfoldable pub entry_strings : List (Option (List ℕ)) → List ℕ
entry_strings [] = []
entry_strings (entry ∷ more) = entry_string entry ++ entry_strings more

-- The bits are distinct: `|` adds them.
unfoldable pub contents_of : (v : ℕ) → List (Option (List ℕ)) → ℕ
contents_of v [] = 0
contents_of v (entry ∷ more) = (if is_present entry then 2 ^ v else 0) + contents_of (suc v) more

-- Where the company's name stands, from the ninth byte on: entryCompany is 2.
unfoldable pub company_offset : (v ofs : ℕ) → List (Option (List ℕ)) → ℕ
company_offset v ofs [] = 0
company_offset v ofs (entry ∷ more) =
    let rest = company_offset (suc v) (ofs + length (entry_string entry)) more in
    if v == 2 && is_present entry then (ofs + 248) % 256 else rest

-- destlen is an `unsigned int`.
unfoldable pub dest_len : Address → ℕ
dest_len addr = (9 + length (entry_strings addr.entry)) % 2 ^ 32

-- Of the phone flag set_long takes the low_nibble 32 bits.
unfoldable pub phone_flag : Address → ℕ
phone_flag addr =
    bit_or 32
      (bit_or 32
        (bit_or 32
          (bit_or 32 (bit_or 32 addr.phone_label0 (addr.phone_label1 * 2 ^ 4))
            (addr.phone_label2 * 2 ^ 8))
          (addr.phone_label3 * 2 ^ 12))
        (addr.phone_label4 * 2 ^ 16))
      (addr.show_phone * 2 ^ 20)

-- All the bytes that pack_Address writes, in their order from the buffer's start.
unfoldable pub address_bytes : Address → List ℕ
address_bytes addr =
    set_long (phone_flag addr)
    ++ (set_long (contents_of 0 addr.entry)
        ++ (set_byte (company_offset 0 9 addr.entry) ++ entry_strings addr.entry))

-- What it returns, and the buffer. It does not look at what pi_buffer_expect returns.
unfoldable pub pack_address :
    Allocator → Option Address → Option Buffer → AddressType → Option (ℤ × Option Buffer)
pack_address m none buffer kind = some (negsuc 0, buffer)
pack_address m (some addr) none kind = some (negsuc 0, none)
pack_address m (some addr) (some buffer) other = some (negsuc 0, some buffer)
pack_address m (some addr) (some buffer) address_v1 =
    let r = (pi_buffer_expect m buffer (dest_len addr)).1 in
    do
      block ← copy_to r.bytes 0 (address_bytes addr)
      some (pos 0, some (record { bytes = block; allocated = r.allocated; used = dest_len addr }))
