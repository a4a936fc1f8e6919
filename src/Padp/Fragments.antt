-- ===== src/Padp/Fragments.antt =====
-- The packets of a message, in the short format.
use pilot_link.Base.{
  ℕ, ◌+◌, ◌*◌, ◌/◌, ◌%◌, ◌^◌, ◌==◌, ◌≤◌, ◌<◌, Bool, true, false, List, [], ◌∷◌, some, ◌≡◌, refl,
  arith, length, take, drop, leb, if◌then◌else◌,
}
use pilot_link.Macros.{get_byte, get_short, set_byte, set_short}
use pilot_link.Padp.{Padp, PadpData, header_of, get_size, size_bytes, is_long}
use pilot_link.Padp.Receive.{verdict, wanted}
use pilot_link.Padp.Send.{flags_of, packet_bytes}

pub if-true : {A : Type 0} (test : Bool) (x y : A) → test ≡ true → (if test then x else y) ≡ x
if-true test x y h = rw h refl

-- Data in the short format.
pub record IsData (d : PadpData) : Type 0 where
  pub is_kind : d.kind ≡ 1
  pub is_short : d.use_long_format ≡ false

-- The packets of what is left of a message, of which `count` bytes came before.
pub data Fragments (d : PadpData)
    : (first : Bool) → (count : ℕ) → List ℕ → List (List ℕ) → Type 0 where
  last_one :
      {first : Bool} {count : ℕ} {rest : List ℕ}
      → length rest ≤ 1024
      → Fragments d first count rest (packet_bytes d first count rest ∷ [])
  one_more :
      {first : Bool} {count : ℕ} {rest : List ℕ} {packets : List (List ℕ)}
      → 1024 < length rest
      → Fragments d false (count + 1024) (drop 1024 rest) packets
      → Fragments d first count rest (packet_bytes d first count rest ∷ packets)

-- The header of a packet of data.
abbrev pub data_header : (first : Bool) → (count : ℕ) → (rest : List ℕ) → Padp
data_header first count rest = record {
  kind = 1;
  flags = flags_of first (leb (length rest) 1024) false;
  size = if first then length rest else count;
}

abbrev pub short_packet : Padp → List ℕ → List ℕ
short_packet padp payload =
    padp.kind ∷ padp.flags ∷ (padp.size / 2 ^ 8 % 256) ∷ (padp.size % 256) ∷ payload

pub packet_bytes-IsData :
    (d : PadpData) (first : Bool) (count : ℕ) (rest : List ℕ)
    → IsData d
    → packet_bytes d first count rest ≡ short_packet (data_header first count rest) (take 1024 rest)
unfolding packet_bytes set_byte size_bytes set_short flags_of
packet_bytes-IsData d true count rest v = rw (v.is_kind, v.is_short) (ground arith)
packet_bytes-IsData d false count rest v = rw (v.is_kind, v.is_short) (ground arith)

pub is_long-flags_of : (first last : Bool) → is_long (flags_of first last false) ≡ false
unfolding flags_of
is_long-flags_of true true = refl
is_long-flags_of true false = refl
is_long-flags_of false true = refl
is_long-flags_of false false = refl

pub is_first-flags_of : (first last : Bool) → (flags_of first last false / 2 ^ 7 % 2 == 1) ≡ first
unfolding flags_of
is_first-flags_of true true = refl
is_first-flags_of true false = refl
is_first-flags_of false true = refl
is_first-flags_of false false = refl

pub is_last-flags_of : (first last : Bool) → (flags_of first last false / 2 ^ 6 % 2 == 1) ≡ last
unfolding flags_of
is_last-flags_of true true = refl
is_last-flags_of true false = refl
is_last-flags_of false true = refl
is_last-flags_of false false = refl

pub header_of-short_packet :
    (first : Bool) (count : ℕ) (rest payload : List ℕ)
    → count < 2 ^ 16
    → length rest < 2 ^ 16
    → header_of (short_packet (data_header first count rest) payload)
      ≡ some (data_header first count rest)
unfolding header_of get_byte get_size get_short
header_of-short_packet true count rest payload h l =
    let whole : length rest / 2 ^ 8 % 256 * 2 ^ 8 + length rest % 256 ≡ length rest = omega arith in
    rw (is_long-flags_of true (leb (length rest) 1024), whole) refl
header_of-short_packet false count rest payload h l =
    let whole : count / 2 ^ 8 % 256 * 2 ^ 8 + count % 256 ≡ count = omega arith in
    rw (is_long-flags_of false (leb (length rest) 1024), whole) refl

pub verdict-data_header :
    (first : Bool) (count txid : ℕ) (rest : List ℕ)
    → verdict first txid 2 txid (data_header first count rest) ≡ wanted
unfolding verdict flags_of
verdict-data_header first count txid rest = ground arith
