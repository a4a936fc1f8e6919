-- ===== src/ToDo.antt =====
-- libpisock/todo.c: to-do records, packed into buffers.
pub mod Dates
pub mod RoundTrip
mod Tests
use pilot_link.Base.{
  ℕ, zero, suc, ◌+◌, ◌-◌, ◌*◌, ◌/◌, ◌%◌, ◌^◌, ◌==◌, ◌&&◌, Bool, true, false, List, [], ◌∷◌, ◌++◌,
  Option, none, some, length, drop, ltb, if◌then◌else◌,
}
use pilot_link.Base.Int.{ℤ, pos, negsuc}
use pilot_link.Base.Partial.{◌>>=◌}
use pilot_link.Buffer.{Buffer, Allocator, pi_buffer_expect, copy_to}
use pilot_link.Macros.{get_byte, get_short, set_byte, set_short}
use pilot_link.Memo.{c_string, string_bytes}

-- The fields of a `struct tm` that todo.c writes.
pub record Tm : Type 0 where
  pub year : ℤ
  pub mon : ℤ
  pub mday : ℤ
  pub hour : ℤ
  pub min : ℤ
  pub sec : ℤ
  pub isdst : ℤ

-- `indefinite` and `complete` are tested for 0; the priority is the bits of an `int`. A string is
-- without its final NUL, or NULL.
pub record ToDo : Type 0 where
  pub indefinite : Bool
  pub due : Tm
  pub priority : ℕ
  pub complete : Bool
  pub description : Option (List ℕ)
  pub note : Option (List ℕ)

-- enum todoType has one value; any other `int` may be passed.
pub data ToDoType : Type 0 where
  todo_v1 other : ToDoType

abbrev pub minus_one : ℕ → ℤ
minus_one zero = negsuc 0
minus_one (suc n) = pos n

abbrev pub midnight : (year mon mday : ℤ) → Tm
midnight year mon mday = record {
  year = year;
  mon = mon;
  mday = mday;
  hour = pos 0;
  min = pos 0;
  sec = pos 0;
  isdst = negsuc 0;
}

-- mktime changes the date that it is given.
unfoldable pub unpack_due : (Tm → Tm) → ToDo → (d : ℕ) → ToDo
unpack_due mktime todo d = if d == 0xffff then record todo { indefinite = true } else record todo {
  indefinite = false;
  due = mktime (midnight (pos (d / 2 ^ 9 + 4)) (minus_one (d / 2 ^ 5 % 16)) (pos (d % 32)));
}

unfoldable pub unpack_priority : ToDo → (byte : ℕ) → ToDo
unpack_priority todo byte =
    if byte / 128 % 2 == 1
    then record todo { priority = byte % 128; complete = true }
    else record todo { priority = byte; complete = false }

abbrev pub kept : List ℕ → Option (List ℕ) → Option (List ℕ)
kept text none = none
kept text (some block) = some text

-- strdup: NULL where there is no memory.
unfoldable pub strdup : Allocator → List ℕ → Option (Option (List ℕ))
strdup m bytes = do text ← c_string bytes; some (kept text (m.malloc (length text + 1)))

-- `used - ofs < 1`, of type size_t.
unfoldable pub at_end : (used ofs : ℕ) → Bool
at_end used ofs = ltb ((used + 2 ^ 64 - ofs) % 2 ^ 64) 1

-- The note, once the description is there: strlen reads it.
unfoldable pub unpack_note :
    Allocator → ToDo → List ℕ → (used : ℕ) → Option (List ℕ) → Option (ℤ × ToDo)
unpack_note m todo block used none = none
unpack_note m todo block used (some text) =
    if at_end used (3 + (length text + 1))
    then some (negsuc 0, record todo { description = none })
    else (do
      note ← strdup m (drop (3 + (length text + 1)) block)
      some (pos 0, record todo { description = some text; note = note }))

unfoldable pub unpack_strings : Allocator → ToDo → List ℕ → (used : ℕ) → Option (ℤ × ToDo)
unpack_strings m todo block used =
    if at_end used 3
    then some (negsuc 0, todo)
    else (do description ← strdup m (drop 3 block); unpack_note m todo block used description)

unfoldable pub unpack_record :
    Allocator → (Tm → Tm) → ToDo → Option (List ℕ) → (used : ℕ) → Option (ℤ × ToDo)
unpack_record m mktime todo none used = some (negsuc 0, todo)
unpack_record m mktime todo (some block) used = if ltb used 3 then some (negsuc 0, todo) else (do
  d ← get_short block
  byte ← get_byte (drop 2 block)
  unpack_strings m (unpack_priority (unpack_due mktime todo d) byte) block used)

-- What it returns, and the record as it leaves it. The buffer may be NULL.
unfoldable pub unpack_to_do :
    Allocator → (Tm → Tm) → ToDo → Option Buffer → ToDoType → Option (ℤ × ToDo)
unpack_to_do m mktime todo buffer other = some (negsuc 0, todo)
unpack_to_do m mktime todo none todo_v1 = some (negsuc 0, todo)
unpack_to_do m mktime todo (some buffer) todo_v1 =
    unpack_record m mktime todo buffer.bytes buffer.used

-- `n << bits` as an `int`.
unfoldable pub shl : (bits : ℕ) → ℤ → Option ℕ
shl bits (negsuc n) = none
shl bits (pos n) = if ltb (n * 2 ^ bits) (2 ^ 31) then some (n * 2 ^ bits) else none

abbrev pub minus_four : ℤ → ℤ
minus_four (pos n) = if ltb n 4 then negsuc (3 - n) else pos (n - 4)
minus_four (negsuc n) = negsuc (n + 4)

abbrev pub plus_one : ℤ → ℤ
plus_one (pos n) = pos (n + 1)
plus_one (negsuc zero) = pos 0
plus_one (negsuc (suc n)) = negsuc n

-- The low 16 bits of an `int`.
abbrev pub low_bits : ℤ → ℕ
low_bits (pos n) = n % 2 ^ 16
low_bits (negsuc n) = 2 ^ 16 - 1 - n % 2 ^ 16

-- `a | b`, of their low bits.
unfoldable pub bit_or : (bits : ℕ) → ℕ → ℕ → ℕ
bit_or zero a b = 0
bit_or (suc bits) a b =
    (if a % 2 == 0 && b % 2 == 0 then 0 else 1) + 2 * bit_or bits (a / 2) (b / 2)

unfoldable pub date_bits : Tm → Option ℕ
date_bits due = do
  year ← shl 9 (minus_four due.year)
  mon ← shl 5 (plus_one due.mon)
  some (bit_or 16 (bit_or 16 year mon) (low_bits due.mday))

unfoldable pub pack_due : (indefinite : Bool) → Tm → Option (List ℕ)
pack_due true due = some (0xff ∷ 0xff ∷ [])
pack_due false due = do d ← date_bits due; some (set_short d)

unfoldable pub pack_priority : (complete : Bool) → ℕ → ℕ
pack_priority true priority = bit_or 8 0x80 (priority % 256)
pack_priority false priority = priority % 256

-- All the bytes that pack_ToDo writes, in their order from the buffer's start.
unfoldable pub to_do_bytes : ToDo → Option (List ℕ)
to_do_bytes todo = do
  due ← pack_due todo.indefinite todo.due
  some (
      due
      ++ (pack_priority todo.complete todo.priority
          ∷ (string_bytes todo.description ++ string_bytes todo.note)))

abbrev pub strlen : Option (List ℕ) → ℕ
strlen none = 0
strlen (some text) = length text

unfoldable pub dest_len : ToDo → ℕ
dest_len todo = 3 + strlen todo.description + 1 + strlen todo.note + 1

-- What it returns, and the buffer. It does not look at what pi_buffer_expect returns.
unfoldable pub pack_to_do : Allocator → ToDo → Option Buffer → ToDoType → Option (ℤ × Option Buffer)
pack_to_do m todo none kind = some (negsuc 0, none)
pack_to_do m todo (some buffer) other = some (negsuc 0, some buffer)
pack_to_do m todo (some buffer) todo_v1 =
    let r = (pi_buffer_expect m buffer (dest_len todo)).1 in
    do
      bytes ← to_do_bytes todo
      block ← copy_to r.bytes 0 bytes
      some (pos 0, some (record { bytes = block; allocated = r.allocated; used = dest_len todo }))
