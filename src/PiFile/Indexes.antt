-- ===== src/PiFile/Indexes.antt =====
-- libpisock/pi-file.c: the index that pi_file_close_for_write writes, pi_file_open reads.
use pilot_link.Base.{
  ℕ, suc, ◌+◌, ◌*◌, ◌/◌, ◌%◌, ◌^◌, ◌≤◌, ◌<◌, Bool, true, false, List, [], ◌∷◌, ◌++◌, some, ◌≡◌,
  refl, sym, ap, ◌∙◌, arith, length, take, drop, leb-true, ltb-false, All, length-append,
  take-append_left,
}
use mathlib.Core.List.{append-nil, append_assoc}
use pilot_link.Base.Int.{ℤ, pos, int32, low32, ◌+ℤ◌, ◌-ℤ◌, ltb_ℤ, sub_ℕ}
use pilot_link.Base.Partial.{◌>>=◌ as ◌>>?◌}
use pilot_link.Base.Run.{◌>>=◌, pure, checked}
use pilot_link.AppInfo.RoundTrip.{drop-exact}
use pilot_link.Macros.{get_byte, get_treble, set_byte, set_short, set_treble, set_long}
use pilot_link.PiFile.{Entry, ent_hdr_size}
use pilot_link.PiFile.Headers.{get_long-set_long, get_short-set_short, drop-drop}
use pilot_link.PiFile.Open.{parse_entry, read_entries, fread, size_up, sized}
use pilot_link.PiFile.Write.{entry_bytes, Piece, index_pieces, Disk, put_all}

-- What an entry of the index has room for.
pub record InIndex (entry : Entry) : Type 0 where
  pub kind_bits : entry.kind < 2 ^ 32
  pub id_bits : entry.resource_id < 2 ^ 16
  pub attrs_bits : entry.attrs < 2 ^ 8
  pub uid_bits : entry.uid < 2 ^ 24

-- The sizes are those of the data.
abbrev pub Sized : List Entry → List (List ℕ) → Type 0
Sized [] [] = Unit {0}
Sized [] (one ∷ data_) = ⊥
Sized (entry ∷ entries) [] = ⊥
Sized (entry ∷ entries) (one ∷ data_) = (entry.size ≡ pos (length one)) × Sized entries data_

abbrev pub joined : List (List ℕ) → List ℕ
joined [] = []
joined (one ∷ data_) = one ++ joined data_

-- The bytes of the pieces, one behind the other.
abbrev pub all_bytes : List Piece → List ℕ
all_bytes [] = []
all_bytes (piece ∷ more) = piece.1 ++ all_bytes more

-- An entry of a file, at its offset: of a resource its type and id, of a record its attributes and id.
abbrev pub at_offset : (resource : Bool) → ℕ → (size : ℤ) → Entry → Entry
at_offset true offset size entry = record entry {
  offset = pos offset;
  size = size;
  attrs = 0;
  uid = 0;
}
at_offset false offset size entry = record entry {
  offset = pos offset;
  size = size;
  resource_id = 0;
  kind = 0;
}

-- The entries of a file whose data begin at an offset.
abbrev pub laid_out : (resource : Bool) → (offset : ℕ) → List Entry → List (List ℕ) → List Entry
laid_out resource offset [] data_ = []
laid_out resource offset (entry ∷ entries) [] = []
laid_out resource offset (entry ∷ entries) (one ∷ data_) =
    at_offset resource offset (pos (length one)) entry
    ∷ laid_out resource (offset + length one) entries data_

abbrev pub unsized : List Entry → List Entry
unsized [] = []
unsized (entry ∷ entries) = record entry { size = pos 0 } ∷ unsized entries

pub int32-small : (n : ℕ) → n < 2 ^ 31 → int32 n ≡ pos n
unfolding int32
int32-small n h = ground arith

pub low32-small : (n : ℕ) → n < 2 ^ 32 → low32 (pos n) ≡ n
unfolding low32
low32-small n h = omega arith

parse_entry-entry_bytes :
    (resource : Bool) (offset : ℕ) (entry : Entry)
    → InIndex entry
    → offset < 2 ^ 31
    → parse_entry resource (entry_bytes resource offset entry)
      ≡ some (at_offset resource offset (pos 0) entry)
unfolding parse_entry entry_bytes set_short set_long set_byte set_treble get_byte get_treble
parse_entry-entry_bytes true offset entry v h =
    rw
      (
        get_long-set_long entry.kind (set_short entry.resource_id ++ set_long offset) v.kind_bits,
        get_short-set_short entry.resource_id (set_long offset) v.id_bits,
        get_long-set_long offset [] (omega arith),
        int32-small offset h,
      )
      refl
parse_entry-entry_bytes false offset entry v h =
    let a : entry.attrs % 256 ≡ entry.attrs = (let b = v.attrs_bits in omega arith) in
    let u : entry.uid / 2 ^ 16 % 256 * 2 ^ 16 + entry.uid / 2 ^ 8 % 256 * 2 ^ 8 + entry.uid % 256
        ≡ entry.uid =
      (let b = v.uid_bits in omega arith) in
    rw
      (
        get_long-set_long offset (set_byte entry.attrs ++ set_treble entry.uid) (omega arith),
        int32-small offset h,
        a,
        u,
      )
      refl

length-entry_bytes :
    (resource : Bool) (offset : ℕ) (entry : Entry)
    → length (entry_bytes resource offset entry) ≡ ent_hdr_size resource
unfolding entry_bytes set_short set_long set_byte set_treble ent_hdr_size
length-entry_bytes true offset entry = refl
length-entry_bytes false offset entry = refl

-- fread of what stands at the position.
pub fread-exact :
    (n : ℕ) (bytes piece rest : List ℕ) (at : ℕ)
    → length piece ≡ n
    → drop at bytes ≡ piece ++ rest
    → fread n (record { bytes = bytes; at = at })
      ≡ some (piece, record { bytes = bytes; at = at + n })
unfolding fread
fread-exact n bytes piece rest at l e =
    rw
      (
        e,
        leb-true n (length (piece ++ rest)) (omega (arith, length-append piece rest)),
        ap (λ k. take k (piece ++ rest)) (sym l) ∙ take-append_left piece rest,
      )
      refl

pub drop-piece :
    (n : ℕ) (bytes piece rest : List ℕ) (at : ℕ)
    → length piece ≡ n
    → drop at bytes ≡ piece ++ rest
    → drop (at + n) bytes ≡ rest
drop-piece n bytes piece rest at l e =
    sym (drop-drop n at bytes) ∙ ap (drop n) e ∙ drop-exact n piece rest l

pub length-index :
    (resource : Bool) (offset : ℕ) (entries : List Entry)
    → length (all_bytes (index_pieces resource offset entries))
      ≡ length entries * ent_hdr_size resource
unfolding index_pieces ent_hdr_size entry_bytes set_short set_long set_byte set_treble
length-index resource offset [] = omega arith
length-index true offset (entry ∷ entries) =
    omega (arith, length-index true (offset + low32 entry.size) entries)
length-index false offset (entry ∷ entries) =
    omega (arith, length-index false (offset + low32 entry.size) entries)

unsized-at_offset :
    (resource : Bool) (offset : ℕ) (size : ℤ) (entry : Entry)
    → record (at_offset resource offset size entry) { size = pos 0 }
      ≡ at_offset resource offset (pos 0) entry
unsized-at_offset true offset size entry = refl
unsized-at_offset false offset size entry = refl

one_more : (at size n : ℕ) → at + size + n * size ≡ at + suc n * size
one_more at size n = omega arith

pub read_entries-laid_out :
    (resource : Bool) (offset : ℕ) (entries : List Entry) (data_ : List (List ℕ))
    (bytes rest : List ℕ) (at : ℕ)
    → All InIndex entries
    → Sized entries data_
    → offset + length (joined data_) < 2 ^ 31
    → drop at bytes ≡ all_bytes (index_pieces resource offset entries) ++ rest
    → read_entries resource (length entries) (record { bytes = bytes; at = at })
      ≡ some (
        unsized (laid_out resource offset entries data_),
        record { bytes = bytes; at = at + length entries * ent_hdr_size resource },
      )
unfolding read_entries index_pieces ◌>>=◌ pure checked
read_entries-laid_out resource offset [] data_ bytes rest at v z h e =
    ap (λ k. some ([], record { bytes = bytes; at = k })) (omega arith)
read_entries-laid_out resource offset (entry ∷ entries) [] bytes rest at v z h e = absurd z
read_entries-laid_out resource offset (entry ∷ entries) (one ∷ data_) bytes rest at v z h e =
    let first = entry_bytes resource offset entry in
    let next : offset + low32 entry.size ≡ offset + length one =
      ap (λ k. offset + low32 k) (z.0)
      ∙ ap (λ k. offset + k)
          (low32-small (length one) (omega (arith, length-append one (joined data_)))) in
    let more = all_bytes (index_pieces resource (offset + length one) entries) in
    let e' : drop at bytes ≡ first ++ (more ++ rest) =
      e
      ∙ ap (λ k. (first ++ all_bytes (index_pieces resource k entries)) ++ rest) next
      ∙ append_assoc first more rest in
    let size = ent_hdr_size resource in
    rw
      (
        fread-exact size bytes first (more ++ rest) at (length-entry_bytes resource offset entry)
            e',
        parse_entry-entry_bytes resource offset entry (v.0) (omega arith),
        read_entries-laid_out resource (offset + length one) entries data_ bytes rest (at + size)
            (v.1) (z.1) (omega (arith, length-append one (joined data_)))
            (drop-piece size bytes first (more ++ rest) at
              (length-entry_bytes resource offset entry) e'),
      )
      (rw
        (
          unsized-at_offset resource offset (pos (length one)) entry,
          one_more at size (length entries),
        )
        refl)

sub_ℕ-past : (a b : ℕ) → sub_ℕ (a + b) a ≡ pos b
unfolding sub_ℕ
sub_ℕ-past a b = ground arith

-- A distance in a file of less than 2 ^ 31 bytes.
pub distance : (a b : ℕ) → a + b < 2 ^ 31 → int32 (low32 (pos (a + b) -ℤ pos a)) ≡ pos b
unfolding ◌-ℤ◌
distance a b h = rw (sub_ℕ-past a b, low32-small b (omega arith), int32-small b (omega arith)) refl

pub in_file : (limit a b : ℕ) → a + b ≤ limit → ltb_ℤ (pos limit) (pos a +ℤ pos b) ≡ false
unfolding ltb_ℤ ◌+ℤ◌
in_file limit a b h = ltb-false limit (a + b) h

-- An entry with its size cleared.
abbrev unset : Entry → Entry
unset entry = record entry { size = pos 0 }

sized-laid_out :
    (resource : Bool) (offset n limit : ℕ) (entry : Entry) (more : List Entry)
    → offset + n ≤ limit
    → limit < 2 ^ 31
    → sized (pos limit) (unset (at_offset resource offset (pos n) entry)) (more, pos (offset + n))
      ≡ some (at_offset resource offset (pos n) entry ∷ more, pos offset)
sized-laid_out true offset n limit entry more h k =
    rw (distance offset n (omega arith), in_file limit offset n h) refl
sized-laid_out false offset n limit entry more h k =
    rw (distance offset n (omega arith), in_file limit offset n h) refl

pub size_up-laid_out :
    (resource : Bool) (offset limit : ℕ) (entries : List Entry) (data_ : List (List ℕ))
    → Sized entries data_
    → offset + length (joined data_) ≡ limit
    → limit < 2 ^ 31
    → size_up (pos limit) (unsized (laid_out resource offset entries data_))
      ≡ some (laid_out resource offset entries data_, pos offset)
unfolding size_up
size_up-laid_out resource offset limit [] [] z e h = ap (λ k. some ([], pos k)) (omega arith)
size_up-laid_out resource offset limit [] (one ∷ data_) z e h = absurd z
size_up-laid_out resource offset limit (entry ∷ entries) [] z e h = absurd z
size_up-laid_out resource offset limit (entry ∷ entries) (one ∷ data_) z e h =
    let rest = laid_out resource (offset + length one) entries data_ in
    let entry' = at_offset resource offset (pos (length one)) entry in
    ap (λ o. o >>? sized (pos limit) (unset entry'))
      (size_up-laid_out resource (offset + length one) limit entries data_ (z.1)
        (omega (arith, length-append one (joined data_))) h)
    ∙ sized-laid_out resource offset (length one) limit entry rest
        (omega (arith, length-append one (joined data_))) h

-- A disk that opens the file and takes what is written.
pub record Takes (disk : Disk) : Type 0 where
  pub opened : disk.opens ≡ true
  pub taken : (written bytes : List ℕ) → disk.takes written bytes ≡ true

pub put_all-Takes :
    (disk : Disk) (written : List ℕ) (all : List Piece)
    → Takes disk
    → put_all disk written false all ≡ (pos 0, written ++ all_bytes all)
unfolding put_all
put_all-Takes disk written [] v = ap (λ k. (pos 0, k)) (sym (append-nil written))
put_all-Takes disk written ((must, []) ∷ all) v = put_all-Takes disk written all v
put_all-Takes disk written ((true, b ∷ bytes) ∷ all) v =
    rw (v.taken written (b ∷ bytes), put_all-Takes disk (written ++ (b ∷ bytes)) all v)
      (ap (λ k. (pos 0, k)) (append_assoc written (b ∷ bytes) (all_bytes all)))
put_all-Takes disk written ((false, b ∷ bytes) ∷ all) v =
    rw (v.taken written (b ∷ bytes), put_all-Takes disk (written ++ (b ∷ bytes)) all v)
      (ap (λ k. (pos 0, k)) (append_assoc written (b ∷ bytes) (all_bytes all)))
