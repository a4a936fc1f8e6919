-- ===== src/PiFile/ReadBack.antt =====
-- libpisock/pi-file.c: the data of a record that was written, as the functions that read it give it.
use pilot_link.Base.{
  ℕ, zero, suc, ◌+◌, ◌==◌, Bool, true, false, List, [], ◌∷◌, ◌++◌, Option, none, some, ◌≡◌, refl,
  sym, ap, ◌∙◌, arith, length, drop, ltb, take-append_left, Bool-cases, inl, inr,
}
use mathlib.Core.List.{append-nil, append_assoc}
use pilot_link.Base.Int.{ℤ, pos}
use pilot_link.Buffer.{Allocator}
use pilot_link.Buffer.Blocks.{Ample}
use pilot_link.PiFile.{Entry, File, PiFile, is_resource}
use pilot_link.PiFile.Indexes.{Sized, joined, at_offset, laid_out, drop-piece, Takes}
use pilot_link.PiFile.Open.{pi_file_open}
use pilot_link.PiFile.Read.{
  entry_at, Fetched, pi_file_set_rbuf_size, read_entry, fetch_from, pi_file_read_record,
  pi_file_read_resource,
}
use pilot_link.PiFile.Held.{Writable, start_of}
use pilot_link.PiFile.RoundTrip.{reopened, pi_file_open-pi_file_close}
use pilot_link.PiFile.Write.{Disk, pi_file_close}

-- The data of one record.
abbrev pub item : List (List ℕ) → ℕ → Option (List ℕ)
item [] i = none
item (one ∷ data_) zero = some one
item (one ∷ data_) (suc i) = item data_ i

none-some : {A : Type 0} (a : A) → none ≡ some a → ⊥
none-some a e = absurd (ground arith)

-- Where the entry of a file has its data.
located :
    (resource : Bool) (offset : ℕ) (entries : List Entry) (data_ : List (List ℕ)) (i : ℕ)
    (entry : Entry) (one bytes rest : List ℕ)
    → Sized entries data_
    → entry_at entries i ≡ some entry
    → item data_ i ≡ some one
    → drop offset bytes ≡ joined data_ ++ rest
    → (o : ℕ) × (more : List ℕ) × (entry_at (laid_out resource offset entries data_) i
        ≡ some (at_offset resource o (pos (length one)) entry))
      × (drop o bytes ≡ one ++ more)
unfolding entry_at
located resource offset [] data_ i entry one bytes rest z e1 e2 d = absurd (none-some entry e1)
located resource offset (x ∷ entries) [] i entry one bytes rest z e1 e2 d = absurd z
located resource offset (x ∷ entries) (y ∷ data_) zero entry one bytes rest z e1 e2 d =
    let e : x ≡ entry = cc in
    let e' : y ≡ one = cc in
    (
      offset,
      joined data_ ++ rest,
      ap some (
          ap (at_offset resource offset (pos (length y))) e
          ∙ ap (λ w. at_offset resource offset (pos (length w)) entry) e'),
      d ∙ append_assoc y (joined data_) rest ∙ ap (λ w. w ++ (joined data_ ++ rest)) e',
    )
located resource offset (x ∷ entries) (y ∷ data_) (suc i) entry one bytes rest z e1 e2 d =
    located resource (offset + length y) entries data_ i entry one bytes rest (z.1) e1 e2 (
      drop-piece (length y) bytes y (joined data_ ++ rest) offset refl
        (d ∙ append_assoc y (joined data_) rest))

set_rbuf_size-Ample :
    (m : Allocator) (pf : PiFile) (n : ℕ)
    → Ample m
    → (pf' : PiFile) × (pi_file_set_rbuf_size m pf n ≡ (pos 0, pf')) × (pf'.file ≡ pf.file)
unfolding pi_file_set_rbuf_size
set_rbuf_size-Ample m pf n k = elim (Bool-cases (ltb pf.rbuf_size n)) [
  | inl e ↦
      let (rbuf, e') = k (n + 2048) in (record pf { rbuf_size = n + 2048 }, rw (e, e') refl, refl)
  | inr e ↦ (pf, rw e refl, refl)
]

self_equal : (n : ℕ) → (n == n) ≡ true
self_equal n = ground arith

fetch_from-held :
    (m : Allocator) (resource : Bool) (pf : PiFile) (o : ℕ) (entry : Entry) (one more : List ℕ)
    → drop o pf.file.bytes ≡ one ++ more
    → (pf' : PiFile) × (fetch_from m pf (at_offset resource o (pos (length one)) entry)
        ≡ (pos 0, some (at_offset resource o (pos (length one)) entry, one), pf'))
unfolding fetch_from
fetch_from-held m true pf o entry one more d = (
  record pf { file = record { bytes = pf.file.bytes; at = o + length one } },
  rw (d, take-append_left one more, self_equal (length one)) refl,
)
fetch_from-held m false pf o entry one more d = (
  record pf { file = record { bytes = pf.file.bytes; at = o + length one } },
  rw (d, take-append_left one more, self_equal (length one)) refl,
)

at_offset-size :
    (resource : Bool) (o : ℕ) (size : ℤ) (entry : Entry)
    → (at_offset resource o size entry).size ≡ size
at_offset-size true o size entry = refl
at_offset-size false o size entry = refl

read_entry-held :
    (m : Allocator) (resource : Bool) (pf : PiFile) (o : ℕ) (entry : Entry) (one more : List ℕ)
    → Ample m
    → drop o pf.file.bytes ≡ one ++ more
    → (pf' : PiFile) × (read_entry m pf (some (at_offset resource o (pos (length one)) entry))
        ≡ (pos 0, some (at_offset resource o (pos (length one)) entry, one), pf'))
unfolding read_entry
read_entry-held m resource pf o entry one more k d =
    let (pf', e, same) = set_rbuf_size-Ample m pf (length one) k in
    let (pf'', e') =
      fetch_from-held m resource pf' o entry one more
        (ap (λ (f : File). drop o f.bytes) same ∙ d) in
    (pf'', rw (at_offset-size resource o (pos (length one)) entry, e) e')

-- The function that reads a file's resources or its records.
abbrev pub reads : (resource : Bool) → Allocator → PiFile → ℕ → Fetched
reads true m pf i = pi_file_read_resource m pf (pos i)
reads false m pf i = pi_file_read_record m pf (pos i)

reads-entry :
    (m : Allocator) (resource : Bool) (pf : PiFile) (i : ℕ)
    → pf.for_writing ≡ false
    → pf.resource_flag ≡ resource
    → reads resource m pf i ≡ read_entry m pf (entry_at pf.entries i)
unfolding pi_file_read_resource pi_file_read_record
reads-entry m true pf i w f = simp (w, f)
reads-entry m false pf i w f = simp (w, f)

-- Where pi_file_close of a structure for writing that holds the data of its records, as far as
-- they fit the format and a file of less than 2 ^ 31 bytes, has written a file (it does, on a disk that
-- takes what is written), pi_file_open opens it, and pi_file_read_record, or
-- pi_file_read_resource where the file holds resources, gives with 0 the data of
-- any of the records and its entry: the type and id of a resource, the attributes and id of a
-- record, as they were.
pub pi_file_read_record-pi_file_close :
    (m : Allocator) (disk : Disk) (pf : PiFile) (data_ : List (List ℕ)) (app sort : List ℕ) (i : ℕ)
    (entry : Entry) (one : List ℕ)
    → Ample m
    → Takes disk
    → Writable pf data_ app sort
    → entry_at pf.entries i ≡ some entry
    → item data_ i ≡ some one
    → (bytes : List ℕ) × (pf' : PiFile) × (offset : ℕ) × (pf'' : PiFile) × (pi_file_close disk pf
        ≡ some (pos 0, bytes))
      × (pi_file_open m (some bytes) ≡ some pf')
      × (reads pf.resource_flag m pf' i
          ≡ (pos 0, some (at_offset pf.resource_flag offset (pos (length one)) entry, one), pf''))
pi_file_read_record-pi_file_close m disk pf data_ app sort i entry one k t v e1 e2 =
    let (bytes, at, closed, d, found) = pi_file_open-pi_file_close m disk pf data_ app sort k t v in
    let resource = is_resource pf.info.flags in
    let pf' = reopened pf data_ app sort (record { bytes = bytes; at = at }) in
    let (o, more, e3, d') =
      located resource (start_of pf app sort) pf.entries data_ i entry one bytes [] v.sizes e1 e2
        (d ∙ sym (append-nil (joined data_))) in
    let (pf'', e4) = read_entry-held m resource pf' o entry one more k d' in
    (
      bytes,
      pf',
      o,
      pf'',
      closed,
      found,
      ap (λ r. reads r m pf' i) v.of_kind
          ∙ reads-entry m resource pf' i refl refl
          ∙ ap (read_entry m pf') e3
          ∙ e4
          ∙ ap (λ r. (pos 0, some (at_offset r o (pos (length one)) entry, one), pf''))
              (sym v.of_kind),
    )
