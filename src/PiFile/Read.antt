-- ===== src/PiFile/Read.antt =====
-- libpisock/pi-file.c: reading records and resources of an open file.
use pilot_link.Base.{
  ℕ, zero, suc, ◌+◌, ◌-◌, ◌^◌, ◌==◌, Bool, false, not, ◌&&◌, ◌||◌, List, [], ◌∷◌, Option, none,
  some, length, take, drop, ltb, if◌then◌else◌,
}
use pilot_link.Base.Int.{ℤ, pos, negsuc}
use pilot_link.Buffer.{Allocator}
use pilot_link.PiFile.{
  Entry, File, PiFile, err_file_invalid, err_file_error, err_file_not_found, err_generic_memory,
  err_generic_argument,
}

unfoldable pub entry_at : List Entry → ℕ → Option Entry
entry_at [] i = none
entry_at (entry ∷ entries) zero = some entry
entry_at (entry ∷ entries) (suc i) = entry_at entries i

-- An `int` as a size_t.
abbrev pub size_t : ℤ → ℕ
size_t (pos n) = n
size_t (negsuc n) = 2 ^ 64 - 1 - n

-- fseek, which leaves the position where the offset is negative.
abbrev pub sought : ℤ → File → File
sought (pos n) file = record file { at = n }
sought (negsuc n) file = file

abbrev pub first_index : (Entry → Bool) → ℕ → List Entry → Option ℕ
first_index test i [] = none
first_index test i (entry ∷ entries) =
    let more = first_index test (suc i) entries in if test entry then some i else more

-- All outputs are asked for; `none` where nothing is set.
abbrev pub Fetched : Type 0
Fetched = ℤ × Option (Entry × List ℕ) × PiFile

module _ (m : Allocator) where
  abbrev pub resized : PiFile → (new_size : ℕ) → Option (List ℕ) → ℤ × PiFile
  resized pf new_size none = (err_generic_memory, pf)
  resized pf new_size (some rbuf) = (pos 0, record pf { rbuf_size = new_size })

  unfoldable pub pi_file_set_rbuf_size : PiFile → ℕ → ℤ × PiFile
  pi_file_set_rbuf_size pf size =
      if ltb pf.rbuf_size size
      then resized pf (size + 2048) (m.malloc (size + 2048))
      else (pos 0, pf)

  unfoldable pub fetch_from : PiFile → Entry → Fetched
  fetch_from pf entry =
      let file' = sought entry.offset pf.file in
      let bytes = take (size_t entry.size) (drop file'.at file'.bytes) in
      let pf' = record pf { file = record file' { at = file'.at + length bytes } } in
      if length bytes == size_t entry.size
      then (pos 0, some (entry, bytes), pf')
      else (err_file_error, none, pf')

  abbrev pub fetch_sized : Entry → ℤ × PiFile → Fetched
  fetch_sized entry (negsuc n, pf) = (negsuc n, none, pf)
  fetch_sized entry (pos n, pf) = fetch_from pf entry

  unfoldable pub read_entry : PiFile → Option Entry → Fetched
  read_entry pf none = (err_generic_argument, none, pf)
  read_entry pf (some entry) = fetch_sized entry (pi_file_set_rbuf_size pf (size_t entry.size))

  -- An entry's `attrs` are handed out as attributes and category, its high and its low bits.
  unfoldable pub pi_file_read_record : PiFile → (recindex : ℤ) → Fetched
  pi_file_read_record pf (negsuc n) = (
    if pf.for_writing || pf.resource_flag then err_file_invalid else err_generic_argument,
    none,
    pf,
  )
  pi_file_read_record pf (pos i) =
      if pf.for_writing || pf.resource_flag
      then (err_file_invalid, none, pf)
      else read_entry pf (entry_at pf.entries i)

  unfoldable pub pi_file_read_resource : PiFile → (i : ℤ) → Fetched
  pi_file_read_resource pf (negsuc n) = (
    if pf.for_writing || not pf.resource_flag then err_file_invalid else err_generic_argument,
    none,
    pf,
  )
  pi_file_read_resource pf (pos i) =
      if pf.for_writing || not pf.resource_flag
      then (err_file_invalid, none, pf)
      else read_entry pf (entry_at pf.entries i)

  abbrev pub at_index : PiFile → (PiFile → ℤ → Fetched) → Option ℕ → Fetched
  at_index pf read none = (err_file_not_found, none, pf)
  at_index pf read (some i) = read pf (pos i)

  unfoldable pub pi_file_read_record_by_id : PiFile → (uid : ℕ) → Fetched
  pi_file_read_record_by_id pf uid =
      at_index pf pi_file_read_record (first_index (λ entry. entry.uid == uid) 0 pf.entries)

unfoldable pub pi_file_id_used : List Entry → (uid : ℕ) → Bool
pi_file_id_used [] uid = false
pi_file_id_used (entry ∷ entries) uid = entry.uid == uid || pi_file_id_used entries uid

abbrev pub found_at : Option ℕ → ℤ × Option ℕ
found_at none = (pos 0, none)
found_at (some i) = (pos 1, some i)

-- The index of a resource: on a file of records a code that is not 0, and no index.
unfoldable pub pi_file_find_resource_by_type_id : PiFile → (kind resource_id : ℕ) → ℤ × Option ℕ
pi_file_find_resource_by_type_id pf kind resource_id =
    if not pf.resource_flag
    then (err_file_invalid, none)
    else found_at
        (first_index (λ entry. entry.kind == kind && entry.resource_id == resource_id) 0 pf.entries)

unfoldable pub pi_file_type_id_used : PiFile → (kind resource_id : ℕ) → ℤ
pi_file_type_id_used pf kind resource_id = (pi_file_find_resource_by_type_id pf kind resource_id).0

-- On a file of records the index is not set, and pi_file_read_resource does not look at it.
abbrev pub at_found : Allocator → PiFile → ℤ × Option ℕ → Fetched
at_found m pf (pos zero, i) = (err_file_not_found, none, pf)
at_found m pf (code, none) = pi_file_read_resource m pf (pos 0)
at_found m pf (code, some i) = pi_file_read_resource m pf (pos i)

unfoldable pub pi_file_read_resource_by_type_id :
    Allocator → PiFile → (kind resource_id : ℕ) → Fetched
pi_file_read_resource_by_type_id m pf kind resource_id =
    at_found m pf (pi_file_find_resource_by_type_id pf kind resource_id)
