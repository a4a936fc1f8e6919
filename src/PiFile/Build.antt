-- ===== src/PiFile/Build.antt =====
-- libpisock/pi-file.c: a file for writing, and what is put into it.
use pilot_link.Base.{
  ℕ, zero, ◌+◌, ◌*◌, ◌/◌, ◌%◌, ◌==◌, Bool, true, false, not, ◌&&◌, ◌||◌, List, [], ◌∷◌, ◌++◌,
  Option, none, some, length, leb, if◌then◌else◌,
}
use pilot_link.Base.Int.{ℤ, pos, int32}
use pilot_link.Base.Partial.{◌>>=◌ as ◌>>?◌}
use pilot_link.Buffer.{Buffer, Allocator, pi_buffer_new, pi_buffer_append}
use pilot_link.PiFile.{
  DbInfo, Entry, Block, null_block, dangling, block, PiFile, is_resource, err_file_invalid,
  err_file_already_exists, err_generic_memory,
}
use pilot_link.PiFile.Read.{pi_file_id_used, pi_file_type_id_used}

abbrev pub cleared_entry : Entry
cleared_entry = record {
  offset = pos 0;
  size = pos 0;
  resource_id = 0;
  attrs = 0;
  kind = 0;
  uid = 0;
}

-- The last of the entries, changed.
abbrev pub on_last : (Entry → Entry) → List Entry → List Entry
on_last f [] = []
on_last f (entry ∷ []) = f entry ∷ []
on_last f (entry ∷ next ∷ entries) = entry ∷ on_last f (next ∷ entries)

abbrev pub equals_zero : ℤ → Bool
equals_zero (pos zero) = true
equals_zero _ = false

-- free, which a block that has been freed does not bear.
unfoldable pub freed : Block → Option Block
freed null_block = some null_block
freed dangling = none
freed (block bytes) = some dangling

module _ (m : Allocator) where
  -- Of calloc and strdup only the success matters.
  unfoldable pub pi_file_create : (name : List ℕ) → DbInfo → Option PiFile
  pi_file_create name info = m.malloc 216 >>? λ cleared. m.malloc (length name + 1) >>? λ copied.
      pi_buffer_new m 2048 >>? λ tmpbuf. some (record {
        err = pos 0;
        for_writing = true;
        app_info = null_block;
        app_info_size = pos 0;
        sort_info = null_block;
        sort_info_size = pos 0;
        next_record_list_id = 0;
        resource_flag = is_resource info.flags;
        num_entries_allocated = 0;
        rbuf_size = 0;
        file = record { bytes = []; at = 0 };
        tmpbuf = some tmpbuf;
        unique_id_seed = 0;
        info = info;
        entries = [];
      })

  abbrev pub reallocated : PiFile → ℕ → Option (List ℕ) → Option PiFile
  reallocated pf new_count none = none
  reallocated pf new_count (some array) = some (record pf {
    num_entries_allocated = new_count;
    entries = pf.entries ++ (cleared_entry ∷ []);
  })

  -- With one more entry, which is cleared; `none` where there is no memory.
  unfoldable pub pi_file_append_entry : PiFile → Option PiFile
  pi_file_append_entry pf =
      if leb pf.num_entries_allocated (length pf.entries)
      then (let new_count =
            if pf.num_entries_allocated == 0 then 100 else pf.num_entries_allocated * 3 / 2 in
          reallocated pf new_count (m.malloc (32 * new_count)))
      else some (record pf { entries = pf.entries ++ (cleared_entry ∷ []) })

  -- What it returns and the structure; the outer `none` is undefined behaviour.
  abbrev pub Built : Type 0
  Built = Option (ℤ × PiFile)

  abbrev pub set_entry : PiFile → (Entry → Entry) → (size : ℕ) → Built
  set_entry pf f size = some (
    int32 size,
    record pf { entries = on_last (λ entry. record (f entry) { size = int32 size }) pf.entries },
  )

  abbrev pub appended_data : PiFile → (Entry → Entry) → (size : ℕ) → Bool × Buffer → Built
  appended_data pf f size (true, tmpbuf) = set_entry (record pf { tmpbuf = some tmpbuf }) f size
  appended_data pf f size (false, tmpbuf) =
      some (err_generic_memory, record pf { err = pos 1; tmpbuf = some tmpbuf })

  -- pi_buffer_append where there is data.
  unfoldable pub append_data : PiFile → (Entry → Entry) → List ℕ → Option Buffer → Built
  append_data pf f [] tmpbuf = set_entry pf f 0
  append_data pf f (b ∷ bytes) none = none
  append_data pf f (b ∷ bytes) (some tmpbuf) =
      pi_buffer_append m tmpbuf (b ∷ bytes) >>? appended_data pf f (length (b ∷ bytes))

  unfoldable pub append_bytes : PiFile → (Entry → Entry) → List ℕ → Option PiFile → Built
  append_bytes pf f bytes none = some (err_generic_memory, pf)
  append_bytes pf f bytes (some pf') = append_data pf' f bytes pf'.tmpbuf

  unfoldable pub pi_file_append_record : PiFile → List ℕ → (rec_attrs category rec_uid : ℕ) → Built
  pi_file_append_record pf bytes rec_attrs category rec_uid =
      if not pf.for_writing || pf.resource_flag
      then some (err_file_invalid, pf)
      else if not (rec_uid == 0) && pi_file_id_used pf.entries rec_uid
      then some (err_file_already_exists, pf)
      else append_bytes pf
          (λ entry. record entry {
            attrs = rec_attrs / 16 % 16 * 16 + category % 16;
            uid = rec_uid;
          })
          bytes (pi_file_append_entry pf)

  unfoldable pub pi_file_append_resource : PiFile → List ℕ → (kind resource_id : ℕ) → Built
  pi_file_append_resource pf bytes kind resource_id =
      if not pf.for_writing || not pf.resource_flag
      then some (err_file_invalid, pf)
      else if not (equals_zero (pi_file_type_id_used pf kind resource_id))
      then some (err_file_already_exists, pf)
      else append_bytes pf (λ entry. record entry { kind = kind; resource_id = resource_id }) bytes
          (pi_file_append_entry pf)

  abbrev pub Placed : Type 0
  Placed = Option (ℤ × Block × ℤ)

  abbrev pub replaced : Block → (size : ℤ) → List ℕ → Option (List ℕ) → Placed
  replaced old size bytes none = some (err_generic_memory, old, size)
  replaced old size bytes (some p) =
      freed old >>? λ gone. some (pos 0, block bytes, int32 (length bytes))

  -- A block and its size: where there are no bytes the pointer is kept after it is freed.
  unfoldable pub place : Block → (size : ℤ) → List ℕ → Placed
  place old size [] = freed old >>? λ gone. some (pos 0, gone, pos 0)
  place old size (b ∷ bytes) = replaced old size (b ∷ bytes) (m.malloc (length (b ∷ bytes)))

  unfoldable pub pi_file_set_app_info : PiFile → List ℕ → Built
  pi_file_set_app_info pf bytes = place pf.app_info pf.app_info_size bytes >>? λ r.
      some (r.0, record pf { app_info = r.1; app_info_size = r.2 })

  unfoldable pub pi_file_set_sort_info : PiFile → List ℕ → Built
  pi_file_set_sort_info pf bytes = place pf.sort_info pf.sort_info_size bytes >>? λ r.
      some (r.0, record pf { sort_info = r.1; sort_info_size = r.2 })

unfoldable pub pi_file_set_info : PiFile → DbInfo → ℤ × PiFile
pi_file_set_info pf info =
    if not pf.for_writing
    then (err_file_invalid, pf)
    else if not (info.flags % 2 == pf.info.flags % 2)
    then (err_file_invalid, pf)
    else (pos 0, record pf { info = info })
