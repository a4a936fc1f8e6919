-- ===== src/Dlp/Records.antt =====
-- libpisock/dlp.c: requests on records. Where outputs are asked for, all of them are.
pub mod Blocks
use pilot_link.Base.{
  ℕ, zero, suc, ◌+◌, ◌-◌, ◌*◌, ◌%◌, ◌^◌, ◌==◌, Bool, true, false, not, ◌&&◌, List, [], ◌∷◌, ◌++◌,
  Option, none, some, length, drop, leb, ltb, if◌then◌else◌,
}
use pilot_link.Base.Int.{ℤ, pos, negsuc}
use pilot_link.Base.Partial.{◌>>=◌ as ◌>>?◌}
use pilot_link.Buffer.{Buffer, Allocator, pi_buffer_clear, pi_buffer_append}
use pilot_link.Macros.{get_byte, get_short, get_long, set_byte, set_short, set_long}
use pilot_link.Dlp.Run.{Socket, Run, ◌>>=◌, ◌>>◌, pure, change, ask, checked, err_dlp_datasize}
use pilot_link.Dlp.Args.{DlpArg, DlpRequest, dlp_request_new_with_argid}
use pilot_link.Dlp.Exec.{DlpResponse, Answer, ask_device, request, exec_filled}
use pilot_link.Dlp.Databases.{response_data, when_positive, code_only}

-- What reading a record yields.
pub record Found : Type 0 where
  pub rec_id : ℕ
  pub index : ℕ
  pub attr : ℕ
  pub category : ℕ
  pub content : List ℕ

-- A response's record, its header of 10 bytes, or of 14 where it is large: `none` where a field, or
-- where the header, is longer than the argument.
unfoldable pub found : (large : Bool) → DlpResponse → Option Found
found large res =
    let at = if large then 14 else 10 in
    get_long (response_data res.argv 0 0) >>? λ rec_id.
    get_short (response_data res.argv 0 4) >>? λ index.
    get_byte (response_data res.argv 0 (at - 2)) >>? λ attr.
    get_byte (response_data res.argv 0 (at - 1)) >>? λ category. some (record {
      rec_id = rec_id;
      index = index;
      attr = attr;
      category = category;
      content = response_data res.argv 0 at;
    })

module _ {S : Type 0} (m : Allocator) (sd : Socket S) where
  -- pi_buffer_append, whose result is not looked at.
  unfoldable pub append_to : Option Buffer → List ℕ → Run S (Option Buffer)
  append_to none bytes = pure none
  append_to (some buffer) bytes = do r ← checked (pi_buffer_append m buffer bytes); pure (some r.1)

  unfoldable pub cleared : Option Buffer → Option Buffer
  cleared none = none
  cleared (some buffer) = some (pi_buffer_clear m buffer)

  unfoldable pub dlp_delete_record : (handle : ℕ) → (all : Bool) → (rec_id : ℕ) → Run S ℤ
  dlp_delete_record handle all rec_id =
      request m sd 0x22 0x20 (6 ∷ [])
        (set_byte handle ++ (set_byte (if all then 0x80 else 0) ++ set_long rec_id))
      >>= code_only

  unfoldable pub write_record_request :
      (large : Bool) → (handle flags rec_id cat_id : ℕ) → List ℕ → Run S Answer
  write_record_request true handle flags rec_id cat_id content =
      ask_device m sd 0x5e 0x20 ((12 + length content) ∷ []) (
        set_byte handle
        ++ (set_byte 0x80
            ++ (set_long rec_id
                ++ (set_byte flags ++ (set_byte cat_id ++ (set_long 0 ++ content))))))
  write_record_request false handle flags rec_id cat_id content =
      ask_device m sd 0x21 0x20 ((8 + length content) ∷ []) (
        set_byte handle
        ++ (set_byte 0x80 ++ (set_long rec_id ++ (set_byte flags ++ (set_byte cat_id ++ content)))))

  -- A given length, not the -1 that stands for a string.
  unfoldable pub dlp_write_record : (handle flags rec_id cat_id : ℕ) → List ℕ → Run S (ℤ × Option ℕ)
  dlp_write_record handle flags rec_id cat_id content = do
    change sd.reset_errors
    version ← ask sd.version
    if leb 0x0104 version
        then (write_record_request true handle flags rec_id cat_id content
            >>= when_positive (λ res. get_long (response_data res.argv 0 0)))
        else if ltb 0xffff (length content + 8)
        then pure (err_dlp_datasize, none)
        else (write_record_request false handle flags rec_id cat_id content
            >>= when_positive (λ res. get_long (response_data res.argv 0 0)))

  -- `result >= 0`: the record is read even where the response has no argument.
  unfoldable pub modified_found : Option Buffer → Answer → Run S (ℤ × Option Found × Option Buffer)
  modified_found buffer (negsuc n, res) = pure (negsuc n, none, buffer)
  modified_found buffer (pos n, none) = checked none
  modified_found buffer (pos n, some res) = do
    record_ ← checked (found false res)
    buffer' ← append_to (cleared buffer) record_.content
    pure (pos (length record_.content), some record_, buffer')

  unfoldable pub dlp_read_next_modified_rec :
      (handle : ℕ) → Option Buffer → Run S (ℤ × Option Found × Option Buffer)
  dlp_read_next_modified_rec handle buffer =
      request m sd 0x1f 0x20 (1 ∷ []) (set_byte handle) >>= modified_found buffer

  -- The bits of `pi_maxrecsize(sd) - 100` as an `int`.
  unfoldable pub max_buffer_size : S → ℕ
  max_buffer_size s = (sd.max_rec_size s + 2 ^ 32 - 100) % 2 ^ 32

  -- The second part of a record that fills the first.
  unfoldable pub second_part :
      ℕ → Option Found → Option Buffer → Answer → Run S (ℤ × Option Found × Option Buffer)
  second_part max first buffer (pos (suc n), some res) = do
    record_ ← checked (found false res)
    buffer' ← append_to buffer record_.content
    pure (pos (length record_.content + max), first, buffer')
  second_part max first buffer (pos (suc n), none) = checked none
  second_part max first buffer (result, res) = pure (result, first, buffer)

  unfoldable pub read_on :
      (large : Bool)
      → ℕ
      → Run S Answer
      → Found
      → Option Buffer
      → Run S (ℤ × Option Found × Option Buffer)
  read_on large max next first none = pure (pos (length first.content), some first, none)
  read_on large max next first (some buffer) = do
    buffer' ← append_to (cleared (some buffer)) first.content
    if length first.content == max && not large
        then next >>= second_part max (some first) buffer'
        else pure (pos (length first.content), some first, buffer')

  unfoldable pub first_part :
      (large : Bool)
      → ℕ
      → Run S Answer
      → Option Buffer
      → Answer
      → Run S (ℤ × Option Found × Option Buffer)
  first_part large max next buffer (pos (suc n), some res) = do
    record_ ← checked (found large res)
    read_on large max next record_ buffer
  first_part large max next buffer (pos (suc n), none) = checked none
  first_part large max next buffer (result, res) = pure (result, none, buffer)

  -- The second request of a long record: where there is no memory for it, the response has been
  -- freed and is freed again.
  unfoldable pub exec_again : List ℕ → Option DlpRequest → Run S Answer
  exec_again bytes none = checked none
  exec_again bytes (some req) = exec_filled m sd bytes (some req)

  unfoldable pub ask_again : (cmd argid : ℕ) → List ℕ → List ℕ → Run S Answer
  ask_again cmd argid lens bytes = exec_again bytes (dlp_request_new_with_argid m cmd argid lens)

  unfoldable pub asked_size : Option Buffer → ℕ → ℕ
  asked_size none size = 0
  asked_size (some buffer) size = size

  unfoldable pub by_id : (handle rec_id offset size : ℕ) → List ℕ
  by_id handle rec_id offset size =
      set_byte handle ++ (set_byte 0 ++ (set_long rec_id ++ (set_short offset ++ set_short size)))

  unfoldable pub dlp_read_record_by_id :
      (handle rec_id : ℕ) → Option Buffer → Run S (ℤ × Option Found × Option Buffer)
  dlp_read_record_by_id handle rec_id buffer = do
    max ← ask max_buffer_size
    request m sd 0x20 0x20 (10 ∷ []) (by_id handle rec_id 0 (asked_size buffer max))
        >>= first_part false max
            (ask_again 0x20 0x20 (10 ∷ []) (by_id handle rec_id max (asked_size buffer 100))) buffer

  unfoldable pub by_index : (handle index offset size : ℕ) → List ℕ
  by_index handle index offset size =
      set_byte handle ++ (set_byte 0 ++ (set_short index ++ (set_short offset ++ set_short size)))

  unfoldable pub index_request :
      (large : Bool) → (handle index max max_rec_size : ℕ) → Option Buffer → Run S Answer
  index_request true handle index max max_rec_size buffer = ask_device m sd 0x60 0x21 (12 ∷ []) (
      set_byte handle ++ (set_byte 0 ++ (set_short index ++ (set_long 0 ++ set_long max_rec_size))))
  index_request false handle index max max_rec_size buffer =
      ask_device m sd 0x20 0x21 (8 ∷ []) (by_index handle index 0 (asked_size buffer max))

  unfoldable pub dlp_read_record_by_index :
      (handle index : ℕ) → Option Buffer → Run S (ℤ × Option Found × Option Buffer)
  dlp_read_record_by_index handle index buffer = do
    max ← ask max_buffer_size
    change sd.reset_errors
    version ← ask sd.version
    max_rec_size ← ask sd.max_rec_size
    index_request (leb 0x0104 version) handle index max max_rec_size buffer
        >>= first_part (leb 0x0104 version) max
            (ask_again 0x20 0x21 (8 ∷ []) (by_index handle index max (asked_size buffer 100)))
            buffer

  -- `ret` numbers of four bytes.
  unfoldable pub read_ids : ℕ → List ℕ → Option (List ℕ)
  read_ids zero bytes = some []
  read_ids (suc ret) bytes =
      get_long bytes >>? λ id. read_ids ret (drop 4 bytes) >>? λ ids. some (id ∷ ids)

  unfoldable pub id_list : DlpResponse → Option (List ℕ)
  id_list res =
      get_short (response_data res.argv 0 0) >>? λ ret. read_ids ret (response_data res.argv 0 2)

  -- The caller's array has room for as many numbers as the device sends.
  unfoldable pub dlp_read_record_id_list :
      (handle : ℕ) → (sort : Bool) → (start max : ℕ) → Run S (ℤ × Option (List ℕ))
  dlp_read_record_id_list handle sort start max =
      request m sd 0x31 0x20 (6 ∷ []) (
        set_byte handle
        ++ (set_byte (if sort then 0x80 else 0) ++ (set_short start ++ set_short max)))
      >>= when_positive id_list
