-- ===== src/Sync/Store.antt =====
-- libpisync/sync.c: the record queue, storing and deleting one record, and opening and closing
-- the database.
use pilot_link.Base.{
  ℕ, suc, Bool, false, not, ◌&&◌, List, [], ◌∷◌, Option, none, some, ltb, ◌==◌, length,
  if◌then◌else◌,
}
use pilot_link.Base.Int.{ℤ, pos, negsuc}
use pilot_link.Sync.Types.{
  PilotRecord, RecordModifier, Handle, QueueItem, from_desktop, from_pilot, RecordQueue,
  attr_secret, open_secret, open_read_write, prepare, delete_record, free_match, set_pilot_id,
  dlp_open_db, dlp_clean_up_database, dlp_reset_sync_flags, dlp_close_db, dlp_write_record,
  dlp_delete_record,
}
use pilot_link.Sync.Proc.{
  Proc, ◌>>=◌, ◌>>◌, pure, undefined, return_now, set_result, call, call_number, call_record, ask,
  modify_queue, deref, when, error_check, pilot_check, pilot_check_out, desktop_check, procedure,
}
use Prim.Native.Nat.{bit_and}

-- sizeof(void *)
abbrev pub pointer_size : ℕ
pointer_size = 8

-- The copy has room for `sizeof(precord->buffer)` bytes, the size of a pointer.
unfoldable pub sync_copy_pilot_record : PilotRecord → Proc PilotRecord
sync_copy_pilot_record precord =
    if ltb pointer_size (length precord.buffer) then undefined else pure precord

abbrev pub push : QueueItem → RecordQueue → RecordQueue
push item q = record { count = suc q.count; items = item ∷ q.items }

unfoldable pub add_record_queue : Option PilotRecord → Option ℕ → Proc (Unit {0})
add_record_queue precord (some d) = modify_queue (push (from_desktop d))
add_record_queue precord none = do
  p ← deref precord
  copy ← sync_copy_pilot_record p
  modify_queue (push (from_pilot copy))

unfoldable pub free_items : List QueueItem → Proc (Unit {0})
free_items [] = return_now (pos 0)
free_items (from_desktop d ∷ rest) = do error_check (call (free_match d)); free_items rest
free_items (from_pilot p ∷ rest) = free_items rest

unfoldable pub free_record_queue_list : List QueueItem → Proc ℤ
free_record_queue_list items = procedure (free_items items)

abbrev pub when_some : {A : Type 0} → Option A → (A → Proc (Unit {0})) → Proc (Unit {0})
when_some none f = pure tt
when_some (some a) f = f a

unfoldable pub delete_both : Handle → Option ℕ → Option PilotRecord → RecordModifier → Proc ℤ
delete_both h drecord precord mode = procedure do
  when_some drecord (λ d. desktop_check mode (call (delete_record d)))
  when_some precord (λ p. pilot_check mode (call (dlp_delete_record h 0 p.rec_id)))

abbrev pub blank_record : PilotRecord
blank_record = record { rec_id = 0; cat_id = 0; flags = 0; buffer = [] }

abbrev pub is_zero : ℤ → Bool
is_zero (pos n) = n == 0
is_zero (negsuc n) = false

unfoldable pub store_record_on_pilot : Handle → ℕ → RecordModifier → Proc ℤ
store_record_on_pilot h drecord mode = procedure do
  (code, p) ← call_record (prepare drecord blank_record)
  set_result code
  when (not (is_zero code)) (return_now code)
  id ←
      pilot_check_out mode
        (call_number (dlp_write_record h (bit_and p.flags attr_secret) p.rec_id p.cat_id p.buffer))
  desktop_check mode (call (set_pilot_id drecord id))

-- `dlpOpenReadWrite && dlpOpenSecret` is the logical "and": 1.
abbrev pub open_mode : Bool → ℕ
open_mode secret =
    if secret
    then (if not (open_read_write == 0) && not (open_secret == 0) then 1 else 0)
    else open_read_write

unfoldable pub open_db : Proc (ℤ × ℕ)
open_db = do
  secret ← ask (λ env. env.secret)
  name ← ask (λ env. env.name)
  call_number (dlp_open_db (open_mode secret) name)

unfoldable pub close_db : Handle → Proc ℤ
close_db h = do
  call (dlp_clean_up_database h)
  call (dlp_reset_sync_flags h)
  call (dlp_close_db h)
  pure (pos 0)
