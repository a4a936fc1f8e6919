-- ===== src/Sync/Merge.antt =====
-- libpisync/sync.c: the four merges and the queue that they leave to be written to the device.
-- Each loop takes fuel; the callbacks and the device decide when it ends.
use pilot_link.Base.{
  ℕ, zero, suc, ◌+◌, Bool, true, false, not, List, [], ◌∷◌, Option, none, some, take, ◌==◌,
  if◌then◌else◌,
}
use pilot_link.Base.Int.{ℤ, pos, negsuc, is_neg}
use pilot_link.Sync.Types.{
  PilotRecord, DesktopRecord, RecordModifier, Handle, QueueItem, from_desktop, from_pilot,
  empty_queue, has_flag, attr_dirty, attr_secret, attr_archived, for_each, for_each_modified,
  compare_records, match_record, free_match, dlp_write_record, dlp_read_next_modified,
  dlp_read_by_index, dlp_read_by_id,
}
use pilot_link.Sync.Proc.{
  Proc, ◌>>=◌, ◌>>◌, pure, out_of_fuel, call, call_number, call_pointer, call_record, load, store,
  get_queue, modify_queue, when, error_check, check_out, pilot_check_out, procedure,
}
use pilot_link.Sync.Store.{store_record_on_pilot, free_record_queue_list, is_zero, when_some}
use pilot_link.Sync.Record.{sync_record}
use Prim.Native.Nat.{bit_or}

-- DLP_BUF_SIZE, the room in a device record's buffer
abbrev pub dlp_buf_size : ℕ
dlp_buf_size = 0xffff

unfoldable pub fit : PilotRecord → PilotRecord
fit p = record p { buffer = take dlp_buf_size p.buffer }

unfoldable pub process_items : Handle → RecordModifier → List QueueItem → Proc (Unit {0})
process_items h mode [] = pure tt
process_items h mode (from_desktop d ∷ rest) = do
  store_record_on_pilot h d mode
  process_items h mode rest
process_items h mode (from_pilot p ∷ rest) = do
  pilot_check_out mode (call_number (dlp_write_record h 0 0 p.cat_id p.buffer))
  process_items h mode rest

unfoldable pub merge_process : Handle → RecordModifier → Proc ℤ
merge_process h mode =
    procedure
      do q ← get_queue; process_items h mode q.items; free_record_queue_list q.items; pure tt

-- `if (drecord && rq.count == count) ErrorCheck(FreeMatch)`
unfoldable pub free_unqueued : ℕ → Option ℕ → Proc (Unit {0})
free_unqueued count none = pure tt
free_unqueued count (some d) = do
  q ← get_queue
  when (q.count == count) (error_check (call (free_match d)))

unfoldable pub from_fast_round : Handle → RecordModifier → Option ℕ → PilotRecord → Proc (Option ℕ)
from_fast_round h mode drecord rec = do
  q ← get_queue
  matched ← check_out (call_pointer (match_record (fit rec) drecord))
  error_check (sync_record h matched (some (fit rec)) mode)
  free_unqueued q.count matched
  pure matched

unfoldable pub from_fast_loop : ℕ → Handle → RecordModifier → Option ℕ → Proc (Unit {0})
from_fast_loop zero h mode drecord = out_of_fuel
from_fast_loop (suc fuel) h mode drecord = do
  (code, rec) ← call_record (dlp_read_next_modified h)
  if is_neg code
      then pure tt
      else do matched ← from_fast_round h mode drecord rec; from_fast_loop fuel h mode matched

unfoldable pub merge_from_fast : ℕ → Handle → RecordModifier → Proc ℤ
merge_from_fast fuel h mode = procedure do
  modify_queue (λ _. empty_queue)
  from_fast_loop fuel h mode none
  error_check (merge_process h mode)

-- A slow merge computes the flags: changed or not, and the archived and secret bits of before.
unfoldable pub slow_flags : ℕ → Bool → ℕ
slow_flags flags modified =
    let dirty = if modified then bit_or 0 attr_dirty else 0 in
    let archived = if has_flag flags attr_archived then bit_or dirty attr_archived else dirty in
    if has_flag flags attr_secret then bit_or archived attr_secret else archived

unfoldable pub differs : PilotRecord → Option ℕ → Proc Bool
differs p none = pure true
differs p (some d) = do comp ← call (compare_records p d); pure (not (is_zero comp))

abbrev pub is_positive : ℤ → Bool
is_positive (pos n) = not (n == 0)
is_positive (negsuc n) = false

unfoldable pub from_slow_round : Handle → RecordModifier → Option ℕ → PilotRecord → Proc (Option ℕ)
from_slow_round h mode drecord rec = do
  q ← get_queue
  matched ← check_out (call_pointer (match_record (fit rec) drecord))
  modified ← differs (record (fit rec) { flags = 0 }) matched
  let p = record (fit rec) { flags = slow_flags rec.flags modified }
  error_check (sync_record h matched (some p) mode)
  free_unqueued q.count matched
  pure matched

unfoldable pub from_slow_loop : ℕ → ℕ → Handle → RecordModifier → Option ℕ → Proc (Unit {0})
from_slow_loop zero i h mode drecord = out_of_fuel
from_slow_loop (suc fuel) i h mode drecord = do
  (code, rec) ← call_record (dlp_read_by_index h i)
  if not (is_positive code) then pure tt else do
    matched ← from_slow_round h mode drecord rec
    from_slow_loop fuel (i + 1) h mode matched

unfoldable pub merge_from_slow : ℕ → Handle → RecordModifier → Proc ℤ
merge_from_slow fuel h mode = procedure do
  modify_queue (λ _. empty_queue)
  from_slow_loop fuel 0 h mode none
  error_check (merge_process h mode)

-- The device's record for a desktop record with an id, and what the shared buffer holds then.
unfoldable pub fetch :
    Handle → RecordModifier → List ℕ → DesktopRecord → Proc (Option PilotRecord × List ℕ)
fetch h mode recbuf d = if d.rec_id == 0 then pure (none, recbuf) else do
  read ← pilot_check_out mode (call_record (dlp_read_by_id h d.rec_id))
  pure (fetched read)
  where
    fetched : Option PilotRecord → Option PilotRecord × List ℕ
    fetched none =
        (some (fit (record { rec_id = d.rec_id; cat_id = 0; flags = 0; buffer = recbuf })), recbuf)
    fetched (some p) = (some (fit (record p { rec_id = d.rec_id })), p.buffer)

-- `while (ForEach…(sh, &drecord) == 0 && drecord)`: the record of the next round, if there is one.
abbrev pub next_record : ℤ → Option ℕ → Option ℕ
next_record code drecord = if is_zero code then drecord else none

unfoldable pub to_fast_round : Handle → RecordModifier → List ℕ → ℕ → Proc (List ℕ)
to_fast_round h mode recbuf d = do
  rec ← load d
  (precord, recbuf') ← fetch h mode recbuf rec
  error_check (sync_record h (some d) precord mode)
  pure recbuf'

unfoldable pub to_fast_loop : ℕ → Handle → RecordModifier → Option ℕ → List ℕ → Proc (Unit {0})
to_fast_loop zero h mode drecord recbuf = out_of_fuel
to_fast_loop (suc fuel) h mode drecord recbuf = do
  (code, following) ← call_pointer (for_each_modified drecord)
  when_some (next_record code following)
      λ d. do recbuf' ← to_fast_round h mode recbuf d; to_fast_loop fuel h mode (some d) recbuf'

unfoldable pub merge_to_fast : ℕ → Handle → RecordModifier → Proc ℤ
merge_to_fast fuel h mode = procedure do
  modify_queue (λ _. empty_queue)
  to_fast_loop fuel h mode none []
  error_check (merge_process h mode)

unfoldable pub or_flags : ℕ → ℕ → Proc (Unit {0})
or_flags d mask = do rec ← load d; store d (record rec { flags = bit_or rec.flags mask })

unfoldable pub mark_dirty : Option PilotRecord → ℕ → Proc (Unit {0})
mark_dirty none d = or_flags d attr_dirty
mark_dirty (some p) d = do
  comp ← call (compare_records p d)
  when (not (is_zero comp)) (or_flags d attr_dirty)

-- The flags of the desktop record, computed in its memory.
unfoldable pub compute_flags : Option PilotRecord → ℕ → Proc (Unit {0})
compute_flags precord d = do
  rec ← load d
  store d (record rec { flags = 0 })
  mark_dirty precord d
  when (has_flag rec.flags attr_archived) (or_flags d attr_archived)
  when (has_flag rec.flags attr_secret) (or_flags d attr_secret)

unfoldable pub to_slow_round : Handle → RecordModifier → List ℕ → ℕ → Proc (List ℕ)
to_slow_round h mode recbuf d = do
  rec ← load d
  (precord, recbuf') ← fetch h mode recbuf rec
  compute_flags precord d
  error_check (sync_record h (some d) precord mode)
  pure recbuf'

unfoldable pub to_slow_loop : ℕ → Handle → RecordModifier → Option ℕ → List ℕ → Proc (Unit {0})
to_slow_loop zero h mode drecord recbuf = out_of_fuel
to_slow_loop (suc fuel) h mode drecord recbuf = do
  (code, following) ← call_pointer (for_each drecord)
  when_some (next_record code following)
      λ d. do recbuf' ← to_slow_round h mode recbuf d; to_slow_loop fuel h mode (some d) recbuf'

unfoldable pub merge_to_slow : ℕ → Handle → RecordModifier → Proc ℤ
merge_to_slow fuel h mode = procedure do
  modify_queue (λ _. empty_queue)
  to_slow_loop fuel h mode none []
  error_check (merge_process h mode)
