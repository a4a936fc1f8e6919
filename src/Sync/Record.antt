-- ===== src/Sync/Record.antt =====
-- libpisync/sync.c: `sync_record`, which settles one record. Its chain of tests is `branch`, and the
-- bodies of its branches are `apply`.
use pilot_link.Base.{ℕ, Bool, true, false, not, ◌&&◌, Option, none, some, if◌then◌else◌}
use pilot_link.Base.Int.{ℤ, negsuc}
use pilot_link.Sync.Types.{
  PilotRecord, RecordModifier, Handle, has_flag, attr_deleted, attr_dirty, attr_archived,
  compare_records, add_record, replace_record, archive_record, match_record, free_match,
  set_status_cleared, dlp_write_record, dlp_delete_record,
}
use pilot_link.Sync.Proc.{
  Proc, ◌>>=◌, ◌>>◌, pure, return_now, call, call_number, call_pointer, load, store, deref,
  error_check, check_out, pilot_check, pilot_check_out, desktop_check, procedure,
}
use pilot_link.Sync.Store.{add_record_queue, delete_both, is_zero}

-- What `sync_record` reads of one side, from the record's flags if there is a record.
pub record Side : Type 0 where
  pub present : Bool
  pub archived : Bool
  pub deleted : Bool
  pub changed : Bool

unfoldable pub side : Option ℕ → Side
side none = record { present = false; archived = false; deleted = false; changed = false }
side (some flags) = record {
  present = true;
  archived = has_flag flags attr_archived;
  deleted = has_flag flags attr_deleted;
  changed = has_flag flags attr_dirty && not (has_flag flags attr_deleted);
}

-- The branches of `sync_record`, in the order of its tests.
pub data Branch : Type 0 where
  gone add_new queue_new archive_deleted archive_clean archive_new archive_both_changed : Branch
  archive_desktop_changed unarchive_changed unarchive both_changed changed_deleted changed : Branch
  deleted_changed deleted archived_desktop desktop_changed desktop_deleted unchanged : Branch

unfoldable pub branch : Side → Side → Branch
branch p d =
    if not d.present && not p.archived && p.deleted
    then gone
    else if p.present && not p.archived && not p.deleted && not d.present
    then add_new
    else if not p.present && d.present
    then queue_new
    else if p.archived && d.deleted
    then archive_deleted
    else if p.archived && not d.archived && not d.changed && d.present
    then archive_clean
    else if p.archived && not d.present
    then archive_new
    else if p.archived && p.changed && not d.archived && d.changed
    then archive_both_changed
    else if p.archived && not p.changed && not d.archived && d.changed
    then archive_desktop_changed
    else if p.changed && d.archived && d.changed
    then unarchive_changed
    else if p.changed && d.archived && not d.changed
    then unarchive
    else if p.changed && d.changed
    then both_changed
    else if p.changed && d.deleted
    then changed_deleted
    else if p.changed && not d.changed
    then changed
    else if p.deleted && d.changed
    then deleted_changed
    else if p.deleted && not d.changed
    then deleted
    else if not p.changed && d.archived
    then archived_desktop
    else if not p.changed && d.changed
    then desktop_changed
    else if not p.changed && d.deleted
    then desktop_deleted
    else unchanged

abbrev pub keep_or : Option ℕ → PilotRecord → PilotRecord
keep_or none p = p
keep_or (some id) p = record p { rec_id = id }

unfoldable pub non_null : Option ℕ → Proc ℕ
non_null none = return_now (negsuc 0)
non_null (some d) = pure d

-- dlp_DeleteRecord of the device's record, and the common ends of several branches.
unfoldable pub drop_from_pilot : Handle → RecordModifier → PilotRecord → Proc (Unit {0})
drop_from_pilot h mode p = pilot_check mode (call (dlp_delete_record h 0 p.rec_id))

unfoldable pub clear : RecordModifier → ℕ → Proc (Unit {0})
clear mode d = desktop_check mode (call (set_status_cleared d))

unfoldable pub apply_conflict :
    Handle → RecordModifier → PilotRecord → ℕ → Branch → Bool → Proc (Unit {0})
apply_conflict h mode p d archive_both_changed true = do
  desktop_check mode (call (archive_record d 1))
  drop_from_pilot h mode p
  clear mode d
apply_conflict h mode p d archive_both_changed false = do
  id ← pilot_check_out mode (call_number (dlp_write_record h 0 0 p.cat_id p.buffer))
  desktop_check mode (call (add_record (keep_or id p)))
  add_record_queue none (some d)
  clear mode d
apply_conflict h mode p d unarchive_changed true = do drop_from_pilot h mode p; clear mode d
apply_conflict h mode p d unarchive_changed false = do
  desktop_check mode (call (archive_record d 0))
  desktop_check mode (call (replace_record d p))
  clear mode d
apply_conflict h mode p d _ true = clear mode d
apply_conflict h mode p d _ false = do
  desktop_check mode (call (add_record p))
  rec ← load d
  store d (record rec { rec_id = 0 })
  add_record_queue none (some d)
  clear mode d

-- The branches that compare the two records.
unfoldable pub resolve :
    Handle → RecordModifier → Option PilotRecord → Option ℕ → Branch → Proc (Unit {0})
resolve h mode precord drecord b = do
  p ← deref precord
  d ← deref drecord
  comp ← call (compare_records p d)
  apply_conflict h mode p d b (is_zero comp)

unfoldable pub apply :
    Handle → RecordModifier → Option PilotRecord → Option ℕ → Branch → Proc (Unit {0})
apply h mode precord drecord gone = pure tt
apply h mode precord drecord add_new = do
  p ← deref precord
  desktop_check mode (call (add_record p))
apply h mode precord drecord queue_new = add_record_queue none drecord
apply h mode precord drecord archive_deleted = do
  p ← deref precord
  d ← deref drecord
  desktop_check mode (call (replace_record d p))
  desktop_check mode (call (archive_record d 1))
  clear mode d
apply h mode precord drecord archive_clean = do
  d ← deref drecord
  desktop_check mode (call (archive_record d 1))
apply h mode precord drecord archive_new = do
  p ← deref precord
  desktop_check mode (call (add_record p))
  matched ← check_out (call_pointer (match_record p drecord))
  d ← non_null matched
  desktop_check mode (call (archive_record d 1))
  error_check (call (free_match d))
apply h mode precord drecord archive_both_changed =
    resolve h mode precord drecord archive_both_changed
apply h mode precord drecord archive_desktop_changed = do
  p ← deref precord
  drop_from_pilot h mode p
  add_record_queue none drecord
  d ← deref drecord
  clear mode d
apply h mode precord drecord unarchive_changed = resolve h mode precord drecord unarchive_changed
apply h mode precord drecord unarchive = do
  d ← deref drecord
  desktop_check mode (call (archive_record d 0))
  p ← deref precord
  desktop_check mode (call (replace_record d p))
  clear mode d
apply h mode precord drecord both_changed = resolve h mode precord drecord both_changed
apply h mode precord drecord changed_deleted = do
  p ← deref precord
  d ← deref drecord
  desktop_check mode (call (replace_record d p))
  clear mode d
apply h mode precord drecord changed = do
  p ← deref precord
  d ← deref drecord
  desktop_check mode (call (replace_record d p))
  clear mode d
apply h mode precord drecord deleted_changed = do
  add_record_queue none drecord
  d ← deref drecord
  clear mode d
apply h mode precord drecord deleted = do
  desktop_check mode (delete_both h drecord precord mode)
  d ← deref drecord
  clear mode d
apply h mode precord drecord archived_desktop = do
  p ← deref precord
  drop_from_pilot h mode p
  d ← deref drecord
  clear mode d
apply h mode precord drecord desktop_changed = do
  p ← deref precord
  drop_from_pilot h mode p
  add_record_queue none drecord
  d ← deref drecord
  clear mode d
apply h mode precord drecord desktop_deleted = do
  desktop_check mode (delete_both h drecord precord mode)
  d ← deref drecord
  clear mode d
apply h mode precord drecord unchanged = pure tt

abbrev pub pilot_side : Option PilotRecord → Side
pilot_side none = side none
pilot_side (some p) = side (some p.flags)

-- The flags of the desktop record are read from its memory.
unfoldable pub desktop_side : Option ℕ → Proc Side
desktop_side none = pure (side none)
desktop_side (some d) = do rec ← load d; pure (side (some rec.flags))

unfoldable pub sync_record : Handle → Option ℕ → Option PilotRecord → RecordModifier → Proc ℤ
sync_record h drecord precord mode =
    procedure
      do ds ← desktop_side drecord; apply h mode precord drecord (branch (pilot_side precord) ds)
