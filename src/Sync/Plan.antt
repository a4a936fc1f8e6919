-- ===== src/Sync/Plan.antt =====
-- The synchronisation cases as a table over what happened to the record on each side, apart from
-- the chain of tests in libpisync/sync.c.
use pilot_link.Base.{ℕ, Bool, true, false, Option, none, some, List, [], ◌∷◌, if◌then◌else◌}
use pilot_link.Sync.Types.{
  Handle, PilotRecord, Call, add_record, replace_record, delete_record, archive_record,
  match_record, free_match, set_status_cleared, compare_records, dlp_write_record,
  dlp_delete_record, has_flag, attr_deleted, attr_dirty, attr_archived, RecordQueue, from_desktop,
}
use pilot_link.Sync.Store.{push}

-- A deleted record counts as removed, dirty or not.
pub data Change : Type 0 where
  clean modified removed : Change

pub record Status : Type 0 where
  pub archived : Bool
  pub change : Change

unfoldable pub status : ℕ → Status
status flags = record {
  archived = has_flag flags attr_archived;
  change =
      if has_flag flags attr_deleted
      then removed
      else if has_flag flags attr_dirty
      then modified
      else clean;
}

-- The calls, newest first, and whether the desktop record is queued for the device.
pub record Plan : Type 0 where
  pub steps : List Call
  pub requeue : Bool

abbrev pub plan_of : List Call → Bool → Plan
plan_of steps requeue = record { steps = steps; requeue = requeue }

-- What the conduit and the device answer: whether the two records compare equal, the id of the
-- record written to the device, and the desktop record matched with a device record.
pub record Answers : Type 0 where
  pub same : Bool
  pub id : ℕ
  pub matched : Option ℕ

module _ (h : Handle) (p : PilotRecord) (d : ℕ) where
  -- A device record that was modified, against the desktop's archived bit and change; `same` says that
  -- the two compare equal.
  unfoldable pub modified_plan : Bool → Change → Bool → Plan
  modified_plan true modified true =
      plan_of (set_status_cleared d ∷ dlp_delete_record h 0 p.rec_id ∷ compare_records p d ∷ [])
        false
  modified_plan true modified false =
      plan_of
        (set_status_cleared d ∷ replace_record d p ∷ archive_record d 0 ∷ compare_records p d ∷ [])
        false
  modified_plan true clean same =
      plan_of (set_status_cleared d ∷ replace_record d p ∷ archive_record d 0 ∷ []) false
  modified_plan true removed same =
      plan_of (set_status_cleared d ∷ replace_record d p ∷ archive_record d 0 ∷ []) false
  modified_plan false modified true =
      plan_of (set_status_cleared d ∷ compare_records p d ∷ []) false
  modified_plan false modified false =
      plan_of (set_status_cleared d ∷ add_record p ∷ compare_records p d ∷ []) true
  modified_plan false clean same = plan_of (set_status_cleared d ∷ replace_record d p ∷ []) false
  modified_plan false removed same = plan_of (set_status_cleared d ∷ replace_record d p ∷ []) false

  -- A device record that was deleted.
  unfoldable pub removed_plan : Change → Plan
  removed_plan modified = plan_of (set_status_cleared d ∷ []) true
  removed_plan clean =
      plan_of (set_status_cleared d ∷ dlp_delete_record h 0 p.rec_id ∷ delete_record d ∷ []) false
  removed_plan removed =
      plan_of (set_status_cleared d ∷ dlp_delete_record h 0 p.rec_id ∷ delete_record d ∷ []) false

  -- A device record that was left alone.
  unfoldable pub clean_plan : Bool → Change → Plan
  clean_plan true change =
      plan_of (set_status_cleared d ∷ dlp_delete_record h 0 p.rec_id ∷ []) false
  clean_plan false modified =
      plan_of (set_status_cleared d ∷ dlp_delete_record h 0 p.rec_id ∷ []) true
  clean_plan false removed =
      plan_of (set_status_cleared d ∷ dlp_delete_record h 0 p.rec_id ∷ delete_record d ∷ []) false
  clean_plan false clean = plan_of [] false

  unfoldable pub active_plan : Change → Bool → Change → Bool → Plan
  unfolding modified_plan removed_plan clean_plan
  active_plan modified archived change same = modified_plan archived change same
  active_plan removed archived change same = removed_plan change
  active_plan clean archived change same = clean_plan archived change

  -- A device record that was archived: the desktop's removed record comes back to be archived, its
  -- clean one is archived, and a modified one meets the device's.
  unfoldable pub archived_plan : ℕ → Change → Bool → Change → Bool → Plan
  unfolding active_plan
  archived_plan id own archived removed same =
      plan_of (set_status_cleared d ∷ archive_record d 1 ∷ replace_record d p ∷ []) false
  archived_plan id own true clean same = active_plan own true clean same
  archived_plan id own true modified same = active_plan own true modified same
  archived_plan id own false clean same = plan_of (archive_record d 1 ∷ []) false
  archived_plan id modified false modified true =
      plan_of
        (set_status_cleared d
          ∷ dlp_delete_record h 0 p.rec_id
          ∷ archive_record d 1
          ∷ compare_records p d
          ∷ [])
        false
  archived_plan id modified false modified false =
      plan_of
        (set_status_cleared d
          ∷ add_record (record p { rec_id = id })
          ∷ dlp_write_record h 0 0 p.cat_id p.buffer
          ∷ compare_records p d
          ∷ [])
        true
  archived_plan id removed false modified same =
      plan_of (set_status_cleared d ∷ dlp_delete_record h 0 p.rec_id ∷ []) true
  archived_plan id clean false modified same =
      plan_of (set_status_cleared d ∷ dlp_delete_record h 0 p.rec_id ∷ []) true

-- A device record with no desktop record is added, unless it came and went between two syncs; an
-- archived one is added, and the desktop record that it matches then is archived.
unfoldable pub unmatched_plan : PilotRecord → Option ℕ → Status → Plan
unmatched_plan p matched own = alone matched own.archived own.change
  where
    alone : Option ℕ → Bool → Change → Plan
    alone (some d) true change =
        plan_of (free_match d ∷ archive_record d 1 ∷ match_record p none ∷ add_record p ∷ []) false
    alone none true change = plan_of (match_record p none ∷ add_record p ∷ []) false
    alone matched false removed = plan_of [] false
    alone matched false modified = plan_of (add_record p ∷ []) false
    alone matched false clean = plan_of (add_record p ∷ []) false

abbrev paired_plan : Handle → PilotRecord → ℕ → Answers → Status → Status → Plan
paired_plan h p d a own other =
    if own.archived
    then archived_plan h p d a.id own.change other.archived other.change a.same
    else active_plan h p d own.change other.archived other.change a.same

unfoldable pub plan : Handle → Option PilotRecord → Option (ℕ × Status) → Answers → Plan
unfolding archived_plan active_plan unmatched_plan
plan h none none a = plan_of [] false
plan h none (some (d, other)) a = plan_of [] true
plan h (some p) none a = unmatched_plan p a.matched (status p.flags)
plan h (some p) (some (d, other)) a = paired_plan h p d a (status p.flags) other

abbrev pub queued : Bool → Option ℕ → RecordQueue → RecordQueue
queued true (some d) q = push (from_desktop d) q
queued true none q = q
queued false drecord q = q
