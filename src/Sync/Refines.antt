-- ===== src/Sync/Refines.antt =====
-- `sync_record` of libpisync/sync.c against the table of `Plan`.
use pilot_link.Base.{ℕ, Bool, true, false, Option, none, some, [], ◌∷◌, ◌++◌, ◌≡◌, arith}
use pilot_link.Base.Int.{ℤ, is_neg}
use pilot_link.Sync.Types.{
  PilotRecord, both, Handle, compare_records, add_record, replace_record, archive_record,
  match_record, free_match, set_status_cleared, delete_record, dlp_write_record, dlp_delete_record,
  World, Env, after,
}
use pilot_link.Sync.Proc.{
  next, ◌>>=◌, pure, call, call_pointer, call_number, check_out, return_now, set_result, settle,
  error_check, desktop_check, pilot_check, pilot_check_out, on_desktop, on_pilot, modify_queue,
  procedure, deref, load, store,
}
use pilot_link.Sync.Store.{is_zero, add_record_queue, delete_both}
use pilot_link.Sync.Record.{
  Branch, Side, side, branch, apply, resolve, clear, drop_from_pilot, apply_conflict, desktop_side,
  sync_record, non_null,
}
use pilot_link.Sync.Plan.{Plan, plan_of, plan, queued, status, Status, Answers}

-- What a branch does when nothing fails, where `asked` is the desktop record that MatchRecord is
-- given.
module _ (h : Handle) (p : PilotRecord) (d : ℕ) (asked : Option ℕ) (a : Answers) where
  archived_new : Option ℕ → Plan
  archived_new (some e) =
      plan_of (free_match e ∷ archive_record e 1 ∷ match_record p asked ∷ add_record p ∷ []) false
  archived_new none = plan_of (match_record p asked ∷ add_record p ∷ []) false

  branch_plan : Branch → Bool → Plan
  branch_plan Branch.gone same = plan_of [] false
  branch_plan Branch.add_new same = plan_of (add_record p ∷ []) false
  branch_plan Branch.queue_new same = plan_of [] true
  branch_plan Branch.archive_deleted same =
      plan_of (set_status_cleared d ∷ archive_record d 1 ∷ replace_record d p ∷ []) false
  branch_plan Branch.archive_clean same = plan_of (archive_record d 1 ∷ []) false
  branch_plan Branch.archive_new same = archived_new a.matched
  branch_plan Branch.archive_both_changed true =
      plan_of
        (set_status_cleared d
          ∷ dlp_delete_record h 0 p.rec_id
          ∷ archive_record d 1
          ∷ compare_records p d
          ∷ [])
        false
  branch_plan Branch.archive_both_changed false =
      plan_of
        (set_status_cleared d
          ∷ add_record (record p { rec_id = a.id })
          ∷ dlp_write_record h 0 0 p.cat_id p.buffer
          ∷ compare_records p d
          ∷ [])
        true
  branch_plan Branch.archive_desktop_changed same =
      plan_of (set_status_cleared d ∷ dlp_delete_record h 0 p.rec_id ∷ []) true
  branch_plan Branch.unarchive_changed true =
      plan_of (set_status_cleared d ∷ dlp_delete_record h 0 p.rec_id ∷ compare_records p d ∷ [])
        false
  branch_plan Branch.unarchive_changed false =
      plan_of
        (set_status_cleared d ∷ replace_record d p ∷ archive_record d 0 ∷ compare_records p d ∷ [])
        false
  branch_plan Branch.unarchive same =
      plan_of (set_status_cleared d ∷ replace_record d p ∷ archive_record d 0 ∷ []) false
  branch_plan Branch.both_changed true =
      plan_of (set_status_cleared d ∷ compare_records p d ∷ []) false
  branch_plan Branch.both_changed false =
      plan_of (set_status_cleared d ∷ add_record p ∷ compare_records p d ∷ []) true
  branch_plan Branch.changed_deleted same =
      plan_of (set_status_cleared d ∷ replace_record d p ∷ []) false
  branch_plan Branch.changed same = plan_of (set_status_cleared d ∷ replace_record d p ∷ []) false
  branch_plan Branch.deleted_changed same = plan_of (set_status_cleared d ∷ []) true
  branch_plan Branch.deleted same =
      plan_of (set_status_cleared d ∷ dlp_delete_record h 0 p.rec_id ∷ delete_record d ∷ []) false
  branch_plan Branch.archived_desktop same =
      plan_of (set_status_cleared d ∷ dlp_delete_record h 0 p.rec_id ∷ []) false
  branch_plan Branch.desktop_changed same =
      plan_of (set_status_cleared d ∷ dlp_delete_record h 0 p.rec_id ∷ []) true
  branch_plan Branch.desktop_deleted same =
      plan_of (set_status_cleared d ∷ dlp_delete_record h 0 p.rec_id ∷ delete_record d ∷ []) false
  branch_plan Branch.unchanged same = plan_of [] false

abbrev pub Follows : Plan → Option ℕ → World → World → Type 0
Follows pl drecord w w' =
    (w'.trace ≡ pl.steps ++ w.trace) × (w'.queue ≡ queued pl.requeue drecord w.queue)

-- The answers at the points where the code asks.
abbrev pub answers : Env → Handle → World → PilotRecord → Option ℕ → Answers
answers env h w p none = record {
  same = false;
  id = 0;
  matched = env.pointer (after env w (add_record p)) (match_record p none);
}
answers env h w p (some d) = record {
  same = is_zero (env.code w (compare_records p d));
  id = env.number (after env w (compare_records p d)) (dlp_write_record h 0 0 p.cat_id p.buffer);
  matched = env.pointer (after env w (add_record p)) (match_record p (some d));
}

module _ (env : Env) (h : Handle) (p : PilotRecord) (d : ℕ) (v r : ℤ) (w w' : World) where
  apply-branch_plan :
      (b : Branch)
      → procedure (apply h both (some p) (some d) b) env r w ≡ next v r w'
      → is_neg v ≡ false
      → let a = answers env h w p (some d) in
        Follows (branch_plan h p d (some d) a b a.same) (some d) w w'
  unfolding procedure apply apply_conflict resolve clear drop_from_pilot delete_both
      add_record_queue non_null ◌>>=◌ deref pure desktop_check pilot_check pilot_check_out check_out
      on_desktop on_pilot error_check call call_pointer call_number settle return_now set_result
      modify_queue load store after branch_plan archived_new
  apply-branch_plan Branch.gone e g = ground arith
  apply-branch_plan _ e g = ground arith

  apply_unmatched-branch_plan :
      (archived deleted dirty : Bool)
      → let ps : Side = record {
        present = true;
        archived = archived;
        deleted = deleted;
        changed = dirty;
      } in
        procedure (apply h both (some p) none (branch ps (side none))) env r w ≡ next v r w'
        → is_neg v ≡ false
        → Follows
            (branch_plan h p d none (answers env h w p none) (branch ps (side none)) false)
            none
            w
            w'
  unfolding procedure apply branch side non_null ◌>>=◌ deref pure desktop_check check_out on_desktop
      error_check call call_pointer settle return_now set_result after branch_plan archived_new
  apply_unmatched-branch_plan true x c e g = ground arith
  apply_unmatched-branch_plan false true c e g = ground arith
  apply_unmatched-branch_plan false false c e g = ground arith

-- The chain of tests and the table agree, for every pair of flags.
branch-plan :
    (h : Handle) (p : PilotRecord) (d fd id : ℕ) (matched : Option ℕ) (same : Bool)
    → let a : Answers = record { same = same; id = id; matched = matched } in
      branch_plan h p d (some d) a (branch (side (some p.flags)) (side (some fd))) same
      ≡ plan h (some p) (some (d, status fd)) a
unfolding branch side branch_plan plan status
branch-plan h p d fd id matched true = ground arith
branch-plan h p d fd id matched false = ground arith

branch-plan_unmatched :
    (h : Handle) (p : PilotRecord) (d id : ℕ) (same : Bool) (matched : Option ℕ)
    → let a : Answers = record { same = same; id = id; matched = matched } in
      branch_plan h p d none a (branch (side (some p.flags)) (side none)) false
      ≡ plan h (some p) none a
unfolding branch side branch_plan archived_new plan status
branch-plan_unmatched h p d id same none = ground arith
branch-plan_unmatched h p d id same (some e) = ground arith

unmatched-plan :
    (env : Env) (h : Handle) (p : PilotRecord) (v r : ℤ) (w w' : World)
    → procedure (apply h both (some p) none (branch (side (some p.flags)) (side none))) env r w
      ≡ next v r w'
    → is_neg v ≡ false
    → Follows
        (branch_plan h p 0 none
          (answers env h w p none)
          (branch (side (some p.flags)) (side none))
          false)
        none
        w
        w'
unfolding side
unmatched-plan env h p v r w w' e g = apply_unmatched-branch_plan env h p 0 v r w w' _ _ _ e g

new-plan :
    (env : Env) (h : Handle) (d fd : ℕ) (a : Answers) (v r : ℤ) (w w' : World)
    → procedure (apply h both none (some d) (branch (side none) (side (some fd)))) env r w
      ≡ next v r w'
    → Follows (plan h none (some (d, status fd)) a) (some d) w w'
unfolding procedure apply branch side add_record_queue modify_queue plan
new-plan env h d fd a v r w w' e = ground arith

nothing-plan :
    (env : Env) (h : Handle) (a : Answers) (v r : ℤ) (w w' : World)
    → procedure (apply h both none none (branch (side none) (side none))) env r w ≡ next v r w'
    → Follows (plan h none none a) none w w'
unfolding procedure apply branch side pure plan
nothing-plan env h a v r w w' e = ground arith

abbrev pub desktop_flags : World → Option ℕ → Option (ℕ × Status)
desktop_flags w none = none
desktop_flags w (some d) = some (d, status (w.desk d).flags)

-- No question is asked about a missing device record.
abbrev pub all_answers : Env → Handle → World → Option PilotRecord → Option ℕ → Answers
all_answers env h w none drecord = record { same = false; id = 0; matched = none }
all_answers env h w (some p) drecord = answers env h w p drecord

-- With no error and under the modifier BOTH, sync_record makes exactly the calls that the table
-- lists for the states of the two records, with these records as their arguments and in that order,
-- and queues the desktop record exactly where the table says so; for any two records, either of
-- them possibly missing.
pub sync_record-plan :
    (env : Env) (h : Handle) (drecord : Option ℕ) (precord : Option PilotRecord) (v r : ℤ)
    (w w' : World)
    → sync_record h drecord precord both env r w ≡ next v r w'
    → is_neg v ≡ false
    → Follows
        (plan h precord (desktop_flags w drecord) (all_answers env h w precord drecord))
        drecord
        w
        w'
unfolding sync_record desktop_side ◌>>=◌ procedure pure load
sync_record-plan env h none none v r w w' e g = nothing-plan env h _ v r w w' e
sync_record-plan env h none (some p) v r w w' e g =
    let a = answers env h w p none in
    rw (← branch-plan_unmatched h p 0 a.id a.same a.matched) (unmatched-plan env h p v r w w' e g)
sync_record-plan env h (some d) none v r w w' e g = new-plan env h d _ _ v r w w' e
sync_record-plan env h (some d) (some p) v r w w' e g =
    let a = answers env h w p (some d) in
    rw (← branch-plan h p d (w.desk d).flags a.id a.matched a.same)
      (apply-branch_plan env h p d v r w w' _ e g)
