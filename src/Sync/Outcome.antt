-- ===== src/Sync/Outcome.antt =====
-- What becomes of changed records in libpisync/sync.c, and what a failed merge reports.
use pilot_link.Base.{
  ℕ, Bool, true, false, some, List, [], ◌∷◌, ◌++◌, ◌≡◌, refl, ◌∙◌, arith, if◌then◌else◌, ◌⊎◌, inl,
  inr, ap, All,
}
use pilot_link.Base.Int.{ℤ, is_neg}
use pilot_link.Sync.Types.{
  PilotRecord, RecordModifier, pilot, both, Handle, Call, QueueItem, from_desktop, prepare,
  compare_records, add_record, replace_record, delete_record, dlp_delete_record, pre, post,
  has_flag, attr_deleted, attr_dirty, attr_archived, World, Env, after,
}
use pilot_link.Sync.Proc.{
  Flow, next, exit, fault, stuck, ◌>>=◌, pure, call, call_number, call_record, ask, procedure,
  returned, continue, check_out, error_check, settle, set_result, return_now, pilot_check_out,
  desktop_check, on_pilot, on_desktop,
}
use pilot_link.Sync.Store.{is_zero, push, open_db, close_db, store_record_on_pilot}
use pilot_link.Sync.Record.{sync_record}
use pilot_link.Sync.Merge.{process_items, merge_to_fast, merge_to_slow}
use pilot_link.Sync.Course.{session}
use pilot_link.Sync.Session.{clean_up, with_cleanup, sync_merge_to_pilot}
use pilot_link.Sync.Closing.{opening}
use pilot_link.Sync.Plan.{
  Status, Change, clean, modified, removed, Answers, plan, status, modified_plan, removed_plan,
  clean_plan, active_plan, archived_plan,
}
use pilot_link.Sync.Total.{Returns-returned}
use pilot_link.Sync.Invariant.{nothing-Invariant, Keeps-store_record_on_pilot}
use mathlib.Core.List.{Memᴰ, reverse, reverse-cons, append_assoc}
use pilot_link.Sync.Refines.{answers, sync_record-plan}

-- This device record is given to the desktop, as a new record or in place of record `d`.
abbrev pub Delivered : PilotRecord → ℕ → List Call → Type 0
Delivered p d cs = Memᴰ (add_record p) cs ⊎ Memᴰ (replace_record d p) cs

abbrev pub IsNoDeletion : Call → Type 0
IsNoDeletion (delete_record _) = ⊥
IsNoDeletion (dlp_delete_record _ _ _) = ⊥
IsNoDeletion _ = Unit

modified_plan-Delivered :
    (h : Handle) (p : PilotRecord) (d : ℕ) (archived : Bool) (change : Change)
    → let cs = (modified_plan h p d archived change false).steps in
      Delivered p d cs × All IsNoDeletion cs
unfolding modified_plan
modified_plan-Delivered h p d true modified =
    (inr (Memᴰ.tail (Memᴰ.head refl)), (tt, (tt, (tt, (tt, tt)))))
modified_plan-Delivered h p d true clean = (inr (Memᴰ.tail (Memᴰ.head refl)), (tt, (tt, (tt, tt))))
modified_plan-Delivered h p d true removed =
    (inr (Memᴰ.tail (Memᴰ.head refl)), (tt, (tt, (tt, tt))))
modified_plan-Delivered h p d false modified =
    (inl (Memᴰ.tail (Memᴰ.head refl)), (tt, (tt, (tt, tt))))
modified_plan-Delivered h p d false clean = (inr (Memᴰ.tail (Memᴰ.head refl)), (tt, (tt, tt)))
modified_plan-Delivered h p d false removed = (inr (Memᴰ.tail (Memᴰ.head refl)), (tt, (tt, tt)))

-- Where the device record was only modified, the table is that of modified records.
plan-modified :
    (h : Handle) (p : PilotRecord) (d : ℕ) (other : Status) (a : Answers)
    → has_flag p.flags attr_dirty ≡ true
    → has_flag p.flags attr_deleted ≡ false
    → has_flag p.flags attr_archived ≡ false
    → plan h (some p) (some (d, other)) a ≡ modified_plan h p d other.archived other.change a.same
unfolding plan status active_plan
plan-modified h p d other a dirty kept active = rw (dirty, kept, active) refl

module _ (env : Env) (h : Handle) (d : ℕ) (p : PilotRecord) (v r : ℤ) (w w' : World)
    (run : sync_record h (some d) (some p) both env r w ≡ next v r w')
    (success : is_neg v ≡ false) where
  -- Under the modifier BOTH, where sync_record ends with no error: a device record that was changed,
  -- is neither deleted nor archived, and differs from its desktop record by the conduit's
  -- comparison reaches the desktop: among the calls made, one adds this very record or replaces
  -- that desktop record by it. None of them deletes a record on either side.
  pub change-Delivered :
      has_flag p.flags attr_dirty ≡ true
      → has_flag p.flags attr_deleted ≡ false
      → has_flag p.flags attr_archived ≡ false
      → is_zero (env.code w (compare_records p d)) ≡ false
      → (cs : List Call) × (w'.trace ≡ cs ++ w.trace) × Delivered p d cs × All IsNoDeletion cs
  change-Delivered dirty kept active differ =
      let other = status (w.desk d).flags in
      let a = answers env h w p (some d) in
      let table = modified_plan h p d other.archived other.change in
      let made =
        (sync_record-plan env h (some d) (some p) v r w w' run success).0
        ∙ ap (λ pl. pl.steps ++ w.trace)
            (plan-modified h p d other a dirty kept active ∙ ap table differ) in
      let (reached, kept_all) = modified_plan-Delivered h p d other.archived other.change in
      ((table false).steps, made, reached, kept_all)

  -- Under the modifier BOTH, where sync_record ends with no error: a desktop record that was
  -- changed, is neither deleted nor archived, and differs from its device record by the conduit's
  -- comparison is queued to be written to the device, whatever became of the device's record.
  pub change_queued :
      has_flag (w.desk d).flags attr_dirty ≡ true
      → has_flag (w.desk d).flags attr_deleted ≡ false
      → has_flag (w.desk d).flags attr_archived ≡ false
      → is_zero (env.code w (compare_records p d)) ≡ false
      → w'.queue ≡ push (from_desktop d) w.queue
  unfolding plan status modified_plan removed_plan clean_plan active_plan archived_plan
  change_queued dirty kept active differ =
      ground (arith, (sync_record-plan env h (some d) (some p) v r w w' run success).1)

-- The desktop records that were prepared for the device, newest first.
unfoldable pub prepared : List Call → List ℕ
prepared [] = []
prepared (prepare d _ ∷ cs) = d ∷ prepared cs
prepared (_ ∷ cs) = prepared cs

prepared-store_record_on_pilot :
    (env : Env) (h : Handle) (d : ℕ) (mode : RecordModifier) (v r : ℤ) (w w' : World)
    → store_record_on_pilot h d mode env r w ≡ next v r w'
    → prepared w'.trace ≡ d ∷ prepared w.trace
unfolding store_record_on_pilot procedure ◌>>=◌ pure call call_number call_record check_out settle
    set_result return_now pilot_check_out desktop_check on_pilot on_desktop error_check after
    prepared
prepared-store_record_on_pilot env h d pilot v r w w' e = ground arith
prepared-store_record_on_pilot env h d _ v r w w' e = ground arith

-- The desktop records of a queue, in its order.
abbrev pub desktop_items : List ℕ → List QueueItem
desktop_items [] = []
desktop_items (d ∷ ds) = from_desktop d ∷ desktop_items ds

returns-store_record_on_pilot :
    (env : Env) (h : Handle) (d : ℕ) (mode : RecordModifier) (r : ℤ) (w : World)
    → (v : ℤ) × (w' : World) × (store_record_on_pilot h d mode env r w ≡ next v r w')
unfolding store_record_on_pilot procedure
returns-store_record_on_pilot env h d mode r w =
    Returns-returned (λ _. Unit) r _
      ((Keeps-store_record_on_pilot (nothing-Invariant env mode) h d).at r w tt)

-- Writing out a queue of desktop records prepares each of them for the device, in the order of the
-- queue, whichever of the writes fail.
pub process_items-prepared :
    (env : Env) (h : Handle) (mode : RecordModifier) (ds : List ℕ) (r : ℤ) (w : World)
    → (w' : World) × (process_items h mode (desktop_items ds) env r w ≡ next tt r w')
      × (prepared w'.trace ≡ reverse ds ++ prepared w.trace)
unfolding process_items ◌>>=◌ pure
process_items-prepared env h mode [] r w = (w, refl, refl)
process_items-prepared env h mode (d ∷ ds) r w =
    let (v, w1, e) = returns-store_record_on_pilot env h d mode r w in
    let (w', e', all) = process_items-prepared env h mode ds r w1 in
    (
      w',
      rw e e',
      all
          ∙ rw
              (
                prepared-store_record_on_pilot env h d mode v r w w1 e,
                reverse-cons d ds,
                append_assoc,
              )
              refl,
    )

merge_drops :
    (env : Env) (h : Handle) (x : Flow (Unit {0})) (v r r' : ℤ) (w' : World)
    → returned r (
        clean_up
          (continue (returned r' x) (λ _ r w. error_check (call (post h)) env r w))
          (λ r w. (close_db h >>= λ _. pure tt) env r w))
      ≡ next v r w'
    → (w1 : World) × (v ≡ env.code w1 (post h))
unfolding error_check close_db ◌>>=◌ call pure settle set_result return_now
merge_drops env h (next _ u w) v r r' w' e = (w, ground arith)
merge_drops env h (exit u w) v r r' w' e = (w, ground arith)
merge_drops env h fault v r r' w' e = cc
merge_drops env h stuck v r r' w' e = cc

chosen_drops :
    (env : Env) (h : Handle) (slow : Bool) (fuel : ℕ) (v r r' : ℤ) (w w' : World)
    → returned r (
        clean_up
          (continue
            ((if slow then merge_to_fast fuel h pilot else merge_to_slow fuel h pilot) env r' w)
            (λ _ r w. error_check (call (post h)) env r w))
          (λ r w. (close_db h >>= λ _. pure tt) env r w))
      ≡ next v r w'
    → (w1 : World) × (v ≡ env.code w1 (post h))
unfolding merge_to_fast merge_to_slow procedure
chosen_drops env h true fuel v r r' w w' e = merge_drops env h _ v r r' w' e
chosen_drops env h false fuel v r r' w w' e = merge_drops env h _ v r r' w' e

-- Once the database is open and `Pre` has succeeded, sync_MergeToPilot returns what `Post` returns:
-- the code of the merge itself is dropped, whatever it was.
pub sync_merge_to_pilot-post :
    (env : Env) (fuel : ℕ) (v r : ℤ) (w w' : World)
    → sync_merge_to_pilot fuel env r w ≡ next v r w'
    → is_neg (env.code w (opening env)) ≡ false
    → is_neg (env.code (after env w (opening env)) (pre (some (env.number w (opening env)))))
      ≡ false
    → (w2 : World) × (v ≡ env.code w2 (post (some (env.number w (opening env)))))
unfolding sync_merge_to_pilot session procedure open_db ask call_number with_cleanup ◌>>=◌ check_out
    settle set_result pure call return_now
sync_merge_to_pilot-post env fuel v r w w' e opened ready =
    chosen_drops env _ _ fuel v r _ _ w' (rw (opened, ready) at e)
