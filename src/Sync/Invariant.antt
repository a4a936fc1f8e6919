-- ===== src/Sync/Invariant.antt =====
-- What the helpers and `sync_record` keep: every invariant of the calls that the record modifier
-- permits, of writes to desktop records and of additions to the queue.
use pilot_link.Base.{ℕ, Bool, true, false, Option, none, some, List, [], ◌∷◌}
use pilot_link.Sync.Types.{
  PilotRecord, DesktopRecord, RecordModifier, Handle, QueueItem, from_desktop, from_pilot,
  empty_queue, Call, add_record, replace_record, delete_record, archive_record, set_status_cleared,
  set_pilot_id, dlp_write_record, dlp_delete_record, dlp_clean_up_database, World, Env, after,
}
use pilot_link.Sync.Proc.{
  call, call_number, call_pointer, call_record, store, modify_queue, on_pilot, on_desktop, deref,
  ◌>>=◌, load, pure,
}
use pilot_link.Sync.Store.{
  push, add_record_queue, free_items, free_record_queue_list, delete_both, store_record_on_pilot,
}
use pilot_link.Sync.Record.{
  Branch, gone, apply, apply_conflict, resolve, clear, drop_from_pilot, side, branch, non_null,
  sync_record, desktop_side, pilot_side,
}
use pilot_link.Sync.Keeps.{
  Keeps-pure, Keeps, Keeps-bind, Keeps-get_queue, Keeps-error_check, Keeps-procedure, keeps_rules,
  IsOn, Keeps-pilot_check_out, Keeps-desktop_check,
}

-- The calls that an operation may make under a record modifier. The device's dlp_CleanUpDatabase
-- deletes the records that are marked as archived or deleted (include/pi-dlp.h).
abbrev pub Permitted : RecordModifier → Call → Type 0
Permitted mode (add_record _) = IsOn (on_desktop mode)
Permitted mode (replace_record _ _) = IsOn (on_desktop mode)
Permitted mode (delete_record _) = IsOn (on_desktop mode)
Permitted mode (archive_record _ _) = IsOn (on_desktop mode)
Permitted mode (set_status_cleared _) = IsOn (on_desktop mode)
Permitted mode (set_pilot_id _ _) = IsOn (on_desktop mode)
Permitted mode (dlp_write_record _ _ _ _ _) = IsOn (on_pilot mode)
Permitted mode (dlp_delete_record _ _ _) = IsOn (on_pilot mode)
Permitted mode (dlp_clean_up_database _) = IsOn (on_pilot mode)
Permitted mode _ = Unit

pub record Invariant (env : Env) (mode : RecordModifier) (P : World → Type 0) : Type 0 where
  pub called : (c : Call) (w : World) → Permitted mode c → P w → P (after env w c)
  pub stored : (m : ℕ → DesktopRecord) (w : World) → P w → P (record w { desk = m })
  pub pushed : (item : QueueItem) (w : World) → P w → P (record w { queue = push item w.queue })
  pub emptied : (w : World) → P w → P (record w { queue = empty_queue })

pub nothing-Invariant : (env : Env) (mode : RecordModifier) → Invariant env mode (λ _. Unit)
nothing-Invariant env mode = record {
  called = λ c w ok h. h;
  stored = λ m w h. h;
  pushed = λ item w h. h;
  emptied = λ w h. h;
}

module _ {env : Env} {mode : RecordModifier} {S : Type 0} {P : World → Type 0}
    (inv : Invariant env mode P) where
  pub Keeps-call : (c : Call) → Permitted mode c → Keeps env S P (call c)
  unfolding call
  Keeps-call c ok = record { at = λ r w h. inv.called c w ok h }

  pub Keeps-call_number : (c : Call) → Permitted mode c → Keeps env S P (call_number c)
  unfolding call_number
  Keeps-call_number c ok = record { at = λ r w h. inv.called c w ok h }

  pub Keeps-call_pointer : (c : Call) → Permitted mode c → Keeps env S P (call_pointer c)
  unfolding call_pointer
  Keeps-call_pointer c ok = record { at = λ r w h. inv.called c w ok h }

  pub Keeps-call_record : (c : Call) → Permitted mode c → Keeps env S P (call_record c)
  unfolding call_record
  Keeps-call_record c ok = record { at = λ r w h. inv.called c w ok h }

  pub Keeps-store : (d : ℕ) (rec : DesktopRecord) → Keeps env S P (store d rec)
  unfolding store
  Keeps-store d rec = record { at = λ r w h. inv.stored _ w h }

  pub Keeps-reset : Keeps env S P (modify_queue (λ _. empty_queue))
  unfolding modify_queue
  Keeps-reset = record { at = λ r w h. inv.emptied w h }

  pub Keeps-add_record_queue :
      (precord : Option PilotRecord) (d : ℕ) → Keeps env S P (add_record_queue precord (some d))
  unfolding add_record_queue modify_queue
  Keeps-add_record_queue precord d = record { at = λ r w h. inv.pushed (from_desktop d) w h }

pub ruleset call_rules = (
  keeps_rules, Keeps-call, Keeps-call_number, Keeps-call_pointer, Keeps-call_record, Keeps-store,
  Keeps-reset, Keeps-add_record_queue, tt,
)

module _ {env : Env} {mode : RecordModifier} {S : Type 0} {P : World → Type 0}
    (inv : Invariant env mode P) where
  Keeps-free_items : (items : List QueueItem) → Keeps env S P (free_items items)
  unfolding free_items
  Keeps-free_items [] = search keeps_rules
  Keeps-free_items (from_desktop d ∷ rest) =
      Keeps-bind _ _ (search call_rules) (λ _. Keeps-free_items rest)
  Keeps-free_items (from_pilot p ∷ rest) = Keeps-free_items rest

  pub Keeps-free_record_queue_list :
      (items : List QueueItem) → Keeps env S P (free_record_queue_list items)
  unfolding free_record_queue_list
  Keeps-free_record_queue_list items = Keeps-procedure _ (Keeps-free_items items)

  pub Keeps-store_record_on_pilot :
      (h : Handle) (d : ℕ) → Keeps env S P (store_record_on_pilot h d mode)
  unfolding store_record_on_pilot
  Keeps-store_record_on_pilot h d = search call_rules depth 14

  Keeps-delete_both :
      (h : Handle) (d : ℕ) (p : PilotRecord) → Keeps env S P (delete_both h (some d) (some p) mode)
  unfolding delete_both
  Keeps-delete_both h d p = search call_rules depth 14

  Keeps-apply_conflict :
      (h : Handle) (p : PilotRecord) (d : ℕ) (b : Branch) (same : Bool)
      → Keeps env S P (apply_conflict h mode p d b same)
  unfolding apply_conflict clear drop_from_pilot
  Keeps-apply_conflict h p d gone true = search call_rules depth 14
  Keeps-apply_conflict h p d _ true = search call_rules depth 14
  Keeps-apply_conflict h p d gone false = search call_rules depth 14
  Keeps-apply_conflict h p d _ _ = search call_rules depth 14

  Keeps-deref : {A : Type 0} (a : A) → Keeps env S P (deref (some a))
  unfolding deref
  Keeps-deref a = Keeps-pure a

  Keeps-non_null : (matched : Option ℕ) → Keeps env S P (non_null matched)
  unfolding non_null
  Keeps-non_null none = search keeps_rules
  Keeps-non_null (some d) = search keeps_rules

  ruleset apply_rules =
      (call_rules, Keeps-deref, Keeps-delete_both, Keeps-apply_conflict, Keeps-non_null)

  Keeps-apply :
      (h : Handle) (p : PilotRecord) (d : ℕ) (b : Branch)
      → Keeps env S P (apply h mode (some p) (some d) b)
  unfolding apply resolve clear drop_from_pilot
  Keeps-apply h p d gone = search apply_rules depth 14
  Keeps-apply h p d _ = search apply_rules depth 14

  -- A device record with no desktop record takes one of three branches.
  Keeps-apply_alone :
      (h : Handle) (p : PilotRecord) (archived deleted changed : Bool)
      → Keeps env S P (
          apply h mode (some p) none (
            branch
              (record { present = true; archived = archived; deleted = deleted; changed = changed })
              (side none)))
  unfolding apply branch side
  Keeps-apply_alone h p true deleted changed = search apply_rules depth 14
  Keeps-apply_alone h p false true changed = search apply_rules depth 14
  Keeps-apply_alone h p false false changed = search apply_rules depth 14

  Keeps-apply_unmatched :
      (h : Handle) (p : PilotRecord)
      → Keeps env S P (apply h mode (some p) none (branch (side (some p.flags)) (side none)))
  unfolding side
  Keeps-apply_unmatched h p = Keeps-apply_alone h p _ _ _

  Keeps-apply_nothing :
      (h : Handle) → Keeps env S P (apply h mode none none (branch (side none) (side none)))
  unfolding apply branch side
  Keeps-apply_nothing h = search keeps_rules

  Keeps-apply_new :
      (h : Handle) (d flags : ℕ)
      → Keeps env S P (apply h mode none (some d) (branch (side none) (side (some flags))))
  unfolding apply branch side
  Keeps-apply_new h d flags = search call_rules

  Keeps-settled :
      (h : Handle) (drecord : Option ℕ) (precord : Option PilotRecord)
      → Keeps env S P (do
        ds ← desktop_side drecord
        apply h mode precord drecord (branch (pilot_side precord) ds))
  unfolding desktop_side ◌>>=◌ load pure
  Keeps-settled h none none = record { at = (Keeps-apply_nothing h).at }
  Keeps-settled h none (some p) = record { at = (Keeps-apply_unmatched h p).at }
  Keeps-settled h (some d) none = record { at = λ r w k. (Keeps-apply_new h d _).at r w k }
  Keeps-settled h (some d) (some p) = record { at = λ r w k. (Keeps-apply h p d _).at r w k }

  -- Whatever the two records, `sync_record` reads through no NULL pointer.
  pub Keeps-sync_record :
      (h : Handle) (drecord : Option ℕ) (precord : Option PilotRecord)
      → Keeps env S P (sync_record h drecord precord mode)
  unfolding sync_record
  Keeps-sync_record h drecord precord = Keeps-procedure _ (Keeps-settled h drecord precord)
