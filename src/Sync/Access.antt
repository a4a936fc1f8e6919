-- ===== src/Sync/Access.antt =====
-- Which calls the operations of libpisync/sync.c make: none on the side that they must leave alone,
-- and none through a NULL pointer.
use pilot_link.Base.{ℕ, Option, List, [], ◌∷◌, ◌++◌, ◌≡◌, refl, ap, All}
use pilot_link.Base.Int.{ℤ}
use pilot_link.Sync.Types.{
  PilotRecord, RecordModifier, pilot, desktop, Handle, Call, dlp_clean_up_database,
  dlp_reset_sync_flags, dlp_close_db, World, Env, after,
}
use pilot_link.Sync.Record.{sync_record}
use pilot_link.Sync.Session.{sync_copy_from_pilot, sync_merge_from_pilot, sync_merge_to_pilot}
use pilot_link.Sync.Proc.{on_pilot}
use pilot_link.Sync.Closing.{closed}
use pilot_link.Sync.Keeps.{Ends, on}
use pilot_link.Sync.Invariant.{Invariant, Permitted, Keeps-sync_record}
use pilot_link.Sync.Loops.{Loops}
use pilot_link.Sync.Sessions.{
  Ends-sync_copy_from_pilot, Ends-sync_merge_from_pilot, Ends-sync_merge_to_pilot,
}

-- The calls made between two states are permitted.
abbrev pub MadeOnly : RecordModifier → World → World → Type 0
MadeOnly mode w w' = (cs : List Call) × (w'.trace ≡ cs ++ w.trace) × All (Permitted mode) cs

MadeOnly-Invariant :
    (env : Env) (mode : RecordModifier) (w : World) → Invariant env mode (MadeOnly mode w)
unfolding after
MadeOnly-Invariant env mode w = record {
  called = λ c w' ok made. (c ∷ made.0, ap (◌∷◌ c) made.1, (ok, made.2));
  stored = λ m w' made. made;
  pushed = λ item w' made. made;
  emptied = λ w' made. made;
}

module _ {env : Env} {mode : RecordModifier} {P : World → Type 0} (inv : Invariant env mode P) where
  -- An invariant that no fuel bounds.
  pub unbounded : Loops env mode Unit (λ _. P) (λ _ _. Unit)
  unbounded = record {
    invariant = λ n. inv;
    spent = λ w k. tt;
    no_room = λ i room. tt;
    weaken = λ n w k. k;
    read_next = λ n w h e k. inv.called _ w tt k;
    read_each = λ n w prior d e k. inv.called _ w tt k;
    read_modified = λ n w prior d e k. inv.called _ w tt k;
    read_index = λ n i w h e room. tt;
  }

-- The calls of a session: those that are permitted, and at last those that close the database.
abbrev pub MadeAndClosed : RecordModifier → World → World → Type 0
MadeAndClosed mode w w' =
    (h : Handle) × (cs : List Call) × (w'.trace
      ≡ dlp_close_db h ∷ dlp_reset_sync_flags h ∷ dlp_clean_up_database h ∷ (cs ++ w.trace))
    × All (Permitted mode) cs

close_after :
    (env : Env) (mode : RecordModifier) (w : World) (h : Handle) (w' : World)
    → MadeOnly mode w w'
    → MadeAndClosed mode w (closed env h w')
unfolding after
close_after env mode w h w' (cs, e, made) =
    let ending =
      λ (t : List Call). dlp_close_db h ∷ dlp_reset_sync_flags h ∷ dlp_clean_up_database h ∷ t in
    (h, cs, ap ending e, made)

close_on_pilot :
    (env : Env) (w : World) (h : Handle) (w' : World)
    → MadeOnly pilot w w'
    → MadeOnly pilot w (closed env h w')
close_on_pilot env w h w' made =
    let inv = MadeOnly-Invariant env pilot w in
    inv.called (dlp_close_db h) _ tt (
      inv.called (dlp_reset_sync_flags h) _ tt
        (inv.called (dlp_clean_up_database h) w' (unfold on_pilot in on) made))

module _ (env : Env) (fuel : ℕ) (r : ℤ) (w : World) where
  -- Whatever the conduit and the device answer, sync_MergeFromPilot reads through no NULL pointer
  -- and makes no call that writes a record to the device or deletes one there, but for the
  -- dlp_CleanUpDatabase of close_db at its end, by which the device deletes the records that are
  -- marked as archived or deleted.
  pub sync_merge_from_pilot-MadeAndClosed :
      Ends Unit (MadeAndClosed desktop w) (sync_merge_from_pilot fuel env r w)
  sync_merge_from_pilot-MadeAndClosed =
      Ends-sync_merge_from_pilot (unbounded (MadeOnly-Invariant env desktop w)) _ fuel r w tt
        (close_after env desktop w) ([], refl, tt)

  -- Whatever the conduit and the device answer, sync_MergeToPilot calls no callback that adds,
  -- replaces, deletes, archives or marks a desktop record, and reads through no NULL pointer.
  pub sync_merge_to_pilot-MadeOnly : Ends Unit (MadeOnly pilot w) (sync_merge_to_pilot fuel env r w)
  sync_merge_to_pilot-MadeOnly =
      Ends-sync_merge_to_pilot (unbounded (MadeOnly-Invariant env pilot w)) _ fuel r w
        (close_on_pilot env w) ([], refl, tt)

  -- Whatever the conduit and the device answer, sync_CopyFromPilot reads through no NULL pointer
  -- and makes no call that writes a record to the device or deletes one there, but for the
  -- dlp_CleanUpDatabase of close_db at its end, by which the device deletes the records that are
  -- marked as archived or deleted.
  pub sync_copy_from_pilot-MadeAndClosed :
      Ends Unit (MadeAndClosed desktop w) (sync_copy_from_pilot fuel env r w)
  sync_copy_from_pilot-MadeAndClosed =
      Ends-sync_copy_from_pilot (unbounded (MadeOnly-Invariant env desktop w)) _ fuel r w tt
        (close_after env desktop w) ([], refl, tt)

-- sync_record, for any two records or none, under any modifier: it ends, it reads through no NULL
-- pointer, and it makes only calls that the modifier permits.
pub sync_record-MadeOnly :
    (env : Env) (mode : RecordModifier) (h : Handle) (drecord : Option ℕ)
    (precord : Option PilotRecord) (r : ℤ) (w : World)
    → Ends ⊥ (MadeOnly mode w) (sync_record h drecord precord mode env r w)
sync_record-MadeOnly env mode h drecord precord r w =
    (Keeps-sync_record (MadeOnly-Invariant env mode w) h drecord precord).at r w ([], refl, tt)
