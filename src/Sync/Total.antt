-- ===== src/Sync/Total.antt =====
-- Every session of libpisync/sync.c ends, on a conduit and a device that run out of records.
use pilot_link.Base.{ℕ, ◌+◌, ◌≤◌, ◌<◌, Option, some, true, false, ◌≡◌, refl, arith}
use pilot_link.Base.Int.{ℤ, is_neg}
use pilot_link.Sync.Types.{
  DesktopRecord, RecordModifier, pilot, desktop, both, Handle, Call, RecordQueue, for_each,
  for_each_modified, dlp_read_next_modified, dlp_read_by_index, dlp_clean_up_database,
  dlp_reset_sync_flags, dlp_close_db, World, Env, after,
}
use pilot_link.Sync.Proc.{Flow, next, exit, fault, stuck, Proc, procedure, returned, on_pilot}
use pilot_link.Sync.Merge.{next_record, is_positive}
use pilot_link.Sync.Course.{
  session, copy_to_pilot_body, copy_from_pilot_body, merge_from_pilot_body, merge_to_pilot_body,
  synchronize_body,
}
use pilot_link.Sync.Session.{
  sync_copy_to_pilot, sync_copy_from_pilot, sync_merge_from_pilot, sync_merge_to_pilot,
  sync_synchronize,
}
use pilot_link.Sync.Closing.{closed}
use pilot_link.Sync.Keeps.{Ends, on}
use pilot_link.Sync.Invariant.{Invariant}
use pilot_link.Sync.Loops.{Loops}
use pilot_link.Sync.Sessions.{
  Ends-sync_copy_to_pilot, Ends-sync_copy_from_pilot, Ends-sync_merge_from_pilot,
  Ends-sync_merge_to_pilot, Ends-sync_synchronize,
}

-- `remaining` records are still to be handed out: each that an iteration hands out is spent, and
-- no call brings new ones. At `limit` and above the device has no record by index.
pub record RunsOut (env : Env) (remaining : World → ℕ) (limit : ℕ) : Type 0 where
  pub bounded : (c : Call) (w : World) → remaining (after env w c) ≤ remaining w
  pub desk_apart :
      (m : ℕ → DesktopRecord) (w : World) → remaining (record w { desk = m }) ≤ remaining w
  pub queue_apart : (q : RecordQueue) (w : World) → remaining (record w { queue = q }) ≤ remaining w
  pub next_spends :
      (w : World) (h : Handle)
      → is_neg (env.code w (dlp_read_next_modified h)) ≡ false
      → remaining (after env w (dlp_read_next_modified h)) < remaining w
  pub each_spends :
      (w : World) (prior : Option ℕ) (d : ℕ)
      → next_record (env.code w (for_each prior)) (env.pointer w (for_each prior)) ≡ some d
      → remaining (after env w (for_each prior)) < remaining w
  pub modified_spends :
      (w : World) (prior : Option ℕ) (d : ℕ)
      → next_record (env.code w (for_each_modified prior)) (env.pointer w (for_each_modified prior))
        ≡ some d
      → remaining (after env w (for_each_modified prior)) < remaining w
  pub index_bound :
      (w : World) (h : Handle) (i : ℕ)
      → is_positive (env.code w (dlp_read_by_index h i)) ≡ true
      → i < limit

abbrev pub Returns : Proc ℤ → Env → ℤ → World → Type 0
Returns m env r w = (v : ℤ) × (w' : World) × (m env r w ≡ next v r w')

pub Returns-returned :
    (P : World → Type 0) (r : ℤ) (x : Flow (Unit {0}))
    → Ends ⊥ P (returned r x)
    → (v : ℤ) × (w' : World) × (returned r x ≡ next v r w')
Returns-returned P r (next _ v w) h = (v, w, refl)
Returns-returned P r (exit v w) h = (v, w, refl)
Returns-returned P r fault h = absurd h
Returns-returned P r stuck h = absurd h

module _ {env : Env} {remaining : World → ℕ} {limit : ℕ} (out : RunsOut env remaining limit) where
  below-Invariant : (mode : RecordModifier) (n : ℕ) → Invariant env mode (λ w. remaining w < n)
  below-Invariant mode n = record {
    called = λ c w ok h. omega (arith, out.bounded c w);
    stored = λ m w h. omega (arith, out.desk_apart m w);
    pushed = λ item w h. omega (arith, out.queue_apart _ w);
    emptied = λ w h. omega (arith, out.queue_apart _ w);
  }

  below-Loops :
      (mode : RecordModifier)
      → Loops env mode ⊥ (λ n w. remaining w < n) (λ n i. (i ≤ limit) × (limit < i + n))
  below-Loops mode = record {
    invariant = below-Invariant mode;
    spent = λ w h. omega arith;
    no_room = λ i h. omega arith;
    weaken = λ n w h. omega arith;
    read_next = λ n w h e k. omega (arith, out.next_spends w h e);
    read_each = λ n w prior d e k. omega (arith, out.each_spends w prior d e);
    read_modified = λ n w prior d e k. omega (arith, out.modified_spends w prior d e);
    read_index = λ n i w h e room. omega (arith, out.index_bound w h i e);
  }

  still_below : (n : ℕ) (h : Handle) (w : World) → remaining w < n → remaining (closed env h w) < n
  still_below n h w k =
      let inv = below-Invariant both n in
      inv.called (dlp_close_db h) _ tt (
        inv.called (dlp_reset_sync_flags h) _ tt
          (inv.called (dlp_clean_up_database h) w (unfold on_pilot in on) k))

  Returns-session :
      (body : Handle → Proc (Unit {0})) (fuel : ℕ) (r : ℤ) (w : World)
      → Ends ⊥ (λ w. remaining w < fuel) (session body env r w)
      → Returns (session body) env r w
  unfolding session procedure
  Returns-session body fuel r w k = Returns-returned _ r _ k

  -- With more fuel than records, each of the five sessions returns a code: it neither runs on nor
  -- reads through a NULL pointer.
  pub sync_total :
      (fuel : ℕ) (r : ℤ) (w : World)
      → remaining w < fuel
      → limit < fuel
      → Returns (sync_copy_to_pilot fuel) env r w
        × Returns (sync_copy_from_pilot fuel) env r w
        × Returns (sync_merge_from_pilot fuel) env r w
        × Returns (sync_merge_to_pilot fuel) env r w
        × Returns (sync_synchronize fuel) env r w
  unfolding session sync_copy_to_pilot sync_copy_from_pilot sync_merge_from_pilot
      sync_merge_to_pilot sync_synchronize
  sync_total fuel r w h l =
      let c = still_below fuel in
      (
        Returns-session (copy_to_pilot_body fuel) fuel r w
            (Ends-sync_copy_to_pilot (below-Loops both) (λ w. remaining w < fuel) fuel r w c h),
        Returns-session (copy_from_pilot_body fuel) fuel r w (
            Ends-sync_copy_from_pilot (below-Loops desktop) (λ w. remaining w < fuel) fuel r w
              (omega arith) c h),
        Returns-session (merge_from_pilot_body fuel) fuel r w (
            Ends-sync_merge_from_pilot (below-Loops desktop) (λ w. remaining w < fuel) fuel r w
              (omega arith) c h),
        Returns-session (merge_to_pilot_body fuel) fuel r w
            (Ends-sync_merge_to_pilot (below-Loops pilot) (λ w. remaining w < fuel) fuel r w c h),
        Returns-session (synchronize_body fuel) fuel r w (
            Ends-sync_synchronize (below-Loops both) (λ w. remaining w < fuel) fuel r w
              (omega arith) c h),
      )
