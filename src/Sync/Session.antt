-- ===== src/Sync/Session.antt =====
-- libpisync/sync.c: the operations that a conduit calls, each a session on the device's database.
use pilot_link.Base.{ℕ, zero, suc, ◌+◌, not, Option, none, some, ◌==◌, if◌then◌else◌}
use pilot_link.Base.Int.{ℤ, is_neg}
use pilot_link.Sync.Types.{
  pilot, desktop, both, Handle, pre, post, for_each, add_record, delete_record, dlp_delete_record,
  dlp_read_by_index, World,
}
use pilot_link.Sync.Proc.{
  Flow, next, exit, fault, stuck, Proc, ◌>>=◌, ◌>>◌, pure, out_of_fuel, call, call_number,
  call_pointer, call_record, return_now, settle, when, error_check, check_out, procedure,
}
use pilot_link.Sync.Store.{store_record_on_pilot, open_db, close_db, is_zero, when_some}
use pilot_link.Sync.Merge.{
  fit, next_record, is_positive, merge_from_fast, merge_from_slow, merge_to_fast, merge_to_slow,
}

-- `goto cleanup` and falling through to it: the cleanup runs, and `result` is what it was.
abbrev pub clean_up : Flow (Unit {0}) → (ℤ → World → Flow (Unit {0})) → Flow (Unit {0})
clean_up (next _ r w) k = k r w
clean_up (exit r w) k = k r w
clean_up fault k = fault
clean_up stuck k = stuck

unfoldable pub with_cleanup : Proc (Unit {0}) → Proc (Unit {0}) → Proc (Unit {0})
with_cleanup m cleanup env r w = clean_up (m env r w) (λ r' w'. cleanup env r' w')

-- `dbhandle` is set by a database that was opened.
abbrev pub opened_handle : ℤ → ℕ → Handle
opened_handle code h = if is_neg code then none else some h

unfoldable pub copy_to_loop : ℕ → Handle → Option ℕ → Proc (Unit {0})
copy_to_loop zero h drecord = out_of_fuel
copy_to_loop (suc fuel) h drecord = do
  (code, following) ← call_pointer (for_each drecord)
  when_some (next_record code following)
      λ d. do error_check (store_record_on_pilot h d both); copy_to_loop fuel h (some d)

unfoldable pub sync_copy_to_pilot : ℕ → Proc ℤ
sync_copy_to_pilot fuel = procedure do
  (code, opened) ← open_db
  let h = opened_handle code opened
  with_cleanup
      (do
        settle code
        check_out (call_number (pre h))
        error_check (call (dlp_delete_record h 1 0))
        copy_to_loop fuel h none
        error_check (call (post h)))
      (do close_db h; pure tt)

unfoldable pub delete_loop : ℕ → Option ℕ → Proc (Unit {0})
delete_loop zero drecord = out_of_fuel
delete_loop (suc fuel) drecord = do
  (code, following) ← call_pointer (for_each drecord)
  when_some (next_record code following)
      λ d. do error_check (call (delete_record d)); delete_loop fuel (some d)

unfoldable pub read_loop : ℕ → ℕ → Handle → Proc (Unit {0})
read_loop zero i h = out_of_fuel
read_loop (suc fuel) i h = do
  (code, rec) ← call_record (dlp_read_by_index h i)
  if not (is_positive code)
      then pure tt
      else do error_check (call (add_record (fit rec))); read_loop fuel (i + 1) h

unfoldable pub sync_copy_from_pilot : ℕ → Proc ℤ
sync_copy_from_pilot fuel = procedure do
  (code, opened) ← open_db
  let h = opened_handle code opened
  with_cleanup
      (do
        settle code
        check_out (call_number (pre h))
        delete_loop fuel none
        read_loop fuel 0 h
        error_check (call (post h)))
      (do close_db h; pure tt)

unfoldable pub sync_merge_from_pilot : ℕ → Proc ℤ
sync_merge_from_pilot fuel = procedure do
  (code, opened) ← open_db
  let h = opened_handle code opened
  with_cleanup
      (do
        settle code
        slow ← check_out (call_number (pre h))
        error_check
            (if slow == 0 then merge_from_fast fuel h desktop else merge_from_slow fuel h desktop)
        error_check (call (post h)))
      (do close_db h; pure tt)

-- What the merge returns is dropped here.
unfoldable pub sync_merge_to_pilot : ℕ → Proc ℤ
sync_merge_to_pilot fuel = procedure do
  (code, opened) ← open_db
  let h = opened_handle code opened
  with_cleanup
      (do
        settle code
        slow ← check_out (call_number (pre h))
        if slow == 0 then merge_to_fast fuel h pilot else merge_to_slow fuel h pilot
        error_check (call (post h)))
      (do close_db h; pure tt)

-- Here any code of `Pre` but 0 ends the session.
unfoldable pub sync_synchronize : ℕ → Proc ℤ
sync_synchronize fuel = procedure do
  (code, opened) ← open_db
  let h = opened_handle code opened
  with_cleanup
      (do
        settle code
        (code, slow) ← call_number (pre h)
        settle code
        when (not (is_zero code)) (return_now code)
        error_check (if slow == 0 then merge_from_fast fuel h both else merge_from_slow fuel h both)
        error_check (if slow == 0 then merge_to_fast fuel h both else merge_to_slow fuel h both)
        error_check (call (post h)))
      (do close_db h; pure tt)
