-- ===== src/Sync/Course.antt =====
-- What the five operations of libpisync/sync.c share, for the proofs about all of them: each opens the
-- database, and its body ends in the same cleanup.
use pilot_link.Base.{ℕ, not, none, ◌==◌, if◌then◌else◌}
use pilot_link.Base.Int.{ℤ}
use pilot_link.Sync.Types.{pilot, desktop, both, Handle, pre, post, dlp_delete_record}
use pilot_link.Sync.Proc.{
  Proc, ◌>>=◌, ◌>>◌, pure, call, call_number, return_now, settle, when, error_check, check_out,
  procedure,
}
use pilot_link.Sync.Store.{open_db, close_db, is_zero}
use pilot_link.Sync.Merge.{merge_from_fast, merge_from_slow, merge_to_fast, merge_to_slow}
use pilot_link.Sync.Session.{with_cleanup, opened_handle, copy_to_loop, delete_loop, read_loop}

unfoldable pub session : (Handle → Proc (Unit {0})) → Proc ℤ
session body = procedure do
  (code, opened) ← open_db
  with_cleanup (do settle code; body (opened_handle code opened))
      (do close_db (opened_handle code opened); pure tt)

abbrev pub copy_to_pilot_body : ℕ → Handle → Proc (Unit {0})
copy_to_pilot_body fuel h = do
  check_out (call_number (pre h))
  error_check (call (dlp_delete_record h 1 0))
  copy_to_loop fuel h none
  error_check (call (post h))

abbrev pub copy_from_pilot_body : ℕ → Handle → Proc (Unit {0})
copy_from_pilot_body fuel h = do
  check_out (call_number (pre h))
  delete_loop fuel none
  read_loop fuel 0 h
  error_check (call (post h))

abbrev pub merge_from_pilot_body : ℕ → Handle → Proc (Unit {0})
merge_from_pilot_body fuel h = do
  slow ← check_out (call_number (pre h))
  error_check (if slow == 0 then merge_from_fast fuel h desktop else merge_from_slow fuel h desktop)
  error_check (call (post h))

abbrev pub merge_to_pilot_body : ℕ → Handle → Proc (Unit {0})
merge_to_pilot_body fuel h = do
  slow ← check_out (call_number (pre h))
  if slow == 0 then merge_to_fast fuel h pilot else merge_to_slow fuel h pilot
  error_check (call (post h))

abbrev pub synchronize_body : ℕ → Handle → Proc (Unit {0})
synchronize_body fuel h = do
  (code, slow) ← call_number (pre h)
  settle code
  when (not (is_zero code)) (return_now code)
  error_check (if slow == 0 then merge_from_fast fuel h both else merge_from_slow fuel h both)
  error_check (if slow == 0 then merge_to_fast fuel h both else merge_to_slow fuel h both)
  error_check (call (post h))
