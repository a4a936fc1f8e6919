-- ===== src/Sync/Closing.antt =====
-- How a session of libpisync/sync.c ends.
use pilot_link.Base.{ℕ, true, none, ◌≡◌, arith}
use pilot_link.Base.Int.{ℤ, is_neg}
use pilot_link.Sync.Types.{
  Handle, Call, dlp_open_db, dlp_clean_up_database, dlp_reset_sync_flags, dlp_close_db, World, Env,
  after,
}
use pilot_link.Sync.Proc.{
  Flow, next, exit, fault, stuck, Proc, ◌>>=◌, pure, call, call_number, ask, procedure, returned,
  settle, set_result, return_now,
}
use pilot_link.Sync.Store.{open_mode, open_db, close_db}
use pilot_link.Sync.Course.{
  session, copy_to_pilot_body, copy_from_pilot_body, merge_from_pilot_body, merge_to_pilot_body,
  synchronize_body,
}
use pilot_link.Sync.Session.{
  clean_up, with_cleanup, opened_handle, sync_copy_to_pilot, sync_copy_from_pilot,
  sync_merge_from_pilot, sync_merge_to_pilot, sync_synchronize,
}

-- The call that opens the database, and the handle that it gave.
abbrev pub opening : Env → Call
opening env = dlp_open_db (open_mode env.secret) env.name

abbrev pub session_handle : Env → World → Handle
session_handle env w = opened_handle (env.code w (opening env)) (env.number w (opening env))

-- After the calls of `close_db`.
abbrev pub closed : Env → Handle → World → World
closed env h w =
    after env (after env (after env w (dlp_clean_up_database h)) (dlp_reset_sync_flags h))
      (dlp_close_db h)

-- The five operations that a conduit calls.
pub data EntryPoint : Type 0 where
  copy_to_pilot copy_from_pilot merge_from_pilot merge_to_pilot synchronize : EntryPoint

unfoldable pub operation : EntryPoint → ℕ → Proc ℤ
operation copy_to_pilot = sync_copy_to_pilot
operation copy_from_pilot = sync_copy_from_pilot
operation merge_from_pilot = sync_merge_from_pilot
operation merge_to_pilot = sync_merge_to_pilot
operation synchronize = sync_synchronize

-- How the operations end: by the calls of `close_db`, and right after a failed opening, whose code
-- is then what they return.
abbrev pub Closes : Env → World → ℤ → World → Type 0
Closes env w v w' =
    ((w1 : World) × (w' ≡ closed env (session_handle env w) w1))
    × (is_neg (env.code w (opening env)) ≡ true
        → (v ≡ env.code w (opening env)) × (w' ≡ closed env none (after env w (opening env))))

closes :
    (env : Env) (h : Handle) (x : Flow (Unit {0})) (v r : ℤ) (w' : World)
    → returned r (clean_up x (λ r w. (close_db h >>= λ _. pure tt) env r w)) ≡ next v r w'
    → (w1 : World) × (w' ≡ closed env h w1)
unfolding close_db ◌>>=◌ call pure
closes env h (next _ v' w) v r w' e = (w, ground arith)
closes env h (exit v' w) v r w' e = (w, ground arith)
closes env h fault v r w' e = cc
closes env h stuck v r w' e = cc

session-Closes :
    (body : Handle → Proc (Unit {0})) (env : Env) (v r : ℤ) (w w' : World)
    → session body env r w ≡ next v r w'
    → Closes env w v w'
unfolding session procedure open_db close_db ask call call_number with_cleanup ◌>>=◌ settle
    set_result return_now pure
session-Closes body env v r w w' e = (closes env _ _ v r w' e, λ f. ground arith)

-- However one of the five operations ends that returns, its last calls clean up, reset the sync
-- flags of and close the database, by the handle that opening it gave. Where the opening failed,
-- these follow it at once, with the handle unset, and the code of the opening is returned.
pub operation-Closes :
    (entry : EntryPoint) (fuel : ℕ) (env : Env) (v r : ℤ) (w w' : World)
    → operation entry fuel env r w ≡ next v r w'
    → Closes env w v w'
unfolding session operation sync_copy_to_pilot sync_copy_from_pilot sync_merge_from_pilot
    sync_merge_to_pilot sync_synchronize
operation-Closes copy_to_pilot fuel env v r w w' e =
    session-Closes (copy_to_pilot_body fuel) env v r w w' e
operation-Closes copy_from_pilot fuel env v r w w' e =
    session-Closes (copy_from_pilot_body fuel) env v r w w' e
operation-Closes merge_from_pilot fuel env v r w w' e =
    session-Closes (merge_from_pilot_body fuel) env v r w w' e
operation-Closes merge_to_pilot fuel env v r w w' e =
    session-Closes (merge_to_pilot_body fuel) env v r w w' e
operation-Closes synchronize fuel env v r w w' e =
    session-Closes (synchronize_body fuel) env v r w w' e
