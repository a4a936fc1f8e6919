-- ===== src/Sync/Sessions.antt =====
-- What the five sessions of libpisync/sync.c keep, up to the calls that close the database.
use pilot_link.Base.{ℕ, zero, suc, ◌+◌, Option, some, not, arith}
use pilot_link.Base.Int.{ℤ, pos}
use pilot_link.Sync.Closing.{opening, closed}
use pilot_link.Sync.Types.{
  RecordModifier, pilot, desktop, both, Handle, for_each, add_record, delete_record,
  dlp_read_by_index, World, Env, after,
}
use pilot_link.Sync.Proc.{
  Flow, next, exit, fault, stuck, Proc, ◌>>=◌, pure, call_pointer, call_record, out_of_fuel,
  on_desktop, on_pilot, ask, call, call_number, procedure, returned,
}
use pilot_link.Sync.Store.{open_db, close_db}
use pilot_link.Sync.Merge.{fit, next_record, is_positive}
use pilot_link.Sync.Course.{
  session, copy_to_pilot_body, copy_from_pilot_body, merge_from_pilot_body, merge_to_pilot_body,
  synchronize_body,
}
use pilot_link.Sync.Session.{
  clean_up, with_cleanup, opened_handle, copy_to_loop, sync_copy_to_pilot, delete_loop, read_loop,
  sync_copy_from_pilot, sync_merge_from_pilot, sync_merge_to_pilot, sync_synchronize,
}
use pilot_link.Sync.Keeps.{on, Ends, Keeps, Keeps-bind, Keeps-settle, Keeps-error_check}
use pilot_link.Sync.Invariant.{Invariant, Keeps-call, Keeps-store_record_on_pilot, call_rules}
use pilot_link.Sync.Loops.{
  Loops, Ends-if, Ends-weaken, Ends-when_some, Keeps-out_of_fuel, Keeps-merge_from_fast,
  Keeps-merge_to_fast, Keeps-merge_from_slow, Keeps-merge_to_slow,
}

pub Ends-closed :
    (env : Env) (S : Type 0) (P Q : World → Type 0) (h : Handle) (r : ℤ) (x : Flow (Unit {0}))
    → ((w : World) → P w → Q (closed env h w))
    → Ends S P x
    → Ends S Q (returned r (clean_up x (λ r w. (close_db h >>= λ _. pure tt) env r w)))
unfolding close_db call ◌>>=◌ pure
Ends-closed env S P Q h r (next _ v w) c k = c w k
Ends-closed env S P Q h r (exit v w) c k = c w k
Ends-closed env S P Q h r fault c k = k
Ends-closed env S P Q h r stuck c k = k

module _ {env : Env} {mode : RecordModifier} {S : Type 0} {P : World → Type 0}
    (inv : Invariant env mode P) where
  -- What a session's body keeps holds when the database is closed; the closing calls come last.
  Ends-session :
      (Q : World → Type 0) (body : Handle → Proc (Unit {0})) (r : ℤ) (w : World)
      → ((h : Handle) → Keeps env S P (body h))
      → ((h : Handle) (w : World) → P w → Q (closed env h w))
      → P w
      → Ends S Q (session body env r w)
  unfolding session procedure open_db ask call_number with_cleanup ◌>>=◌
  Ends-session Q body r w kb c k =
      let h = opened_handle (env.code w (opening env)) (env.number w (opening env)) in
      Ends-closed env S P Q h r _ (c h) (
        (Keeps-bind _ _ (Keeps-settle (env.code w (opening env))) (λ _. kb h)).at (pos 0)
          (after env w (opening env)) (inv.called (opening env) w tt k))

module _ {env : Env} {S : Type 0} {P : ℕ → World → Type 0} {Room : ℕ → ℕ → Type 0}
    (loops : Loops env both S P Room) where
  Keeps-copy_to_loop :
      (fuel : ℕ) (h : Handle) (drecord : Option ℕ)
      → Keeps env S (P fuel) (copy_to_loop fuel h drecord)
  unfolding copy_to_loop ◌>>=◌ call_pointer
  Keeps-copy_to_loop zero h drecord = Keeps-out_of_fuel loops
  Keeps-copy_to_loop (suc fuel) h drecord = record {
    at = λ r w k.
        let c = for_each drecord in
        Ends-when_some S (P (suc fuel)) env r _ (next_record (env.code w c) (env.pointer w c)) _
          ((loops.invariant (suc fuel)).called c w tt k)
          (λ d e. Ends-weaken S (P fuel) _ _ (loops.weaken fuel) (
            (Keeps-bind _ _
                (Keeps-error_check _ (Keeps-store_record_on_pilot (loops.invariant fuel) h d))
                (λ _. Keeps-copy_to_loop fuel h (some d))).at
              r _ (loops.read_each fuel w drecord d e k)));
  }

  pub Ends-sync_copy_to_pilot :
      (Q : World → Type 0) (fuel : ℕ) (r : ℤ) (w : World)
      → ((h : Handle) (w : World) → P fuel w → Q (closed env h w))
      → P fuel w
      → Ends S Q (sync_copy_to_pilot fuel env r w)
  unfolding session sync_copy_to_pilot on_pilot
  Ends-sync_copy_to_pilot Q fuel r w c k =
      let inv : Invariant env both (P fuel) = loops.invariant fuel in
      Ends-session inv Q (copy_to_pilot_body fuel) r w
        (λ h. search (call_rules, Keeps-copy_to_loop, on) depth 14) c k

  pub Ends-sync_synchronize :
      (Q : World → Type 0) (fuel : ℕ) (r : ℤ) (w : World)
      → Room fuel 0
      → ((h : Handle) (w : World) → P fuel w → Q (closed env h w))
      → P fuel w
      → Ends S Q (sync_synchronize fuel env r w)
  unfolding session sync_synchronize
  Ends-sync_synchronize Q fuel r w room c k =
      let inv : Invariant env both (P fuel) = loops.invariant fuel in
      Ends-session inv Q (synchronize_body fuel) r w
        (λ h.
          search
            (
              call_rules,
              Keeps-merge_from_fast loops,
              Keeps-merge_from_slow loops,
              Keeps-merge_to_fast loops,
              Keeps-merge_to_slow loops,
            )
            depth 16)
        c k

module _ {env : Env} {S : Type 0} {P : ℕ → World → Type 0} {Room : ℕ → ℕ → Type 0}
    (loops : Loops env desktop S P Room) where
  Keeps-delete_loop :
      (fuel : ℕ) (drecord : Option ℕ) → Keeps env S (P fuel) (delete_loop fuel drecord)
  unfolding delete_loop ◌>>=◌ call_pointer
  Keeps-delete_loop zero drecord = Keeps-out_of_fuel loops
  Keeps-delete_loop (suc fuel) drecord = record {
    at = λ r w k.
        let c = for_each drecord in
        Ends-when_some S (P (suc fuel)) env r _ (next_record (env.code w c) (env.pointer w c)) _
          ((loops.invariant (suc fuel)).called c w tt k)
          (λ d e. Ends-weaken S (P fuel) _ _ (loops.weaken fuel) (
            (Keeps-bind _ _
                (Keeps-error_check _
                  (Keeps-call (loops.invariant fuel) (delete_record d) (unfold on_desktop in on)))
                (λ _. Keeps-delete_loop fuel (some d))).at
              r _ (loops.read_each fuel w drecord d e k)));
  }

  Keeps-read_loop :
      (n fuel i : ℕ) (h : Handle) → Room fuel i → Keeps env S (P n) (read_loop fuel i h)
  unfolding read_loop ◌>>=◌ call_record pure
  Keeps-read_loop n zero i h room = record {
    at = λ r w k. unfold out_of_fuel in loops.no_room i room;
  }
  Keeps-read_loop n (suc fuel) i h room = record {
    at = λ r w k.
        let c = dlp_read_by_index h i in
        let k' = (loops.invariant n).called c w tt k in
        Ends-if S (P n) env r _ (not (is_positive (env.code w c))) _ _ (λ _. k')
          (λ e.
            (Keeps-bind _ _
                (Keeps-error_check _ (
                  Keeps-call (loops.invariant n) (add_record (fit (env.fetched w c)))
                    (unfold on_desktop in on)))
                (λ _.
                  Keeps-read_loop n fuel (i + 1) h
                    (loops.read_index fuel i w h (ground (arith, e)) room))).at
              r _ k');
  }

  pub Ends-sync_copy_from_pilot :
      (Q : World → Type 0) (fuel : ℕ) (r : ℤ) (w : World)
      → Room fuel 0
      → ((h : Handle) (w : World) → P fuel w → Q (closed env h w))
      → P fuel w
      → Ends S Q (sync_copy_from_pilot fuel env r w)
  unfolding session sync_copy_from_pilot
  Ends-sync_copy_from_pilot Q fuel r w room c k =
      let inv : Invariant env desktop (P fuel) = loops.invariant fuel in
      Ends-session inv Q (copy_from_pilot_body fuel) r w
        (λ h. search (call_rules, Keeps-delete_loop, Keeps-read_loop) depth 14) c k

  pub Ends-sync_merge_from_pilot :
      (Q : World → Type 0) (fuel : ℕ) (r : ℤ) (w : World)
      → Room fuel 0
      → ((h : Handle) (w : World) → P fuel w → Q (closed env h w))
      → P fuel w
      → Ends S Q (sync_merge_from_pilot fuel env r w)
  unfolding session sync_merge_from_pilot
  Ends-sync_merge_from_pilot Q fuel r w room c k =
      let inv : Invariant env desktop (P fuel) = loops.invariant fuel in
      Ends-session inv Q (merge_from_pilot_body fuel) r w
        (λ h.
          search (call_rules, Keeps-merge_from_fast loops, Keeps-merge_from_slow loops) depth 14)
        c k

module _ {env : Env} {S : Type 0} {P : ℕ → World → Type 0} {Room : ℕ → ℕ → Type 0}
    (loops : Loops env pilot S P Room) where
  pub Ends-sync_merge_to_pilot :
      (Q : World → Type 0) (fuel : ℕ) (r : ℤ) (w : World)
      → ((h : Handle) (w : World) → P fuel w → Q (closed env h w))
      → P fuel w
      → Ends S Q (sync_merge_to_pilot fuel env r w)
  unfolding session sync_merge_to_pilot
  Ends-sync_merge_to_pilot Q fuel r w c k =
      let inv : Invariant env pilot (P fuel) = loops.invariant fuel in
      Ends-session inv Q (merge_to_pilot_body fuel) r w
        (λ h. search (call_rules, Keeps-merge_to_fast loops, Keeps-merge_to_slow loops) depth 14) c
        k
