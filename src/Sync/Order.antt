-- ===== src/Sync/Order.antt =====
-- In which order sync_Synchronize of libpisync/sync.c begins.
use pilot_link.Base.{
  ℕ, zero, suc, Bool, true, false, Option, none, List, [], ◌∷◌, ◌++◌, ◌≡◌, refl, ap, ◌==◌, not,
  if◌then◌else◌,
}
use pilot_link.Base.Int.{ℤ, pos, negsuc, is_neg}
use pilot_link.Sync.Types.{
  both, Handle, Call, pre, dlp_read_next_modified, dlp_read_by_index, dlp_clean_up_database,
  dlp_reset_sync_flags, dlp_close_db, World, Env, after, empty_queue, post,
}
use pilot_link.Sync.Proc.{
  Proc, ◌>>=◌, call_record, call_number, pure, out_of_fuel, modify_queue, procedure, ask,
  error_check, settle, set_result, on_pilot, call, next, ◌>>◌,
}
use pilot_link.Sync.Store.{open_db, is_zero}
use pilot_link.Sync.Merge.{
  is_positive, from_fast_loop, from_slow_loop, merge_from_fast, merge_from_slow, merge_process,
  merge_to_fast, merge_to_slow,
}
use pilot_link.Sync.Course.{session, synchronize_body}
use pilot_link.Sync.Session.{with_cleanup, sync_synchronize}
use pilot_link.Sync.Closing.{opening, closed, session_handle}
use pilot_link.Sync.Keeps.{
  Ends, Keeps, Keeps-bind, Keeps-settle, Keeps-error_check, Ends-returned, Ends-continue, on,
}
use pilot_link.Sync.Invariant.{Invariant, call_rules}
use pilot_link.Sync.Rounds.{Keeps-from_fast_round, Keeps-from_slow_round, Keeps-merge_process}
use pilot_link.Sync.Loops.{
  Ends-if, Keeps-from_fast_loop, Keeps-from_slow_loop, Keeps-merge_to_fast, Keeps-merge_to_slow,
}
use pilot_link.Sync.Access.{unbounded}
use pilot_link.Sync.Sessions.{Ends-closed}

-- The calls after `w` begin with these, newest first.
abbrev pub Begins : List Call → World → World → Type 0
Begins start w w' = (cs : List Call) × (w'.trace ≡ cs ++ (start ++ w.trace))

Begins-Invariant : (env : Env) (start : List Call) (w : World) → Invariant env both (Begins start w)
unfolding after
Begins-Invariant env start w = record {
  called = λ c w' ok made. (c ∷ made.0, ap (◌∷◌ c) made.1);
  stored = λ m w' made. made;
  pushed = λ item w' made. made;
  emptied = λ w' made. made;
}

-- The read of the device that a merge from it begins with.
abbrev pub first_read : Bool → Handle → Call
first_read true h = dlp_read_next_modified h
first_read false h = dlp_read_by_index h 0

not_neg_of_zero : (c : ℤ) → is_zero c ≡ true → is_neg c ≡ false
not_neg_of_zero (pos n) e = refl
not_neg_of_zero (negsuc n) e = cc

module _ {env : Env} {P : World → Type 0} (inv : Invariant env both P) (h : Handle) where
  first-from_fast_loop :
      (fuel : ℕ) (drecord : Option ℕ) (r : ℤ) (w : World)
      → P (after env w (dlp_read_next_modified h))
      → Ends Unit P (from_fast_loop fuel h both drecord env r w)
  unfolding from_fast_loop ◌>>=◌ call_record pure out_of_fuel
  first-from_fast_loop zero drecord r w k = tt
  first-from_fast_loop (suc fuel) drecord r w k =
      let c = dlp_read_next_modified h in
      Ends-if Unit P env r _ (is_neg (env.code w c)) _ _ (λ _. k)
        λ e.
          (Keeps-bind _ _ (Keeps-from_fast_round inv h drecord (env.fetched w c))
              (λ matched. Keeps-from_fast_loop (unbounded inv) fuel h matched)).at
            r _ k

  first-from_slow_loop :
      (fuel i : ℕ) (drecord : Option ℕ) (r : ℤ) (w : World)
      → P (after env w (dlp_read_by_index h i))
      → Ends Unit P (from_slow_loop fuel i h both drecord env r w)
  unfolding from_slow_loop ◌>>=◌ call_record pure out_of_fuel
  first-from_slow_loop zero i drecord r w k = tt
  first-from_slow_loop (suc fuel) i drecord r w k =
      let c = dlp_read_by_index h i in
      Ends-if Unit P env r _ (not (is_positive (env.code w c))) _ _ (λ _. k)
        λ e.
          (Keeps-bind _ _ (Keeps-from_slow_round inv h drecord (env.fetched w c))
              (λ matched. Keeps-from_slow_loop (unbounded inv) 0 fuel _ h matched tt)).at
            r _ k

  first-merge :
      (fast : Bool) (fuel : ℕ) (r : ℤ) (w : World)
      → P (after env (record w { queue = empty_queue }) (first_read fast h))
      → Ends Unit P
          ((if fast then merge_from_fast fuel h both else merge_from_slow fuel h both) env r w)
  unfolding merge_from_fast merge_from_slow procedure modify_queue ◌>>=◌
  first-merge true fuel r w k = Ends-returned Unit P r _ (
      Ends-continue (from_fast_loop fuel h both none env (pos 0) (record w { queue = empty_queue }))
        (λ _. error_check (merge_process h both)) (first-from_fast_loop fuel none (pos 0) _ k)
        (λ _. Keeps-error_check _ (Keeps-merge_process inv h)))
  first-merge false fuel r w k = Ends-returned Unit P r _ (
      Ends-continue
        (from_slow_loop fuel 0 h both none env (pos 0) (record w { queue = empty_queue }))
        (λ _. error_check (merge_process h both)) (first-from_slow_loop fuel 0 none (pos 0) _ k)
        (λ _. Keeps-error_check _ (Keeps-merge_process inv h)))

  -- What follows the first merge.
  to_device : Bool → ℕ → Proc (Unit {0})
  to_device fast fuel = do
    error_check (if fast then merge_to_fast fuel h both else merge_to_slow fuel h both)
    error_check (call (post h))

  Keeps-to_device : (fast : Bool) (fuel : ℕ) → Keeps env Unit P (to_device fast fuel)
  unfolding to_device
  Keeps-to_device fast fuel =
      search (call_rules, Keeps-merge_to_fast (unbounded inv), Keeps-merge_to_slow (unbounded inv))
        depth 14

  both-merges :
      (fast : Bool) (fuel : ℕ) (r : ℤ) (w : World)
      → P (after env (record w { queue = empty_queue }) (first_read fast h))
      → Ends Unit P (
          (error_check (if fast then merge_from_fast fuel h both else merge_from_slow fuel h both)
              >>= λ _. to_device fast fuel)
            env r w)
  unfolding ◌>>=◌
  both-merges fast fuel r w k =
      let merge = if fast then merge_from_fast fuel h both else merge_from_slow fuel h both in
      Ends-continue {env = env} {S = Unit} {P = P} (error_check merge env r w)
        (λ _. to_device fast fuel)
        (unfold error_check in
          Ends-continue {env = env} {S = Unit} {P = P} (merge env r w) settle
            (first-merge fast fuel r w k) Keeps-settle)
        (λ _. Keeps-to_device fast fuel)

  settled : (c r : ℤ) (w : World) → is_neg c ≡ false → settle c env r w ≡ next tt c w
  unfolding settle set_result
  settled c r w e = rw e refl

  -- What sync_Synchronize does between opening the database and closing it.
  body-first_read :
      (fuel : ℕ) (r : ℤ) (w : World)
      → is_zero (env.code w (pre h)) ≡ true
      → let w1 = after env w (pre h) in
        P (after env (record w1 { queue = empty_queue }) (first_read (env.number w (pre h) == 0) h))
        → Ends Unit P (synchronize_body fuel h env r w)
  unfolding to_device call_number ◌>>=◌ pure
  body-first_read fuel r w ready k =
      let c = env.code w (pre h) in
      let w1 = after env w (pre h) in
      rw (settled c r w1 (not_neg_of_zero c ready), ready)
        (unfold to_device in both-merges (env.number w (pre h) == 0) fuel c w1 k)

close-Begins :
    (env : Env) (start : List Call) (w : World) (h : Handle) (w' : World)
    → Begins start w w'
    → Begins start w (closed env h w')
close-Begins env start w h w' begun =
    let inv = Begins-Invariant env start w in
    inv.called (dlp_close_db h) _ tt (
      inv.called (dlp_reset_sync_flags h) _ tt
        (inv.called (dlp_clean_up_database h) w' (unfold on_pilot in on) begun))

-- Where the database opens and Pre returns 0, sync_Synchronize begins with these two calls and then
-- reads the first record of the device: the next modified one where Pre asks for no slow sync, and
-- else the one of index 0, unless it runs out of fuel. Every other call comes later, those of the
-- merge to the device included.
pub sync_synchronize-Begins :
    (env : Env) (fuel : ℕ) (r : ℤ) (w : World)
    → let h = session_handle env w in
      let w1 = after env w (opening env) in
      is_neg (env.code w (opening env)) ≡ false
      → is_zero (env.code w1 (pre h)) ≡ true
      → Ends Unit
          (Begins (first_read (env.number w1 (pre h) == 0) h ∷ pre h ∷ opening env ∷ []) w)
          (sync_synchronize fuel env r w)
unfolding sync_synchronize session procedure open_db ask call_number with_cleanup ◌>>=◌
sync_synchronize-Begins env fuel r w opened ready =
    let h = session_handle env w in
    let w1 = after env w (opening env) in
    let start = first_read (env.number w1 (pre h) == 0) h ∷ pre h ∷ opening env ∷ [] in
    let P = Begins start w in
    let inv = Begins-Invariant env start w in
    Ends-closed env Unit P P h r _ (λ w'. close-Begins env start w h w')
      (rw (settled inv h (env.code w (opening env)) (pos 0) w1 opened)
        (body-first_read inv h fuel _ w1 ready (unfold after in ([], refl))))
