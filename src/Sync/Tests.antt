-- ===== src/Sync/Tests.antt =====
-- The theorems about libpisync/sync.c at a concrete conduit and device.
use pilot_link.Base.{
  All, ℕ, suc, ◌-◌, ◌≤◌, false, Option, none, some, List, [], ◌∷◌, ◌≡◌, refl, arith, ◌==◌,
  if◌then◌else◌,
}
use pilot_link.Base.Int.{ℤ, pos, negsuc}
use pilot_link.Sync.Types.{
  pre, PilotRecord, pilot, desktop, both, Call, from_desktop, empty_queue, compare_records,
  match_record, dlp_read_next_modified, dlp_read_by_index, has_flag, post, World, Env, after,
}
use pilot_link.Sync.Proc.{
  Flow, next, exit, fault, stuck, procedure, ◌>>=◌, deref, pure, desktop_check, error_check, call,
  load, store, settle, return_now, set_result, modify_queue, on_desktop,
}
use pilot_link.Sync.Record.{
  sync_record, desktop_side, side, branch, apply, resolve, apply_conflict, clear,
}
use pilot_link.Sync.Store.{add_record_queue, push}
use pilot_link.Sync.Merge.{process_items}
use pilot_link.Sync.Plan.{Answers, plan, status}
use pilot_link.Sync.Refines.{Follows, sync_record-plan}
use pilot_link.Sync.Closing.{opening, EntryPoint, operation, Closes, operation-Closes}
use pilot_link.Sync.Outcome.{
  Delivered, IsNoDeletion, change-Delivered, change_queued, process_items-prepared, prepared,
  sync_merge_to_pilot-post,
}
use mathlib.Core.List.{reverse, ◌++◌}
use pilot_link.Sync.Session.{
  sync_copy_to_pilot, sync_copy_from_pilot, sync_merge_from_pilot, sync_merge_to_pilot,
  sync_synchronize,
}
use pilot_link.Sync.Keeps.{Ends}
use pilot_link.Sync.Access.{
  MadeOnly, MadeAndClosed, sync_merge_from_pilot-MadeAndClosed, sync_merge_to_pilot-MadeOnly,
  sync_copy_from_pilot-MadeAndClosed, sync_record-MadeOnly,
}
use pilot_link.Sync.Order.{Begins, sync_synchronize-Begins}
use pilot_link.Sync.Total.{RunsOut, Returns, sync_total}

-- The device hands out one record, by iteration or by index; the conduit matches it with desktop
-- record 1 and finds them different.
reads : List Call → ℕ
reads [] = 0
reads (dlp_read_next_modified _ ∷ cs) = suc (reads cs)
reads (_ ∷ cs) = reads cs

code_of : World → Call → ℤ
unfolding reads
code_of w (dlp_read_next_modified h) = if reads w.trace == 0 then pos 5 else negsuc 0
code_of w (dlp_read_by_index h i) = if i == 0 then pos 5 else negsuc 0
code_of w (compare_records p d) = pos 1
code_of w _ = pos 0

pointer_of : Call → Option ℕ
pointer_of (match_record p d) = some 1
pointer_of _ = none

abbrev edited : PilotRecord
edited = record { rec_id = 11; cat_id = 0; flags = 0x40; buffer = 104 ∷ 105 ∷ [] }

abbrev sample : Env
sample = record {
  secret = false;
  name = [];
  code = code_of;
  number = λ w c. 0;
  pointer = λ w c. pointer_of c;
  fetched = λ w c. edited;
  touch = λ w c. w.desk;
}

-- The desktop record was changed too.
abbrev start : World
start = record {
  desk = λ d. record { rec_id = 11; cat_id = 0; flags = 0x40 };
  queue = empty_queue;
  trace = [];
}

abbrev left : World → ℕ
left w = 1 - reads w.trace

reads-le-cons : (c : Call) (cs : List Call) → reads cs ≤ reads (c ∷ cs)
unfolding reads
reads-le-cons (dlp_read_next_modified h) cs = omega arith
reads-le-cons _ cs = omega arith

sample-RunsOut : RunsOut sample left 1
unfolding after reads code_of pointer_of
sample-RunsOut = record {
  bounded = λ c w. omega (arith, reads-le-cons c w.trace);
  desk_apart = λ m w. omega arith;
  queue_apart = λ q w. omega arith;
  next_spends = λ w h e. ground arith;
  each_spends = λ w prior d e. cc;
  modified_spends = λ w prior d e. cc;
  index_bound = λ w h i e. ground arith;
}

sync_total_example :
    Returns (sync_copy_to_pilot 2) sample (pos 0) start
    × Returns (sync_copy_from_pilot 2) sample (pos 0) start
    × Returns (sync_merge_from_pilot 2) sample (pos 0) start
    × Returns (sync_merge_to_pilot 2) sample (pos 0) start
    × Returns (sync_synchronize 2) sample (pos 0) start
sync_total_example = sync_total sample-RunsOut 2 (pos 0) start (omega arith) (omega arith)

sync_merge_from_pilot-MadeAndClosed_example :
    Ends Unit (MadeAndClosed desktop start) (sync_merge_from_pilot 2 sample (pos 0) start)
sync_merge_from_pilot-MadeAndClosed_example =
    sync_merge_from_pilot-MadeAndClosed sample 2 (pos 0) start

sync_merge_to_pilot-MadeOnly_example :
    Ends Unit (MadeOnly pilot start) (sync_merge_to_pilot 2 sample (pos 0) start)
sync_merge_to_pilot-MadeOnly_example = sync_merge_to_pilot-MadeOnly sample 2 (pos 0) start

sync_copy_from_pilot-MadeAndClosed_example :
    Ends Unit (MadeAndClosed desktop start) (sync_copy_from_pilot 2 sample (pos 0) start)
sync_copy_from_pilot-MadeAndClosed_example =
    sync_copy_from_pilot-MadeAndClosed sample 2 (pos 0) start

sync_synchronize-Begins_example :
    Ends Unit
      (Begins (dlp_read_next_modified (some 0) ∷ pre (some 0) ∷ opening sample ∷ []) start)
      (sync_synchronize 2 sample (pos 0) start)
unfolding code_of
sync_synchronize-Begins_example = sync_synchronize-Begins sample 2 (pos 0) start refl refl

sync_record-MadeOnly_example :
    Ends ⊥
      (MadeOnly pilot start)
      (sync_record none (some 1) (some edited) pilot sample (pos 0) start)
sync_record-MadeOnly_example =
    sync_record-MadeOnly sample pilot none (some 1) (some edited) (pos 0) start

abbrev world_of : {A : Type 0} → Flow A → World
world_of (next a r w) = w
world_of (exit r w) = w
world_of fault = start
world_of stuck = start

abbrev settled : World
settled = world_of (sync_record none (some 1) (some edited) both sample (pos 0) start)

run_both :
    sync_record none (some 1) (some edited) both sample (pos 0) start ≡ next (pos 0) (pos 0) settled
unfolding sync_record desktop_side side has_flag branch apply resolve apply_conflict clear
    add_record_queue procedure ◌>>=◌ deref pure desktop_check error_check call load store settle
    return_now set_result modify_queue after on_desktop code_of
run_both = refl

sync_record-plan_example :
    let a : Answers = record { same = false; id = 0; matched = some 1 } in
    Follows (plan none (some edited) (some (1, status 0x40)) a) (some 1) start settled
unfolding code_of pointer_of
sync_record-plan_example =
    sync_record-plan sample none (some 1) (some edited) (pos 0) (pos 0) start settled run_both refl

change-Delivered_example :
    (cs : List Call) × (settled.trace ≡ cs ++ []) × Delivered edited 1 cs × All IsNoDeletion cs
unfolding has_flag code_of
change-Delivered_example =
    change-Delivered sample none 1 edited (pos 0) (pos 0) start settled run_both refl refl refl refl
      refl

change_queued_example : settled.queue ≡ push (from_desktop 1) empty_queue
unfolding has_flag code_of
change_queued_example =
    change_queued sample none 1 edited (pos 0) (pos 0) start settled run_both refl refl refl refl
      refl

process_items-prepared_example :
    (w' : World) × (process_items none both
        (from_desktop 1 ∷ from_desktop 2 ∷ [])
        sample
        (pos 0)
        start
      ≡ next tt (pos 0) w')
    × (prepared w'.trace ≡ reverse (1 ∷ 2 ∷ []) ++ prepared [])
process_items-prepared_example = process_items-prepared sample none both (1 ∷ 2 ∷ []) (pos 0) start

-- The run that `sync_total` gives is the input of the next two.
abbrev merged : Returns (sync_merge_to_pilot 2) sample (pos 0) start
merged = (sync_total_example).3

sync_merge_to_pilot-post_example : (w2 : World) × (merged.0 ≡ sample.code w2 (post (some 0)))
unfolding code_of
sync_merge_to_pilot-post_example =
    sync_merge_to_pilot-post sample 2 merged.0 (pos 0) start merged.1 merged.2 refl refl

operation-Closes_example : Closes sample start merged.0 merged.1
unfolding operation
operation-Closes_example =
    operation-Closes EntryPoint.merge_to_pilot 2 sample merged.0 (pos 0) start merged.1 merged.2
