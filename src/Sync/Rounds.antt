-- ===== src/Sync/Rounds.antt =====
-- What one round of each merge of libpisync/sync.c keeps.
use pilot_link.Base.{ℕ, true, Option, none, some, List, [], ◌∷◌}
use pilot_link.Sync.Types.{
  PilotRecord, DesktopRecord, RecordModifier, Handle, QueueItem, from_desktop, from_pilot, World,
  Env,
}
use pilot_link.Sync.Merge.{
  process_items, merge_process, free_unqueued, from_fast_round, from_slow_round, to_fast_round,
  to_slow_round, differs, fetch, or_flags, mark_dirty, compute_flags,
}
use pilot_link.Sync.Keeps.{Keeps, Keeps-bind, Keeps-pure}
use pilot_link.Sync.Invariant.{
  Invariant, call_rules, Keeps-store_record_on_pilot, Keeps-sync_record,
  Keeps-free_record_queue_list,
}

module _ {env : Env} {mode : RecordModifier} {S : Type 0} {P : World → Type 0}
    (inv : Invariant env mode P) where
  Keeps-process_items :
      (h : Handle) (items : List QueueItem) → Keeps env S P (process_items h mode items)
  unfolding process_items
  Keeps-process_items h [] = Keeps-pure tt
  Keeps-process_items h (from_desktop d ∷ rest) =
      Keeps-bind _ _ (Keeps-store_record_on_pilot inv h d) (λ _. Keeps-process_items h rest)
  Keeps-process_items h (from_pilot p ∷ rest) =
      Keeps-bind _ _ (search call_rules depth 14) (λ _. Keeps-process_items h rest)

  pub Keeps-merge_process : (h : Handle) → Keeps env S P (merge_process h mode)
  unfolding merge_process
  Keeps-merge_process h =
      search (call_rules, Keeps-process_items, Keeps-free_record_queue_list) depth 14

  pub Keeps-free_unqueued :
      (count : ℕ) (drecord : Option ℕ) → Keeps env S P (free_unqueued count drecord)
  unfolding free_unqueued
  Keeps-free_unqueued count none = Keeps-pure tt
  Keeps-free_unqueued count (some d) = search call_rules depth 14

  pub Keeps-differs : (p : PilotRecord) (drecord : Option ℕ) → Keeps env S P (differs p drecord)
  unfolding differs
  Keeps-differs p none = Keeps-pure true
  Keeps-differs p (some d) = search call_rules depth 14

  Keeps-mark_dirty : (precord : Option PilotRecord) (d : ℕ) → Keeps env S P (mark_dirty precord d)
  unfolding mark_dirty or_flags
  Keeps-mark_dirty none d = search call_rules depth 14
  Keeps-mark_dirty (some p) d = search call_rules depth 14

  pub Keeps-compute_flags :
      (precord : Option PilotRecord) (d : ℕ) → Keeps env S P (compute_flags precord d)
  unfolding compute_flags or_flags
  Keeps-compute_flags precord d = search (call_rules, Keeps-mark_dirty) depth 16

  pub Keeps-fetch :
      (h : Handle) (recbuf : List ℕ) (d : DesktopRecord) → Keeps env S P (fetch h mode recbuf d)
  unfolding fetch
  Keeps-fetch h recbuf d = search call_rules depth 14

pub ruleset merge_rules = (
  call_rules, Keeps-sync_record, Keeps-merge_process, Keeps-free_unqueued, Keeps-differs,
  Keeps-compute_flags, Keeps-fetch,
)

module _ {env : Env} {mode : RecordModifier} {S : Type 0} {P : World → Type 0}
    (inv : Invariant env mode P) where
  pub Keeps-from_fast_round :
      (h : Handle) (drecord : Option ℕ) (rec : PilotRecord)
      → Keeps env S P (from_fast_round h mode drecord rec)
  unfolding from_fast_round
  Keeps-from_fast_round h drecord rec = search merge_rules depth 14

  pub Keeps-from_slow_round :
      (h : Handle) (drecord : Option ℕ) (rec : PilotRecord)
      → Keeps env S P (from_slow_round h mode drecord rec)
  unfolding from_slow_round
  Keeps-from_slow_round h drecord rec = search merge_rules depth 14

  pub Keeps-to_fast_round :
      (h : Handle) (recbuf : List ℕ) (d : ℕ) → Keeps env S P (to_fast_round h mode recbuf d)
  unfolding to_fast_round
  Keeps-to_fast_round h recbuf d = search merge_rules depth 14

  pub Keeps-to_slow_round :
      (h : Handle) (recbuf : List ℕ) (d : ℕ) → Keeps env S P (to_slow_round h mode recbuf d)
  unfolding to_slow_round
  Keeps-to_slow_round h recbuf d = search merge_rules depth 14
