-- ===== src/Sync/Loops.antt =====
-- What the merges of libpisync/sync.c keep, loops included: an invariant that a loop's fuel indexes.
use pilot_link.Base.{
  ℕ, zero, suc, ◌+◌, Bool, true, false, Option, none, some, List, ◌≡◌, refl, not, if◌then◌else◌,
  arith,
}
use pilot_link.Base.Int.{ℤ, is_neg}
use pilot_link.Sync.Types.{
  RecordModifier, Handle, for_each, for_each_modified, dlp_read_next_modified, dlp_read_by_index,
  World, Env, after,
}
use pilot_link.Sync.Proc.{
  Proc, Flow, next, exit, fault, stuck, call_pointer, call_record, out_of_fuel, ◌>>=◌, pure,
}
use pilot_link.Sync.Store.{when_some}
use pilot_link.Sync.Merge.{
  is_positive, next_record, from_fast_loop, merge_from_fast, from_slow_loop, merge_from_slow,
  to_fast_loop, merge_to_fast, to_slow_loop, merge_to_slow,
}
use pilot_link.Sync.Keeps.{Ends, Keeps, Keeps-bind}
use pilot_link.Sync.Invariant.{Invariant}
use pilot_link.Sync.Rounds.{
  merge_rules, Keeps-from_fast_round, Keeps-from_slow_round, Keeps-to_fast_round,
  Keeps-to_slow_round,
}

-- `P n` holds with fuel `n` left. A round that reads a record takes `P (suc n)` to `P n`, and a
-- loop by index has `Room n i` at index `i`.
pub record Loops (env : Env) (mode : RecordModifier) (S : Type 0) (P : ℕ → World → Type 0)
    (Room : ℕ → ℕ → Type 0) : Type 0 where
  pub invariant : (n : ℕ) → Invariant env mode (P n)
  pub spent : (w : World) → P 0 w → S
  pub no_room : (i : ℕ) → Room 0 i → S
  pub weaken : (n : ℕ) (w : World) → P n w → P (suc n) w
  pub read_next :
      (n : ℕ) (w : World) (h : Handle)
      → is_neg (env.code w (dlp_read_next_modified h)) ≡ false
      → P (suc n) w
      → P n (after env w (dlp_read_next_modified h))
  pub read_each :
      (n : ℕ) (w : World) (prior : Option ℕ) (d : ℕ)
      → next_record (env.code w (for_each prior)) (env.pointer w (for_each prior)) ≡ some d
      → P (suc n) w
      → P n (after env w (for_each prior))
  pub read_modified :
      (n : ℕ) (w : World) (prior : Option ℕ) (d : ℕ)
      → next_record (env.code w (for_each_modified prior)) (env.pointer w (for_each_modified prior))
        ≡ some d
      → P (suc n) w
      → P n (after env w (for_each_modified prior))
  pub read_index :
      (n i : ℕ) (w : World) (h : Handle)
      → is_positive (env.code w (dlp_read_by_index h i)) ≡ true
      → Room (suc n) i
      → Room n (i + 1)

pub Ends-weaken :
    {A : Type 0} (S : Type 0) (P Q : World → Type 0) (x : Flow A)
    → ((w : World) → P w → Q w)
    → Ends S P x
    → Ends S Q x
Ends-weaken S P Q (next a r w) f h = f w h
Ends-weaken S P Q (exit r w) f h = f w h
Ends-weaken S P Q fault f h = h
Ends-weaken S P Q stuck f h = h

module _ {A : Type 0} (S : Type 0) (P : World → Type 0) (env : Env) (r : ℤ) (w : World) where
  pub Ends-if :
      (b : Bool) (m n : Proc A)
      → (b ≡ true → Ends S P (m env r w))
      → (b ≡ false → Ends S P (n env r w))
      → Ends S P ((if b then m else n) env r w)
  Ends-if true m n hm hn = hm refl
  Ends-if false m n hm hn = hn refl

pub Ends-when_some :
    (S : Type 0) (P : World → Type 0) (env : Env) (r : ℤ) (w : World) {A : Type 0} (o : Option A)
    (f : A → Proc (Unit {0}))
    → P w
    → ((a : A) → o ≡ some a → Ends S P (f a env r w))
    → Ends S P (when_some o f env r w)
unfolding pure
Ends-when_some S P env r w none f h hf = h
Ends-when_some S P env r w (some a) f h hf = hf a refl

module _ {env : Env} {mode : RecordModifier} {S : Type 0} {P : ℕ → World → Type 0}
    {Room : ℕ → ℕ → Type 0} (loops : Loops env mode S P Room) where
  pub Keeps-out_of_fuel : Keeps {A = Unit {0}} env S (P 0) out_of_fuel
  unfolding out_of_fuel
  Keeps-out_of_fuel = record { at = λ r w k. loops.spent w k }

  pub Keeps-from_fast_loop :
      (fuel : ℕ) (h : Handle) (drecord : Option ℕ)
      → Keeps env S (P fuel) (from_fast_loop fuel h mode drecord)
  unfolding from_fast_loop ◌>>=◌ call_record pure
  Keeps-from_fast_loop zero h drecord = Keeps-out_of_fuel
  Keeps-from_fast_loop (suc fuel) h drecord = record {
    at = λ r w k.
        let c = dlp_read_next_modified h in
        Ends-if S (P (suc fuel)) env r _ (is_neg (env.code w c)) _ _
          (λ _. (loops.invariant (suc fuel)).called c w tt k)
          (λ e. Ends-weaken S (P fuel) _ _ (loops.weaken fuel) (
            (Keeps-bind _ _
                (Keeps-from_fast_round (loops.invariant fuel) h drecord (env.fetched w c))
                (λ matched. Keeps-from_fast_loop fuel h matched)).at
              r _ (loops.read_next fuel w h e k)));
  }

  Keeps-to_fast_loop :
      (fuel : ℕ) (h : Handle) (drecord : Option ℕ) (recbuf : List ℕ)
      → Keeps env S (P fuel) (to_fast_loop fuel h mode drecord recbuf)
  unfolding to_fast_loop ◌>>=◌ call_pointer
  Keeps-to_fast_loop zero h drecord recbuf = Keeps-out_of_fuel
  Keeps-to_fast_loop (suc fuel) h drecord recbuf = record {
    at = λ r w k.
        let c = for_each_modified drecord in
        Ends-when_some S (P (suc fuel)) env r _ (next_record (env.code w c) (env.pointer w c)) _
          ((loops.invariant (suc fuel)).called c w tt k)
          (λ d e. Ends-weaken S (P fuel) _ _ (loops.weaken fuel) (
            (Keeps-bind _ _ (Keeps-to_fast_round (loops.invariant fuel) h recbuf d)
                (λ recbuf'. Keeps-to_fast_loop fuel h (some d) recbuf')).at
              r _ (loops.read_modified fuel w drecord d e k)));
  }

  Keeps-to_slow_loop :
      (fuel : ℕ) (h : Handle) (drecord : Option ℕ) (recbuf : List ℕ)
      → Keeps env S (P fuel) (to_slow_loop fuel h mode drecord recbuf)
  unfolding to_slow_loop ◌>>=◌ call_pointer
  Keeps-to_slow_loop zero h drecord recbuf = Keeps-out_of_fuel
  Keeps-to_slow_loop (suc fuel) h drecord recbuf = record {
    at = λ r w k.
        let c = for_each drecord in
        Ends-when_some S (P (suc fuel)) env r _ (next_record (env.code w c) (env.pointer w c)) _
          ((loops.invariant (suc fuel)).called c w tt k)
          (λ d e. Ends-weaken S (P fuel) _ _ (loops.weaken fuel) (
            (Keeps-bind _ _ (Keeps-to_slow_round (loops.invariant fuel) h recbuf d)
                (λ recbuf'. Keeps-to_slow_loop fuel h (some d) recbuf')).at
              r _ (loops.read_each fuel w drecord d e k)));
  }

  pub Keeps-from_slow_loop :
      (n fuel i : ℕ) (h : Handle) (drecord : Option ℕ)
      → Room fuel i
      → Keeps env S (P n) (from_slow_loop fuel i h mode drecord)
  unfolding from_slow_loop ◌>>=◌ call_record pure
  Keeps-from_slow_loop n zero i h drecord room = record {
    at = λ r w k. unfold out_of_fuel in loops.no_room i room;
  }
  Keeps-from_slow_loop n (suc fuel) i h drecord room = record {
    at = λ r w k.
        let c = dlp_read_by_index h i in
        let k' = (loops.invariant n).called c w tt k in
        Ends-if S (P n) env r _ (not (is_positive (env.code w c))) _ _ (λ _. k')
          (λ e.
            (Keeps-bind _ _ (Keeps-from_slow_round (loops.invariant n) h drecord (env.fetched w c))
                (λ matched.
                  Keeps-from_slow_loop n fuel (i + 1) h matched
                    (loops.read_index fuel i w h (ground (arith, e)) room))).at
              r _ k');
  }

  pub Keeps-merge_from_fast :
      (fuel : ℕ) (h : Handle) → Keeps env S (P fuel) (merge_from_fast fuel h mode)
  unfolding merge_from_fast
  Keeps-merge_from_fast fuel h =
      let inv : Invariant env mode (P fuel) = loops.invariant fuel in
      search (merge_rules, Keeps-from_fast_loop) depth 14

  pub Keeps-merge_to_fast :
      (fuel : ℕ) (h : Handle) → Keeps env S (P fuel) (merge_to_fast fuel h mode)
  unfolding merge_to_fast
  Keeps-merge_to_fast fuel h =
      let inv : Invariant env mode (P fuel) = loops.invariant fuel in
      search (merge_rules, Keeps-to_fast_loop) depth 14

  pub Keeps-merge_to_slow :
      (fuel : ℕ) (h : Handle) → Keeps env S (P fuel) (merge_to_slow fuel h mode)
  unfolding merge_to_slow
  Keeps-merge_to_slow fuel h =
      let inv : Invariant env mode (P fuel) = loops.invariant fuel in
      search (merge_rules, Keeps-to_slow_loop) depth 14

  pub Keeps-merge_from_slow :
      (fuel : ℕ) (h : Handle) → Room fuel 0 → Keeps env S (P fuel) (merge_from_slow fuel h mode)
  unfolding merge_from_slow
  Keeps-merge_from_slow fuel h room =
      let inv : Invariant env mode (P fuel) = loops.invariant fuel in
      search (merge_rules, Keeps-from_slow_loop) depth 14
