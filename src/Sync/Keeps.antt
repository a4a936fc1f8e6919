-- ===== src/Sync/Keeps.antt =====
-- Invariants of the actions: a rule for each way to build an action, and for each macro.
use pilot_link.Base.{ℕ, Bool, true, false, none, some, if◌then◌else◌}
use pilot_link.Base.Int.{ℤ, is_neg}
use pilot_link.Sync.Types.{RecordModifier, World, Env}
use pilot_link.Sync.Proc.{
  Flow, next, exit, fault, stuck, Proc, ◌>>=◌, pure, return_now, set_result, ask, load, get_queue,
  continue, returned, settle, error_check, on_pilot, on_desktop, when, pilot_check, desktop_check,
  check_out, pilot_check_out, procedure,
}

-- `b ≡ true`, as a type that `search` takes for a fact.
pub data IsOn : Bool → Type 0 where
  on : IsOn true

-- Whether it goes on or returns, `P` holds; there is no undefined behaviour; and out of fuel it is
-- only if `S`.
abbrev pub Ends : {A : Type 0} → Type 0 → (World → Type 0) → Flow A → Type 0
Ends S P (next a r w) = P w
Ends S P (exit r w) = P w
Ends S P fault = ⊥
Ends S P stuck = S

pub record Keeps {A : Type 0} (env : Env) (S : Type 0) (P : World → Type 0) (m : Proc A)
    : Type 0 where
  pub at : (r : ℤ) (w : World) → P w → Ends S P (m env r w)

pub Ends-returned :
    (S : Type 0) (P : World → Type 0) (r : ℤ) (x : Flow (Unit {0}))
    → Ends S P x
    → Ends S P (returned r x)
Ends-returned S P r (next a v w) h = h
Ends-returned S P r (exit v w) h = h
Ends-returned S P r fault h = h
Ends-returned S P r stuck h = h

module _ {env : Env} {S : Type 0} {P : World → Type 0} where
  pub Keeps-pure : {A : Type 0} (a : A) → Keeps env S P (pure a)
  unfolding pure
  Keeps-pure a = record { at = λ r w h. h }

  pub Keeps-return_now : {A : Type 0} (v : ℤ) → Keeps env S P (return_now {A = A} v)
  unfolding return_now
  Keeps-return_now v = record { at = λ r w h. h }

  pub Keeps-set_result : (v : ℤ) → Keeps env S P (set_result v)
  unfolding set_result
  Keeps-set_result v = record { at = λ r w h. h }

  pub Keeps-ask : {A : Type 0} (f : Env → A) → Keeps env S P (ask f)
  unfolding ask
  Keeps-ask f = record { at = λ r w h. h }

  pub Keeps-load : (d : ℕ) → Keeps env S P (load d)
  unfolding load
  Keeps-load d = record { at = λ r w h. h }

  pub Keeps-get_queue : Keeps env S P get_queue
  unfolding get_queue
  Keeps-get_queue = record { at = λ r w h. h }

  pub Ends-continue :
      {A B : Type 0} (x : Flow A) (f : A → Proc B)
      → Ends S P x
      → ((a : A) → Keeps env S P (f a))
      → Ends S P (continue x (λ a r w. f a env r w))
  Ends-continue (next a r w) f h kf = (kf a).at r w h
  Ends-continue (exit r w) f h kf = h
  Ends-continue fault f h kf = h
  Ends-continue stuck f h kf = h

  pub Keeps-bind :
      {A B : Type 0} (m : Proc A) (f : A → Proc B)
      → Keeps env S P m
      → ((a : A) → Keeps env S P (f a))
      → Keeps env S P (m >>= f)
  unfolding ◌>>=◌
  Keeps-bind m f km kf = record { at = λ r w h. Ends-continue (m env r w) f (km.at r w h) kf }

  pub Keeps-if :
      {A : Type 0} (b : Bool) (m n : Proc A)
      → Keeps env S P m
      → Keeps env S P n
      → Keeps env S P (if b then m else n)
  Keeps-if true m n km kn = km
  Keeps-if false m n km kn = kn

  pub Keeps-when :
      (b : Bool) (m : Proc (Unit {0})) → (IsOn b → Keeps env S P m) → Keeps env S P (when b m)
  Keeps-when true m km = km on
  Keeps-when false m km = Keeps-pure tt

  pub Keeps-settle : (v : ℤ) → Keeps env S P (settle v)
  unfolding settle
  Keeps-settle v = Keeps-if (is_neg v) _ _ (Keeps-return_now v) (Keeps-set_result v)

  pub Keeps-error_check : (m : Proc ℤ) → Keeps env S P m → Keeps env S P (error_check m)
  unfolding error_check
  Keeps-error_check m km = Keeps-bind m settle km Keeps-settle

  pub Keeps-pilot_check :
      (mode : RecordModifier) (m : Proc ℤ)
      → (IsOn (on_pilot mode) → Keeps env S P m)
      → Keeps env S P (pilot_check mode m)
  unfolding pilot_check
  Keeps-pilot_check mode m km =
      Keeps-when (on_pilot mode) (error_check m) (λ e. Keeps-error_check m (km e))

  pub Keeps-desktop_check :
      (mode : RecordModifier) (m : Proc ℤ)
      → (IsOn (on_desktop mode) → Keeps env S P m)
      → Keeps env S P (desktop_check mode m)
  unfolding desktop_check
  Keeps-desktop_check mode m km =
      Keeps-when (on_desktop mode) (error_check m) (λ e. Keeps-error_check m (km e))

  pub Keeps-check_out :
      {A : Type 0} (m : Proc (ℤ × A)) → Keeps env S P m → Keeps env S P (check_out m)
  unfolding check_out
  Keeps-check_out m km =
      Keeps-bind m _ km λ a. Keeps-bind (settle a.0) _ (Keeps-settle a.0) λ _. Keeps-pure a.1

  Keeps-pilot_if :
      {A : Type 0} (b : Bool) (m : Proc (ℤ × A))
      → (IsOn b → Keeps env S P m)
      → Keeps env S P (if b then (do a ← check_out m; pure (some a)) else pure none)
  Keeps-pilot_if true m km = Keeps-bind _ _ (Keeps-check_out m (km on)) λ a. Keeps-pure (some a)
  Keeps-pilot_if false m km = Keeps-pure none

  pub Keeps-pilot_check_out :
      {A : Type 0} (mode : RecordModifier) (m : Proc (ℤ × A))
      → (IsOn (on_pilot mode) → Keeps env S P m)
      → Keeps env S P (pilot_check_out mode m)
  unfolding pilot_check_out
  Keeps-pilot_check_out mode m km = Keeps-pilot_if (on_pilot mode) m km

  pub Keeps-procedure :
      (body : Proc (Unit {0})) → Keeps env S P body → Keeps env S P (procedure body)
  unfolding procedure
  Keeps-procedure body kb = record { at = λ r w h. Ends-returned S P r _ (kb.at _ w h) }

pub ruleset keeps_rules = (
  Keeps-pure, Keeps-return_now, Keeps-set_result, Keeps-ask, Keeps-load, Keeps-get_queue,
  Keeps-bind, Keeps-if, Keeps-when, Keeps-settle, Keeps-error_check, Keeps-pilot_check,
  Keeps-desktop_check, Keeps-check_out, Keeps-pilot_check_out, Keeps-procedure,
)
