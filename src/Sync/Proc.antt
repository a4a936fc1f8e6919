-- ===== src/Sync/Proc.antt =====
-- C procedures with an `int result` and early returns: the macros of libpisync/sync.c as actions.
use pilot_link.Base.{ℕ, Bool, true, false, Option, none, some, ◌==◌, if◌then◌else◌}
use pilot_link.Base.Int.{ℤ, pos, is_neg}
use pilot_link.Sync.Types.{
  PilotRecord, DesktopRecord, RecordModifier, RecordQueue, pilot, desktop, both, Call, World, Env,
  after,
}

-- `next`: go on, with the variable `result`; `exit`: the procedure has returned; `fault`: undefined
-- behaviour, such as a read through NULL; `stuck`: a loop had no fuel left.
pub data Flow (A : Type 0) : Type 0 where
  next : A → ℤ → World → Flow A
  exit : ℤ → World → Flow A
  fault : Flow A
  stuck : Flow A

abbrev pub Proc : Type 0 → Type 0
Proc A = Env → ℤ → World → Flow A

infixl 5 ◌>>=◌ ◌>>◌
abbrev pub continue : {A B : Type 0} → Flow A → (A → ℤ → World → Flow B) → Flow B
continue (next a r w) k = k a r w
continue (exit r w) k = exit r w
continue fault k = fault
continue stuck k = stuck

unfoldable pub ◌>>=◌ : {A B : Type 0} → Proc A → (A → Proc B) → Proc B
◌>>=◌ m f env r w = continue (m env r w) (λ a r' w'. f a env r' w')

abbrev pub ◌>>◌ : {A B : Type 0} → Proc A → Proc B → Proc B
m >> k = m >>= λ _. k

unfoldable pub pure : {A : Type 0} → A → Proc A
pure a env r w = next a r w

unfoldable pub undefined : {A : Type 0} → Proc A
undefined env r w = fault

unfoldable pub out_of_fuel : {A : Type 0} → Proc A
out_of_fuel env r w = stuck

-- `return v;`
unfoldable pub return_now : {A : Type 0} → ℤ → Proc A
return_now v env r w = exit v w

-- `result = v;` and `result`
unfoldable pub set_result : ℤ → Proc (Unit {0})
set_result v env r w = next tt v w

unfoldable pub get_result : Proc ℤ
get_result env r w = next r r w

-- A call, and a call with an output.
unfoldable pub call : Call → Proc ℤ
call c env r w = next (env.code w c) r (after env w c)

unfoldable pub call_number : Call → Proc (ℤ × ℕ)
call_number c env r w = next (env.code w c, env.number w c) r (after env w c)

unfoldable pub call_pointer : Call → Proc (ℤ × Option ℕ)
call_pointer c env r w = next (env.code w c, env.pointer w c) r (after env w c)

unfoldable pub call_record : Call → Proc (ℤ × PilotRecord)
call_record c env r w = next (env.code w c, env.fetched w c) r (after env w c)

unfoldable pub ask : {A : Type 0} → (Env → A) → Proc A
ask f env r w = next (f env) r w

unfoldable pub load : ℕ → Proc DesktopRecord
load d env r w = next (w.desk d) r w

abbrev pub update : (ℕ → DesktopRecord) → ℕ → DesktopRecord → ℕ → DesktopRecord
update m d rec e = if e == d then rec else m e

unfoldable pub store : ℕ → DesktopRecord → Proc (Unit {0})
store d rec env r w = next tt r (record w { desk = update w.desk d rec })

unfoldable pub get_queue : Proc RecordQueue
get_queue env r w = next w.queue r w

unfoldable pub modify_queue : (RecordQueue → RecordQueue) → Proc (Unit {0})
modify_queue f env r w = next tt r (record w { queue = f w.queue })

unfoldable pub deref : {A : Type 0} → Option A → Proc A
unfolding pure undefined
deref none = undefined
deref (some a) = pure a

-- `if ((result = v) < 0) return result;`
unfoldable pub settle : ℤ → Proc (Unit {0})
unfolding return_now set_result
settle v = if is_neg v then return_now v else set_result v

unfoldable pub error_check : Proc ℤ → Proc (Unit {0})
error_check m = m >>= settle

unfoldable pub on_pilot : RecordModifier → Bool
on_pilot pilot = true
on_pilot desktop = false
on_pilot both = true

unfoldable pub on_desktop : RecordModifier → Bool
on_desktop pilot = false
on_desktop desktop = true
on_desktop both = true

abbrev pub when : Bool → Proc (Unit {0}) → Proc (Unit {0})
when true m = m
when false m = pure tt

-- PilotCheck and DesktopCheck
unfoldable pub pilot_check : RecordModifier → Proc ℤ → Proc (Unit {0})
pilot_check mode m = when (on_pilot mode) (error_check m)

unfoldable pub desktop_check : RecordModifier → Proc ℤ → Proc (Unit {0})
desktop_check mode m = when (on_desktop mode) (error_check m)

-- The same macros round a call with an output: it is unset where the call is left out.
unfoldable pub check_out : {A : Type 0} → Proc (ℤ × A) → Proc A
check_out m = do (code, a) ← m; settle code; pure a

unfoldable pub pilot_check_out : {A : Type 0} → RecordModifier → Proc (ℤ × A) → Proc (Option A)
pilot_check_out mode m = if on_pilot mode then (do a ← check_out m; pure (some a)) else pure none

-- A call of a procedure: it starts with `result = 0`, ends by `return result;` unless it returned
-- before, and leaves the caller's `result` alone.
abbrev pub returned : ℤ → Flow (Unit {0}) → Flow ℤ
returned r (next _ v w) = next v r w
returned r (exit v w) = next v r w
returned r fault = fault
returned r stuck = stuck

unfoldable pub procedure : Proc (Unit {0}) → Proc ℤ
procedure body env r w = returned r (body env (pos 0) w)
