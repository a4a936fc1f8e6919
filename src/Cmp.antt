-- ===== src/Cmp.antt =====
-- libpisock/cmp.c: the handshake that agrees on a version and a rate. An `int` is a ℤ; `type` and `flags`
-- are unsigned characters, and what is stored in them is cut to a byte.
pub mod Handshake
mod Tests
use pilot_link.Base.{
  ℕ, zero, ◌&&◌, ◌+◌, ◌/◌, ◌%◌, ◌^◌, ◌==◌, Bool, true, false, not, List, [], ◌∷◌, ◌++◌, Option,
  none, some, drop, ltb, if◌then◌else◌,
}
use pilot_link.Base.Int.{ℤ, pos, negsuc, is_neg, int32, low32, ltb_ℤ}
use pilot_link.Base.Partial.{◌>>=◌ as ◌>>?◌}
use pilot_link.Base.Run.{Run, ◌>>=◌, ◌>>◌, pure, change, ask, checked}
use pilot_link.Buffer.{Buffer, Allocator, pi_buffer_new}
use pilot_link.Macros.{get_byte, get_short, get_long, set_byte, set_short, set_long}

pub record CmpData : Type 0 where
  pub kind : ℕ
  pub flags : ℕ
  pub version : ℕ
  pub baudrate : ℤ

-- What cmp.c calls: the next protocol's functions, the option that makes PADP send data, and the
-- error calls. A read's code comes with the bytes that it appends. `here`: the socket has this
-- protocol; `has_next`: and one below it.
pub record Beneath (L : Type 0) : Type 0 where
  pub here : Bool
  pub has_next : Bool
  pub write : L → List ℕ → ℤ × L
  pub read : L → ℕ → ℤ × List ℕ × L
  pub flush : L → ℤ × L
  pub send_data : L → L
  pub set_error : ℤ → L → L

-- The protocol's data and the layers below.
pub record Party (L : Type 0) : Type 0 where
  pub data_ : CmpData
  pub low : L

abbrev pub err_prot_aborted : ℤ
err_prot_aborted = negsuc 99

abbrev pub err_prot_incompatible : ℤ
err_prot_incompatible = negsuc 100

abbrev pub err_sock_invalid : ℤ
err_sock_invalid = negsuc 200

abbrev pub err_generic_memory : ℤ
err_generic_memory = negsuc 499

abbrev pub cmp_version : ℕ
cmp_version = 0x0102

unfoldable pub cmp_bytes : CmpData → List ℕ
cmp_bytes d =
    set_byte d.kind
    ++ (set_byte d.flags
        ++ (set_short (if ltb cmp_version d.version then cmp_version else d.version)
            ++ (set_short 0 ++ set_long (low32 d.baudrate))))

-- The fields of a packet; bytes that no read has put there are undefined.
unfoldable pub parse_cmp : List ℕ → Option CmpData
parse_cmp msg = get_byte msg >>? λ kind. get_byte (drop 1 msg) >>? λ flags.
    get_short (drop 2 msg) >>? λ version. get_long (drop 6 msg) >>? λ baudrate.
    some (record { kind = kind; flags = flags; version = version; baudrate = int32 baudrate })

abbrev pub below_10 : ℤ → Bool
below_10 code = ltb_ℤ code (pos 10)

-- The rate that the two sides agree on.
unfoldable pub agreed : (establishrate : ℤ) → (establishhighrate : Bool) → (baudrate : ℤ) → ℤ
agreed (negsuc zero) high baudrate = baudrate
agreed establishrate high baudrate =
    if ltb_ℤ baudrate establishrate
    then (if high then establishrate else baudrate)
    else establishrate

abbrev pub is_compatible : (version : ℕ) → Bool
is_compatible version = version / 2 ^ 8 % 256 == 1

abbrev pub init_flags : (baudrate : ℤ) → ℕ
init_flags (pos n) = if n == 9600 then 0x10 else 0x80
init_flags (negsuc n) = 0x80

-- A buffer that may be NULL, with what a read appends.
abbrev pub appended_to : Option (List ℕ) → List ℕ → Option (List ℕ)
appended_to none new = none
appended_to (some old) new = some (old ++ new)

module _ {L : Type 0} (lower : Beneath L) where
  unfoldable pub reports : ℤ → Run (Party L) ℤ
  reports code = do change (λ s. record s { low = lower.set_error code s.low }); pure code

  unfoldable pub write : List ℕ → Run (Party L) ℤ
  write bytes s = let r = lower.write s.low bytes in some (r.0, record s { low = r.1 })

  unfoldable pub read : ℕ → Run (Party L) (ℤ × List ℕ)
  read len s = let r = lower.read s.low len in some ((r.0, r.1), record s { low = r.2 })

  abbrev pub sent : ℤ → Run (Party L) ℤ
  sent (negsuc n) = pure (negsuc n)
  sent (pos n) = if ltb n 10 then reports err_prot_aborted else pure (pos 0)

  unfoldable pub cmp_tx : Run (Party L) ℤ
  cmp_tx = if not (lower.here && lower.has_next) then reports err_sock_invalid else (do
    change (λ s. record s { low = lower.send_data s.low })
    d ← ask (λ s. s.data_)
    n ← write (cmp_bytes d)
    sent n)

  abbrev pub take_in : Option (List ℕ) → ℤ → Run (Party L) ℤ
  take_in msg (negsuc n) = reports (negsuc n)
  take_in msg (pos n) = if ltb n 10 then reports err_prot_aborted else (do
    bytes ← checked msg
    d ← checked (parse_cmp bytes)
    change (λ s. record s { data_ = d })
    pure (pos 0))

  -- What it returns, and the buffer.
  unfoldable pub cmp_rx : Option (List ℕ) → (len : ℕ) → Run (Party L) (ℤ × Option (List ℕ))
  cmp_rx msg len =
      if not (lower.here && lower.has_next)
      then (do code ← reports err_sock_invalid; pure (code, msg))
      else (do
        r ← read len
        code ← take_in (appended_to msg r.1) r.0
        pure (code, appended_to msg r.1))

  unfoldable pub cmp_flush : Run (Party L) ℤ
  cmp_flush s =
      if not (lower.here && lower.has_next)
      then reports err_sock_invalid s
      else (let r = lower.flush s.low in some (r.0, record s { low = r.1 }))

  abbrev pub with_prot : Run (Party L) ℤ → Run (Party L) ℤ
  with_prot k = if not lower.here then reports err_sock_invalid else k

  abbrev pub set_data : (CmpData → CmpData) → Run (Party L) (Unit {0})
  set_data f = change (λ s. record s { data_ = f s.data_ })

  unfoldable pub cmp_init : (baudrate : ℤ) → Run (Party L) ℤ
  cmp_init baudrate = with_prot (do
    set_data (λ d. record d { kind = 2; flags = init_flags baudrate; baudrate = baudrate })
    cmp_tx)

  unfoldable pub cmp_abort : (reason : ℕ) → Run (Party L) ℤ
  cmp_abort reason =
      with_prot (do set_data (λ d. record d { kind = 3; flags = reason % 256 }); cmp_tx)

  unfoldable pub cmp_wakeup : (maxbaud : ℤ) → Run (Party L) ℤ
  cmp_wakeup maxbaud = with_prot (do
    set_data (λ d. record d { kind = 1; flags = 0; version = cmp_version; baudrate = maxbaud })
    cmp_tx)

  unfoldable pub agree : (baudrate : ℤ) → Run (Party L) ℤ
  agree baudrate = do
    set_data (λ d. record d { baudrate = baudrate })
    n ← cmp_init baudrate
    pure (if is_neg n then n else pos 0)

  unfoldable pub refuse : Run (Party L) ℤ
  refuse = do unused ← cmp_abort 0x80; reports err_prot_incompatible

  -- The answer to a wakeup.
  unfoldable pub greet : (establishrate : ℤ) → (establishhighrate : Bool) → Run (Party L) ℤ
  greet establishrate high = do
    d ← ask (λ s. s.data_)
    (if is_compatible d.version then agree (agreed establishrate high d.baudrate) else refuse)

  abbrev pub proceed : ℤ → Run (Party L) ℤ → Run (Party L) ℤ
  proceed code k = if is_neg code then pure code else k

  abbrev pub hear :
      Option Buffer → (establishrate : ℤ) → (establishhighrate : Bool) → Run (Party L) ℤ
  hear none establishrate high = reports err_generic_memory
  hear (some buf) establishrate high = do
    r ← cmp_rx (some []) 10
    proceed (r.0) (greet establishrate high)

  unfoldable pub cmp_rx_handshake :
      Allocator → (establishrate : ℤ) → (establishhighrate : Bool) → Run (Party L) ℤ
  cmp_rx_handshake m establishrate high = with_prot (hear (pi_buffer_new m 10) establishrate high)

  abbrev pub answer_of : (kind : ℕ) → Run (Party L) ℤ
  answer_of kind =
      if kind == 2
      then pure (pos 0)
      else if kind == 3
      then reports err_prot_aborted
      else pure err_prot_incompatible

  -- cmp_rx is given NULL to read into.
  unfoldable pub cmp_tx_handshake : Run (Party L) ℤ
  cmp_tx_handshake = with_prot (do
    n ← cmp_wakeup (pos 38400)
    proceed n (do r ← cmp_rx none 0; proceed (r.0) (do d ← ask (λ s. s.data_); answer_of d.kind)))
