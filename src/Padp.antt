-- ===== src/Padp.antt =====
-- libpisock/padp.c: the fragments of a message, their acknowledgements and their reception.
pub mod Receive
pub mod Send
pub mod Fragments
pub mod Delivered
pub mod Rounds
pub mod Reception
pub mod Acked
pub mod Sending
pub mod Loopback
mod Tests
use pilot_link.Base.{
  ℕ, zero, suc, ◌+◌, ◌-◌, ◌*◌, ◌/◌, ◌%◌, ◌^◌, ◌==◌, Bool, true, false, List, [], ◌∷◌, ◌++◌, Option,
  none, some, length, drop, if◌then◌else◌,
}
use pilot_link.Base.Int.{ℤ, pos, negsuc, is_neg}
use pilot_link.Base.Partial.{◌>>=◌ as ◌>>?◌}
use pilot_link.Base.Run.{Run, ◌>>=◌, ◌>>◌, pure, change, ask}
use pilot_link.Macros.{get_byte, get_short, get_long, set_byte, set_short, set_long}

-- A packet's header.
pub record Padp : Type 0 where
  pub kind : ℕ
  pub flags : ℕ
  pub size : ℕ

pub record PadpData : Type 0 where
  pub kind : ℕ
  pub freeze_txid : Bool
  pub use_long_format : Bool
  pub txid : ℕ
  pub next_txid : ℕ
  pub last_ack_txid : ℕ
  pub last_ack_padp : Padp

-- The states of a socket that padp.c tells apart.
pub data Conn : Type 0 where
  conn_init conn_accept conn_break conn_other : Conn

-- The options that padp.c sets in the layers below.
pub data SockOpt : Type 0 where
  slp_type slp_dest slp_src slp_txid dev_timeout : SockOpt

-- What padp.c calls: the next protocol's functions, the options of the layers below, the clock, and
-- the error calls. A read's code comes with the bytes that it appends. `present`: the socket has
-- this protocol and one below it.
pub record Lower (L : Type 0) : Type 0 where
  pub present : Bool
  pub write : L → List ℕ → ℤ × L
  pub read : L → ℕ → ℤ × List ℕ × L
  pub flush : L → L
  pub set_option : SockOpt → ℕ → L → L
  pub last_type : L → ℕ
  pub last_txid : L → ℕ
  pub honor_rx_timeout : L → Bool
  pub time : L → ℕ × L
  pub set_error : ℤ → L → L

-- The protocol's data, the socket's state and the layers below.
pub record Side (L : Type 0) : Type 0 where
  pub data_ : PadpData
  pub conn : Conn
  pub low : L

abbrev pub err_sock_disconnected : ℤ
err_sock_disconnected = negsuc 199

abbrev pub err_sock_invalid : ℤ
err_sock_invalid = negsuc 200

abbrev pub err_generic_memory : ℤ
err_generic_memory = negsuc 499

abbrev pub is_first : Padp → Bool
is_first padp = padp.flags / 2 ^ 7 % 2 == 1

abbrev pub is_last : Padp → Bool
is_last padp = padp.flags / 2 ^ 6 % 2 == 1

abbrev pub has_memerror : Padp → Bool
has_memerror padp = padp.flags / 2 ^ 5 % 2 == 1

abbrev pub is_long : (flags : ℕ) → Bool
is_long flags = flags / 2 ^ 4 % 2 == 1

unfoldable pub size_bytes : (long : Bool) → ℕ → List ℕ
size_bytes true size = set_long size
size_bytes false size = set_short size

unfoldable pub get_size : (long : Bool) → List ℕ → Option ℕ
get_size true bytes = get_long bytes
get_size false bytes = get_short bytes

-- The header at the start of a packet; bytes that no read has put there are undefined.
unfoldable pub header_of : List ℕ → Option Padp
header_of packet = get_byte packet >>? λ kind. get_byte (drop 1 packet) >>? λ flags.
    get_size (is_long flags) (drop 2 packet) >>? λ size.
    some (record { kind = kind; flags = flags; size = size })

unfoldable pub ack_bytes : Padp → List ℕ
ack_bytes padp = set_byte 2 ++ (set_byte padp.flags ++ size_bytes (is_long padp.flags) padp.size)

module _ {L : Type 0} (lower : Lower L) where
  abbrev pub lowered : (L → L) → Side L → Side L
  lowered f s = record s { low = f s.low }

  unfoldable pub set_opt : SockOpt → ℕ → Run (Side L) (Unit {0})
  set_opt option value = change (lowered (lower.set_option option value))

  unfoldable pub write : List ℕ → Run (Side L) ℤ
  write bytes s = let r = lower.write s.low bytes in some (r.0, record s { low = r.1 })

  unfoldable pub acked : (txid : ℕ) → Padp → ℤ → Side L → Side L
  acked txid padp (negsuc n) s = s
  acked txid padp (pos n) s = record s {
    data_ = record s.data_ { last_ack_txid = txid; last_ack_padp = padp };
  }

  unfoldable pub set_error : ℤ → Run (Side L) ℤ
  set_error code = do change (lowered (lower.set_error code)); pure code

  unfoldable pub break_connection : Run (Side L) ℤ
  break_connection = do
    change (λ s. record s { conn = conn_break })
    set_error err_sock_disconnected

  unfoldable pub read : ℕ → Run (Side L) (ℤ × List ℕ)
  read len s = let r = lower.read s.low len in some ((r.0, r.1), record s { low = r.2 })

  unfoldable pub padp_sendack : (txid : ℕ) → Padp → Run (Side L) ℤ
  padp_sendack txid padp =
      if lower.present
      then (do
        set_opt slp_type 2
        set_opt slp_dest 3
        set_opt slp_src 3
        set_opt slp_txid txid
        result ← write (ack_bytes padp)
        change (acked txid padp result)
        pure result)
      else set_error err_sock_invalid
