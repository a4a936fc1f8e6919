-- ===== src/Slp.antt =====
-- libpisock/slp.c and include/pi-slp.h: SLP frames, sent and received; crc16 of libpisock/utils.c.
pub mod Crc
pub mod Receive
pub mod Frame
pub mod Pending
pub mod Loopback
mod Tests
use pilot_link.Base.{
  ℕ, ◌+◌, ◌%◌, ◌^◌, ◌==◌, List, [], ◌∷◌, ◌++◌, Option, none, some, length, leb, if◌then◌else◌,
}
use pilot_link.Base.Int.{ℤ, negsuc}
use pilot_link.Buffer.{Allocator}
use pilot_link.Macros.{set_short}
use pilot_link.Slp.Crc.{crc16}

pub record SlpData : Type 0 where
  pub dest : ℕ
  pub last_dest : ℕ
  pub src : ℕ
  pub last_src : ℕ
  pub kind : ℕ
  pub last_kind : ℕ
  pub txid : ℕ
  pub last_txid : ℕ

-- The protocol below SLP. `read` gives its code and the bytes that it appends to the buffer.
pub record Link (S : Type 0) : Type 0 where
  pub write : S → List ℕ → ℤ × S
  pub read : S → ℕ → ℤ × List ℕ × S

abbrev pub err_sock_invalid : ℤ
err_sock_invalid = negsuc 200

abbrev pub err_prot_badpacket : ℤ
err_prot_badpacket = negsuc 101

abbrev pub err_generic_memory : ℤ
err_generic_memory = negsuc 499

abbrev pub header_len : ℕ
header_len = 10

abbrev pub mtu : ℕ
mtu = 0xffff

abbrev pub frame_len : ℕ
frame_len = 65547

unfoldable pub sum : List ℕ → ℕ
sum [] = 0
sum (b ∷ bytes) = b + sum bytes

-- The nine bytes that the header's checksum covers.
unfoldable pub header : SlpData → ℕ → List ℕ
header data_ len =
    0xbe ∷ 0xef ∷ 0xed ∷ (data_.dest % 256) ∷ (data_.src % 256) ∷ (data_.kind % 256) ∷ []
    ++ set_short len
    ++ ((data_.txid % 256) ∷ [])

unfoldable pub packet : SlpData → List ℕ → List ℕ
packet data_ buf =
    header data_ (length buf) ++ ((sum (header data_ (length buf)) % 256) ∷ []) ++ buf

unfoldable pub frame : SlpData → List ℕ → List ℕ
frame data_ buf = packet data_ buf ++ set_short (crc16 (packet data_ buf))

-- The code that it returns and the state of the layer below; `none` where the packet does not fit
-- in the frame's memory.
unfoldable pub slp_tx :
    {S : Type 0} → Allocator → Option SlpData → Option (Link S) → S → List ℕ → Option (ℤ × S)
slp_tx m none next s buf = some (err_sock_invalid, s)
slp_tx m (some data_) none s buf = some (err_sock_invalid, s)
slp_tx m (some data_) (some next) s buf = elim (m.malloc frame_len) [
  | none ↦ some (err_generic_memory, s)
  | some block ↦ if leb (length buf) mtu then some (next.write s (frame data_ buf)) else none
]
