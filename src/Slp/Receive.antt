-- ===== src/Slp/Receive.antt =====
-- libpisock/slp.c: slp_rx. The packet that is being read is the list of its used bytes.
use pilot_link.Base.{
  ℕ, zero, suc, ◌+◌, ◌-◌, ◌%◌, ◌^◌, ◌==◌, Bool, true, false, not, ◌&&◌, List, [], ◌∷◌, ◌++◌, Option,
  none, some, length, take, drop, leb, ltb, if◌then◌else◌,
}
use Prim.Native.Nat.{bit_or}
use pilot_link.Base.Int.{ℤ, pos, negsuc}
use pilot_link.Base.Partial.{◌>>=◌}
use pilot_link.Buffer.{Buffer, Allocator, pi_buffer_new, pi_buffer_append}
use pilot_link.Macros.{get_byte, get_short}
use pilot_link.Slp.{
  SlpData, Link, err_sock_invalid, err_prot_badpacket, err_generic_memory, header_len, frame_len,
  sum,
}
use pilot_link.Slp.Crc.{crc16}

-- The values 0 to 4 of `state`.
pub data State : Type 0 where
  begin signature_read header_read packet_read footer_read : State

-- `wait`: read `expect` more bytes; `stop`: the packet is given up; `accept`: the packet is whole.
pub data Step : Type 0 where
  wait : State → (expect : ℕ) → (slp_buf : List ℕ) → (packet_len : ℕ) → Step
  stop : ℤ → Step
  accept : (dest src kind txid : ℕ) → List ℕ → Step
  beyond : Step

-- `packet_len > (int)len`
unfoldable pub exceeds : ℕ → ℕ → Bool
exceeds packet_len len = if leb (2 ^ 31) (len % 2 ^ 32) then true else ltb (len % 2 ^ 32) packet_len

unfoldable pub find_signature : List ℕ → ℕ → Step
find_signature (b1 ∷ b2 ∷ b3 ∷ more) packet_len =
    if b1 == 0xbe && b2 == 0xef && b3 == 0xed
    then wait header_read 7 (b1 ∷ b2 ∷ b3 ∷ more) packet_len
    else wait signature_read 1 (b2 ∷ b3 ∷ []) packet_len
find_signature _ packet_len = beyond

unfoldable pub check_header : ℕ → List ℕ → Option Step
check_header len slp_buf = do
  received ← get_byte (drop 9 slp_buf)
  packet_len ← get_short (drop 6 slp_buf)
  some (
      if sum (take 9 slp_buf) % 256 == received
      then if exceeds packet_len len
        then stop err_prot_badpacket
        else wait packet_read packet_len slp_buf packet_len
      else stop (pos 0))

-- Every tenth loopback packet has a bogus checksum.
unfoldable pub adjusted : ℕ → ℕ → ℕ → ℕ
adjusted kind computed received =
    if kind == 3 && not (computed == received) then bit_or computed 0xe0 else computed

unfoldable pub check_crc : List ℕ → ℕ → Option Step
check_crc slp_buf packet_len = do
  received ← get_short (drop (header_len + packet_len) slp_buf)
  kind ← get_byte (drop 5 slp_buf)
  dest ← get_byte (drop 3 slp_buf)
  src ← get_byte (drop 4 slp_buf)
  txid ← get_byte (drop 8 slp_buf)
  some (
      if adjusted kind (crc16 (take (header_len + packet_len) slp_buf)) received == received
      then accept dest src kind txid (take packet_len (drop header_len slp_buf))
      else stop (pos 0))

unfoldable pub or_beyond : Option Step → Step
or_beyond none = beyond
or_beyond (some next) = next

unfoldable pub step : ℕ → State → List ℕ → ℕ → Step
step len begin slp_buf packet_len = wait signature_read 3 slp_buf packet_len
step len signature_read slp_buf packet_len = find_signature slp_buf packet_len
step len header_read slp_buf packet_len = or_beyond (check_header len slp_buf)
step len packet_read slp_buf packet_len = wait footer_read 2 slp_buf packet_len
step len footer_read slp_buf packet_len = or_beyond (check_crc slp_buf packet_len)

pub data Got (S : Type 0) : Type 0 where
  filled : List ℕ → S → Got S
  failed : ℤ → S → Got S
  starved : Got S

-- `fault`: undefined behaviour; `stuck`: no fuel left.
pub data Received (S : Type 0) : Type 0 where
  returned : ℤ → Buffer → Option SlpData → S → Received S
  fault : Received S
  stuck : Received S

-- After a read: whether its code is an error, and whether bytes are left to read.
unfoldable pub go_on : {S : Type 0} → Bool → Got S → (ℕ → Got S) → ℕ → Got S
go_on true whole more left = whole
go_on false whole more left = more left

unfoldable pub answered : {S : Type 0} → ℤ → S → (expect : ℕ) → Got S → (ℕ → Got S) → Got S
answered (negsuc n) s' expect whole more = failed (negsuc n) s'
answered (pos n) s' expect whole more = go_on (leb expect n) whole more (expect - n)

module _ {S : Type 0} (m : Allocator) (next : Link S) where
  -- The do-while loop around next->read.
  unfoldable pub read_all : ℕ → S → List ℕ → ℕ → Got S
  read_all zero s slp_buf expect = starved
  read_all (suc fuel) s slp_buf expect =
      answered (next.read s expect).0 (next.read s expect).2 expect
        (filled (slp_buf ++ (next.read s expect).1) (next.read s expect).2)
        (λ left. read_all fuel (next.read s expect).2 (slp_buf ++ (next.read s expect).1) left)

  unfoldable pub note : SlpData → ℕ → ℕ → ℕ → ℕ → SlpData
  note data_ dest src kind txid = record data_ {
    last_dest = dest;
    last_src = src;
    last_kind = kind;
    last_txid = txid;
  }

  unfoldable pub hand_over : Buffer → SlpData → S → List ℕ → Received S
  hand_over buf data_ s packet = elim (pi_buffer_append m buf packet) [
    | none ↦ fault
    | some result ↦
        returned (if result.0 then pos (length packet) else err_generic_memory) result.1
          (some data_) s
  ]

  unfoldable pub resume : Buffer → SlpData → Got S → (List ℕ → S → Received S) → Received S
  resume buf data_ (filled slp_buf s) go = go slp_buf s
  resume buf data_ (failed code s) go = returned code buf (some data_) s
  resume buf data_ starved go = stuck

  unfoldable pub act :
      Buffer → SlpData → S → Step → (State → ℕ → List ℕ → ℕ → Received S) → Received S
  act buf data_ s (wait state expect slp_buf packet_len) go = go state expect slp_buf packet_len
  act buf data_ s (stop code) go = returned code buf (some data_) s
  act buf data_ s (accept dest src kind txid packet) go =
      hand_over buf (note data_ dest src kind txid) s packet
  act buf data_ s beyond go = fault

  unfoldable pub rx_loop : ℕ → ℕ → Buffer → SlpData → S → State → List ℕ → ℕ → Received S
  rx_loop zero len buf data_ s state slp_buf packet_len = stuck
  rx_loop (suc fuel) len buf data_ s state slp_buf packet_len =
      act buf data_ s (step len state slp_buf packet_len) (λ state' expect slp_buf' packet_len'.
        resume buf data_ (read_all fuel s slp_buf' expect)
          (λ slp_buf'' s'. rx_loop fuel len buf data_ s' state' slp_buf'' packet_len'))

unfoldable pub slp_rx :
    {S : Type 0}
    → Allocator
    → (fuel : ℕ) → Option SlpData
    → Option (Link S)
    → S
    → Buffer
    → (len : ℕ) → Received S
slp_rx m fuel none next s buf len = returned err_sock_invalid buf none s
slp_rx m fuel (some data_) none s buf len = returned err_sock_invalid buf (some data_) s
slp_rx m fuel (some data_) (some next) s buf len = elim (pi_buffer_new m frame_len) [
  | none ↦ returned err_generic_memory buf (some data_) s
  | some slp_buf ↦ rx_loop m next fuel len buf data_ s begin [] 0
]
