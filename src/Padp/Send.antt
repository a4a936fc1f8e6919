-- ===== src/Padp/Send.antt =====
-- libpisock/padp.c: padp_tx.
use pilot_link.Base.{
  ℕ, zero, suc, ◌+◌, ◌%◌, ◌==◌, Bool, true, false, ◌&&◌, List, [], ◌++◌, Option, none, some, length,
  take, drop, leb, if◌then◌else◌,
}
use pilot_link.Base.Int.{ℤ, pos, negsuc}
use pilot_link.Base.Run.{Run, ◌>>=◌, ◌>>◌, pure, change, ask, checked}
use pilot_link.Buffer.{Buffer, Allocator, pi_buffer_new}
use pilot_link.Macros.{set_byte}
use pilot_link.Padp.{
  Padp, PadpData, Conn, conn_init, conn_accept, slp_type, slp_dest, slp_src, slp_txid, dev_timeout,
  Lower, Side, err_sock_invalid, err_generic_memory, has_memerror, header_of, size_bytes, set_opt,
  write, read, set_error, break_connection, padp_sendack, lowered,
}

-- The flags have bits of their own, and their sum is their `or`.
unfoldable pub flags_of : (first last long : Bool) → ℕ
flags_of first last long =
    (if first then 0x80 else 0) + (if last then 0x40 else 0) + (if long then 0x10 else 0)

-- A fragment of what is left to send, of which at most 1024 bytes go into it.
unfoldable pub packet_bytes : PadpData → (first : Bool) → (count : ℕ) → (rest : List ℕ) → List ℕ
packet_bytes data_ first count rest =
    set_byte data_.kind
    ++ (set_byte (flags_of first (leb (length rest) 1024) data_.use_long_format)
        ++ (size_bytes data_.use_long_format (if first then length rest else count)
            ++ take 1024 rest))

-- What a packet is for a sender that waits for an acknowledgement.
pub data Heard : Type 0 where
  answer tickle out_of_memory ack repeat unexpected : Heard

unfoldable pub is_repeat : PadpData → (last_txid : ℕ) → Padp → Bool
is_repeat data_ last_txid padp =
    padp.kind == data_.last_ack_padp.kind
    && padp.flags == data_.last_ack_padp.flags
    && padp.size == data_.last_ack_padp.size
    && last_txid == data_.last_ack_txid

unfoldable pub heard_as : PadpData → (last : Bool) → (kind last_txid : ℕ) → Padp → Heard
heard_as data_ last kind last_txid padp =
    if kind == 2 && padp.kind == 1 && last_txid == data_.txid && last
    then answer
    else if padp.kind == 4
    then tickle
    else if kind == 2 && padp.kind == 2 && last_txid == data_.txid
    then (if has_memerror padp then out_of_memory else ack)
    else if kind == 2 && is_repeat data_ last_txid padp
    then repeat
    else unexpected

-- `stopped`: the end of padp_tx, with the whole count or with -1.
pub data Outcome : Type 0 where
  sent unacked retry disconnected exhausted : Outcome
  stopped : (whole : Bool) → Outcome

unfoldable pub is_disconnected : ℤ → Bool
is_disconnected (pos n) = false
is_disconnected (negsuc n) = n == 199

module _ {L : Type 0} (m : Allocator) (lower : Lower L) where
  unfoldable pub act_on :
      Run (Side L) Outcome → (last_txid : ℕ) → Padp → Heard → Run (Side L) Outcome
  act_on wait last_txid padp answer = pure (stopped true)
  act_on wait last_txid padp tickle = wait
  act_on wait last_txid padp out_of_memory = pure (stopped false)
  act_on wait last_txid padp ack = pure sent
  act_on wait last_txid padp repeat = do padp_sendack lower last_txid padp; pure retry
  act_on wait last_txid padp unexpected = pure (stopped false)

  unfoldable pub listen :
      (List ℕ → Run (Side L) Outcome) → (last : Bool) → List ℕ → ℤ × List ℕ → Run (Side L) Outcome
  listen wait last packet (pos (suc n), bytes) = do
    padp ← checked (header_of (packet ++ bytes))
    kind ← ask (λ s. lower.last_type s.low)
    last_txid ← ask (λ s. lower.last_txid s.low)
    data_ ← ask (λ s. s.data_)
    act_on (wait (packet ++ bytes)) last_txid padp (heard_as data_ last kind last_txid padp)
  listen wait last packet (pos zero, bytes) = pure retry
  listen wait last packet (negsuc n, bytes) =
      pure (if is_disconnected (negsuc n) then disconnected else retry)

  -- After a tickle the next packet is read behind it.
  unfoldable pub await_ack : (fuel : ℕ) → (last : Bool) → List ℕ → Run (Side L) Outcome
  await_ack zero last packet = checked none
  await_ack (suc fuel) last packet = read lower 1030 >>= listen (await_ack fuel last) last packet

  unfoldable pub tried : Run (Side L) Outcome → Outcome → Run (Side L) Outcome
  tried again retry = again
  tried again outcome = pure outcome

  -- After next->write: whether the connection is lost, and whether the packet is a tickle.
  unfoldable pub wrote :
      Run (Side L) Outcome → Run (Side L) Outcome → (lost tickles : Bool) → Run (Side L) Outcome
  wrote again wait true tickles = pure disconnected
  wrote again wait false true = pure unacked
  wrote again wait false false = wait >>= tried again

  unfoldable pub attempt :
      (fuel retries : ℕ) → (first : Bool) → (count : ℕ) → (rest : List ℕ) → Run (Side L) Outcome
  attempt fuel zero first count rest = pure exhausted
  attempt fuel (suc retries) first count rest = do
    data_ ← ask (λ s. s.data_)
    set_opt lower slp_type 2
    set_opt lower slp_dest 3
    set_opt lower slp_src 3
    set_opt lower dev_timeout 2000
    set_opt lower slp_txid data_.txid
    result ← write lower (packet_bytes data_ first count rest)
    wrote (attempt fuel retries first count rest) (await_ack fuel (leb (length rest) 1024) [])
        (is_disconnected result) (data_.kind == 4)

  abbrev pub advance : Conn → (kind : ℕ) → PadpData → PadpData
  advance conn_init kind data_ =
      if kind == 2 then data_ else record data_ { txid = data_.next_txid % 256 }
  advance _ kind data_ = data_

  unfoldable pub sent_all : ℤ → Run (Side L) ℤ
  sent_all count = do
    change (λ s. record s { data_ = advance s.conn s.data_.kind s.data_ })
    pure count

  unfoldable pub settle :
      (Bool → ℕ → List ℕ → Run (Side L) ℤ)
      → (first : Bool) → (count : ℕ) → (rest : List ℕ) → Outcome
      → Run (Side L) ℤ
  settle go first count rest sent =
      if leb (length rest) 1024
      then sent_all (pos (count + length rest))
      else go false (count + 1024) (drop 1024 rest)
  settle go first count rest unacked =
      if length rest == 0 then sent_all (pos count) else go first count rest
  settle go first count rest (stopped true) = sent_all (pos (count + length (take 1024 rest)))
  settle go first count rest (stopped false) = sent_all (negsuc 0)
  settle go first count rest _ = break_connection lower

  -- The loop over a message's fragments.
  unfoldable pub send_all :
      (fuel : ℕ) → (first : Bool) → (count : ℕ) → (rest : List ℕ) → Run (Side L) ℤ
  send_all zero first count rest = checked none
  send_all (suc fuel) first count rest =
      attempt fuel 10 first count rest >>= settle (send_all fuel) first count rest

  abbrev pub following : PadpData → PadpData
  following data_ =
      if data_.txid == 0
      then record data_ { txid = 0x10 }
      else if leb 0xfe data_.txid
      then record data_ { next_txid = 1 }
      else record data_ { next_txid = data_.txid + 1 }

  abbrev pub woken : PadpData → PadpData
  woken data_ = if data_.kind == 0x101 then record data_ { txid = 0xff } else data_

  abbrev pub accepted : Conn → PadpData → PadpData
  accepted conn_accept data_ =
      if data_.kind == 2 then data_ else record data_ { txid = data_.next_txid % 256 }
  accepted _ data_ = data_

  unfoldable pub choose_txid : Side L → Side L
  choose_txid s =
      let data_ = woken s.data_ in
      record s { data_ = accepted s.conn (if data_.freeze_txid then data_ else following data_) }

  unfoldable pub transmit : (fuel : ℕ) → List ℕ → Option Buffer → Run (Side L) ℤ
  transmit fuel buf none = set_error lower err_generic_memory
  transmit fuel buf (some padp_buf) = do
    change (lowered lower lower.flush)
    send_all fuel true 0 buf

  unfoldable pub padp_tx : (fuel : ℕ) → List ℕ → Run (Side L) ℤ
  padp_tx fuel buf =
      if lower.present
      then (do change choose_txid; transmit fuel buf (pi_buffer_new m 1030))
      else set_error lower err_sock_invalid
