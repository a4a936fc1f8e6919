-- ===== src/Padp/Receive.antt =====
-- libpisock/padp.c: padp_rx. The packet that is being read is the list of the bytes read.
use pilot_link.Base.{
  ℕ, zero, suc, ◌+◌, ◌-◌, ◌%◌, ◌==◌, Bool, true, false, not, ◌&&◌, ◌||◌, List, [], ◌++◌, Option,
  none, some, drop, leb, ltb, if◌then◌else◌,
}
use pilot_link.Base.Int.{ℤ, pos, negsuc}
use pilot_link.Base.Run.{Run, ◌>>=◌, ◌>>◌, pure, change, ask, checked}
use pilot_link.AppInfo.{read_block}
use pilot_link.Buffer.{Buffer, Allocator, pi_buffer_new, pi_buffer_append}
use pilot_link.Macros.{get_byte}
use pilot_link.Padp.{
  Padp, Conn, conn_accept, dev_timeout, Lower, Side, err_generic_memory, is_first, is_last,
  has_memerror, is_long, header_of, set_opt, padp_sendack, set_error, read, break_connection,
  err_sock_invalid,
}

-- A read packet with `total_bytes` and `header_size`, or a read's error.
pub data Packet : Type 0 where
  failed : ℤ → Packet
  whole : List ℕ → (total header_size : ℕ) → Packet

-- What a packet is for the receiver.
pub data Verdict : Type 0 where
  memory_error skipped tickled wanted : Verdict

unfoldable pub verdict : (first : Bool) → (txid kind last_txid : ℕ) → Padp → Verdict
verdict first txid kind last_txid padp =
    if has_memerror padp
    then (if last_txid == txid then memory_error else skipped)
    else if padp.kind == 4
    then tickled
    else if not (kind == 2)
        || not (padp.kind == 1)
        || not (last_txid == txid)
        || (if first then not (is_first padp) else is_first padp)
    then skipped
    else wanted

-- How waiting for a packet ends: with a code that is returned at once, with a memory error of the
-- sender, or with a packet.
pub data Arrival : Type 0 where
  broken : ℤ → Arrival
  refused : Arrival
  arrived : Padp → List ℕ → (total header_size : ℕ) → Arrival

abbrev pub flagged : Option ℕ → Option ℕ
flagged none = none
flagged (some flags) = some (if is_long flags then 6 else 4)

-- The header is found to be long once its flags are there.
unfoldable pub adjusted : (header_size total : ℕ) → List ℕ → Option ℕ
adjusted header_size total packet =
    if header_size == 4 && leb 4 total then flagged (get_byte (drop 1 packet)) else some header_size

module _ {L : Type 0} (m : Allocator) (lower : Lower L) where
  unfoldable pub more_of :
      (List ℕ → ℕ → ℕ → Run (Side L) Packet)
      → List ℕ
      → (total header_size : ℕ) → ℤ × List ℕ
      → Run (Side L) Packet
  more_of go packet total header_size (negsuc n, bytes) = pure (failed (negsuc n))
  more_of go packet total header_size (pos n, bytes) = do
    header_size' ← checked (adjusted header_size (total + n) (packet ++ bytes))
    go (packet ++ bytes) (total + n) header_size'

  -- The loop that reads until the header is there.
  unfoldable pub read_packet : (fuel : ℕ) → List ℕ → (total header_size : ℕ) → Run (Side L) Packet
  read_packet zero packet total header_size = checked none
  read_packet (suc fuel) packet total header_size =
      if leb header_size total
      then pure (whole packet total header_size)
      else read lower (header_size + 1024 - total)
        >>= more_of (read_packet fuel) packet total header_size

  unfoldable pub time : Run (Side L) ℕ
  time s = let r = lower.time s.low in some (r.0, record s { low = r.1 })

  unfoldable pub in_thirty : Run (Side L) ℕ
  in_thirty = do now ← time; pure (now + 30)

  -- `honor_rx_timeout && time(NULL) > endtime`
  unfoldable pub timed_out : (honor : Bool) → (endtime : ℕ) → Run (Side L) Bool
  timed_out false endtime = pure false
  timed_out true endtime = do now ← time; pure (ltb endtime now)

  unfoldable pub read_failed : (first : Bool) → ℤ → Run (Side L) Arrival
  read_failed true code = pure (broken code)
  read_failed false code = do code' ← set_error lower code; pure (broken code')

  unfoldable pub judged :
      (ℕ → Run (Side L) Arrival) → (endtime : ℕ) → Arrival → Verdict → Run (Side L) Arrival
  judged go endtime packet memory_error = pure refused
  judged go endtime packet skipped = go endtime
  judged go endtime packet tickled = in_thirty >>= go
  judged go endtime packet wanted = pure packet

  unfoldable pub sorted :
      (ℕ → Run (Side L) Arrival) → (first : Bool) → (endtime : ℕ) → Packet → Run (Side L) Arrival
  sorted go first endtime (failed code) = read_failed first code
  sorted go first endtime (whole packet total header_size) = do
    padp ← checked (header_of packet)
    kind ← ask (λ s. lower.last_type s.low)
    last_txid ← ask (λ s. lower.last_txid s.low)
    txid ← ask (λ s. s.data_.txid)
    judged go endtime (arrived padp packet total header_size)
        (verdict first txid kind last_txid padp)

  unfoldable pub try_read :
      (ℕ → Run (Side L) Arrival)
      → (fuel : ℕ) → (first honor : Bool) → (endtime : ℕ) → (late : Bool) → Run (Side L) Arrival
  try_read go fuel first honor endtime true = do code ← break_connection lower; pure (broken code)
  try_read go fuel first honor endtime false = do
    set_opt lower dev_timeout (if honor then 32000 else 0)
    read_packet fuel [] 0 4 >>= sorted go first endtime

  -- The loops that wait for a packet: the first of a message, or a later one.
  unfoldable pub wait_for : (fuel : ℕ) → (first honor : Bool) → (endtime : ℕ) → Run (Side L) Arrival
  wait_for zero first honor endtime = checked none
  wait_for (suc fuel) first honor endtime =
      timed_out honor endtime >>= try_read (wait_for fuel first honor) fuel first honor endtime

  -- What the message's reception has come to: a code that is returned at once, or the end at `done`.
  unfoldable pub done : ℤ × Buffer → Run (Side L) (ℤ × Buffer)
  done result = do
    change (λ s. record s { data_ = record s.data_ { txid = s.data_.next_txid % 256 } })
    pure result

  unfoldable pub appended :
      (ℕ → Buffer → Run (Side L) (ℤ × Buffer)) → ℕ → Bool × Buffer → Run (Side L) (ℤ × Buffer)
  appended go offset (true, buf) = go offset buf
  appended go offset (false, buf) = do code ← set_error lower err_generic_memory; pure (code, buf)

  -- A packet that is in order is put behind the others.
  unfoldable pub put_behind :
      (ℕ → Buffer → Run (Side L) (ℤ × Buffer))
      → (in_order : Bool) → List ℕ
      → (total header_size offset : ℕ) → Buffer
      → Run (Side L) (ℤ × Buffer)
  put_behind go false packet total header_size offset buf = go offset buf
  put_behind go true packet total header_size offset buf = do
    payload ← checked (read_block (total - 4) (drop header_size packet))
    result ← checked (pi_buffer_append m buf payload)
    appended go (offset + (total - 4)) result

  unfoldable pub next_of :
      (ℕ → Buffer → Arrival → Run (Side L) (ℤ × Buffer))
      → (fuel : ℕ) → (honor last : Bool) → (offset : ℕ) → Buffer
      → Run (Side L) (ℤ × Buffer)
  next_of go fuel honor true offset buf = done (pos offset, buf)
  next_of go fuel honor false offset buf = do
    endtime ← in_thirty
    wait_for fuel false honor endtime >>= go offset buf

  -- The loop over a message's packets: `offset` bytes of it are in the buffer.
  unfoldable pub segments :
      (fuel : ℕ) → (honor : Bool) → (offset : ℕ) → Buffer → Arrival → Run (Side L) (ℤ × Buffer)
  segments fuel honor offset buf (broken code) = pure (code, buf)
  segments fuel honor offset buf refused = done (negsuc 0, buf)
  segments zero honor offset buf (arrived padp packet total header_size) = checked none
  segments (suc fuel) honor offset buf (arrived padp packet total header_size) = do
    txid ← ask (λ s. s.data_.txid)
    padp_sendack lower txid padp
    put_behind (next_of (segments fuel honor) fuel honor (is_last padp))
        ((if is_first padp then 0 else padp.size) == offset) packet total header_size offset buf

  abbrev pub following : Conn → (txid : ℕ) → ℕ
  following conn_accept txid = if leb 0xfe txid then 1 else txid + 1
  following _ txid = txid

  abbrev pub choose_txid : Side L → Side L
  choose_txid s =
      if s.data_.freeze_txid
      then s
      else record s { data_ = record s.data_ { next_txid = following s.conn s.data_.txid } }

  -- The clock is read once more when the first packet is there.
  unfoldable pub begun : (fuel : ℕ) → (honor : Bool) → Buffer → Arrival → Run (Side L) (ℤ × Buffer)
  begun fuel honor buf (arrived padp packet total header_size) = do
    in_thirty
    segments fuel honor 0 buf (arrived padp packet total header_size)
  begun fuel honor buf ending = segments fuel honor 0 buf ending

  unfoldable pub receive :
      (fuel : ℕ) → (honor : Bool) → Buffer → Option Buffer → Run (Side L) (ℤ × Buffer)
  receive fuel honor buf none = do code ← set_error lower err_generic_memory; pure (code, buf)
  receive fuel honor buf (some padp_buf) = do
    change choose_txid
    endtime ← in_thirty
    wait_for fuel true honor endtime >>= begun fuel honor buf

  unfoldable pub padp_rx : (fuel : ℕ) → Buffer → Run (Side L) (ℤ × Buffer)
  padp_rx fuel buf =
      if lower.present
      then (do
        honor ← ask (λ s. lower.honor_rx_timeout s.low)
        receive fuel honor buf (pi_buffer_new m 1028))
      else (do code ← set_error lower err_sock_invalid; pure (code, buf))
