-- ===== src/Net.antt =====
-- libpisock/net.c: the framing of messages over a stream of bytes. `none` is undefined behaviour or
-- fuel that has run out.
pub mod Handshakes
pub mod Sent
pub mod Received
mod Tests
use pilot_link.Base.{
  ℕ, zero, suc, ◌+◌, ◌-◌, ◌*◌, ◌/◌, ◌%◌, ◌^◌, ◌==◌, Bool, true, false, not, ◌&&◌, ◌||◌, List, [],
  ◌∷◌, ◌++◌, Option, none, some, length, take, drop, leb, ltb, if◌then◌else◌,
}
use pilot_link.Base.Int.{ℤ, pos, negsuc, is_neg, int32}
use pilot_link.Base.Run.{Run, ◌>>=◌, ◌>>◌, pure, change, ask, checked}
use pilot_link.Buffer.{Allocator, pi_buffer_new}
use pilot_link.Macros.{get_byte, get_long, set_byte, set_short, set_long}

-- `txid` is an unsigned character.
pub record NetData : Type 0 where
  pub kind : ℕ
  pub split_writes : Bool
  pub write_chunksize : ℕ
  pub txid : ℕ

-- What net.c calls: the next protocol's functions, the socket's options and the error calls. A
-- read's code comes with the bytes that it appends. `present`: the socket has this protocol and one
-- below it. `takes_txid`: the connection is being made, or the socket takes commands.
pub record Stream (L : Type 0) : Type 0 where
  pub present : Bool
  pub write : L → List ℕ → ℤ × L
  pub read : L → ℕ → ℤ × List ℕ × L
  pub flush_input : L → L
  pub honor_rx_timeout : L → Bool
  pub takes_txid : L → Bool
  pub set_timeout : ℕ → L → L
  pub set_error : ℤ → L → L

pub record NetSide (L : Type 0) : Type 0 where
  pub data_ : NetData
  pub low : L

abbrev pub net_err_memory : ℤ
net_err_memory = negsuc 499

abbrev pub net_err_socket : ℤ
net_err_socket = negsuc 200

abbrev pub net_err_packet : ℤ
net_err_packet = negsuc 101

unfoldable pub net_header : NetData → (len : ℕ) → List ℕ
net_header d len =
    set_byte d.kind ++ (set_byte (if d.kind == 2 then 0xff else d.txid) ++ set_long len)

-- What is written in one go of what is left.
abbrev pub chunk_of : (chunksize : ℕ) → List ℕ → List ℕ
chunk_of chunksize rest = if chunksize == 0 then rest else take chunksize rest

-- What a read of several pieces comes to: its code where it ends early, or the count and the bytes.
pub data Filled : Type 0 where
  cut_off : ℤ → List ℕ → Filled
  whole : (total : ℕ) → List ℕ → Filled

-- What a packet's header leads to.
pub data Heading : Type 0 where
  return_code : ℤ → Heading
  again : Heading
  found_packet : List ℕ → Heading

-- Whether a read's code ends a loop: a header's reading also ends at 0.
abbrev pub ends : (header : Bool) → ℤ → Bool
ends header (negsuc n) = true
ends header (pos n) = header && n == 0

abbrev pub count_of : ℤ → ℕ
count_of (pos n) = n
count_of (negsuc n) = 0

abbrev pub advanced_txid : ℕ → ℕ
advanced_txid txid = if (txid + 1) % 256 == 0xff then 1 else (txid + 1) % 256

module _ {L : Type 0} (lower : Stream L) where
  unfoldable pub fails : ℤ → Run (NetSide L) ℤ
  fails code = do change (λ s. record s { low = lower.set_error code s.low }); pure code

  unfoldable pub put : List ℕ → Run (NetSide L) ℤ
  put bytes s = let r = lower.write s.low bytes in some (r.0, record s { low = r.1 })

  unfoldable pub take_some : ℕ → Run (NetSide L) (ℤ × List ℕ)
  take_some n s = let r = lower.read s.low n in some ((r.0, r.1), record s { low = r.2 })

  -- After a write: its code where it fell short, or what is still to be done.
  abbrev pub went : (tosend : ℕ) → ℤ → (ℕ → Run (NetSide L) (Option ℤ)) → Run (NetSide L) (Option ℤ)
  went tosend (negsuc n) go = pure (some (negsuc n))
  went tosend (pos n) go = if ltb n tosend then pure (some (pos n)) else go n

  -- The loop that writes; `none` where all is written.
  unfoldable pub put_chunks : (fuel chunksize : ℕ) → List ℕ → Run (NetSide L) (Option ℤ)
  put_chunks fuel chunksize [] = pure none
  put_chunks zero chunksize (b ∷ rest) = checked none
  put_chunks (suc fuel) chunksize (b ∷ rest) = do
    n ← put (chunk_of chunksize (b ∷ rest))
    went (length (chunk_of chunksize (b ∷ rest))) n
        (λ count. put_chunks fuel chunksize (drop count (b ∷ rest)))

  unfoldable pub put_frame : (fuel : ℕ) → NetData → List ℕ → List ℕ → Run (NetSide L) (Option ℤ)
  put_frame fuel d header msg =
      if d.split_writes
      then (do n ← put header; went 6 n (λ count. put_chunks fuel d.write_chunksize msg))
      else put_chunks fuel d.write_chunksize (header ++ msg)

  abbrev pub net_sent : (len : ℕ) → Option ℤ → ℤ
  net_sent len none = pos len
  net_sent len (some code) = code

  abbrev pub framed : (fuel : ℕ) → List ℕ → Option (List ℕ) → Run (NetSide L) ℤ
  framed fuel msg none = fails net_err_memory
  framed fuel msg (some buf) = do
    d ← ask (λ s. s.data_)
    r ← put_frame fuel d (net_header d (length msg)) msg
    pure (net_sent (length msg) r)

  unfoldable pub net_tx : Allocator → (fuel : ℕ) → (msg : List ℕ) → Run (NetSide L) ℤ
  net_tx m fuel msg =
      if not lower.present
      then fails net_err_socket
      else framed fuel msg (m.malloc (6 + length msg))

  -- The loops that read until there are enough bytes.
  unfoldable pub read_until :
      (fuel : ℕ) → (header : Bool) → (goal total : ℕ) → List ℕ → Run (NetSide L) Filled
  read_until zero header goal total got =
      if leb goal total then pure (whole total got) else checked none
  read_until (suc fuel) header goal total got =
      if leb goal total then pure (whole total got) else (do
        r ← take_some (goal - total)
        (let got' = got ++ r.1 in
            let more = read_until fuel header goal (total + count_of r.0) got' in
            if ends header r.0 then pure (cut_off r.0 got') else more))

  unfoldable pub classify : (header : List ℕ) → (kind len : ℕ) → Run (NetSide L) Heading
  classify header kind len = do
    change (λ s. record s { data_ = record s.data_ { kind = kind } })
    (if kind == 2
        then (if len == 0
            then pure again
            else (do code ← fails net_err_packet; pure (return_code code)))
        else if kind == 1
        then pure (found_packet header)
        else (do code ← fails net_err_packet; pure (return_code code)))

  abbrev pub headed : Filled → Run (NetSide L) Heading
  headed (cut_off code header) = pure (return_code code)
  headed (whole total header) = do
    kind ← checked (get_byte header)
    len ← checked (get_long (drop 2 header))
    classify header kind (len % 2 ^ 32)

  -- The first byte, where no transaction has been seen: 0x90 begins a message without a header.
  abbrev pub peeked : (fuel : ℕ) → ℤ × List ℕ → Run (NetSide L) Heading
  peeked fuel (code, header) = if ends true code then pure (return_code code) else (do
    first ← checked (get_byte header)
    (if first == 0x90
        then pure (found_packet (1 ∷ 1 ∷ set_long 21))
        else (do f ← read_until fuel true 6 (count_of code) header; headed f)))

  unfoldable pub read_heading : (fuel : ℕ) → Run (NetSide L) Heading
  read_heading fuel = do
    d ← ask (λ s. s.data_)
    (if d.txid == 0
        then (do r ← take_some 1; peeked fuel r)
        else (do f ← read_until fuel true 6 0 []; headed f))

  abbrev pub unless_tickle : Heading → Run (NetSide L) Heading → Run (NetSide L) Heading
  unless_tickle again more = more
  unless_tickle heading more = pure heading

  -- The loop over tickles.
  unfoldable pub seek : (rounds fuel : ℕ) → Run (NetSide L) Heading
  seek zero fuel = checked none
  seek (suc rounds) fuel = do h ← read_heading fuel; unless_tickle h (seek rounds fuel)

  unfoldable pub finish : (header : List ℕ) → (len : ℕ) → List ℕ → Run (NetSide L) (ℤ × List ℕ)
  finish header len msg = do
    txid ← checked (get_byte (drop 1 header))
    change (λ s. record s {
      data_ = record s.data_ {
        txid = if lower.takes_txid s.low then txid else advanced_txid s.data_.txid;
      };
    })
    pure (pos len, msg)

  abbrev pub filled_body : (header : List ℕ) → (len : ℕ) → Filled → Run (NetSide L) (ℤ × List ℕ)
  filled_body header len (cut_off code msg) = pure (code, msg)
  filled_body header len (whole total msg) = finish header len msg

  unfoldable pub bad_length : List ℕ → Run (NetSide L) (ℤ × List ℕ)
  bad_length msg = do
    change (λ s. record s { low = lower.flush_input s.low })
    code ← fails net_err_packet
    pure (code, msg)

  abbrev pub read_body : (fuel : ℕ) → (header msg : List ℕ) → ℤ → Run (NetSide L) (ℤ × List ℕ)
  read_body fuel header msg (negsuc n) = bad_length msg
  read_body fuel header msg (pos len) =
      if ltb 0x100000 len
      then bad_length msg
      else (do f ← read_until fuel false len 0 msg; filled_body header len f)

  abbrev pub after_heading : (fuel : ℕ) → List ℕ → Heading → Run (NetSide L) (ℤ × List ℕ)
  after_heading fuel msg (return_code code) = pure (code, msg)
  after_heading fuel msg again = checked none
  after_heading fuel msg (found_packet header) = do
    len ← checked (get_long (drop 2 header))
    read_body fuel header msg (int32 len)

  abbrev pub heard : (rounds fuel : ℕ) → List ℕ → Option (List ℕ) → Run (NetSide L) (ℤ × List ℕ)
  heard rounds fuel msg none = do code ← fails net_err_memory; pure (code, msg)
  heard rounds fuel msg (some header) = do h ← seek rounds fuel; after_heading fuel msg h

  -- What it returns, and what the buffer holds, which held `msg`. Of pi_buffer_new only the success matters.
  unfoldable pub net_rx :
      Allocator → (rounds fuel : ℕ) → (msg : List ℕ) → Run (NetSide L) (ℤ × List ℕ)
  net_rx m rounds fuel msg =
      if not lower.present then (do code ← fails net_err_socket; pure (code, msg)) else (do
        change (λ s. record s {
          low = lower.set_timeout (if lower.honor_rx_timeout s.low then 30000 else 0) s.low;
        })
        heard rounds fuel msg (m.malloc 6))
