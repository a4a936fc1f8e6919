-- ===== src/Slp/Frame.antt =====
-- What the checks of slp_rx find in a frame of slp_tx.
use pilot_link.Base.{
  ℕ, ◌+◌, ◌%◌, ◌^◌, ◌==◌, ◌≤◌, ◌<◌, true, false, List, [], ◌∷◌, ◌++◌, some, ◌≡◌, refl, ap, ◌∙◌,
  arith, length, take, drop, take-append_left, drop-append_left,
}
use pilot_link.Macros.{get_short, set_short, get_byte}
use pilot_link.Slp.{SlpData, header, packet, frame, sum, header_len}
use pilot_link.Slp.Crc.{crc16, crc16-lt}
use pilot_link.Slp.Receive.{
  header_read, packet_read, wait, accept, exceeds, find_signature, check_header, check_crc,
  adjusted,
}

pub same-== : (n : ℕ) → (n == n) ≡ true
same-== n = ground arith

pub exceeds-false :
    (packet_len len : ℕ) → packet_len ≤ len → len < 2 ^ 31 → exceeds packet_len len ≡ false
unfolding exceeds
exceeds-false packet_len len h k = ground arith

pub get_short-set_short : (v : ℕ) → v < 2 ^ 16 → get_short (set_short v) ≡ some v
unfolding get_short set_short
get_short-set_short v h = ap some (omega arith)

-- The ten bytes of the header.
abbrev pub whole_header : SlpData → ℕ → List ℕ
whole_header data_ len = header data_ len ++ ((sum (header data_ len) % 256) ∷ [])

abbrev pub checksum : SlpData → ℕ → ℕ
checksum data_ len = sum (header data_ len) % 256

pub header_sum :
    (data_ : SlpData) (n : ℕ) → get_byte (drop 9 (whole_header data_ n)) ≡ some (checksum data_ n)
unfolding header set_short get_byte sum
header_sum data_ n = refl

pub header_size :
    (data_ : SlpData) (n : ℕ) → n < 2 ^ 16 → get_short (drop 6 (whole_header data_ n)) ≡ some n
unfolding header set_short get_short
header_size data_ n h = ap some (omega arith)

pub header_bytes : (data_ : SlpData) (n : ℕ) → take 9 (whole_header data_ n) ≡ header data_ n
unfolding header set_short
header_bytes data_ n = refl

pub check_header-frame :
    (data_ : SlpData) (packet_len len : ℕ)
    → packet_len ≤ len
    → len < 2 ^ 31
    → packet_len < 2 ^ 16
    → check_header len (whole_header data_ packet_len)
      ≡ some (wait packet_read packet_len (whole_header data_ packet_len) packet_len)
unfolding check_header
check_header-frame data_ packet_len len h k l =
    rw
      (
        header_sum data_ packet_len,
        header_size data_ packet_len l,
        header_bytes data_ packet_len,
        same-== (checksum data_ packet_len),
        exceeds-false packet_len len h k,
      )
      refl

pub length-packet :
    (data_ : SlpData) (buf : List ℕ) → header_len + length buf ≡ length (packet data_ buf)
unfolding packet header set_short
length-packet data_ buf = omega arith

pub frame_crc :
    (data_ : SlpData) (buf : List ℕ)
    → get_short (drop (header_len + length buf) (frame data_ buf)) ≡ some (crc16 (packet data_ buf))
unfolding frame
frame_crc data_ buf =
    ap (λ n. get_short (drop n (packet data_ buf ++ set_short (crc16 (packet data_ buf)))))
      (length-packet data_ buf)
    ∙ ap get_short (drop-append_left (packet data_ buf) (set_short (crc16 (packet data_ buf))))
    ∙ get_short-set_short (crc16 (packet data_ buf)) (crc16-lt (packet data_ buf))

pub take-frame :
    (data_ : SlpData) (buf : List ℕ)
    → take (header_len + length buf) (frame data_ buf) ≡ packet data_ buf
unfolding frame
take-frame data_ buf =
    ap (λ n. take n (packet data_ buf ++ set_short (crc16 (packet data_ buf))))
      (length-packet data_ buf)
    ∙ take-append_left (packet data_ buf) (set_short (crc16 (packet data_ buf)))

pub frame_body :
    (data_ : SlpData) (buf : List ℕ) → take (length buf) (drop header_len (frame data_ buf)) ≡ buf
unfolding frame packet header set_short
frame_body data_ buf = take-append_left buf (set_short (crc16 (packet data_ buf)))

pub adjusted-same : (kind crc : ℕ) → adjusted kind crc crc ≡ crc
unfolding adjusted
adjusted-same kind crc = ground arith

pub frame_fields :
    (data_ : SlpData) (buf : List ℕ)
    → (get_byte (drop 5 (frame data_ buf)) ≡ some (data_.kind % 256))
      × (get_byte (drop 3 (frame data_ buf)) ≡ some (data_.dest % 256))
      × (get_byte (drop 4 (frame data_ buf)) ≡ some (data_.src % 256))
      × (get_byte (drop 8 (frame data_ buf)) ≡ some (data_.txid % 256))
unfolding frame packet header set_short get_byte
frame_fields data_ buf = (refl, refl, refl, refl)

pub check_crc-frame :
    (data_ : SlpData) (buf : List ℕ)
    → check_crc (frame data_ buf) (length buf)
      ≡ some (accept (data_.dest % 256) (data_.src % 256) (data_.kind % 256) (data_.txid % 256) buf)
unfolding check_crc
check_crc-frame data_ buf =
    let (kind, dest, src, txid) = frame_fields data_ buf in
    rw
      (
        frame_crc data_ buf,
        kind,
        dest,
        src,
        txid,
        take-frame data_ buf,
        frame_body data_ buf,
        adjusted-same (data_.kind % 256) (crc16 (packet data_ buf)),
        same-== (crc16 (packet data_ buf)),
      )
      refl

pub find_signature-found :
    (rest : List ℕ) (n : ℕ)
    → find_signature (0xbe ∷ 0xef ∷ 0xed ∷ rest) n
      ≡ wait header_read 7 (0xbe ∷ 0xef ∷ 0xed ∷ rest) n
unfolding find_signature
find_signature-found rest n = refl
