-- ===== src/Padp/Acked.antt =====
-- A packet sent to a peer that acknowledges it.
use pilot_link.Base.{
  ℕ, zero, suc, ◌+◌, ◌*◌, ◌/◌, ◌%◌, ◌^◌, ◌==◌, ◌≤◌, ◌<◌, Bool, true, false, List, [], ◌∷◌, ◌++◌,
  some, ◌≡◌, refl, sym, ap, ◌∙◌, arith, length, take, leb, length-take-le,
}
use pilot_link.Base.Int.{ℤ, pos}
use pilot_link.Base.Run.{Run, ◌>>=◌, pure, change, ask, checked}
use pilot_link.Buffer.{Allocator}
use pilot_link.Macros.{get_byte, get_short, set_byte, set_short}
use pilot_link.Padp.{
  Padp, PadpData, SockOpt, slp_type, slp_dest, slp_src, slp_txid, dev_timeout, Lower, Side,
  header_of, is_long, get_size, size_bytes, ack_bytes, set_opt, write, read,
}
use pilot_link.Padp.Send.{
  flags_of, packet_bytes, Outcome, ack, heard_as, sent, is_disconnected, act_on, listen, await_ack,
  tried, wrote, attempt,
}
use pilot_link.Padp.Fragments.{
  IsData, data_header, packet_bytes-IsData, header_of-short_packet, is_long-flags_of,
}

-- A layer below with a record of the packets that were written, to a peer that answers a packet of
-- data, in the short format and of at most 1028 bytes, with the four bytes of its acknowledgement, in
-- the transaction `txid`.
pub record Acks {L : Type 0} (lower : Lower L) (log : L → List (List ℕ)) (txid : ℕ) : Type 0 where
  pub present : lower.present ≡ true
  pub answers :
      (l : L) (bytes : List ℕ) (padp : Padp)
      → header_of bytes ≡ some padp
      → padp.kind ≡ 1
      → is_long padp.flags ≡ false
      → length bytes ≤ 1028
      → (n : ℕ) × (l' : L) × ((lower.write l bytes).0 ≡ pos n)
        × (lower.read (lower.write l bytes).1 1030 ≡ (pos 4, ack_bytes padp, l'))
        × (log l' ≡ log l ++ (bytes ∷ []))
        × (lower.last_type l' ≡ 2)
        × (lower.last_txid l' ≡ txid)
  pub options :
      (l : L) (option : SockOpt) (value : ℕ) → log (lower.set_option option value l) ≡ log l
  pub flushes : (l : L) → log (lower.flush l) ≡ log l

abbrev acknowledged : (first : Bool) → (count : ℕ) → (rest : List ℕ) → Padp
acknowledged first count rest = record (data_header first count rest) { kind = 2 }

has_memerror-flags_of : (first last : Bool) → (flags_of first last false / 2 ^ 5 % 2 == 1) ≡ false
unfolding flags_of
has_memerror-flags_of true true = refl
has_memerror-flags_of true false = refl
has_memerror-flags_of false true = refl
has_memerror-flags_of false false = refl

byte-flags_of : (first last : Bool) → flags_of first last false % 256 ≡ flags_of first last false
unfolding flags_of
byte-flags_of true true = refl
byte-flags_of true false = refl
byte-flags_of false true = refl
byte-flags_of false false = refl

header_of-ack_bytes :
    (first : Bool) (count : ℕ) (rest : List ℕ)
    → count < 2 ^ 16
    → length rest < 2 ^ 16
    → header_of (ack_bytes (data_header first count rest)) ≡ some (acknowledged first count rest)
unfolding header_of ack_bytes get_byte get_size get_short set_byte size_bytes set_short
header_of-ack_bytes true count rest h l =
    let whole : length rest / 2 ^ 8 % 256 * 2 ^ 8 + length rest % 256 ≡ length rest = omega arith in
    let last = leb (length rest) 1024 in
    rw (byte-flags_of true last, is_long-flags_of true last, whole) refl
header_of-ack_bytes false count rest h l =
    let whole : count / 2 ^ 8 % 256 * 2 ^ 8 + count % 256 ≡ count = omega arith in
    let last = leb (length rest) 1024 in
    rw (byte-flags_of false last, is_long-flags_of false last, whole) refl

heard_as-ack :
    (d : PadpData) (last first : Bool) (count : ℕ) (rest : List ℕ)
    → heard_as d last 2 d.txid (acknowledged first count rest) ≡ ack
unfolding heard_as
heard_as-ack d last first count rest =
    rw (has_memerror-flags_of first (leb (length rest) 1024)) (ground arith)

pub leb-le : (n : ℕ) → leb n 1024 ≡ true → n ≤ 1024
leb-le n h = ground arith

pub leb-lt : (n : ℕ) → leb n 1024 ≡ false → 1024 < n
leb-lt n h = ground arith

module _ {L : Type 0} (m : Allocator) (lower : Lower L) (log : L → List (List ℕ)) (txid : ℕ)
    (v : Acks lower log txid) where
  abbrev pub at_low : Side L → L → Side L
  at_low s l = record s { low = l }

  await_ack-ack :
      (fuel : ℕ) (last first : Bool) (count : ℕ) (rest : List ℕ) (s : Side L) (l' : L)
      → count < 2 ^ 16
      → length rest < 2 ^ 16
      → lower.read s.low 1030 ≡ (pos 4, ack_bytes (data_header first count rest), l')
      → lower.last_type l' ≡ 2
      → lower.last_txid l' ≡ s.data_.txid
      → await_ack m lower (suc fuel) last [] s ≡ some (sent, record s { low = l' })
  unfolding await_ack read listen act_on ◌>>=◌ checked pure ask
  await_ack-ack fuel last first count rest s l' c r e kind id =
      rw
        (
          e,
          header_of-ack_bytes first count rest c r,
          kind,
          id,
          heard_as-ack s.data_ last first count rest,
        )
        refl

  wrote-acked :
      (again wait : Run (Side L) Outcome) (n : ℕ) (code : ℤ) (data_kind : ℕ) (s s' : Side L)
      → code ≡ pos n
      → data_kind ≡ 1
      → wait s ≡ some (sent, s')
      → wrote m lower again wait (is_disconnected code) (data_kind == 4) s ≡ some (sent, s')
  unfolding wrote tried is_disconnected ◌>>=◌ pure
  wrote-acked again wait n code data_kind s s' e k h = rw (e, k, h) refl

  -- A packet that is acknowledged.
  pub attempt-sent :
      (fuel retries : ℕ) (first : Bool) (count : ℕ) (rest : List ℕ) (s : Side L)
      → 1 ≤ fuel
      → IsData s.data_
      → s.data_.txid ≡ txid
      → count < 2 ^ 16
      → length rest < 2 ^ 16
      → (l' : L) × (attempt m lower fuel (suc retries) first count rest s
          ≡ some (sent, at_low s l'))
        × (log l' ≡ log s.low ++ (packet_bytes s.data_ first count rest ∷ []))
  unfolding attempt set_opt write ◌>>=◌ change ask
  attempt-sent zero retries first count rest s f i t c r = absurd (omega arith)
  attempt-sent (suc fuel) retries first count rest s f i t c r =
      let p = packet_bytes s.data_ first count rest in
      let padp = data_header first count rest in
      let l1 = lower.set_option slp_type 2 s.low in
      let l2 = lower.set_option slp_dest 3 l1 in
      let l3 = lower.set_option slp_src 3 l2 in
      let l4 = lower.set_option dev_timeout 2000 l3 in
      let l5 = lower.set_option slp_txid s.data_.txid l4 in
      let header =
        ap header_of (packet_bytes-IsData s.data_ first count rest i)
        ∙ header_of-short_packet first count rest (take 1024 rest) c r in
      let short = is_long-flags_of first (leb (length rest) 1024) in
      let size : length p ≤ 1028 =
        rw (packet_bytes-IsData s.data_ first count rest i)
          (omega (arith, length-take-le 1024 rest)) in
      let (n, l', e, e', logged, kind, last) = v.answers l5 p padp header refl short size in
      let s1 = at_low s (lower.write l5 p).1 in
      let acknowledged_ =
        await_ack-ack fuel (leb (length rest) 1024) first count rest s1 l' c r e' kind
          (last ∙ sym t) in
      (
        l',
        wrote-acked (attempt m lower (suc fuel) retries first count rest)
            (await_ack m lower (suc fuel) (leb (length rest) 1024) []) n (lower.write l5 p).0
            s.data_.kind s1 (at_low s l') e i.is_kind acknowledged_,
        logged
            ∙ ap (λ old. old ++ (p ∷ []))
                (v.options l4 slp_txid s.data_.txid
                  ∙ v.options l3 dev_timeout 2000
                  ∙ v.options l2 slp_src 3
                  ∙ v.options l1 slp_dest 3
                  ∙ v.options s.low slp_type 2),
      )
