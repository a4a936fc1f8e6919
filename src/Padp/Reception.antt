-- ===== src/Padp/Reception.antt =====
-- A whole message, received.
use pilot_link.Base.{
  ℕ, ◌+◌, ◌^◌, ◌≤◌, ◌<◌, Bool, true, List, ◌∷◌, ◌++◌, some, ◌≡◌, Bool-cases, inl, inr, refl, ap,
  ◌∙◌, arith, length, take, drop, length-take-le, leb,
}
use pilot_link.Base.Int.{ℤ, pos}
use pilot_link.Base.Run.{Run, ◌>>=◌, pure, change, ask}
use pilot_link.Buffer.{Buffer, Allocator, size_mod, pi_buffer_new}
use pilot_link.Buffer.Blocks.{IsValid, Ample, contents}
use pilot_link.Padp.{Padp, PadpData, Lower, Side}
use pilot_link.Padp.Send.{packet_bytes}
use pilot_link.Padp.Receive.{
  arrived, time, in_thirty, wait_for, segments, choose_txid, begun, receive, padp_rx,
}
use pilot_link.Padp.Fragments.{
  if-true, Fragments, IsData, data_header, short_packet, packet_bytes-IsData,
  header_of-short_packet, verdict-data_header, is_long-flags_of,
}
use pilot_link.Padp.Delivered.{Hands, at_low, wait_for-packet}
use pilot_link.Padp.Rounds.{Gets, head-Fragments, segments-Fragments}

module _ {L : Type 0} (m : Allocator) (lower : Lower L) (queue : L → List (List ℕ)) (txid : ℕ)
    (v : Hands lower queue txid) where
  first-packet :
      (fuel : ℕ) (honor : Bool) (d : PadpData) (message : List ℕ) (ps : List (List ℕ)) (endtime : ℕ)
      (s : Side L)
      → IsData d
      → (lower.time s.low).0 ≤ endtime
      → 3 ≤ fuel
      → length message < 2 ^ 16
      → queue s.low ≡ packet_bytes d true 0 message ∷ ps
      → s.data_.txid ≡ txid
      → let p = short_packet (data_header true 0 message) (take 1024 message) in
        (l' : L) × (wait_for m lower fuel true honor endtime s
          ≡ some (
            arrived (data_header true 0 message) p (length p) 4,
            at_low m lower queue txid v s l',
          ))
        × (queue l' ≡ ps)
  first-packet fuel honor d message ps endtime s i early f c q t =
      wait_for-packet m lower queue txid v fuel true honor endtime s (data_header true 0 message)
        (take 1024 message) ps f early
        (q ∙ ap (λ p. p ∷ ps) (packet_bytes-IsData d true 0 message i))
        (length-take-le 1024 message) (is_long-flags_of true (leb (length message) 1024))
        (header_of-short_packet true 0 message (take 1024 message) (omega arith) c)
        (verdict-data_header true 0 txid message) t

  choose_txid-same :
      (s : Side L)
      → ((choose_txid m lower s).data_.txid ≡ s.data_.txid) × ((choose_txid m lower s).low ≡ s.low)
  choose_txid-same s = elim (Bool-cases s.data_.freeze_txid) [
    | inl e ↦ rw e (refl, refl)
    | inr e ↦ rw e (refl, refl)
  ]

  received :
      (fuel n : ℕ) (honor : Bool) (b : Buffer) (s s2 : Side L) (padp : Padp) (p block : List ℕ)
      → m.malloc 1028 ≡ some block
      → let s0 = choose_txid m lower s in
        wait_for m lower fuel true honor
            ((lower.time s0.low).0 + 30)
            (record s0 { low = (lower.time s0.low).1 })
          ≡ some (arrived padp p n 4, s2)
        → receive m lower fuel honor b (pi_buffer_new m 1028) s
          ≡ segments m lower fuel honor 0 b
              (arrived padp p n 4)
              (record s2 { low = (lower.time s2.low).1 })
  unfolding receive begun in_thirty time pi_buffer_new ◌>>=◌ pure change
  received fuel n honor b s s2 padp p block e e1 = rw (e, e1) refl

  opening :
      (fuel n : ℕ) (honor : Bool) (b : Buffer) (s s2 : Side L) (padp : Padp) (p block : List ℕ)
      → lower.present ≡ true
      → lower.honor_rx_timeout s.low ≡ honor
      → m.malloc 1028 ≡ some block
      → let s0 = choose_txid m lower s in
        wait_for m lower fuel true honor
            ((lower.time s0.low).0 + 30)
            (record s0 { low = (lower.time s0.low).1 })
          ≡ some (arrived padp p n 4, s2)
        → padp_rx m lower fuel b s
          ≡ segments m lower fuel honor 0 b
              (arrived padp p n 4)
              (record s2 { low = (lower.time s2.low).1 })
  unfolding padp_rx ◌>>=◌ ask
  opening fuel n honor b s s2 padp p block present same_honor e e1 =
      ap (λ (run : Run (Side L) (ℤ × Buffer)). run s) (if-true lower.present _ _ present)
      ∙ ap (λ z. receive m lower fuel z b (pi_buffer_new m 1028) s) same_honor
      ∙ received fuel n honor b s s2 padp p block e e1

  -- A message of less than 2^16 bytes in packets of the short format, which are at the front of what
  -- the layer below hands out, one at a read, in the transaction that the receiver is in: padp_rx
  -- returns its length, its bytes stand behind what the buffer held, the packets that follow are
  -- left, and the next transaction's number is taken. The fuel is for three packets more than there
  -- are, the allocator refuses nothing, and the clock, read twice in a row, has not moved on by more
  -- than thirty seconds; the socket's time-outs may count or not.
  pub padp_rx-Fragments :
      (d : PadpData) (message : List ℕ) (packets more : List (List ℕ)) (fuel : ℕ) (b : Buffer)
      (s : Side L)
      → Fragments d true 0 message packets
      → IsData d
      → Ample m
      → IsValid b
      → length (contents b) + length message < size_mod
      → length message < 2 ^ 16
      → queue s.low ≡ packets ++ more
      → s.data_.txid ≡ txid
      → length packets + 3 ≤ fuel
      → Gets m lower queue txid v b message
          (length message)
          more
          (choose_txid m lower s)
          (padp_rx m lower fuel b s)
  padp_rx-Fragments d message packets more fuel b s f i k w h c q t l =
      let honor = lower.honor_rx_timeout s.low in
      let (block, e) = k 1028 in
      let s0 = choose_txid m lower s in
      let (same_txid, same_low) = choose_txid-same s in
      let s1 = at_low m lower queue txid v s0 (lower.time s0.low).1 in
      let payload = take 1024 message in
      let queued =
        v.times s0.low ∙ ap queue same_low ∙ q ∙ ap (λ ps. ps ++ more) (head-Fragments f) in
      let (l', e1, q1) =
        first-packet fuel honor d message (drop 1 packets ++ more) ((lower.time s0.low).0 + 30) s1 i
          (v.prompt s0.low) (omega arith) c queued (same_txid ∙ t) in
      let s2 = at_low m lower queue txid v s1 l' in
      let s3 = at_low m lower queue txid v s2 (lower.time l').1 in
      let (b2, s4, e2, w2, held, q2, t2) =
        segments-Fragments m lower queue txid v f i fuel honor more b s3 k refl w h (omega arith)
          (v.times l' ∙ q1) (same_txid ∙ t) (omega arith) in
      let sum : 0 + length message ≡ length message = omega arith in
      (
        b2,
        s4,
        opening fuel _ honor b s s2 (data_header true 0 message) _ block v.present refl e e1
            ∙ e2
            ∙ ap (λ n. some ((pos n, b2), s4)) sum,
        w2,
        held,
        q2,
        t2,
      )
