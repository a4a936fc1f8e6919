-- ===== src/Padp/Sending.antt =====
-- A message sent to a peer that acknowledges its packets.
use pilot_link.Base.{
  ℕ, zero, suc, ◌+◌, ◌^◌, ◌≤◌, ◌<◌, Bool, true, false, List, [], ◌∷◌, ◌++◌, some, ◌≡◌, refl, ap,
  ◌∙◌, arith, length, drop, leb, Bool-cases, inl, inr,
}
use mathlib.Core.List.{append_assoc}
use pilot_link.Base.Int.{ℤ, pos}
use pilot_link.Base.Run.{Run, and_then, ◌>>=◌, pure, change}
use pilot_link.Buffer.{Allocator, pi_buffer_new}
use pilot_link.Buffer.Blocks.{Ample, length-drop}
use pilot_link.Padp.{Lower, Side}
use pilot_link.Padp.Send.{
  packet_bytes, sent, advance, sent_all, settle, send_all, choose_txid, transmit, padp_tx,
}
use pilot_link.Padp.Fragments.{if-true, Fragments, last_one, one_more, IsData}
use pilot_link.Padp.Acked.{Acks, attempt-sent, leb-le, leb-lt}

module _ {L : Type 0} (m : Allocator) (lower : Lower L) (log : L → List (List ℕ)) (txid : ℕ)
    (v : Acks lower log txid) where
  settled :
      (go : Bool → ℕ → List ℕ → Run (Side L) ℤ) (first : Bool) (count : ℕ) (rest : List ℕ)
      (s : Side L)
      → leb (length rest) 1024 ≡ true
      → settle m lower go first count rest sent s
        ≡ some (
          pos (count + length rest),
          record s { data_ = advance m lower s.conn s.data_.kind s.data_ },
        )
  unfolding settle sent_all ◌>>=◌ change pure
  settled go first count rest s h = rw h refl

  unsettled :
      (go : Bool → ℕ → List ℕ → Run (Side L) ℤ) (first : Bool) (count : ℕ) (rest : List ℕ)
      (s : Side L)
      → leb (length rest) 1024 ≡ false
      → settle m lower go first count rest sent s ≡ go false (count + 1024) (drop 1024 rest) s
  unfolding settle
  unsettled go first count rest s h = rw h refl

  send_all-Fragments :
      (fuel : ℕ) (first : Bool) (count : ℕ) (rest : List ℕ) (s : Side L)
      → length rest + 2 ≤ fuel
      → IsData s.data_
      → s.data_.txid ≡ txid
      → count + length rest < 2 ^ 16
      → (s' : Side L) × (packets : List (List ℕ)) × (send_all m lower fuel first count rest s
          ≡ some (pos (count + length rest), s'))
        × Fragments s.data_ first count rest packets
        × (log s'.low ≡ log s.low ++ packets)
  unfolding send_all ◌>>=◌
  send_all-Fragments zero first count rest s f i t c = absurd (omega arith)
  send_all-Fragments (suc fuel) first count rest s f i t c =
      let (l', e, logged) =
        attempt-sent m lower log txid v fuel 9 first count rest s (omega arith) i t (omega arith)
          (omega arith) in
      let s1 = record s { low = l' } in
      let go = send_all m lower fuel in
      let p = packet_bytes s.data_ first count rest in
      let opened = ap (λ o. and_then o (settle m lower go first count rest)) e in
      elim (Bool-cases (leb (length rest) 1024)) [
        | inl short ↦ (
          record s1 { data_ = advance m lower s1.conn s1.data_.kind s1.data_ },
          p ∷ [],
          opened ∙ settled go first count rest s1 short,
          last_one (leb-le (length rest) short),
          logged,
        )
        | inr long ↦
            let left = length-drop 1024 rest in
            let more = leb-lt (length rest) long in
            let (s2, packets, e2, f2, logged2) =
              send_all-Fragments fuel false (count + 1024) (drop 1024 rest) s1 (omega (arith, left))
                i t (omega (arith, left)) in
            (
              s2,
              p ∷ packets,
              opened
                  ∙ unsettled go first count rest s1 long
                  ∙ e2
                  ∙ ap (λ (n : ℕ). some (pos n, s2)) (omega (arith, left)),
              one_more more f2,
              logged2
                  ∙ ap (λ old. old ++ packets) logged
                  ∙ append_assoc (log s.low) (p ∷ []) packets,
            )
      ]

  transmitted :
      (fuel : ℕ) (message block : List ℕ) (s : Side L)
      → m.malloc 1030 ≡ some block
      → transmit m lower fuel message (pi_buffer_new m 1030) s
        ≡ send_all m lower fuel true 0 message (record s { low = lower.flush s.low })
  unfolding transmit pi_buffer_new ◌>>=◌ change
  transmitted fuel message block s e = rw e refl

  -- A message of less than 2^16 bytes, sent in the short format to a peer that acknowledges at once
  -- each packet of at most 1028 bytes, in the transaction that the sender takes: padp_tx returns the
  -- message's length, and what it has written are the message's fragments, in order; with two units
  -- of fuel more than the message has bytes, where the allocator refuses nothing.
  pub padp_tx-Fragments :
      (message : List ℕ) (fuel : ℕ) (s : Side L)
      → Ample m
      → IsData (choose_txid m lower s).data_
      → (choose_txid m lower s).data_.txid ≡ txid
      → length message < 2 ^ 16
      → length message + 2 ≤ fuel
      → (s' : Side L) × (packets : List (List ℕ)) × (padp_tx m lower fuel message s
          ≡ some (pos (length message), s'))
        × Fragments (choose_txid m lower s).data_ true 0 message packets
        × (log s'.low ≡ log s.low ++ packets)
  unfolding padp_tx choose_txid ◌>>=◌ change
  padp_tx-Fragments message fuel s k i t c l =
      let (block, e) = k 1030 in
      let s0 = choose_txid m lower s in
      let s1 = record s0 { low = lower.flush s0.low } in
      let (s', packets, e1, f, logged) =
        send_all-Fragments fuel true 0 message s1 l i t (omega arith) in
      (
        s',
        packets,
        ap (λ (run : Run (Side L) ℤ). run s) (if-true lower.present _ _ v.present)
            ∙ transmitted fuel message block s0 e
            ∙ e1
            ∙ ap (λ (n : ℕ). some (pos n, s')) (omega arith),
        f,
        logged ∙ ap (λ old. old ++ packets) (v.flushes s0.low),
      )
