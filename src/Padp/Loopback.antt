-- ===== src/Padp/Loopback.antt =====
-- A message from one side to the other.
use pilot_link.Base.{ℕ, ◌+◌, ◌^◌, ◌≤◌, ◌<◌, List, [], ◌++◌, some, ◌≡◌, sym, ap, ◌∙◌, length}
use mathlib.Core.Path.{subst}
use mathlib.Core.Option.{some-injective}
use pilot_link.Base.Int.{ℤ, pos}
use pilot_link.Buffer.{Buffer, Allocator, size_mod}
use pilot_link.Buffer.Blocks.{IsValid, Ample, contents}
use pilot_link.Padp.{Lower, Side}
use pilot_link.Padp.Send.{padp_tx, choose_txid}
use pilot_link.Padp.Receive.{padp_rx, choose_txid as choose_rx_txid}
use pilot_link.Padp.Fragments.{IsData}
use pilot_link.Padp.Delivered.{Hands}
use pilot_link.Padp.Rounds.{Gets}
use pilot_link.Padp.Reception.{padp_rx-Fragments}
use pilot_link.Padp.Acked.{Acks}
use pilot_link.Padp.Sending.{padp_tx-Fragments}

-- What padp_tx writes for a message of less than 2^16 bytes to a peer that acknowledges at once each
-- packet of at most 1028 bytes, padp_rx on the other side receives, where it is handed out first, one
-- packet at a read: the sender returns the message's length, and so does the receiver, whose buffer
-- has the message's bytes behind those it held. Both use the short format and the same transaction's
-- number, and their allocator refuses nothing; the receiver's clock, read twice in a row, has not
-- moved on by more than thirty seconds, and its time-outs may count or not; the fuel is two units
-- more than the message has bytes, and three more than packets were written.
pub padp_rx-padp_tx :
    {L R : Type 0} (m : Allocator) (txid : ℕ) (sender : Lower L) (log : L → List (List ℕ))
    (a : Acks sender log txid) (receiver : Lower R) (queue : R → List (List ℕ))
    (v : Hands receiver queue txid) (message : List ℕ) (more : List (List ℕ)) (tx_fuel rx_fuel : ℕ)
    (b : Buffer) (code : ℤ) (s s' : Side L) (r : Side R)
    → Ample m
    → IsData (choose_txid m sender s).data_
    → (choose_txid m sender s).data_.txid ≡ txid
    → r.data_.txid ≡ txid
    → IsValid b
    → length (contents b) + length message < size_mod
    → length message < 2 ^ 16
    → log s.low ≡ []
    → padp_tx m sender tx_fuel message s ≡ some (code, s')
    → queue r.low ≡ log s'.low ++ more
    → length message + 2 ≤ tx_fuel
    → length (log s'.low) + 3 ≤ rx_fuel
    → (code ≡ pos (length message))
      × Gets m receiver queue txid v b message
          (length message)
          more
          (choose_rx_txid m receiver r)
          (padp_rx m receiver rx_fuel b r)
padp_rx-padp_tx m txid sender log a receiver queue v message more tx_fuel rx_fuel b code s s' r k i
      t t' w h c z e q l l' =
    let (s1, packets, e1, f, logged) =
      padp_tx-Fragments m sender log txid a message tx_fuel s k i t c l in
    let same = some-injective (code, s') (pos (length message), s1) (sym e ∙ e1) in
    let written : log s'.low ≡ packets =
      ap (λ (o : ℤ × Side _). log o.1.low) same ∙ logged ∙ ap (λ old. old ++ packets) z in
    (
      ap (λ (o : ℤ × Side _). o.0) same,
      padp_rx-Fragments m receiver queue txid v (choose_txid m sender s).data_ message packets more
          rx_fuel b r f i k w h c (q ∙ ap (λ ps. ps ++ more) written) t'
          (subst (λ ps. length ps + 3 ≤ rx_fuel) written l'),
    )
