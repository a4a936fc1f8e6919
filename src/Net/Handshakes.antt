-- ===== src/Net/Handshakes.antt =====
-- libpisock/net.c: the handshakes, and flushing.
use pilot_link.Base.{ℕ, List, [], ◌∷◌, Option, none, some}
use pilot_link.Base.Int.{ℤ, pos, negsuc}
use pilot_link.Base.Run.{Run, ◌>>=◌, pure}
use pilot_link.Buffer.{Allocator}
use pilot_link.Net.{Stream, NetSide, net_tx, net_rx, fails, net_err_memory}

abbrev pub rx_msg1 : List ℕ
rx_msg1 =
    0x12 ∷ 0x1 ∷ 0x0 ∷ 0x0 ∷ 0x0 ∷ 0x0 ∷ 0x0 ∷ 0x0 ∷ 0x0 ∷ 0x20 ∷ 0x0 ∷ 0x0 ∷ 0x0 ∷ 0x24 ∷ 0xff
    ∷ 0xff ∷ 0xff ∷ 0xff ∷ 0x3c ∷ 0x0 ∷ 0x3c ∷ 0x0 ∷ 0x0 ∷ 0x0 ∷ 0x0 ∷ 0x0 ∷ 0x0 ∷ 0x0 ∷ 0x0 ∷ 0x0
    ∷ 0xc0 ∷ 0xa8 ∷ 0xa5 ∷ 0x1f ∷ 0x4 ∷ 0x27 ∷ 0x0 ∷ 0x0 ∷ 0x0 ∷ 0x0 ∷ 0x0 ∷ 0x0 ∷ 0x0 ∷ 0x0 ∷ 0x0
    ∷ 0x0 ∷ 0x0 ∷ 0x0 ∷ 0x0 ∷ 0x0 ∷ []

abbrev pub rx_msg2 : List ℕ
rx_msg2 =
    0x13 ∷ 0x1 ∷ 0x0 ∷ 0x0 ∷ 0x0 ∷ 0x0 ∷ 0x0 ∷ 0x0 ∷ 0x0 ∷ 0x20 ∷ 0x0 ∷ 0x0 ∷ 0x0 ∷ 0x20 ∷ 0xff
    ∷ 0xff ∷ 0xff ∷ 0xff ∷ 0x0 ∷ 0x3c ∷ 0x0 ∷ 0x3c ∷ 0x0 ∷ 0x0 ∷ 0x0 ∷ 0x0 ∷ 0x0 ∷ 0x0 ∷ 0x0 ∷ 0x1
    ∷ 0x0 ∷ 0x0 ∷ 0x0 ∷ 0x0 ∷ 0x0 ∷ 0x0 ∷ 0x0 ∷ 0x0 ∷ 0x0 ∷ 0x0 ∷ 0x0 ∷ 0x0 ∷ 0x0 ∷ 0x0 ∷ 0x0 ∷ 0x0
    ∷ []

abbrev pub tx_msg1 : List ℕ
tx_msg1 =
    0x90 ∷ 0x1 ∷ 0x0 ∷ 0x0 ∷ 0x0 ∷ 0x0 ∷ 0x0 ∷ 0x0 ∷ 0x0 ∷ 0x20 ∷ 0x0 ∷ 0x0 ∷ 0x0 ∷ 0x8 ∷ 0x1 ∷ 0x0
    ∷ 0x0 ∷ 0x0 ∷ 0x0 ∷ 0x0 ∷ 0x0 ∷ 0x0 ∷ []

abbrev pub tx_msg2 : List ℕ
tx_msg2 =
    0x92 ∷ 0x1 ∷ 0x0 ∷ 0x0 ∷ 0x0 ∷ 0x0 ∷ 0x0 ∷ 0x0 ∷ 0x0 ∷ 0x20 ∷ 0x0 ∷ 0x0 ∷ 0x0 ∷ 0x24 ∷ 0xff
    ∷ 0xff ∷ 0xff ∷ 0xff ∷ 0x0 ∷ 0x3c ∷ 0x0 ∷ 0x3c ∷ 0x40 ∷ 0x0 ∷ 0x0 ∷ 0x0 ∷ 0x1 ∷ 0x0 ∷ 0x0 ∷ 0x0
    ∷ 0xc0 ∷ 0xa8 ∷ 0xa5 ∷ 0x1e ∷ 0x4 ∷ 0x1 ∷ 0x0 ∷ 0x0 ∷ 0x0 ∷ 0x0 ∷ 0x0 ∷ 0x0 ∷ 0x0 ∷ 0x0 ∷ 0x0
    ∷ 0x0 ∷ 0x0 ∷ 0x0 ∷ 0x0 ∷ 0x0 ∷ []

abbrev pub tx_msg3 : List ℕ
tx_msg3 = 0x93 ∷ 0x0 ∷ 0x0 ∷ 0x0 ∷ 0x0 ∷ 0x0 ∷ 0x0 ∷ 0x0 ∷ []

-- What a step returned, and what the buffer holds; the steps after a failure are not made.
abbrev pub Talk : (L : Type 0) → Type 0
Talk L = List ℕ → Run (NetSide L) (ℤ × List ℕ)

abbrev pub after_step : {L : Type 0} → Talk L → ℤ × List ℕ → Run (NetSide L) (ℤ × List ℕ)
after_step next (negsuc n, held) = pure (negsuc n, held)
after_step next (pos n, held) = next held

unfoldable pub exchanges : {L : Type 0} → List (Talk L) → Talk L
unfolding ◌>>=◌
exchanges [] held = pure (pos 0, held)
exchanges (first ∷ more) held = do r ← first held; after_step (exchanges more) r

module _ {L : Type 0} (lower : Stream L) (m : Allocator) (rounds fuel : ℕ) where
  unfoldable pub tells : (msg : List ℕ) → Talk L
  tells msg held = do code ← net_tx lower m fuel msg; pure (code, held)

  unfoldable pub hears : Talk L
  hears held = net_rx lower m rounds fuel held

  abbrev pub with_buffer : List (Talk L) → Option (List ℕ) → Run (NetSide L) ℤ
  with_buffer all none = fails lower net_err_memory
  with_buffer all (some block) = do r ← exchanges all []; pure (r.0)

  unfoldable pub net_rx_handshake : Run (NetSide L) ℤ
  net_rx_handshake =
      with_buffer (hears ∷ tells rx_msg1 ∷ hears ∷ tells rx_msg2 ∷ hears ∷ []) (m.malloc 256)

  unfoldable pub net_tx_handshake : Run (NetSide L) ℤ
  net_tx_handshake =
      with_buffer (tells tx_msg1 ∷ hears ∷ tells tx_msg2 ∷ hears ∷ tells tx_msg3 ∷ [])
        (m.malloc 256)
