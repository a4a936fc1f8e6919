-- ===== src/Padp/Tests.antt =====
-- A sender whose packets are acknowledged at once, and a receiver that has them in a list.
use pilot_link.Base.{
  ℕ, true, false, List, [], ◌∷◌, ◌++◌, Option, none, some, ◌≡◌, refl, ap, arith, length,
}
use pilot_link.Base.Int.{ℤ, pos, negsuc}
use pilot_link.Base.Run.{◌>>=◌, pure, change, ask, checked}
use pilot_link.Buffer.{pi_buffer_new}
use pilot_link.Buffer.Tests.{zeroed, zeroed-Ample, small, small-IsValid}
use pilot_link.Macros.{get_byte, get_short, set_byte, set_short}
use pilot_link.Padp.{
  Padp, PadpData, conn_other, Lower, Side, header_of, get_size, size_bytes, ack_bytes, set_opt,
  write, read,
}
use pilot_link.Padp.Send.{
  padp_tx, choose_txid, transmit, send_all, attempt, wrote, await_ack, listen, act_on, heard_as,
  is_repeat, tried, settle, sent_all, is_disconnected, packet_bytes, flags_of,
}
use pilot_link.Padp.Receive.{padp_rx, choose_txid as choose_rx_txid}
use pilot_link.Padp.Fragments.{Fragments, last_one, IsData}
use pilot_link.Padp.Delivered.{Hands}
use pilot_link.Padp.Rounds.{Gets}
use pilot_link.Padp.Reception.{padp_rx-Fragments}
use pilot_link.Padp.Acked.{Acks}
use pilot_link.Padp.Sending.{padp_tx-Fragments}
use pilot_link.Padp.Loopback.{padp_rx-padp_tx}

abbrev reply : Option Padp → List ℕ
reply none = []
reply (some padp) = ack_bytes padp

-- The packets written, and what comes back.
abbrev Desk : Type 0
Desk = List (List ℕ) × List ℕ

abbrev desk : Lower Desk
desk = record {
  present = true;
  write = λ l bytes. (pos (length bytes), (l.0 ++ (bytes ∷ []), reply (header_of bytes)));
  read = λ l n. (pos 4, l.1, l);
  flush = λ l. l;
  set_option = λ option value l. l;
  last_type = λ l. 2;
  last_txid = λ l. 0xff;
  honor_rx_timeout = λ l. false;
  time = λ l. (0, l);
  set_error = λ code l. l;
}

abbrev written : Desk → List (List ℕ)
written l = l.0

desk-Acks : Acks desk written 0xff
desk-Acks = record {
  present = refl;
  answers = λ l bytes padp e k short size. (
    length bytes,
    (l.0 ++ (bytes ∷ []), ack_bytes padp),
    refl,
    ap (λ o. (pos 4, reply o, (l.0 ++ (bytes ∷ []), reply o))) e,
    refl,
    refl,
    refl,
  );
  options = λ l option value. refl;
  flushes = λ l. refl;
}

abbrev first_of : List (List ℕ) → ℤ × List ℕ × List (List ℕ)
first_of [] = (negsuc 0, [], [])
first_of (p ∷ ps) = (pos (length p), p, ps)

abbrev palm : Lower (List (List ℕ))
palm = record {
  present = true;
  write = λ l bytes. (pos (length bytes), l);
  read = λ l n. first_of l;
  flush = λ l. l;
  set_option = λ option value l. l;
  last_type = λ l. 2;
  last_txid = λ l. 0xff;
  honor_rx_timeout = λ l. true;
  time = λ l. (0, l);
  set_error = λ code l. l;
}

abbrev under_way : List (List ℕ) → List (List ℕ)
under_way l = l

palm-Hands : Hands palm under_way 0xff
palm-Hands = record {
  present = refl;
  prompt = λ l. omega arith;
  reads = λ l n p ps q h. (ps, ap first_of q, refl, refl, refl);
  writes = λ l bytes. refl;
  options = λ l option value. refl;
  times = λ l. refl;
}

abbrev fresh : PadpData
fresh = record {
  kind = 1;
  freeze_txid = false;
  use_long_format = false;
  txid = 0xff;
  next_txid = 0xff;
  last_ack_txid = 0;
  last_ack_padp = record { kind = 0; flags = 0; size = 0 };
}

abbrev started : PadpData
started = record fresh { next_txid = 1 }

abbrev hello : List ℕ
hello = 104 ∷ 105 ∷ []

abbrev hello_packet : List ℕ
hello_packet = 1 ∷ 0xc0 ∷ 0 ∷ 2 ∷ 104 ∷ 105 ∷ []

abbrev sender : Side Desk
sender = record { data_ = fresh; conn = conn_other; low = ([], []) }

abbrev sender_after : Side Desk
sender_after = record {
  data_ = started;
  conn = conn_other;
  low = (hello_packet ∷ [], 2 ∷ 0xc0 ∷ 0 ∷ 2 ∷ []);
}

abbrev receiver : Side (List (List ℕ))
receiver = record { data_ = fresh; conn = conn_other; low = hello_packet ∷ [] }

started-IsData : IsData (choose_txid zeroed desk sender).data_
unfolding choose_txid
started-IsData = record { is_kind = refl; is_short = refl }

same_txid : (choose_txid zeroed desk sender).data_.txid ≡ 0xff
unfolding choose_txid
same_txid = refl

sends : padp_tx zeroed desk 4 hello sender ≡ some (pos 2, sender_after)
unfolding padp_tx choose_txid transmit send_all attempt wrote await_ack listen act_on heard_as
    is_repeat tried settle sent_all is_disconnected packet_bytes flags_of set_opt write read
    header_of get_size size_bytes ack_bytes get_byte get_short set_byte set_short pi_buffer_new
    ◌>>=◌ pure change ask checked
sends = refl

padp_tx-Fragments_example :
    (s' : Side Desk) × (packets : List (List ℕ)) × (padp_tx zeroed desk 4 hello sender
      ≡ some (pos 2, s'))
    × Fragments (choose_txid zeroed desk sender).data_ true 0 hello packets
    × (written s'.low ≡ [] ++ packets)
padp_tx-Fragments_example =
    padp_tx-Fragments zeroed desk written 0xff desk-Acks hello 4 sender zeroed-Ample started-IsData
      same_txid (omega arith) (omega arith)

padp_rx-Fragments_example :
    Gets zeroed palm under_way 0xff palm-Hands small hello 2 []
      (choose_rx_txid zeroed palm receiver)
      (padp_rx zeroed palm 4 small receiver)
unfolding packet_bytes flags_of size_bytes set_byte set_short
padp_rx-Fragments_example =
    padp_rx-Fragments zeroed palm under_way 0xff palm-Hands fresh hello (hello_packet ∷ []) [] 4
      small receiver (last_one (omega arith)) (record { is_kind = refl; is_short = refl })
      zeroed-Ample small-IsValid (omega arith) (omega arith) refl refl (omega arith)

padp_rx-padp_tx_example :
    (pos 2 ≡ pos 2)
    × Gets zeroed palm under_way 0xff palm-Hands small hello 2 []
        (choose_rx_txid zeroed palm receiver)
        (padp_rx zeroed palm 4 small receiver)
padp_rx-padp_tx_example =
    padp_rx-padp_tx zeroed 0xff desk written desk-Acks palm under_way palm-Hands hello [] 4 4 small
      (pos 2) sender sender_after receiver zeroed-Ample started-IsData same_txid refl small-IsValid
      (omega arith) (omega arith) refl sends refl (omega arith) (omega arith)
