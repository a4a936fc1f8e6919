-- ===== src/Net/Tests.antt =====
-- A message in chunks of four bytes, and a receiver that gets a byte at a time.
use pilot_link.Base.{
  ℕ, true, false, List, [], ◌∷◌, ◌++◌, some, ◌≡◌, refl, arith, length, take, drop,
}
use pilot_link.Base.Int.{pos}
use pilot_link.Buffer.Tests.{zeroed, zeroed-Ample}
use pilot_link.Macros.{set_byte, set_long}
use pilot_link.Net.{NetData, Stream, net_header, net_tx, net_rx, advanced_txid}
use pilot_link.Net.Sent.{Puts}
use pilot_link.Net.Received.{Feeds, net_rx-net_tx}

-- The bytes that have been written, or that are under way.
abbrev wire : Stream (List ℕ)
wire = record {
  present = true;
  write = λ l bytes. (pos (length bytes), l ++ bytes);
  read = λ l n. (pos 1, take 1 l, drop 1 l);
  flush_input = λ l. [];
  honor_rx_timeout = λ l. true;
  takes_txid = λ l. false;
  set_timeout = λ n l. l;
  set_error = λ code l. l;
}

abbrev bytes_of : List ℕ → List ℕ
bytes_of l = l

wire-Puts : Puts wire bytes_of
wire-Puts = record { present = refl; writes = λ l bytes. (l ++ bytes, refl, refl) }

wire-Feeds : Feeds wire bytes_of
wire-Feeds = record {
  present = refl;
  reads = λ l n h k. (1, drop 1 l, refl, omega arith, h, refl);
  timeouts = λ n l. refl;
}

abbrev chunked : NetData
chunked = record { kind = 1; split_writes = true; write_chunksize = 4; txid = 5 }

abbrev idle : NetData
idle = record { kind = 0; split_writes = false; write_chunksize = 0; txid = 0 }

abbrev hello : List ℕ
hello = 104 ∷ 101 ∷ 108 ∷ 108 ∷ 111 ∷ []

abbrev hello_frame : List ℕ
hello_frame = 1 ∷ 5 ∷ 0 ∷ 0 ∷ 0 ∷ 5 ∷ hello

hello_test : net_header chunked 5 ++ (hello ++ []) ≡ hello_frame
unfolding net_header set_byte set_long
hello_test = refl

under_way : bytes_of hello_frame ≡ net_header chunked 5 ++ (hello ++ [])
unfolding net_header set_byte set_long
under_way = refl

net_rx-net_tx_example :
    (l' r' : List ℕ) × (net_tx wire zeroed 11 hello (record { data_ = chunked; low = [] })
      ≡ some (pos 5, record { data_ = chunked; low = l' }))
    × (bytes_of l' ≡ [] ++ (net_header chunked 5 ++ hello))
    × (net_rx wire zeroed 1 11 [] (record { data_ = idle; low = hello_frame })
        ≡ some (
          (pos 5, [] ++ hello),
          record { data_ = record idle { kind = 1; txid = advanced_txid 0 }; low = r' },
        ))
    × (bytes_of r' ≡ [])
net_rx-net_tx_example =
    net_rx-net_tx wire bytes_of wire bytes_of zeroed 0 11 hello [] [] chunked idle [] hello_frame
      wire-Puts wire-Feeds zeroed-Ample refl (omega arith) (omega arith) (omega arith) under_way
