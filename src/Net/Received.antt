-- ===== src/Net/Received.antt =====
-- libpisock/net.c: a frame that net_tx has written, received by net_rx.
use pilot_link.Base.{
  ℕ, zero, suc, ◌+◌, ◌-◌, ◌%◌, ◌^◌, ◌==◌, ◌≤◌, ◌<◌, Bool, true, false, not, List, [], ◌∷◌, ◌++◌,
  some, ◌≡◌, refl, sym, ap, ◌∙◌, arith, length, take, drop, leb, ltb, leb-true, ltb-false,
  if◌then◌else◌, Bool-cases, inl, inr, length-append, drop-append_left, take-append_left,
}
use mathlib.Core.List.{append-nil, append_assoc}
use pilot_link.Base.Int.{pos, int32}
use pilot_link.Base.Run.{and_then, paired, ◌>>=◌, pure, change, ask, checked}
use pilot_link.Buffer.{Allocator}
use pilot_link.Buffer.Blocks.{Ample, length-drop}
use pilot_link.Macros.{get_byte, get_long, set_byte, set_long}
use pilot_link.PiFile.Headers.{drop-drop, get_long-set_long}
use pilot_link.PiFile.Indexes.{int32-small}
use pilot_link.Slp.Pending.{take-take_rest}
use pilot_link.Net.{
  NetData, Stream, net_header, cut_off, whole, found_packet, ends, count_of, advanced_txid,
  take_some, read_until, classify, headed, peeked, read_heading, unless_tickle, seek, finish,
  filled_body, read_body, after_heading, heard, net_rx, net_tx,
}
use pilot_link.Net.Sent.{run-true, run-false, not-true, Puts, net_tx-frame}

-- Layers below that hand out what is under way in any pieces.
pub record Feeds {L : Type 0} (lower : Stream L) (pending : L → List ℕ) : Type 0 where
  pub present : lower.present ≡ true
  pub reads :
      (l : L) (n : ℕ)
      → 0 < n
      → n ≤ length (pending l)
      → (k : ℕ) × (l' : L) × (lower.read l n ≡ (pos k, take k (pending l), l'))
        × (0 < k)
        × (k ≤ n)
        × (pending l' ≡ drop k (pending l))
  pub timeouts : (n : ℕ) (l : L) → pending (lower.set_timeout n l) ≡ pending l

long_alone : (n : ℕ) → n < 2 ^ 32 → get_long (set_long n) ≡ some n
long_alone n h = ap get_long (sym (append-nil (set_long n))) ∙ get_long-set_long n [] h

leb-false : (k n : ℕ) → n < k → leb k n ≡ false
leb-false k n h = ground arith

goes_on : (header : Bool) (k : ℕ) → 0 < k → ends header (pos k) ≡ false
goes_on true k h = ground arith
goes_on false k h = refl

module _ {L : Type 0} (lower : Stream L) (pending : L → List ℕ) (w : Feeds lower pending) where
  read_until-all :
      (fuel : ℕ) (header : Bool) (goal total n : ℕ) (got : List ℕ) (d : NetData) (l : L)
      → total + n ≡ goal
      → n ≤ length (pending l)
      → n ≤ fuel
      → (l' : L) × (read_until lower fuel header goal total got (record { data_ = d; low = l })
          ≡ some (whole goal (got ++ take n (pending l)), record { data_ = d; low = l' }))
        × (pending l' ≡ drop n (pending l))
  unfolding read_until ◌>>=◌ pure take_some
  read_until-all zero header goal total zero got d l e h f =
      let same : total ≡ goal = omega arith in
      (
        l,
        run-true (leb goal total) _ _ _ (leb-true goal total (omega arith))
            ∙ ap (λ g. some (whole g got, record { data_ = d; low = l })) same
            ∙ ap (λ g. some (whole goal g, record { data_ = d; low = l })) (sym (append-nil got)),
        refl,
      )
  read_until-all (suc fuel) header goal total zero got d l e h f =
      let same : total ≡ goal = omega arith in
      (
        l,
        run-true (leb goal total) _ _ _ (leb-true goal total (omega arith))
            ∙ ap (λ g. some (whole g got, record { data_ = d; low = l })) same
            ∙ ap (λ g. some (whole goal g, record { data_ = d; low = l })) (sym (append-nil got)),
        refl,
      )
  read_until-all zero header goal total (suc n) got d l e h f = absurd (omega arith)
  read_until-all (suc fuel) header goal total (suc n) got d l e h f =
      let (k, l1, e1, some_, most, left) = w.reads l (goal - total) (omega arith) (omega arith) in
      let p = pending l in
      let j = suc n - k in
      let (l2, e2, left2) =
        read_until-all fuel header goal (total + k) j (got ++ take k p) d l1 (omega arith)
          (omega (arith, ap length left, length-drop k p)) (omega arith) in
      let parts : take k p ++ take j (drop k p) ≡ take (suc n) p =
        take-take_rest k j (suc n) p (omega arith) in
      let rest : k + j ≡ suc n = omega arith in
      (
        l2,
        run-false (leb goal total) _ _ _ (leb-false goal total (omega arith))
            ∙ ap
                (λ r.
                  (if ends header (r.0)
                      then pure (cut_off (r.0) (got ++ r.1))
                      else read_until lower fuel header goal (total + count_of (r.0)) (got ++ r.1))
                    (record { data_ = d; low = r.2 }))
                e1
            ∙ run-false (ends header (pos k)) _ _ _ (goes_on header k some_)
            ∙ e2
            ∙ ap (λ g. some (whole goal g, record { data_ = d; low = l2 }))
                (append_assoc got (take k p) (take j (pending l1))
                  ∙ ap (λ q. got ++ (take k p ++ take j q)) left
                  ∙ ap (λ q. got ++ q) parts),
        left2 ∙ ap (drop j) left ∙ drop-drop j k p ∙ ap (λ i. drop i p) rest,
      )

  -- The header of a message of `len` bytes.
  abbrev pub frame_header : (txid len : ℕ) → List ℕ
  frame_header txid len = 1 ∷ txid ∷ set_long len

  read_until-header :
      (fuel txid len : ℕ) (more : List ℕ) (d : NetData) (l : L)
      → 6 ≤ fuel
      → pending l ≡ frame_header txid len ++ more
      → (l' : L) × (read_until lower fuel true 6 0 [] (record { data_ = d; low = l })
          ≡ some (whole 6 (frame_header txid len), record { data_ = d; low = l' }))
        × (pending l' ≡ more)
  unfolding set_long
  read_until-header fuel txid len more d l f p =
      let (l', e, left) =
        read_until-all fuel true 6 0 6 [] d l refl (omega (arith, ap length p)) f in
      (
        l',
        e ∙ ap (λ q. some (whole 6 (take 6 q), record { data_ = d; low = l' })) p,
        left ∙ ap (drop 6) p,
      )

  headed-frame :
      (txid len : ℕ) (d : NetData) (l : L)
      → len < 2 ^ 31
      → headed lower (whole 6 (frame_header txid len)) (record { data_ = d; low = l })
        ≡ some (
          found_packet (frame_header txid len),
          record { data_ = record d { kind = 1 }; low = l },
        )
  unfolding classify ◌>>=◌ pure checked change get_byte
  headed-frame txid len d l h = rw (long_alone len (omega arith)) refl

  -- The first byte of a frame is not 0x90.
  peeked-frame :
      (fuel txid len : ℕ) (more : List ℕ) (d : NetData) (l : L)
      → 6 ≤ fuel
      → len < 2 ^ 31
      → pending l ≡ txid ∷ (set_long len ++ more)
      → (l' : L) × (peeked lower fuel (pos 1, 1 ∷ []) (record { data_ = d; low = l })
          ≡ some (
            found_packet (frame_header txid len),
            record { data_ = record d { kind = 1 }; low = l' },
          ))
        × (pending l' ≡ more)
  unfolding set_long ◌>>=◌ checked get_byte
  peeked-frame fuel txid len more d l f h p =
      let (l', e, left) =
        read_until-all fuel true 6 1 5 (1 ∷ []) d l refl (omega (arith, ap length p))
          (omega arith) in
      (
        l',
        ap (λ o. and_then o (headed lower))
              (e ∙ ap (λ q. some (whole 6 (1 ∷ take 5 q), record { data_ = d; low = l' })) p)
            ∙ headed-frame txid len d l' h,
        left ∙ ap (drop 5) p,
      )

  one_byte :
      (d : NetData) (l : L) (b : ℕ) (more : List ℕ)
      → pending l ≡ b ∷ more
      → (l' : L) × (take_some lower 1 (record { data_ = d; low = l })
          ≡ some ((pos 1, b ∷ []), record { data_ = d; low = l' }))
        × (pending l' ≡ more)
  unfolding take_some
  one_byte d l b more p =
      let (k, l', e, some_, most, left) = w.reads l 1 (omega arith) (omega (arith, ap length p)) in
      let one : k ≡ 1 = omega arith in
      (
        l',
        ap (λ r. some ((r.0, r.1), record { data_ = d; low = r.2 }))
              (e ∙ ap (λ i. (pos i, take i (pending l), l')) one)
            ∙ ap (λ q. some ((pos 1, take 1 q), record { data_ = d; low = l' })) p,
        left ∙ ap (λ i. drop i (pending l)) one ∙ ap (drop 1) p,
      )

  read_heading-frame :
      (fuel txid len : ℕ) (more : List ℕ) (d : NetData) (l : L)
      → 6 ≤ fuel
      → len < 2 ^ 31
      → pending l ≡ frame_header txid len ++ more
      → (l' : L) × (read_heading lower fuel (record { data_ = d; low = l })
          ≡ some (
            found_packet (frame_header txid len),
            record { data_ = record d { kind = 1 }; low = l' },
          ))
        × (pending l' ≡ more)
  unfolding read_heading ◌>>=◌ ask
  read_heading-frame fuel txid len more d l f h p = elim (Bool-cases (d.txid == 0)) [
    | inl e ↦
        let (l1, e1, p1) = one_byte d l 1 (txid ∷ (set_long len ++ more)) p in
        let (l2, e2, p2) = peeked-frame fuel txid len more d l1 f h p1 in
        (l2, run-true (d.txid == 0) _ _ _ e ∙ ap (λ o. and_then o (peeked lower fuel)) e1 ∙ e2, p2)
    | inr e ↦
        let (l1, e1, p1) = read_until-header fuel txid len more d l f p in
        (
          l1,
          run-false (d.txid == 0) _ _ _ e
              ∙ ap (λ o. and_then o (headed lower)) e1
              ∙ headed-frame txid len d l1 h,
          p1,
        )
  ]

  -- The transaction's number after a message.
  abbrev pub txid_after : (txid : ℕ) → NetData → L → ℕ
  txid_after txid d l = if lower.takes_txid l then txid else advanced_txid d.txid

  body-frame :
      (fuel txid : ℕ) (held msg rest : List ℕ) (d : NetData) (l : L)
      → length msg ≤ fuel
      → length msg < 0x100001
      → pending l ≡ msg ++ rest
      → (l' : L) × (after_heading lower fuel held
            (found_packet (frame_header txid (length msg)))
            (record { data_ = d; low = l })
          ≡ some (
            (pos (length msg), held ++ msg),
            record { data_ = record d { txid = txid_after txid d l' }; low = l' },
          ))
        × (pending l' ≡ rest)
  unfolding finish ◌>>=◌ pure checked change get_byte
  body-frame fuel txid held msg rest d l f h p =
      let n = length msg in
      let (l', e, left) =
        read_until-all fuel false n 0 n held d l (omega arith)
          (omega (arith, ap length p, length-append msg rest)) f in
      let front : take n (pending l) ≡ msg = ap (take n) p ∙ take-append_left msg rest in
      (
        l',
        ap
              (λ o.
                and_then (paired o (record { data_ = d; low = l }))
                  (λ len. read_body lower fuel (frame_header txid n) held (int32 len)))
              (long_alone n (omega arith))
            ∙ ap
                (λ z.
                  read_body lower fuel (frame_header txid n) held z (record { data_ = d; low = l }))
                (int32-small n (omega arith))
            ∙ run-false (ltb 0x100000 n) _ _ _ (ltb-false 0x100000 n (omega arith))
            ∙ ap (λ o. and_then o (filled_body lower (frame_header txid n) n))
                (e ∙ ap (λ q. some (whole n (held ++ q), record { data_ = d; low = l' })) front),
        left ∙ ap (drop n) p ∙ drop-append_left msg rest,
      )

  -- net_rx on a frame at the front of what is under way
  pub net_rx-frame :
      (m : Allocator) (rounds fuel txid : ℕ) (held msg rest : List ℕ) (d : NetData) (l : L)
      → Ample m
      → 6 + length msg ≤ fuel
      → length msg < 0x100001
      → pending l ≡ frame_header txid (length msg) ++ (msg ++ rest)
      → (l' : L) × (net_rx lower m (suc rounds) fuel held (record { data_ = d; low = l })
          ≡ some (
            (pos (length msg), held ++ msg),
            record { data_ = record d { kind = 1; txid = txid_after txid d l' }; low = l' },
          ))
        × (pending l' ≡ rest)
  unfolding net_rx ◌>>=◌ change seek pure
  net_rx-frame m rounds fuel txid held msg rest d l k f h p =
      let n = length msg in
      let (block, e) = k 6 in
      let l0 = lower.set_timeout (if lower.honor_rx_timeout l then 30000 else 0) l in
      let (l1, e1, p1) =
        read_heading-frame fuel txid n (msg ++ rest) d l0 (omega arith) (omega arith)
          (w.timeouts (if lower.honor_rx_timeout l then 30000 else 0) l ∙ p) in
      let (l2, e2, p2) =
        body-frame fuel txid held msg rest (record d { kind = 1 }) l1 (omega arith) h p1 in
      (
        l2,
        run-false (not lower.present) _ _ _ (not-true lower.present w.present)
            ∙ ap (λ o. heard lower (suc rounds) fuel held o (record { data_ = d; low = l0 })) e
            ∙ ap
                (λ o.
                  and_then (and_then o (λ x. unless_tickle lower x (seek lower rounds fuel)))
                    (after_heading lower fuel held))
                e1
            ∙ e2,
        p2,
      )

header-data :
    (d : NetData) (len : ℕ)
    → d.kind ≡ 1
    → d.txid < 256
    → net_header d len ≡ 1 ∷ d.txid ∷ set_long len
unfolding net_header set_byte
header-data d len h b = let same : d.txid % 256 ≡ d.txid = omega arith in rw (h, same) refl

-- What net_tx writes for a message of at most 2 ^ 20 bytes, to layers below that write what they are
-- given, net_rx receives on the other side, where it is at the front of what is under way, in pieces
-- of whatever sizes and however the writes were cut: both return the message's length, the
-- receiver's buffer has the message behind what it held, and what follows is left. The transaction's
-- number is the sender's where the receiver takes it, or else the next. The allocator refuses nothing,
-- and the fuel is a unit for each byte.
pub net_rx-net_tx :
    {L R : Type 0} (lower : Stream L) (log : L → List ℕ) (near : Stream R) (pending : R → List ℕ)
    (m : Allocator) (rounds fuel : ℕ) (msg held rest : List ℕ) (d e : NetData) (l : L) (r : R)
    → Puts lower log
    → Feeds near pending
    → Ample m
    → d.kind ≡ 1
    → d.txid < 256
    → 6 + length msg ≤ fuel
    → length msg < 0x100001
    → pending r ≡ net_header d (length msg) ++ (msg ++ rest)
    → (l' : L) × (r' : R) × (net_tx lower m fuel msg (record { data_ = d; low = l })
        ≡ some (pos (length msg), record { data_ = d; low = l' }))
      × (log l' ≡ log l ++ (net_header d (length msg) ++ msg))
      × (net_rx near m (suc rounds) fuel held (record { data_ = e; low = r })
          ≡ some (
            (pos (length msg), held ++ msg),
            record {
              data_ = record e {
                kind = 1;
                txid = if near.takes_txid r' then d.txid else advanced_txid e.txid;
              };
              low = r';
            },
          ))
      × (pending r' ≡ rest)
net_rx-net_tx lower log near pending m rounds fuel msg held rest d e l r w v k h b f s p =
    let (l', e1, h1) = net_tx-frame lower log w m fuel d l msg k f in
    let (r', e2, h2) =
      net_rx-frame near pending v m rounds fuel d.txid held msg rest e r k f s
        (p ∙ ap (λ x. x ++ (msg ++ rest)) (header-data d (length msg) h b)) in
    (l', r', e1, h1, e2, h2)
