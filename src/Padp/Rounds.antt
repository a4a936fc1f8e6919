-- ===== src/Padp/Rounds.antt =====
-- The packets of a message, one after the other.
use pilot_link.Base.{
  ℕ, zero, suc, ◌+◌, ◌%◌, ◌^◌, ◌≤◌, ◌<◌, Bool, false, List, [], ◌∷◌, ◌++◌, Option, some, ◌≡◌, refl,
  sym, ap, ◌∙◌, arith, length, take, drop, length-take-le, leb, leb-true, length-append,
}
use mathlib.Core.List.{append_assoc}
use mathlib.Core.Path.{subst}
use pilot_link.Base.Int.{ℤ, pos}
use pilot_link.Base.Run.{Run, ◌>>=◌, pure, change}
use pilot_link.Buffer.{Buffer, Allocator, size_mod}
use pilot_link.Buffer.Blocks.{IsValid, Ample, contents, take_all, length-take, length-drop}
use pilot_link.Padp.{PadpData, Lower, Side}
use pilot_link.Padp.Send.{packet_bytes}
use pilot_link.Padp.Receive.{Arrival, arrived, time, in_thirty, done, next_of, segments}
use pilot_link.Padp.Fragments.{
  Fragments, last_one, one_more, IsData, data_header, short_packet, packet_bytes-IsData,
  header_of-short_packet, verdict-data_header, is_long-flags_of,
}
use pilot_link.Padp.Delivered.{Hands, Start, at_low, wait_for-packet, round}

pub head-Fragments :
    {d : PadpData} {first : Bool} {count : ℕ} {rest : List ℕ} {packets : List (List ℕ)}
    → Fragments d first count rest packets
    → packets ≡ packet_bytes d first count rest ∷ drop 1 packets
head-Fragments (last_one h) = refl
head-Fragments (one_more h f) = refl

leb-long : (n : ℕ) → 1024 < n → leb n 1024 ≡ false
leb-long n h = ground arith

split : (n : ℕ) (xs : List ℕ) → take n xs ++ drop n xs ≡ xs
split zero xs = refl
split (suc n) [] = refl
split (suc n) (x ∷ xs) = ap (◌∷◌ x) (split n xs)

module _ {L : Type 0} (m : Allocator) (lower : Lower L) (queue : L → List (List ℕ)) (txid : ℕ)
    (v : Hands lower queue txid) where
  -- A reception that ends with the message's length and its bytes behind what the buffer held.
  abbrev pub Gets :
      Buffer
      → List ℕ
      → (total : ℕ) → List (List ℕ)
      → Side L
      → Option ((ℤ × Buffer) × Side L)
      → Type 0
  Gets b rest total more s o =
      (b' : Buffer) × (s' : Side L) × (o ≡ some ((pos total, b'), s'))
      × IsValid b'
      × (contents b' ≡ contents b ++ rest)
      × (queue s'.low ≡ more)
      × (s'.data_.txid ≡ s.data_.next_txid % 256)

  done-Gets :
      (b b' : Buffer) (rest : List ℕ) (total : ℕ) (more : List (List ℕ)) (s s' : Side L)
      → IsValid b'
      → contents b' ≡ contents b ++ rest
      → queue s'.low ≡ more
      → s'.data_.next_txid ≡ s.data_.next_txid
      → Gets b rest total more s (done m lower (pos total, b') s')
  unfolding done ◌>>=◌ change pure
  done-Gets b b' rest total more s s' w held q n = (
    b',
    record s' { data_ = record s'.data_ { txid = s'.data_.next_txid % 256 } },
    refl,
    w,
    held,
    q,
    ap (λ k. k % 256) n,
  )

  -- The next packet arrives.
  next-packet :
      (go : ℕ → Buffer → Arrival → Run (Side L) (ℤ × Buffer)) (fuel : ℕ) (honor : Bool) (count : ℕ)
      (b : Buffer) (d : PadpData) (rest : List ℕ) (ps : List (List ℕ)) (s : Side L)
      → IsData d
      → 3 ≤ fuel
      → count < 2 ^ 16
      → length rest < 2 ^ 16
      → queue s.low ≡ packet_bytes d false count rest ∷ ps
      → s.data_.txid ≡ txid
      → let p = short_packet (data_header false count rest) (take 1024 rest) in
        (l' : L) × (next_of m lower go fuel honor false count b s
          ≡ go count b
              (arrived (data_header false count rest) p (length p) 4)
              (at_low m lower queue txid v s l'))
        × (queue l' ≡ ps)
  unfolding next_of in_thirty time ◌>>=◌ pure
  next-packet go fuel honor count b d rest ps s i f c r q t =
      let padp = data_header false count rest in
      let payload = take 1024 rest in
      let s1 = at_low m lower queue txid v s (lower.time s.low).1 in
      let (l', e, q') =
        wait_for-packet m lower queue txid v fuel false honor ((lower.time s.low).0 + 30) s1 padp
          payload ps f (v.prompt s.low)
          (v.times s.low ∙ q ∙ ap (λ p. p ∷ ps) (packet_bytes-IsData d false count rest i))
          (length-take-le 1024 rest) (is_long-flags_of false (leb (length rest) 1024))
          (header_of-short_packet false count rest payload c r)
          (verdict-data_header false count txid rest) t in
      (l', rw e refl, q')

  pub segments-Fragments :
      {d : PadpData} {first : Bool} {count : ℕ} {rest : List ℕ} {packets : List (List ℕ)}
      → Fragments d first count rest packets
      → IsData d
      → (fuel : ℕ) (honor : Bool) (more : List (List ℕ)) (b : Buffer) (s : Side L) → Ample m
      → Start first count
      → IsValid b
      → length (contents b) + length rest < size_mod
      → count + length rest < 2 ^ 16
      → queue s.low ≡ drop 1 packets ++ more
      → s.data_.txid ≡ txid
      → length packets + 3 ≤ fuel
      → let p = short_packet (data_header first count rest) (take 1024 rest) in
        Gets b rest (count + length rest) more s (
          segments m lower fuel honor count b
            (arrived (data_header first count rest) p (length p) 4)
            s)
  unfolding next_of
  segments-Fragments f i zero honor more b s k o w h c q t l = absurd (omega arith)
  segments-Fragments {d} {first} {count} {rest} (last_one short) i (suc fuel) honor more b s k o w h
        c q t l =
      let (b', s', e, w', held, kept) =
        round m lower queue txid v fuel honor first count rest b s k o w h in
      let whole_ = take_all 1024 rest short in
      let full =
        e
        ∙ ap
            (λ z.
              next_of m lower (segments m lower fuel honor) fuel honor z
                (count + length (take 1024 rest)) b' s')
            (leb-true (length rest) 1024 short)
        ∙ ap (λ xs. done m lower (pos (count + length xs), b') s') whole_ in
      subst (Gets b rest (count + length rest) more s) (sym full) (
        done-Gets b b' rest (count + length rest) more s s' w'
          (held ∙ ap (λ xs. contents b ++ xs) whole_) (kept.same_queue ∙ q) kept.same_next)
  segments-Fragments {d} {first} {count} {rest} (one_more {packets = packets} long f) i (suc fuel)
        honor more b s k o w h c q t l =
      let (b', s', e, w', held, kept) =
        round m lower queue txid v fuel honor first count rest b s k o w h in
      let go = segments m lower fuel honor in
      let rest1 = drop 1024 rest in
      let part = length-take 1024 rest (omega arith) in
      let left = length-drop 1024 rest in
      let not_last : leb (length rest) 1024 ≡ false = leb-long (length rest) long in
      let queued = kept.same_queue ∙ q ∙ ap (λ ps. ps ++ more) (head-Fragments f) in
      let same = kept.same_txid ∙ t in
      let (l', e1, q1) =
        next-packet go fuel honor (count + 1024) b' d rest1 (drop 1 packets ++ more) s' i
          (omega arith) (omega arith) (omega (arith, left)) queued same in
      let (b2, s2, e2, w2, held2, q2, t2) =
        segments-Fragments {d = d} {first = false} {count = count + 1024} {rest = rest1}
          {packets = packets} f i fuel honor more b' (at_low m lower queue txid v s' l') k tt w'
          (omega (arith, left, part, ap length held, length-append (contents b) (take 1024 rest)))
          (omega (arith, left)) q1 same (omega arith) in
      let sum : count + 1024 + length rest1 ≡ count + length rest = omega (arith, left) in
      (
        b2,
        s2,
        e
            ∙ ap (λ z. next_of m lower go fuel honor z (count + length (take 1024 rest)) b' s')
                not_last
            ∙ ap (λ n. next_of m lower go fuel honor false (count + n) b' s') part
            ∙ e1
            ∙ e2
            ∙ ap (λ n. some ((pos n, b2), s2)) sum,
        w2,
        held2
            ∙ ap (λ old. old ++ rest1) held
            ∙ append_assoc (contents b) (take 1024 rest) rest1
            ∙ ap (λ xs. contents b ++ xs) (split 1024 rest),
        q2,
        t2 ∙ ap (λ n. n % 256) kept.same_next,
      )
