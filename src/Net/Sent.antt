-- ===== src/Net/Sent.antt =====
-- libpisock/net.c: what net_tx writes, whatever the options say of the sizes of the writes.
use pilot_link.Base.{
  ℕ, zero, suc, ◌+◌, ◌==◌, ◌≤◌, ◌<◌, Bool, true, false, not, List, [], ◌∷◌, ◌++◌, none, some, ◌≡◌,
  refl, sym, ap, ◌∙◌, arith, length, take, drop, ltb, if◌then◌else◌, Bool-cases, inl, inr,
  length-append,
}
use mathlib.Core.List.{append-nil, append_assoc}
use pilot_link.Base.Int.{pos}
use pilot_link.Base.Run.{Run, and_then, ◌>>=◌, pure, ask}
use pilot_link.Buffer.{Allocator}
use pilot_link.Buffer.Blocks.{Ample, length-drop}
use pilot_link.Macros.{set_byte, set_long}
use pilot_link.Net.{
  NetData, Stream, net_header, chunk_of, put, went, put_chunks, put_frame, net_sent, framed, net_tx,
}

pub run-true :
    {S A : Type 0} (test : Bool) (f g : Run S A) (s : S)
    → test ≡ true
    → (if test then f else g) s ≡ f s
run-true test f g s e = rw e refl

pub run-false :
    {S A : Type 0} (test : Bool) (f g : Run S A) (s : S)
    → test ≡ false
    → (if test then f else g) s ≡ g s
run-false test f g s e = rw e refl

pub not-true : (test : Bool) → test ≡ true → not test ≡ false
not-true test e = rw e refl

-- Layers below that write what they are given, with a record of it.
pub record Puts {L : Type 0} (lower : Stream L) (log : L → List ℕ) : Type 0 where
  pub present : lower.present ≡ true
  pub writes :
      (l : L) (bytes : List ℕ)
      → (l' : L) × (lower.write l bytes ≡ (pos (length bytes), l')) × (log l' ≡ log l ++ bytes)

drop-all : (xs : List ℕ) → drop (length xs) xs ≡ []
drop-all [] = refl
drop-all (x ∷ xs) = drop-all xs

take-drop_taken : (n : ℕ) (xs : List ℕ) → take n xs ++ drop (length (take n xs)) xs ≡ xs
take-drop_taken zero xs = refl
take-drop_taken (suc n) [] = refl
take-drop_taken (suc n) (x ∷ xs) = ap (◌∷◌ x) (take-drop_taken n xs)

chunk_of-splits : (c : ℕ) (xs : List ℕ) → chunk_of c xs ++ drop (length (chunk_of c xs)) xs ≡ xs
chunk_of-splits c xs = elim (Bool-cases (c == 0)) [
  | inl e ↦ rw (e, drop-all xs) (append-nil xs)
  | inr e ↦ rw e (take-drop_taken c xs)
]

chunk_of-some : (c b : ℕ) (xs : List ℕ) → 0 < length (chunk_of c (b ∷ xs))
chunk_of-some zero b xs = omega arith
chunk_of-some (suc c) b xs = ground arith

ltb_self : (n : ℕ) → ltb n n ≡ false
ltb_self n = ground arith

pub length-net_header : (d : NetData) (n : ℕ) → length (net_header d n) ≡ 6
unfolding net_header set_byte set_long
length-net_header d n = refl

module _ {L : Type 0} (lower : Stream L) (log : L → List ℕ) (w : Puts lower log) where
  put-Puts :
      (d : NetData) (l : L) (bytes : List ℕ)
      → (l' : L) × (put lower bytes (record { data_ = d; low = l })
          ≡ some (pos (length bytes), record { data_ = d; low = l' }))
        × (log l' ≡ log l ++ bytes)
  unfolding put
  put-Puts d l bytes = let (l', e, h) = w.writes l bytes in (l', rw e refl, h)

  put_chunks-all :
      (fuel c : ℕ) (d : NetData) (l : L) (rest : List ℕ)
      → length rest ≤ fuel
      → (l' : L) × (put_chunks lower fuel c rest (record { data_ = d; low = l })
          ≡ some (none, record { data_ = d; low = l' }))
        × (log l' ≡ log l ++ rest)
  unfolding put_chunks ◌>>=◌ pure
  put_chunks-all fuel c d l [] h = (l, refl, sym (append-nil (log l)))
  put_chunks-all zero c d l (b ∷ rest) h = absurd (omega arith)
  put_chunks-all (suc fuel) c d l (b ∷ rest) h =
      let piece = chunk_of c (b ∷ rest) in
      let left = drop (length piece) (b ∷ rest) in
      let (l1, e1, h1) = put-Puts d l piece in
      let (l2, e2, h2) =
        put_chunks-all fuel c d l1 left
          (omega (arith, length-drop (length piece) (b ∷ rest), chunk_of-some c b rest)) in
      (
        l2,
        rw (e1, ltb_self (length piece)) e2,
        h2
            ∙ ap (λ x. x ++ left) h1
            ∙ append_assoc (log l) piece left
            ∙ ap (λ x. log l ++ x) (chunk_of-splits c (b ∷ rest)),
      )

  put_frame-all :
      (fuel : ℕ) (d : NetData) (l : L) (header msg : List ℕ)
      → length header ≡ 6
      → 6 + length msg ≤ fuel
      → (l' : L) × (put_frame lower fuel d header msg (record { data_ = d; low = l })
          ≡ some (none, record { data_ = d; low = l' }))
        × (log l' ≡ log l ++ (header ++ msg))
  unfolding put_frame ◌>>=◌
  put_frame-all fuel d l header msg six h = elim (Bool-cases d.split_writes) [
    | inl e ↦
        let (l1, e1, h1) = put-Puts d l header in
        let (l2, e2, h2) = put_chunks-all fuel d.write_chunksize d l1 msg (omega arith) in
        (
          l2,
          run-true d.split_writes _ _ _ e
              ∙ ap
                  (λ o.
                    and_then o
                      (λ n. went lower 6 n (λ count. put_chunks lower fuel d.write_chunksize msg)))
                  (e1 ∙ ap (λ n. some (pos n, record { data_ = d; low = l1 })) six)
              ∙ e2,
          h2 ∙ ap (λ x. x ++ msg) h1 ∙ append_assoc (log l) header msg,
        )
    | inr e ↦
        let (l2, e2, h2) =
          put_chunks-all fuel d.write_chunksize d l (header ++ msg)
            (omega (arith, length-append header msg)) in
        (l2, run-false d.split_writes _ _ _ e ∙ e2, h2)
  ]

  -- net_tx, on layers below that write what they are given and with an allocator that refuses nothing:
  -- whether the header is written by itself, and however long the chunks are that are asked for,
  -- all is written in order, the header and the message, and the message's length is returned;
  -- with fuel for a round for each byte.
  pub net_tx-frame :
      (m : Allocator) (fuel : ℕ) (d : NetData) (l : L) (msg : List ℕ)
      → Ample m
      → 6 + length msg ≤ fuel
      → (l' : L) × (net_tx lower m fuel msg (record { data_ = d; low = l })
          ≡ some (pos (length msg), record { data_ = d; low = l' }))
        × (log l' ≡ log l ++ (net_header d (length msg) ++ msg))
  unfolding net_tx ◌>>=◌ ask pure
  net_tx-frame m fuel d l msg k h =
      let (block, e) = k (6 + length msg) in
      let (l', e1, h1) =
        put_frame-all fuel d l (net_header d (length msg)) msg (length-net_header d (length msg))
          h in
      (
        l',
        run-false (not lower.present) _ _ _ (not-true lower.present w.present)
            ∙ ap (λ o. framed lower fuel msg o (record { data_ = d; low = l })) e
            ∙ ap (λ o. and_then o (λ r. pure (net_sent lower (length msg) r))) e1,
        h1,
      )
