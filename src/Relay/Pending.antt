-- ===== src/Relay/Pending.antt =====
-- net/relay_actor.cpp: the loop of `on_read` ends, and what it leaves to be read.
use syncspirit.Prelude.{
  ℕ, zero, suc, ◌+◌, ◌-◌, ◌<◌, ◌≤◌, ◌≡◌, refl, ap, sym, subst, ◌∙◌, Bool, true, false, List, [],
  ◌∷◌, ◌++◌, Option, none, some, arith, ◌==◌, length, take, drop, length-append, length-take,
  length-drop, Bool-cases, inl, inr,
}
use syncspirit.Relay.{Message, ParseResult, incomplete, protocol_error, wrapped, parse}
use syncspirit.Relay.Words.{append_assoc, take-length-append}
use syncspirit.Relay.Prefix.{SizeIn, parse-SizeIn}
use syncspirit.Relay.Reader.{
  ProcessOp, stop, more, incomplete_op, Reader, handle, process, on_read, goes_on,
}

module _ {A : Type 0} where
  take-take : (m n : ℕ) (xs : List A) → m ≤ n → take m (take n xs) ≡ take m xs
  take-take zero n xs l = refl
  take-take (suc m) zero xs l = absurd (omega (arith, l))
  take-take (suc m) (suc n) [] l = refl
  take-take (suc m) (suc n) (x ∷ xs) l = ap (λ ys. x ∷ ys) (take-take m n xs (omega (arith, l)))

  drop-take : (m n : ℕ) (xs : List A) → take (n - m) (drop m xs) ≡ drop m (take n xs)
  drop-take zero n xs = ap (λ k. take k xs) (minus_zero n)
    where
      minus_zero : (k : ℕ) → k - 0 ≡ k
      minus_zero k = omega arith
  drop-take (suc m) zero xs = ap (λ k. take k (drop (suc m) xs)) (zero_minus m)
    where
      zero_minus : (k : ℕ) → 0 - suc k ≡ 0
      zero_minus k = omega arith
  drop-take (suc m) (suc n) [] = take_nil (suc n - suc m)
    where
      take_nil : (k : ℕ) → take {A = A} k [] ≡ []
      take_nil zero = refl
      take_nil (suc k) = refl
  drop-take (suc m) (suc n) (x ∷ xs) =
      ap (λ k. take k (drop m xs)) (minus_suc n m) ∙ drop-take m n xs
    where
      minus_suc : (a b : ℕ) → suc a - suc b ≡ a - b
      minus_suc a b = omega arith

  -- Bytes that are written behind the first `n`.
  written :
      (n : ℕ) (xs ys rest : List A)
      → n ≤ length xs
      → take (n + length ys) (take n xs ++ (ys ++ rest)) ≡ take n xs ++ ys
  written n xs ys rest l =
      let front = take n xs ++ ys in
      let size : n + length ys ≡ length front =
        omega (arith, length-append (take n xs) ys, length-take n xs, l) in
      ap (λ k. take k (take n xs ++ (ys ++ rest))) size
      ∙ ap (take (length front)) (sym (append_assoc (take n xs) ys rest))
      ∙ take-length-append front rest

-- The reads of the bytes `all`, from an index on: the state and the index where they end, and why.
-- Each message starts where the one before it ends.
pub data Reads {S : Type 0} (on : S → Message → S × Bool) (fail : S → S) (all : List ℕ)
    : S → ℕ → S → ℕ → ProcessOp → Type 0 where
  finished : (s : S) (from : ℕ) → from ≡ length all → Reads on fail all s from s from more
  waiting :
      (s : S) (from : ℕ)
      → from < length all
      → parse (drop from all) ≡ incomplete
      → Reads on fail all s from s from incomplete_op
  failed :
      (s : S) (from : ℕ)
      → from < length all
      → parse (drop from all) ≡ protocol_error
      → Reads on fail all s from (fail s) from stop
  refused :
      (s : S) (from size : ℕ) (message : Message)
      → parse (drop from all) ≡ wrapped size message
      → (on s message).1 ≡ false
      → Reads on fail all s from (on s message).0 (from + size) stop
  taken :
      (s t : S) (from size next : ℕ) (message : Message) (op : ProcessOp)
      → parse (drop from all) ≡ wrapped size message
      → (on s message).1 ≡ true
      → Reads on fail all (on s message).0 (from + size) t next op
      → Reads on fail all s from t next op

module _ {S : Type 0} (on : S → Message → S × Bool) (fail : S → S) (all : List ℕ) where
  -- There is a result, and it is where the reads from the index on end.
  abbrev Ended : S → ℕ → Option (S × (ℕ × ProcessOp)) → Type 0
  Ended s from none = ⊥
  Ended s from (some (t, (next, op))) = (next ≤ length all) × Reads on fail all s from t next op

  Ended-taken :
      (s : S) (from size : ℕ) (message : Message) (o : Option (S × (ℕ × ProcessOp)))
      → parse (drop from all) ≡ wrapped size message
      → (on s message).1 ≡ true
      → Ended (on s message).0 (from + size) o
      → Ended s from o
  Ended-taken s from size message none e c h = h
  Ended-taken s from size message (some (t, (next, op))) e c h =
      (h.0, taken s t from size next message op e c h.1)

  handle-Ended :
      (rest : S → ℕ → Option (S × (ℕ × ProcessOp))) (s : S) (from : ℕ) (r : ParseResult)
      → from < length all
      → parse (drop from all) ≡ r
      → SizeIn (length all - from) r
      → ((t : S) (next : ℕ) → from < next → next ≤ length all → Ended t next (rest t next))
      → Ended s from (handle on fail rest s from r)
  unfolding handle SizeIn
  handle-Ended rest s from incomplete l e z h = (omega (arith, l), waiting s from l e)
  handle-Ended rest s from protocol_error l e z h = (omega (arith, l), failed s from l e)
  handle-Ended rest s from (wrapped size message) l e z h =
      let below : from + size ≤ length all = omega (arith, l, z.1) in
      elim (Bool-cases (on s message).1) [
        | inl called ↦ rw called (
            Ended-taken s from size message (rest (on s message).0 (from + size)) e called
              (h (on s message).0 (from + size) (omega (arith, z.0)) below))
        | inr ended ↦ rw ended (below, refused s from size message e ended)
      ]

  process-Ended :
      (fuel : ℕ) (buff : List ℕ) (s : S) (from : ℕ)
      → take (length all) buff ≡ all
      → from ≤ length all
      → length all - from < fuel
      → Ended s from (process on fail fuel buff (length all) s from)
  unfolding process
  process-Ended zero buff s from b l f = absurd (omega (arith, f))
  process-Ended (suc fuel) buff s from b l f = elim (Bool-cases (length all - from == 0)) [
    | inl done ↦ rw done (l, finished s from (ground arith))
    | inr left ↦
        let window : take (length all - from) (drop from buff) ≡ drop from all =
          drop-take from (length all) buff ∙ ap (drop from) b in
        let n : length (drop from all) ≡ length all - from = length-drop from all in
        rw (left, window)
          (handle-Ended (process on fail fuel buff (length all)) s from (parse (drop from all))
            (ground arith) refl
            (subst (λ k. SizeIn k (parse (drop from all))) n (parse-SizeIn (drop from all)))
            (λ t next a c. process-Ended fuel buff t next b c (omega (arith, a, c, f))))
  ]

-- The bytes that are in the buffer for the next read.
abbrev pub pending : {S : Type 0} → Reader S → List ℕ
pending r = take r.rx_idx r.rx_buff

-- The read ends where the reads of all bytes from the first one on end, and of the bytes that were
-- there the first ones are left, as many as were not consumed.
abbrev pub LeavesFirst :
    {S : Type 0}
    → (S → Message → S × Bool)
    → (S → S)
    → S
    → List ℕ
    → Option (Reader S × Bool)
    → Type 0
LeavesFirst on fail s all none = ⊥
LeavesFirst on fail s all (some (t, again)) =
    (from : ℕ) × (op : ProcessOp) × Reads on fail all s 0 t.actor from op
    × (again ≡ goes_on op)
    × (from ≤ length all)
    × (pending t ≡ take (length all - from) all)

module _ {S : Type 0} (on : S → Message → S × Bool) (fail : S → S) where
  Ended-LeavesFirst :
      (buff all : List ℕ) (count : ℕ) (s : S) (o : Option (S × (ℕ × ProcessOp)))
      → count ≡ length all
      → take (length all) buff ≡ all
      → Ended on fail all s 0 o
      → LeavesFirst on fail s all (elim o [
        | none ↦ none
        | some (t, (from, op)) ↦
            some (record { rx_buff = buff; rx_idx = count - from; actor = t }, goes_on op)
      ])
  Ended-LeavesFirst buff all count s none c e h = h
  Ended-LeavesFirst buff all count s (some (t, (from, op))) c e h = (
    from,
    op,
    h.1,
    refl,
    h.0,
    ap (λ k. take (k - from) buff) c
        ∙ sym (take-take (length all - from) (length all) buff (omega arith))
        ∙ ap (take (length all - from)) e,
  )

  -- The loop over the messages in the buffer ends, whatever the handlers do. It reads message after
  -- message from the first byte on, each where the one before it ends, until no byte is left, the
  -- rest is incomplete or malformed, or a handler refuses; and it goes on to the next read in the
  -- first two cases only. Of the bytes that were there, as many are left for the next read as were
  -- not consumed, but the first ones and not the last ones. What is received fits into the buffer.
  pub on_read-LeavesFirst :
      (received : List ℕ) (r : Reader S)
      → r.rx_idx + length received ≤ length r.rx_buff
      → LeavesFirst on fail r.actor (pending r ++ received) (on_read on fail received r)
  unfolding on_read
  on_read-LeavesFirst received r l =
      let rest = drop (r.rx_idx + length received) r.rx_buff in
      let buff = take r.rx_idx r.rx_buff ++ (received ++ rest) in
      let all = pending r ++ received in
      let size : r.rx_idx + length received ≡ length all = omega (
        arith,
        length-append (take r.rx_idx r.rx_buff) received,
        length-take r.rx_idx r.rx_buff,
        l,
      ) in
      let front : take (length all) buff ≡ all =
        ap (λ k. take k buff) (sym size)
        ∙ written r.rx_idx r.rx_buff received rest (omega (arith, l)) in
      Ended-LeavesFirst buff all (r.rx_idx + length received) r.actor
        (process on fail (suc (r.rx_idx + length received)) buff (r.rx_idx + length received)
          r.actor 0)
        size front
        (subst (λ k. Ended on fail all r.actor 0 (process on fail (suc k) buff k r.actor 0))
          (sym size)
          (process-Ended on fail all (suc (length all)) buff r.actor 0 front (omega arith)
            (omega arith)))
