-- ===== src/Base32/RoundTrip.antt =====
-- utils/base32.cpp: the text of bytes is read back as the bytes.
use syncspirit.Prelude.{
  ℕ, zero, suc, ◌+◌, ◌-◌, ◌*◌, ◌/◌, ◌%◌, ◌^◌, ◌≤◌, ◌<◌, ◌≡◌, ◌⊎◌, sym, ◌∙◌, subst, true, List, [],
  ◌∷◌, Option, none, some, length, arith, dec_lt, inl, inr,
}
use syncspirit.Prelude.Find.{All}
use syncspirit.Luhn32.{in_alphabet}
use syncspirit.Base32.{
  encoded_size, decoded_size, pull_in, index_of, encode_step, encode_loop, encode, decode,
}
use syncspirit.Base32.Windows.{
  pair_state, last_state, up_to_5, encode_step-pair, encode_step-next, encode_step-ends,
  encode_step-without, encode_step-last,
}
use syncspirit.Base32.Reading.{
  joined-pair, written-pair, joined-last, written-last, Reads, busy, Reads-keep, Reads-put,
  encode_loop-busy, encode_loop-done, decode_loop-end, IsLong, decode_loop-IsLong, fill-length,
}

-- A character completes a byte if three bits at least are there.
few-or-many : (k : ℕ) → k < 8 → (k < 3) ⊎ ((j : ℕ) × ((j < 5) × (k ≡ j + 3)))
few-or-many k h = elim (dec_lt k 3) [
  | yes few ↦ inl few
  | no many ↦ inr (k - 3, (omega arith, omega arith))
]

done-Reads :
    (room window sign_bits k out j : ℕ)
    → k < 5
    → Reads
        (encode_loop room (record {
          input = [];
          window = window;
          in_bits = 8 - (k + 3) - 5;
          sign_bits = sign_bits;
        }))
        out
        j
        []
done-Reads room window sign_bits k out j h =
    let e : 8 - (k + 3) - 5 ≡ 0 = omega arith in
    rw (e, encode_loop-done room window sign_bits) (decode_loop-end out j)

last-Reads-put :
    (room b sign_bits k : ℕ)
    → b < 256
    → k < 5
    → Reads
        (encode_loop (suc room) (last_state (k + 3) b sign_bits))
        (b / 2 ^ (8 - (k + 3)))
        (k + 3)
        (b ∷ [])
last-Reads-put room b sign_bits k h small =
    let s = last_state (k + 3) b sign_bits in
    let out = b / 2 ^ (8 - (k + 3)) in
    let left : busy s ≡ true = ground arith in
    let rest : Reads (encode_loop room (encode_step s))
        ((out * 32 + index_of s) % 2 ^ (k + 3 + 5 - 8)) k [] =
      rw (encode_step-without (b % 2 ^ (8 - (k + 3)) * 2 ^ (8 + (k + 3))) (8 - (k + 3)) sign_bits)
        (done-Reads room _ (sign_bits - 5) k _ k small) in
    rw (encode_loop-busy room s left) (
      subst
        (λ c.
          Reads
            (elim (encode_loop room (encode_step s)) [
              | none ↦ none
              | some encoded ↦ some (in_alphabet (index_of s) ∷ encoded)
            ])
            out (k + 3) (c ∷ []))
        (written-last b h k small)
        (Reads-put (encode_loop room (encode_step s)) out k (index_of s) [] (omega arith) rest))

-- From the state on, with `k` bits given out of which the decoder has the value.
last-Reads :
    (room b sign_bits k : ℕ)
    → b < 256
    → k < 8
    → 8 - k ≤ room * 5
    → Reads (encode_loop room (last_state k b sign_bits)) (b / 2 ^ (8 - k)) k (b ∷ [])
last-Reads zero b sign_bits k h small enough = absurd omega arith
last-Reads (suc room) b sign_bits k h small enough = elim (few-or-many k small) [
  | inl few ↦
      let busy_e : busy (last_state k b sign_bits) ≡ true = ground arith in
      let rest : Reads (encode_loop room (encode_step (last_state k b sign_bits)))
          (b / 2 ^ (8 - k) * 32 + index_of (last_state k b 0)) (k + 5) (b ∷ []) =
        rw (encode_step-last b sign_bits k few, joined-last b h k few)
          (last-Reads room b (sign_bits - 5) (k + 5) h (omega arith) (omega arith)) in
      rw (encode_loop-busy room (last_state k b sign_bits) busy_e) (
        Reads-keep (encode_loop room (encode_step (last_state k b sign_bits))) (b / 2 ^ (8 - k)) k
          (index_of (last_state k b 0)) (b ∷ []) (omega arith) few rest)
  | inr (j, (few, e)) ↦
      subst
        (λ n.
          Reads (encode_loop (suc room) (last_state n b sign_bits)) (b / 2 ^ (8 - n)) n (b ∷ []))
        (sym e) (last-Reads-put room b sign_bits j h few)
]

-- Bytes.
abbrev pub IsByte : ℕ → Type 0
IsByte b = b < 256

pair-Reads-put :
    (room t k : ℕ) (input rest : List ℕ)
    → t < 65536
    → k < 5
    → Reads
        (encode_loop room (encode_step (pair_state (k + 3) t input)))
        (t % 256 / 2 ^ (8 - k))
        k
        rest
    → Reads
        (encode_loop (suc room) (pair_state (k + 3) t input))
        (t / 2 ^ (16 - (k + 3)))
        (k + 3)
        (t / 256 ∷ rest)
pair-Reads-put room t k input rest h small r =
    let s = pair_state (k + 3) t input in
    let w = written-pair t h k small in
    let out = t / 2 ^ (16 - (k + 3)) in
    let left : busy s ≡ true = ground arith in
    rw (encode_loop-busy room s left) (
      subst
        (λ c.
          Reads
            (elim (encode_loop room (encode_step s)) [
              | none ↦ none
              | some encoded ↦ some (in_alphabet (index_of s) ∷ encoded)
            ])
            out (k + 3) (c ∷ rest))
        w.0
        (Reads-put (encode_loop room (encode_step s)) out k (index_of s) rest (omega arith)
          (subst (λ o. Reads (encode_loop room (encode_step s)) o k rest) (sym w.1) r)))

-- What is to be shown of a state with two bytes, for the room that is left.
abbrev PairReads : ℕ → Type 0
PairReads room =
    (t k : ℕ) (input : List ℕ)
    → t < 65536
    → k < 8
    → All IsByte input
    → 16 - k + length input * 8 ≤ room * 5
    → Reads (encode_loop room (pair_state k t input)) (t / 2 ^ (16 - k)) k
        (t / 256 ∷ t % 256 ∷ input)

pulled-high :
    (b c : ℕ) → b < 256 → c < 256 → (j : ℕ) → j < 5 → (b * 256 + c) / 2 ^ (16 - j) ≡ b / 2 ^ (8 - j)
pulled-high b c h k =
    up_to_5 (λ j. (b * 256 + c) / 2 ^ (16 - j) ≡ b / 2 ^ (8 - j)) (omega arith) (omega arith)
      (omega arith) (omega arith) (omega arith)

pair-Reads-next :
    (room : ℕ)
    → PairReads room
    → (t j : ℕ) (input : List ℕ) → t < 65536
    → j < 5
    → All IsByte input
    → 16 - (j + 3) + length input * 8 ≤ suc room * 5
    → Reads
        (encode_loop room (encode_step (pair_state (j + 3) t input)))
        (t % 256 / 2 ^ (8 - j))
        j
        (t % 256 ∷ input)
pair-Reads-next room ih t j [] h few bytes enough =
    rw (encode_step-ends t j few)
      (last-Reads room (t % 256) (8 - j) j (omega arith) (omega arith) (omega arith))
pair-Reads-next room ih t j (c ∷ cs) h few bytes enough =
    let u = t % 256 * 256 + c in
    let high : u / 256 ≡ t % 256 = omega arith in
    let low : u % 256 ≡ c = omega arith in
    let out : u / 2 ^ (16 - j) ≡ t % 256 / 2 ^ (8 - j) =
      pulled-high (t % 256) c (omega arith) bytes.0 j few in
    let r : Reads (encode_loop room (pair_state j u cs)) (u / 2 ^ (16 - j)) j
        (u / 256 ∷ u % 256 ∷ cs) =
      ih u j cs (omega arith) (omega arith) bytes.1 (omega arith) in
    rw (encode_step-next t c cs bytes.0 j few) (
      subst (λ o. Reads (encode_loop room (pair_state j u cs)) o j (t % 256 ∷ c ∷ cs)) out
        (subst (λ a. Reads (encode_loop room (pair_state j u cs)) (u / 2 ^ (16 - j)) j (a ∷ c ∷ cs))
          high
          (subst
            (λ a.
              Reads (encode_loop room (pair_state j u cs)) (u / 2 ^ (16 - j)) j (u / 256 ∷ a ∷ cs))
            low r)))

pair-Reads : (room : ℕ) → PairReads room
pair-Reads zero t k input h small bytes enough = absurd omega arith
pair-Reads (suc room) t k input h small bytes enough = elim (few-or-many k small) [
  | inl few ↦
      let s = pair_state k t input in
      let left : busy s ≡ true = ground arith in
      let rest : Reads (encode_loop room (encode_step s)) (t / 2 ^ (16 - k) * 32 + index_of s)
          (k + 5) (t / 256 ∷ t % 256 ∷ input) =
        rw (encode_step-pair t input k few, joined-pair t h k few)
          (pair-Reads room t (k + 5) input h (omega arith) bytes (omega arith)) in
      rw (encode_loop-busy room s left) (
        Reads-keep (encode_loop room (encode_step s)) (t / 2 ^ (16 - k)) k (index_of s)
          (t / 256 ∷ t % 256 ∷ input) (omega arith) few rest)
  | inr (j, (few, e)) ↦
      subst
        (λ n.
          Reads (encode_loop (suc room) (pair_state n t input)) (t / 2 ^ (16 - n)) n
            (t / 256 ∷ t % 256 ∷ input))
        (sym e)
        (pair-Reads-put room t j input (t % 256 ∷ input) h few
          (pair-Reads-next room (pair-Reads room) t j input h few bytes (omega arith)))
]

encode-Reads : (b : ℕ) (bs : List ℕ) → All IsByte (b ∷ bs) → Reads (encode (b ∷ bs)) 0 0 (b ∷ bs)
unfolding encode pull_in
encode-Reads b [] (small, all) =
    let window : 0 + b * 256 ≡ b % 256 * 256 = omega arith in
    let out : b / 256 ≡ 0 = omega arith in
    rw window (
      subst (λ o. Reads (encode_loop 8 (last_state 0 b 16)) o 0 (b ∷ [])) out
        (last-Reads 8 b 16 0 small (omega arith) (omega arith)))
encode-Reads b (c ∷ cs) (small, (next, all)) =
    let t = b * 256 + c in
    let room = encoded_size (length (b ∷ c ∷ cs)) in
    let window : 0 + b * 256 + c * 1 ≡ t % 65536 * 1 = omega arith in
    let out : t / 65536 ≡ 0 = omega arith in
    let high : t / 256 ≡ b = omega arith in
    let low : t % 256 ≡ c = omega arith in
    let r : Reads (encode_loop room (pair_state 0 t cs)) (t / 65536) 0 (t / 256 ∷ t % 256 ∷ cs) =
      pair-Reads room t 0 cs (omega arith) (omega arith) all (omega arith) in
    rw window (
      subst (λ o. Reads (encode_loop room (pair_state 0 t cs)) o 0 (b ∷ c ∷ cs)) out
        (subst (λ a. Reads (encode_loop room (pair_state 0 t cs)) (t / 65536) 0 (a ∷ c ∷ cs)) high
          (subst
            (λ a. Reads (encode_loop room (pair_state 0 t cs)) (t / 65536) 0 (t / 256 ∷ a ∷ cs)) low
            r)))

-- The text that the bytes are encoded to is decoded to them.
abbrev pub IsDecoded : List ℕ → Option (List ℕ) → Type 0
IsDecoded bytes none = ⊥
IsDecoded bytes (some text) = decode text ≡ some bytes

Reads-IsDecoded :
    (o : Option (List ℕ)) (b : ℕ) (bs : List ℕ) → Reads o 0 0 (b ∷ bs) → IsDecoded (b ∷ bs) o
unfolding decode
Reads-IsDecoded none b bs r = r
Reads-IsDecoded (some []) b bs r =
    let e : some [] ≡ some (b ∷ bs) = sym (decode_loop-end 0 0) ∙ r in absurd cc
Reads-IsDecoded (some (c ∷ cs)) b bs r =
    let long : length (b ∷ bs) ≡ (0 + length (c ∷ cs) * 5) / 8 =
      subst (IsLong ((0 + length (c ∷ cs) * 5) / 8)) r
        (decode_loop-IsLong 0 0 (c ∷ cs) (omega arith)) in
    rw (decode, r) (fill-length (decoded_size (length (c ∷ cs))) (b ∷ bs) (omega (arith, long)))

-- The encoder never writes behind the room that it reserves, and the text that it makes of bytes, of
-- one at least, is decoded to the same bytes.
pub encode-IsDecoded :
    (b : ℕ) (bs : List ℕ) → All IsByte (b ∷ bs) → IsDecoded (b ∷ bs) (encode (b ∷ bs))
encode-IsDecoded b bs all = Reads-IsDecoded (encode (b ∷ bs)) b bs (encode-Reads b bs all)
