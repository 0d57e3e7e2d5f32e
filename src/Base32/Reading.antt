-- ===== src/Base32/Reading.antt =====
-- utils/base32.cpp: how the decoder reads what the encoder writes, one character at a time.
use syncspirit.Prelude.{
  ℕ, zero, suc, ◌+◌, ◌-◌, ◌*◌, ◌/◌, ◌%◌, ◌^◌, ◌≤◌, ◌<◌, ◌≡◌, refl, sym, ap, subst, Bool, true,
  false, not, ◌||◌, List, [], ◌∷◌, ◌++◌, Option, none, some, leb, ◌==◌, length, arith, Bool-cases,
  Option-cases, inl, inr,
}
use syncspirit.Luhn32.{in_alphabet, out_alphabet}
use syncspirit.Base32.{
  Encoder, has_bytes, index_of, encode_step, encode_loop, put_byte, decode_loop, fill,
}
use syncspirit.Base32.Windows.{pair_state, last_state, up_to_3, up_to_5}

in_alphabet-inverse : (v : ℕ) → v < 32 → out_alphabet (in_alphabet v) ≡ some v
unfolding in_alphabet out_alphabet
in_alphabet-inverse v h = ground arith

-- What the decoder has joined after a character, and what it writes.
pub joined-pair :
    (t : ℕ)
    → t < 65536
    → (k : ℕ) → k < 3
    → t / 2 ^ (16 - k) * 32 + index_of (pair_state k t []) ≡ t / 2 ^ (16 - (k + 5))
joined-pair t h =
    up_to_3 (λ k. t / 2 ^ (16 - k) * 32 + index_of (pair_state k t []) ≡ t / 2 ^ (16 - (k + 5)))
      (omega arith) (omega arith) (omega arith)

abbrev pub joined : ℕ → ℕ → ℕ
joined t k = t / 2 ^ (16 - (k + 3)) * 32 + index_of (pair_state (k + 3) t [])

pub written-pair :
    (t : ℕ)
    → t < 65536
    → (k : ℕ) → k < 5
    → (joined t k / 2 ^ (k + 3 + 5 - 8) % 256 ≡ t / 256)
      × (joined t k % 2 ^ (k + 3 + 5 - 8) ≡ t % 256 / 2 ^ (8 - k))
written-pair t h =
    up_to_5
      (λ k.
        (joined t k / 2 ^ (k + 3 + 5 - 8) % 256 ≡ t / 256)
        × (joined t k % 2 ^ (k + 3 + 5 - 8) ≡ t % 256 / 2 ^ (8 - k)))
      (omega arith, omega arith) (omega arith, omega arith) (omega arith, omega arith)
      (omega arith, omega arith) (omega arith, omega arith)

pub joined-last :
    (b : ℕ)
    → b < 256
    → (k : ℕ) → k < 3
    → b / 2 ^ (8 - k) * 32 + index_of (last_state k b 0) ≡ b / 2 ^ (8 - (k + 5))
joined-last b h =
    up_to_3 (λ k. b / 2 ^ (8 - k) * 32 + index_of (last_state k b 0) ≡ b / 2 ^ (8 - (k + 5)))
      (omega arith) (omega arith) (omega arith)

pub written-last :
    (b : ℕ)
    → b < 256
    → (k : ℕ) → k < 5
    → (b / 2 ^ (8 - (k + 3)) * 32 + index_of (last_state (k + 3) b 0)) / 2 ^ (k + 3 + 5 - 8) % 256
      ≡ b
written-last b h =
    up_to_5
      (λ k.
        (b / 2 ^ (8 - (k + 3)) * 32 + index_of (last_state (k + 3) b 0)) / 2 ^ (k + 3 + 5 - 8) % 256
        ≡ b)
      (omega arith) (omega arith) (omega arith) (omega arith) (omega arith)

-- The text, if there is one, is read as the bytes.
abbrev pub Reads : Option (List ℕ) → ℕ → ℕ → List ℕ → Type 0
Reads none out out_bits bytes = ⊥
Reads (some text) out out_bits bytes = decode_loop out out_bits text ≡ some bytes

abbrev pub busy : Encoder → Bool
busy s = has_bytes s.input || not (s.in_bits == 0)

decode_loop-keep :
    (out k v : ℕ) (cs bytes : List ℕ)
    → v < 32
    → k < 3
    → decode_loop (out * 32 + v) (k + 5) cs ≡ some bytes
    → decode_loop out k (in_alphabet v ∷ cs) ≡ some bytes
unfolding decode_loop
decode_loop-keep out k v cs bytes h small e =
    let few : leb 8 (k + 5) ≡ false = ground arith in
    rw (decode_loop, in_alphabet-inverse v h, few) e

decode_loop-put :
    (out k v : ℕ) (cs bytes : List ℕ)
    → v < 32
    → decode_loop ((out * 32 + v) % 2 ^ (k + 3 + 5 - 8)) (k + 3 + 5 - 8) cs ≡ some bytes
    → decode_loop out (k + 3) (in_alphabet v ∷ cs)
      ≡ some ((out * 32 + v) / 2 ^ (k + 3 + 5 - 8) % 256 ∷ bytes)
unfolding decode_loop
decode_loop-put out k v cs bytes h e =
    let many : leb 8 (k + 3 + 5) ≡ true = ground arith in
    rw (decode_loop, in_alphabet-inverse v h, many, e) refl

pub Reads-keep :
    (o : Option (List ℕ)) (out k v : ℕ) (bytes : List ℕ)
    → v < 32
    → k < 3
    → Reads o (out * 32 + v) (k + 5) bytes
    → Reads (elim o [ none ↦ none | some encoded ↦ some (in_alphabet v ∷ encoded) ]) out k bytes
Reads-keep none out k v bytes h small r = r
Reads-keep (some cs) out k v bytes h small r = decode_loop-keep out k v cs bytes h small r

pub Reads-put :
    (o : Option (List ℕ)) (out k v : ℕ) (bytes : List ℕ)
    → v < 32
    → Reads o ((out * 32 + v) % 2 ^ (k + 3 + 5 - 8)) k bytes
    → Reads
        (elim o [ none ↦ none | some encoded ↦ some (in_alphabet v ∷ encoded) ])
        out
        (k + 3)
        ((out * 32 + v) / 2 ^ (k + 3 + 5 - 8) % 256 ∷ bytes)
Reads-put none out k v bytes h r = r
Reads-put (some cs) out k v bytes h r =
    let e : k + 3 + 5 - 8 ≡ k = omega arith in
    decode_loop-put out k v cs bytes h
      (subst (λ n. decode_loop ((out * 32 + v) % 2 ^ (k + 3 + 5 - 8)) n cs ≡ some bytes) (sym e) r)

-- A run of the loop on a state that has bits left.
pub encode_loop-busy :
    (room : ℕ) (s : Encoder)
    → busy s ≡ true
    → encode_loop (suc room) s ≡ elim (encode_loop room (encode_step s)) [
      | none ↦ none
      | some encoded ↦ some (in_alphabet (index_of s) ∷ encoded)
    ]
unfolding encode_loop
encode_loop-busy room s e = rw (encode_loop, e) refl

pub encode_loop-done :
    (room window sign_bits : ℕ)
    → encode_loop room (record { input = []; window = window; in_bits = 0; sign_bits = sign_bits })
      ≡ some []
unfolding encode_loop
encode_loop-done zero window sign_bits = refl
encode_loop-done (suc room) window sign_bits = refl

pub decode_loop-end : (out j : ℕ) → decode_loop out j [] ≡ some []
unfolding decode_loop
decode_loop-end out j = refl

-- The number of bytes that are written, if the text is read.
abbrev pub IsLong : ℕ → Option (List ℕ) → Type 0
IsLong n none = Unit
IsLong n (some bytes) = length bytes ≡ n

put_byte-IsLong :
    (value n : ℕ) (o : Option (List ℕ)) → IsLong n o → IsLong (suc n) (put_byte value o)
put_byte-IsLong value n none h = tt
put_byte-IsLong value n (some bytes) h = ap suc h

pub decode_loop-IsLong :
    (out k : ℕ) (text : List ℕ)
    → k < 8
    → IsLong ((k + length text * 5) / 8) (decode_loop out k text)
unfolding decode_loop
decode_loop-IsLong out k [] h = omega arith
decode_loop-IsLong out k (c ∷ cs) h = elim (Option-cases (out_alphabet c)) [
  | inl refused ↦ rw (decode_loop, refused) tt
  | inr (q, e) ↦ elim (Bool-cases (leb 8 (k + 5))) [
    | inl many ↦
        let rest =
          decode_loop-IsLong ((out * 32 + q) % 2 ^ (k + 5 - 8)) (k + 5 - 8) cs (omega arith) in
        let grown : 8 ≤ k + 5 = ground arith in
        let sum : suc ((k + 5 - 8 + length cs * 5) / 8) ≡ (k + suc (length cs) * 5) / 8 =
          omega arith in
        rw (decode_loop, e, many)
          (subst
            (λ n. IsLong n (
              put_byte ((out * 32 + q) / 2 ^ (k + 5 - 8) % 256)
                (decode_loop ((out * 32 + q) % 2 ^ (k + 5 - 8)) (k + 5 - 8) cs)))
            sum
            (put_byte-IsLong ((out * 32 + q) / 2 ^ (k + 5 - 8) % 256) _
              (decode_loop ((out * 32 + q) % 2 ^ (k + 5 - 8)) (k + 5 - 8) cs) rest))
    | inr few ↦
        let small : k + 5 < 8 = ground arith in
        let sum : (k + 5 + length cs * 5) / 8 ≡ (k + suc (length cs) * 5) / 8 = omega arith in
        rw (decode_loop, e, few)
          (subst (λ n. IsLong n (decode_loop (out * 32 + q) (k + 5) cs)) sum
            (decode_loop-IsLong (out * 32 + q) (k + 5) cs small))
  ]
]

append-nil : (xs : List ℕ) → xs ++ [] ≡ xs
append-nil [] = refl
append-nil (x ∷ xs) = ap (λ ys. x ∷ ys) (append-nil xs)

pub fill-length : (size : ℕ) (bytes : List ℕ) → length bytes ≡ size → fill size bytes ≡ some bytes
fill-length size bytes e =
    let fits : leb (length bytes) size ≡ true = ground arith in
    let none_left : size - length bytes ≡ 0 = omega arith in
    rw (fits, none_left) (ap some (append-nil bytes))
