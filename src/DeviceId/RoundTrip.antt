-- ===== src/DeviceId/RoundTrip.antt =====
-- model/device_id.cpp: the text of an id is read as the id.
use syncspirit.Prelude.{
  ℕ, zero, suc, ◌-◌, ◌≤◌, ◌≡◌, refl, subst, true, false, not, ◌||◌, List, [], ◌∷◌, Option, none,
  some, if◌then◌else◌, leb, ◌==◌, length, length-append, length-replicate, replicate, drop, arith,
  Bool-cases, Option-cases, inl, inr,
}
use syncspirit.Prelude.Find.{All}
use syncspirit.Luhn32.{in_alphabet}
use syncspirit.Base32.{
  encoded_size, decoded_size, Encoder, pull_in, has_bytes, index_of, encode_step, encode_loop,
  encode, fill, decode_loop, decode,
}
use syncspirit.Base32.RoundTrip.{IsByte, IsDecoded, encode-IsDecoded}
use syncspirit.DeviceId.{
  ◌>>=◌, DeviceId, luhnize, insert_dashes, from_sha256, remove_dashes, from_string,
}
use syncspirit.DeviceId.Pieces.{
  IsLetter, in_alphabet-IsLetter, take-append, IsLuhnized, luhnize-IsLuhnized,
  keep_if-insert_dashes, length-insert_dashes,
}

abbrev AllLetters : Option (List ℕ) → Type 0
AllLetters none = Unit
AllLetters (some text) = All IsLetter text

add_letter :
    (c : ℕ) (o : Option (List ℕ))
    → IsLetter c
    → AllLetters o
    → AllLetters (elim o [ none ↦ none | some encoded ↦ some (c ∷ encoded) ])
add_letter c none h k = tt
add_letter c (some text) h k = (h, k)

encode_loop-AllLetters : (room : ℕ) (s : Encoder) → AllLetters (encode_loop room s)
unfolding encode_loop
encode_loop-AllLetters zero s = elim (Bool-cases (has_bytes s.input || not (s.in_bits == 0))) [
  | inl more ↦ rw (encode_loop, more) tt
  | inr done ↦ rw (encode_loop, done) tt
]
encode_loop-AllLetters (suc room) s =
    elim (Bool-cases (has_bytes s.input || not (s.in_bits == 0))) [
      | inl more ↦
          rw (encode_loop, more)
            (add_letter (in_alphabet (index_of s)) (encode_loop room (encode_step s))
              (in_alphabet-IsLetter (index_of s) (omega arith))
              (encode_loop-AllLetters room (encode_step s)))
      | inr done ↦ rw (encode_loop, done) tt
    ]

encode-AllLetters : (bytes : List ℕ) → AllLetters (encode bytes)
unfolding encode
encode-AllLetters bytes =
    encode_loop-AllLetters (encoded_size (length bytes))
      (pull_in (pull_in (record { input = bytes; window = 0; in_bits = 0; sign_bits = 0 })))

-- A text that is decoded says how many bytes it has.
abbrev IsFull : ℕ → Option (List ℕ) → Type 0
IsFull n none = Unit
IsFull n (some bytes) = length bytes ≡ n

fill-IsFull : (size : ℕ) (bytes : List ℕ) → IsFull size (fill size bytes)
fill-IsFull size bytes = elim (Bool-cases (leb (length bytes) size)) [
  | inl fits ↦
      let l = length-append bytes (replicate (size - length bytes) 0) in
      let r = length-replicate {A = ℕ} (size - length bytes) 0 in
      let m : length bytes ≤ size = ground arith in rw fits (omega (arith, l, r, m))
  | inr long ↦ rw long tt
]

decode-IsFull : (text : List ℕ) → IsFull (decoded_size (length text)) (decode text)
unfolding decode
decode-IsFull [] = tt
decode-IsFull (c ∷ cs) = elim (Option-cases (decode_loop 0 0 (c ∷ cs))) [
  | inl refused ↦ rw (decode, refused) tt
  | inr (bytes, e) ↦ rw (decode, e) (fill-IsFull (decoded_size (length (c ∷ cs))) bytes)
]

-- The id has the digest, and its text is read as the id itself.
abbrev pub IsRestored : List ℕ → Option DeviceId → Type 0
IsRestored sha none = ⊥
IsRestored sha (some id) = (id.hash ≡ sha) × (from_string id.value ≡ some id)

remove_dashes-insert_dashes :
    (luhnized : List ℕ)
    → length luhnized ≡ 56
    → All IsLetter luhnized
    → remove_dashes (insert_dashes 8 luhnized) ≡ luhnized
unfolding remove_dashes
remove_dashes-insert_dashes luhnized long letters =
    rw (keep_if-insert_dashes 8 luhnized (omega (arith, long)) letters)
      (take-append 56 luhnized (drop (length luhnized) (insert_dashes 8 luhnized)) long)

dashed-IsRestored :
    (sha enc : List ℕ) (o : Option (List ℕ))
    → decode enc ≡ some sha
    → IsLuhnized 4 enc o
    → IsRestored sha
        (o >>= λ luhnized. some (record { value = insert_dashes 8 luhnized; hash = sha }))
unfolding from_string
dashed-IsRestored sha enc none d h = h
dashed-IsRestored sha enc (some luhnized) d (long, (letters, (valid, stripped))) =
    let size : (length (insert_dashes 8 luhnized) == 63) ≡ true =
      rw (length-insert_dashes 8 luhnized (omega (arith, long))) refl in
    (
      refl,
      rw
          (
            from_string,
            size,
            remove_dashes-insert_dashes luhnized (omega (arith, long)) letters,
            valid,
            stripped,
            d,
          )
          refl,
    )

encoded-IsRestored :
    (sha : List ℕ) (o : Option (List ℕ))
    → length sha ≡ 32
    → IsDecoded sha o
    → AllLetters o
    → IsRestored sha (
        o >>= λ sha256_enc.
        if length sha256_enc == 52
        then (luhnize 4 sha256_enc >>= λ luhnized.
            some (record { value = insert_dashes 8 luhnized; hash = sha }))
        else none)
encoded-IsRestored sha none long d letters = d
encoded-IsRestored sha (some enc) long d letters =
    let full : length sha ≡ decoded_size (length enc) =
      subst (IsFull (decoded_size (length enc))) d (decode-IsFull enc) in
    let size : length enc ≡ 52 = omega (arith, full, long) in
    let same : (length enc == 52) ≡ true = rw size refl in
    rw same (
      dashed-IsRestored sha enc (luhnize 4 enc) d
        (luhnize-IsLuhnized 4 enc (omega (arith, size)) letters))

-- A digest of 32 bytes has a device id, and the text of the id is read as that same id: the four
-- check characters are right, the dashes are removed, and the base 32 text gives the digest.
pub from_sha256-IsRestored :
    (sha : List ℕ) → length sha ≡ 32 → All IsByte sha → IsRestored sha (from_sha256 sha)
unfolding from_sha256
from_sha256-IsRestored [] long bytes = absurd omega arith
from_sha256-IsRestored (b ∷ bs) long bytes =
    encoded-IsRestored (b ∷ bs) (encode (b ∷ bs)) long (encode-IsDecoded b bs bytes)
      (encode-AllLetters (b ∷ bs))

encoded-IsShort :
    (sha : List ℕ) (o : Option (List ℕ)) (make : List ℕ → Option DeviceId)
    → (length sha == 32) ≡ false
    → IsDecoded sha o
    → (o >>= λ sha256_enc. if length sha256_enc == 52 then make sha256_enc else none) ≡ none
encoded-IsShort sha none make other d = refl
encoded-IsShort sha (some enc) make other d =
    let full : length sha ≡ decoded_size (length enc) =
      subst (IsFull (decoded_size (length enc))) d (decode-IsFull enc) in
    let differs : (length enc == 52) ≡ false = ground arith in rw differs refl

-- Bytes of any other number have none.
pub from_sha256_refused :
    (sha : List ℕ) → (length sha == 32) ≡ false → All IsByte sha → from_sha256 sha ≡ none
unfolding from_sha256 encode
from_sha256_refused [] other bytes = refl
from_sha256_refused (b ∷ bs) other bytes =
    encoded-IsShort (b ∷ bs) (encode (b ∷ bs)) _ other (encode-IsDecoded b bs bytes)
