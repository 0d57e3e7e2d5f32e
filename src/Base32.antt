-- ===== src/Base32.antt =====
-- utils/base32.cpp: encode and decode. A window that the code shifts to the right by constants or by
-- numbers of bits is divided here; bits that it or-s into free places are added. Counts of bits that
-- the code lets fall below 0 once the bytes have ended stop at 0, and are only compared with 0 then.
pub mod Windows
pub mod Reading
pub mod RoundTrip
use syncspirit.Prelude.{
  ℕ, zero, suc, ◌+◌, ◌-◌, ◌*◌, ◌/◌, ◌%◌, ◌^◌, Bool, true, false, not, ◌&&◌, ◌||◌, List, [], ◌∷◌,
  ◌++◌, Option, none, some, if◌then◌else◌, leb, ◌==◌, length, replicate,
}
use syncspirit.Luhn32.{in_alphabet, out_alphabet}

abbrev pub encoded_size : ℕ → ℕ
encoded_size dec_len = (dec_len + 4) / 5 * 8

abbrev pub decoded_size : ℕ → ℕ
decoded_size dec_len = dec_len * 5 / 8

-- The bytes that are left, the window `in` of 16 bits, and the counts of its bits.
pub record Encoder : Type 0 where
  pub input : List ℕ
  pub window : ℕ
  pub in_bits : ℕ
  pub sign_bits : ℕ

unfoldable pub pull_in : Encoder → Encoder
pull_in s = elim s.input [
  | [] ↦ record s { sign_bits = s.sign_bits + 8 }
  | in_byte ∷ input ↦ record {
    input = input;
    window = s.window + in_byte * 2 ^ (16 - (s.in_bits + 8));
    in_bits = s.in_bits + 8;
    sign_bits = s.sign_bits + 8;
  }
]

abbrev pub has_bytes : List ℕ → Bool
has_bytes [] = false
has_bytes (b ∷ bs) = true

-- The five bits at the top of the window.
abbrev pub index_of : Encoder → ℕ
index_of s = s.window / 2 ^ (16 - 5) % 32

-- The body of the loop, but for the character.
unfoldable pub encode_step : Encoder → Encoder
unfolding pull_in
encode_step s =
    let t = record s {
      window = s.window * 32 % 65536 / 2 * 2;
      in_bits = s.in_bits - 5;
      sign_bits = s.sign_bits - 5;
    } in
    if leb t.sign_bits 8 && has_bytes t.input then pull_in t else t

-- The loop, with the room that is left in the text: a character behind it is `none`.
unfoldable pub encode_loop : ℕ → Encoder → Option (List ℕ)
unfolding encode_step in_alphabet
encode_loop zero s = if has_bytes s.input || not (s.in_bits == 0) then none else some []
encode_loop (suc room) s =
    let rest = encode_loop room (encode_step s) in
    if has_bytes s.input || not (s.in_bits == 0)
    then elim rest [ none ↦ none | some encoded ↦ some (in_alphabet (index_of s) ∷ encoded) ]
    else some []

unfoldable pub encode : List ℕ → Option (List ℕ)
unfolding encode_loop
encode input =
    encode_loop (encoded_size (length input))
      (pull_in (pull_in (record { input = input; window = 0; in_bits = 0; sign_bits = 0 })))

-- A byte that `push_out` writes.
abbrev pub put_byte : ℕ → Option (List ℕ) → Option (List ℕ)
put_byte value none = none
put_byte value (some decoded) = some (value ∷ decoded)

-- The loop, with the bits `out` that are not written yet, and `push_out` in it.
unfoldable pub decode_loop : ℕ → ℕ → List ℕ → Option (List ℕ)
unfolding out_alphabet
decode_loop out out_bits [] = some []
decode_loop out out_bits (c ∷ cs) = elim (out_alphabet c) [
  | none ↦ none
  | some quartet ↦
      let joined = out * 32 + quartet in
      let written = decode_loop (joined % 2 ^ (out_bits + 5 - 8)) (out_bits + 5 - 8) cs in
      let kept = decode_loop joined (out_bits + 5) cs in
      if leb 8 (out_bits + 5)
      then put_byte (joined / 2 ^ (out_bits + 5 - 8) % 256) written
      else kept
]

-- The result, which is as long as was reserved for it; a byte behind that is `none`.
abbrev pub fill : ℕ → List ℕ → Option (List ℕ)
fill size bytes =
    if leb (length bytes) size then some (bytes ++ replicate (size - length bytes) 0) else none

-- An error is `none`, and so is the empty text, of which the code reads a character all the same, and
-- a character from 128 on, which is looked up outside of the table where characters are signed.
unfoldable pub decode : List ℕ → Option (List ℕ)
unfolding decode_loop
decode [] = none
decode (c ∷ cs) = elim (decode_loop 0 0 (c ∷ cs)) [
  | none ↦ none
  | some bytes ↦ fill (decoded_size (length (c ∷ cs))) bytes
]
