-- ===== src/Relay/Words.antt =====
-- proto/relay_support.cpp: words and sized bytes are read as they were written.
use syncspirit.Prelude.{
  ℕ, ◌+◌, ◌*◌, ◌/◌, ◌%◌, ◌^◌, ◌<◌, ◌≤◌, ◌≡◌, refl, ap, ◌∙◌, false, not, List, [], ◌∷◌, ◌++◌, Option,
  none, some, arith, if◌then◌else◌, ltb, ◌==◌, length, take, drop, length-append,
}
use syncspirit.Relay.{
  read32_be, write32_be, take_word, take_sized, sized, serialize_header, magic, header_sz,
  max_packet_sz, parse, parse_payload, ParseResult, incomplete, protocol_error,
}

pub read32_be-write32_be :
    (v : ℕ) (rest : List ℕ) → v < 2 ^ 32 → read32_be (write32_be v ++ rest) ≡ v
unfolding read32_be write32_be
read32_be-write32_be v rest l = omega (arith, l)

module _ {ℓ} {A : Type ℓ} where
  pub take-length-append : (xs ys : List A) → take (length xs) (xs ++ ys) ≡ xs
  take-length-append [] ys = refl
  take-length-append (x ∷ xs) ys = ap (λ zs. x ∷ zs) (take-length-append xs ys)

  pub drop-length-append : (xs ys : List A) → drop (length xs) (xs ++ ys) ≡ ys
  drop-length-append [] ys = refl
  drop-length-append (x ∷ xs) ys = drop-length-append xs ys

  pub append_assoc : (xs ys zs : List A) → (xs ++ ys) ++ zs ≡ xs ++ (ys ++ zs)
  append_assoc [] ys zs = refl
  append_assoc (x ∷ xs) ys zs = ap (λ ws. x ∷ ws) (append_assoc xs ys zs)

  pub append_nil : (xs : List A) → xs ++ [] ≡ xs
  append_nil [] = refl
  append_nil (x ∷ xs) = ap (λ ws. x ∷ ws) (append_nil xs)

pub length-word : (v : ℕ) (rest : List ℕ) → length (write32_be v ++ rest) ≡ 4 + length rest
unfolding write32_be
length-word v rest = omega arith

pub drop-word : (v : ℕ) (rest : List ℕ) → drop 4 (write32_be v ++ rest) ≡ rest
unfolding write32_be
drop-word v rest = refl

pub take_word-write32_be :
    (v : ℕ) (rest : List ℕ) → v < 2 ^ 32 → take_word (write32_be v ++ rest) ≡ some (v, rest)
unfolding take_word
take_word-write32_be v rest l =
    let long : ltb (length (write32_be v ++ rest)) 4 ≡ false = ground (arith, length-word v rest) in
    rw (long, read32_be-write32_be v rest l, drop-word v rest) refl

pub take_sized_lem :
    (xs rest : List ℕ) → length xs < 2 ^ 32 → take_sized (sized xs rest) ≡ some (xs, rest)
unfolding take_sized write32_be
take_sized_lem xs rest l =
    let long : ltb (length (xs ++ rest)) (length xs) ≡ false =
      ground (arith, length-append xs rest) in
    let after : Option (ℕ × List ℕ) → Option (List ℕ × List ℕ) = λ o. elim o [
      | none ↦ none
      | some (sz, tail) ↦ if ltb (length tail) sz then none else some (take sz tail, drop sz tail)
    ] in
    ap after (take_word-write32_be (length xs) (xs ++ rest) l)
    ∙ rw (long, take-length-append xs rest, drop-length-append xs rest) refl

word_value :
    (v : ℕ)
    → v < 2 ^ 32
    → ((v / 2 ^ 24 % 256 * 256 + v / 2 ^ 16 % 256) * 256 + v / 2 ^ 8 % 256) * 256 + v % 256 ≡ v
word_value v l = omega (arith, l)

-- `parse` by what it reads: the length, the words of the header and what follows it.
unfoldable pub staged : ℕ → ℕ → ℕ → ℕ → List ℕ → ParseResult
staged n mark type sz tail =
    if ltb n header_sz
    then incomplete
    else if not (mark == magic)
    then protocol_error
    else if ltb 6 type
    then protocol_error
    else if ltb max_packet_sz sz
    then protocol_error
    else if ltb n (header_sz + sz)
    then incomplete
    else parse_payload type tail

staged_lem :
    (n type sz : ℕ) (tail : List ℕ)
    → n ≡ 12 + length tail
    → type ≤ 6
    → sz ≤ 1400
    → staged n magic type sz tail
      ≡ (if ltb (length tail) sz then incomplete else parse_payload type tail)
unfolding staged
staged_lem n type sz tail e t l =
    let long : ltb n 12 ≡ false = ground (arith, e) in
    let known : ltb 6 type ≡ false = ground (arith, t) in
    let small : ltb 1400 sz ≡ false = ground (arith, l) in
    let bound : ltb n (12 + sz) ≡ ltb (length tail) sz = ground (arith, e) in
    rw (long, known, small, bound) refl

-- A header that is complete, and what follows it.
pub parse-serialize_header :
    (type sz : ℕ) (tail : List ℕ)
    → type ≤ 6
    → sz ≤ 1400
    → parse (serialize_header type sz ++ tail)
      ≡ (if ltb (length tail) sz then incomplete else parse_payload type tail)
unfolding parse staged serialize_header write32_be read32_be
parse-serialize_header type sz tail t l =
    let h = serialize_header type sz ++ tail in
    let type_word : read32_be (drop 4 h) ≡ type = word_value type (omega (arith, t)) in
    let sz_word : read32_be (drop 8 h) ≡ sz = word_value sz (omega (arith, l)) in
    ap (λ n. staged (length h) magic n (read32_be (drop 8 h)) tail) type_word
    ∙ ap (λ n. staged (length h) magic type n tail) sz_word
    ∙ staged_lem (length h) type sz tail (omega arith) t l
