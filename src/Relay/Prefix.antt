-- ===== src/Relay/Prefix.antt =====
-- proto/relay_support.cpp: messages that have not arrived in full, and the sizes that `parse` gives.
use syncspirit.Prelude.{
  ℕ, zero, suc, ◌+◌, ◌-◌, ◌<◌, ◌≤◌, ◌≡◌, refl, ap, sym, subst, ◌∙◌, Bool, true, false, List, [],
  ◌∷◌, ◌++◌, Option, none, some, arith, if◌then◌else◌, ltb, length, take, drop, dec_lt, length-take,
  length-drop,
}
use syncspirit.Relay.{
  Message, ParseResult, incomplete, protocol_error, wrapped, header_sz, payload, payload_sz,
  type_of, serialize_header, serialize, invitation, parse_session_invitation, parse_payload, parse,
}
use syncspirit.Relay.Words.{append_nil, parse-serialize_header}
use syncspirit.Relay.Framing.{pad, written_append, type_of_le, length-header}

parse_short : (bytes : List ℕ) → length bytes < 12 → parse bytes ≡ incomplete
unfolding parse
parse_short bytes l =
    let short : ltb (length bytes) header_sz ≡ true = ground (arith, l) in rw short refl

take-append :
    {A : Type 0} (n : ℕ) (xs ys : List A)
    → length xs ≤ n
    → take n (xs ++ ys) ≡ xs ++ take (n - length xs) ys
take-append n [] ys l = ap (λ k. take k ys) (omega arith)
take-append zero (x ∷ xs) ys l = absurd (omega (arith, l))
take-append (suc n) (x ∷ xs) ys l =
    ap (λ zs. x ∷ zs)
      (take-append n xs ys (omega (arith, l)) ∙ ap (λ k. xs ++ take k ys) (omega arith))

parse_partial :
    (type sz n : ℕ) (tail : List ℕ)
    → type ≤ 6
    → sz ≤ 1400
    → 12 ≤ n
    → n < 12 + sz
    → parse (take n (serialize_header type sz ++ tail)) ≡ incomplete
parse_partial type sz n tail t l a b =
    let h = serialize_header type sz in
    let rest = take (n - length h) tail in
    let short : ltb (length rest) sz ≡ true =
      ground (arith, length-take (n - length h) tail, length-header type sz, b) in
    ap parse (take-append n h tail (omega (arith, a, length-header type sz)))
    ∙ parse-serialize_header type sz rest t l
    ∙ ap (λ b. if b then incomplete else parse_payload type rest) short

-- Each strict prefix of a written message is incomplete, so the reader waits for the rest. The
-- payload has at most 1400 bytes.
pub parse-take :
    (msg : Message) (out : List ℕ) (n : ℕ)
    → payload_sz msg ≤ 1400
    → n < (serialize msg out).1
    → parse (take n (serialize msg out).0) ≡ incomplete
unfolding serialize
parse-take msg out n l b = elim (dec_lt n 12) [
  | yes early ↦
      parse_short (take n (serialize msg out).0)
        (omega (arith, length-take n (serialize msg out).0, early))
  | no later ↦
      ap (λ zs. parse (take n zs))
        (sym (append_nil (serialize msg out).0) ∙ written_append msg out [])
      ∙ parse_partial (type_of msg) (payload_sz msg) n (payload msg ++ (pad msg out ++ []))
          (type_of_le msg) l (omega (arith, later)) b
]

-- The size of a message that is found in so many bytes.
unfoldable pub SizeIn : ℕ → ParseResult → Type 0
SizeIn n incomplete = Unit
SizeIn n protocol_error = Unit
SizeIn n (wrapped size message) = (12 ≤ size) × (size ≤ n)

if-SizeIn :
    (n : ℕ) (b : Bool) (x y : ParseResult)
    → SizeIn n x
    → (b ≡ false → SizeIn n y)
    → SizeIn n (if b then x else y)
if-SizeIn n true x y h k = h
if-SizeIn n false x y h k = k refl

found-SizeIn :
    (k : ℕ) (o : Option Message)
    → SizeIn (12 + k) (elim o [ none ↦ protocol_error | some message ↦ wrapped (12 + k) message ])
unfolding SizeIn
found-SizeIn k none = tt
found-SizeIn k (some message) = (omega arith, omega arith)

size_header : (n : ℕ) (message : Message) → SizeIn (12 + n) (wrapped 12 message)
unfolding SizeIn
size_header n message = (omega arith, omega arith)

size_all : (n : ℕ) (message : Message) → SizeIn (12 + n) (wrapped (12 + n) message)
unfolding SizeIn
size_all n message = (omega arith, omega arith)

size_refused : (n : ℕ) → SizeIn n protocol_error
unfolding SizeIn
size_refused n = tt

size_awaited : (n : ℕ) → SizeIn n incomplete
unfolding SizeIn
size_awaited n = tt

session-SizeIn : (tail : List ℕ) → SizeIn (12 + length tail) (parse_session_invitation tail)
unfolding parse_session_invitation
session-SizeIn tail = found-SizeIn (length tail) (invitation tail)

parse_payload-SizeIn :
    (type : ℕ) (tail : List ℕ) → SizeIn (12 + length tail) (parse_payload type tail)
unfolding parse_payload
parse_payload-SizeIn type tail =
    search (if-SizeIn, size_header, size_all, size_refused, session-SizeIn) depth 12

behind_header-SizeIn :
    (type : ℕ) (bytes : List ℕ)
    → ltb (length bytes) 12 ≡ false
    → SizeIn (length bytes) (parse_payload type (drop 12 bytes))
behind_header-SizeIn type bytes long =
    let whole : 12 + length (drop 12 bytes) ≡ length bytes =
      ground (arith, long, length-drop 12 bytes) in
    subst (λ k. SizeIn k (parse_payload type (drop 12 bytes))) whole
      (parse_payload-SizeIn type (drop 12 bytes))

-- A message that `parse` finds has at least the 12 bytes of the header and at most all bytes given.
pub parse-SizeIn : (bytes : List ℕ) → SizeIn (length bytes) (parse bytes)
unfolding parse
parse-SizeIn bytes = search (if-SizeIn, size_refused, size_awaited, behind_header-SizeIn) depth 12
