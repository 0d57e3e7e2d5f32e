-- ===== src/Tests/Exchanging.antt =====
-- Runs of proto/bep_support.cpp, with lists of flags as the messages and without any packing.
use syncspirit.Prelude.{
  ℕ, ◌%◌, ◌≡◌, refl, ap, Bool, true, false, if◌then◌else◌, ◌==◌, List, [], ◌∷◌, ◌++◌, Option, none,
  some, replicate, arith,
}
use syncspirit.Bep.{
  Codec, AreBytes, IsLawful, incomplete, beyond, write16_be, frame, make_hello_message, parse_bep,
}
use syncspirit.Bep.Framing.{parse_bep-beyond, parse_bep-incomplete}
use syncspirit.Bep.Hello.{parse_bep-make_hello_message}

-- The header has the type and the compression, each behind the tag of its field.
abbrev decode_header : List ℕ → Option (ℕ × ℕ)
decode_header (a ∷ type ∷ b ∷ compression ∷ []) = some (type, compression)
decode_header _ = none

-- A flag is a byte.
abbrev encode_flags : List Bool → List ℕ
encode_flags [] = []
encode_flags (f ∷ fs) = (if f then 1 else 0) ∷ encode_flags fs

abbrev decode_flags : List ℕ → List Bool
decode_flags [] = []
decode_flags (b ∷ bs) = (b == 1) ∷ decode_flags bs

abbrev codec : Codec (List Bool)
codec = record {
  type_of = λ m. 1;
  encode = encode_flags;
  decode = λ type bytes. some (decode_flags bytes);
  encode_header = λ type compression. 8 ∷ type % 256 ∷ 16 ∷ compression % 256 ∷ [];
  decode_header = decode_header;
  encode_hello = λ device_name. device_name;
  decode_hello = λ bytes. some bytes;
  compress = λ bytes. bytes;
  decompress = λ block size. some block;
}

decode_flags-encode_flags : (fs : List Bool) → decode_flags (encode_flags fs) ≡ fs
decode_flags-encode_flags [] = refl
decode_flags-encode_flags (true ∷ fs) = ap (λ l. true ∷ l) (decode_flags-encode_flags fs)
decode_flags-encode_flags (false ∷ fs) = ap (λ l. false ∷ l) (decode_flags-encode_flags fs)

encode_flags-AreBytes : (fs : List Bool) → AreBytes (encode_flags fs)
encode_flags-AreBytes [] = tt
encode_flags-AreBytes (true ∷ fs) = (omega arith, encode_flags-AreBytes fs)
encode_flags-AreBytes (false ∷ fs) = (omega arith, encode_flags-AreBytes fs)

codec-IsLawful : IsLawful codec
codec-IsLawful = record {
  message_law = λ m. ap some (decode_flags-encode_flags m);
  message_bytes = encode_flags-AreBytes;
  type_law = λ m. omega arith;
  header_law = λ type compression t z.
      let e : type % 256 ≡ type = omega (arith, t) in
      let d : compression % 256 ≡ compression = omega (arith, z) in rw (e, d) refl;
  header_size = λ type compression t z. omega arith;
  hello_law = λ device_name bytes. refl;
  block_law = λ bytes all fits. refl;
  block_size = λ bytes all fits. omega arith;
}

-- A message that is long enough for the compression.
abbrev long_message : List Bool
long_message = replicate 130 true

parse_bep-beyond_example : parse_bep codec (write16_be 4 ++ (8 ∷ 1 ∷ 16 ∷ 0 ∷ 0 ∷ 0 ∷ [])) ≡ beyond
parse_bep-beyond_example =
    parse_bep-beyond codec codec-IsLawful 1 0 (0 ∷ 0 ∷ []) (omega arith) (omega arith) (omega arith)
      (omega arith)

parse_bep-incomplete_example :
    parse_bep codec (frame codec (8 ∷ 1 ∷ 16 ∷ 0 ∷ []) 3 (5 ∷ 6 ∷ [])) ≡ incomplete
parse_bep-incomplete_example =
    parse_bep-incomplete codec codec-IsLawful 1 0 3 (5 ∷ 6 ∷ []) (omega arith) (omega arith)
      (omega arith) (omega arith)

abbrev name : List ℕ
name = b'm' ∷ b'e' ∷ []

parse_bep-make_hello_message_example :
    parse_bep codec (make_hello_message codec name ++ (0 ∷ [])) ≡ incomplete
parse_bep-make_hello_message_example =
    parse_bep-make_hello_message codec codec-IsLawful name (0 ∷ []) (omega arith, (omega arith, tt))
      (omega arith)
