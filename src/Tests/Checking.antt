-- ===== src/Tests/Checking.antt =====
-- Runs of proto/luhn32.cpp, utils/base32.cpp and model/device_id.cpp.
use syncspirit.Prelude.{ℕ, ◌≡◌, refl, List, [], ◌∷◌, ◌++◌, some, arith}
use syncspirit.Prelude.Find.{All, All-append}
use syncspirit.Base32.{encode, decode}
use syncspirit.Base32.RoundTrip.{IsByte, IsDecoded, encode-IsDecoded}
use syncspirit.DeviceId.{from_sha256}
use syncspirit.DeviceId.RoundTrip.{IsRestored, from_sha256-IsRestored}
use syncspirit.Luhn32.{calculate}
use syncspirit.Luhn32.Errors.{calculate-Agree}

-- The first part of the device id in the tests of the program.
abbrev part : List ℕ
part = b'K' ∷ b'H' ∷ b'Q' ∷ b'N' ∷ b'O' ∷ b'2' ∷ b'S' ∷ b'5' ∷ b'Q' ∷ b'S' ∷ b'I' ∷ b'L' ∷ b'R' ∷ []

part_check : calculate part ≡ some b'K'
unfolding calculate
part_check = refl

abbrev letter : ℕ
letter = b'H'

calculate-Agree_example : letter ≡ b'H'
unfolding calculate
calculate-Agree_example = calculate-Agree (b'K' ∷ []) (b'Q' ∷ b'N' ∷ []) b'H' b'H' refl

encode-IsDecoded_example : IsDecoded (255 ∷ 0 ∷ 9 ∷ []) (encode (255 ∷ 0 ∷ 9 ∷ []))
encode-IsDecoded_example =
    encode-IsDecoded 255 (0 ∷ 9 ∷ []) (omega arith, (omega arith, (omega arith, tt)))

-- The texts of the tests of the program.
encode_foo : encode (b'f' ∷ b'o' ∷ b'o' ∷ []) ≡ some (b'M' ∷ b'Z' ∷ b'X' ∷ b'W' ∷ b'6' ∷ [])
unfolding encode
encode_foo = refl

encode_f : encode (b'f' ∷ []) ≡ some (b'M' ∷ b'Y' ∷ [])
unfolding encode
encode_f = refl

decode_foo : decode (b'M' ∷ b'Z' ∷ b'X' ∷ b'W' ∷ b'6' ∷ []) ≡ some (b'f' ∷ b'o' ∷ b'o' ∷ [])
unfolding decode
decode_foo = refl

abbrev eight : List ℕ
eight = 1 ∷ 35 ∷ 69 ∷ 103 ∷ 137 ∷ 171 ∷ 205 ∷ 239 ∷ []

eight_All : All IsByte eight
eight_All = ground arith

abbrev sha256 : List ℕ
sha256 = eight ++ (eight ++ (eight ++ eight))

from_sha256-IsRestored_example : IsRestored sha256 (from_sha256 sha256)
from_sha256-IsRestored_example = from_sha256-IsRestored sha256 refl (
    All-append IsByte eight (eight ++ (eight ++ eight)) eight_All (
      All-append IsByte eight (eight ++ eight) eight_All
        (All-append IsByte eight eight eight_All eight_All)))
