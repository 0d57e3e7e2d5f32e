-- ===== src/DeviceId.antt =====
-- model/device_id.cpp: the text of a device id, which is the digest in base 32 with check characters
-- and dashes. `none` is the absent result, and a failed assertion of luhn32.
pub mod Pieces
pub mod RoundTrip
use syncspirit.Prelude.{
  ℕ, zero, suc, Bool, true, false, not, List, [], ◌∷◌, ◌++◌, Option, none, some, if◌then◌else◌,
  ◌==◌, length, take, drop,
}
use syncspirit.Prelude.Find.{keep_if}
use syncspirit.Luhn32.{calculate, validate}
use syncspirit.Base32.{encode, decode}

infixl 5 ◌>>=◌
abbrev pub ◌>>=◌ : {A B : Type 0} → Option A → (A → Option B) → Option B
none >>= f = none
some a >>= f = f a

-- The bytes `hash`, without the prefix of the key in front.
pub record DeviceId : Type 0 where
  pub value : List ℕ
  pub hash : List ℕ

abbrev pub dash : ℕ
dash = b'-'

-- The first loop of `from_sha256`, with the pieces that are left.
unfoldable pub luhnize : ℕ → List ℕ → Option (List ℕ)
luhnize zero sha = some []
luhnize (suc n) sha = calculate (take 13 sha) >>= λ check.
    luhnize n (drop 13 sha) >>= λ rest. some (take 13 sha ++ check ∷ rest)

-- The second one.
unfoldable pub insert_dashes : ℕ → List ℕ → List ℕ
insert_dashes zero luhnized = []
insert_dashes (suc n) luhnized =
    let rest = insert_dashes n (drop 7 luhnized) in
    take 7 luhnized ++ (if n == 0 then [] else dash ∷ rest)

unfoldable pub from_sha256 : List ℕ → Option DeviceId
unfolding luhnize insert_dashes
from_sha256 sha256 = encode sha256 >>= λ sha256_enc.
    if length sha256_enc == 52
    then (luhnize 4 sha256_enc >>= λ luhnized.
        some (record { value = insert_dashes 8 luhnized; hash = sha256 }))
    else none

-- The buffer after the loop that moves what is no dash to its front, as far as it is read: where the
-- text has more dashes, its own characters follow.
unfoldable pub remove_dashes : List ℕ → List ℕ
remove_dashes value =
    let kept = keep_if (λ c. not (c == dash)) value in take 56 (kept ++ drop (length kept) value)

-- The loop over the pieces with their check characters.
unfoldable pub check_pieces : ℕ → List ℕ → Option Bool
check_pieces zero buff = some true
check_pieces (suc n) buff =
    validate (take 14 buff) >>= λ valid. if valid then check_pieces n (drop 14 buff) else some false

unfoldable pub remove_checks : ℕ → List ℕ → List ℕ
remove_checks zero buff = []
remove_checks (suc n) buff = take 13 buff ++ remove_checks n (drop 14 buff)

unfoldable pub from_string : List ℕ → Option DeviceId
unfolding remove_dashes check_pieces remove_checks
from_string value =
    let buff = remove_dashes value in
    if length value == 63
    then (check_pieces 4 buff >>= λ valid.
        if valid
        then (decode (remove_checks 4 buff) >>= λ sha. some (record { value = value; hash = sha }))
        else none)
    else none

abbrev pub get_short : DeviceId → List ℕ
get_short id = take 7 id.value
