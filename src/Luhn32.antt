-- ===== src/Luhn32.antt =====
-- proto/luhn32.cpp, with the alphabets of utils/base32.cpp: the check character of a part of a device
-- id. A character that is not of the alphabet fails an assertion, which is `none`.
pub mod Errors
pub mod Valid
use syncspirit.Prelude.{
  ℕ, zero, suc, ◌+◌, ◌-◌, ◌*◌, ◌/◌, ◌%◌, Bool, true, false, ◌&&◌, List, [], ◌∷◌, Option, none, some,
  if◌then◌else◌, ltb, leb, ◌==◌,
}

-- `base32::in_alphabet`: A to Z, and 2 to 7.
unfoldable pub in_alphabet : ℕ → ℕ
in_alphabet index = if ltb index 26 then index + 65 else index + 24

-- `base32::out_alphabet`
unfoldable pub out_alphabet : ℕ → Option ℕ
out_alphabet c =
    if leb 65 c && leb c 90
    then some (c - 65)
    else if leb 50 c && leb c 55
    then some (c - 24)
    else none

abbrev pub addend : ℕ → ℕ → ℕ
addend factor code_point = factor * code_point / 32 + factor * code_point % 32

-- The loop of `calc`, and what follows it. The sum is an `int` in the code, and has no bound here: each
-- character adds less than 32, so that it is the same up to 2 ^ 26 characters.
unfoldable pub calc_from : ℕ → ℕ → List ℕ → Option ℕ
unfolding in_alphabet out_alphabet
calc_from factor sum [] = some (in_alphabet ((32 - sum % 32) % 32))
calc_from factor sum (c ∷ cs) = elim (out_alphabet c) [
  | none ↦ none
  | some code_point ↦ calc_from (if factor == 2 then 1 else 2) (sum + addend factor code_point) cs
]

unfoldable pub calculate : List ℕ → Option ℕ
unfolding calc_from
calculate = calc_from 1 0

-- The last character, and those before it.
abbrev pub split_last : ℕ → List ℕ → List ℕ × ℕ
split_last c [] = ([], c)
split_last c (d ∷ ds) = (c ∷ (split_last d ds).0, (split_last d ds).1)

unfoldable pub validate : List ℕ → Option Bool
unfolding calculate
validate [] = some false
validate (c ∷ cs) =
    let (view, check) = split_last c cs in
    elim (calculate view) [ none ↦ none | some result ↦ some (check == result) ]
