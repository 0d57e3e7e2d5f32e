-- ===== src/DeviceId/Pieces.antt =====
-- model/device_id.cpp: pieces with check characters, and dashes between pieces.
use syncspirit.Prelude.{
  ℕ, zero, suc, ◌+◌, ◌-◌, ◌*◌, ◌%◌, ◌<◌, ◌≡◌, refl, sym, ap, ◌∙◌, subst, Bool, true, false, not,
  List, [], ◌∷◌, ◌++◌, Option, none, some, if◌then◌else◌, ◌==◌, length, length-append, length-drop,
  length-take, take, drop, take-append-drop, arith, Bool-cases, inl, inr,
}
use mathlib.Core.List.{append_assoc}
use syncspirit.Prelude.Find.{All, All-append, keep_if}
use syncspirit.Luhn32.{in_alphabet, out_alphabet, addend, calc_from, calculate, validate}
use syncspirit.Luhn32.Valid.{validate-calculate}
use syncspirit.DeviceId.{◌>>=◌, dash, luhnize, insert_dashes, check_pieces, remove_checks}

-- A character of the alphabet.
abbrev pub IsLetter : ℕ → Type 0
IsLetter c = (v : ℕ) × (out_alphabet c ≡ some v)

pub in_alphabet-IsLetter : (v : ℕ) → v < 32 → IsLetter (in_alphabet v)
unfolding in_alphabet out_alphabet
in_alphabet-IsLetter v h = (v, ground arith)

pub IsLetter-dash : (c : ℕ) → IsLetter c → (c == dash) ≡ false
unfolding out_alphabet
IsLetter-dash c (v, e) = ground arith

calc_from-IsLetter :
    (cs : List ℕ) (factor sum : ℕ)
    → All IsLetter cs
    → (check : ℕ) × ((calc_from factor sum cs ≡ some check) × IsLetter check)
unfolding calc_from
calc_from-IsLetter [] factor sum all = (
  in_alphabet ((32 - sum % 32) % 32),
  (refl, in_alphabet-IsLetter ((32 - sum % 32) % 32) (omega arith)),
)
calc_from-IsLetter (c ∷ cs) factor sum ((v, e), all) =
    rw (calc_from, e)
      (calc_from-IsLetter cs (if factor == 2 then 1 else 2) (sum + addend factor v) all)

module _ {ℓ} {A : Type ℓ} where
  pub take-append : (n : ℕ) (xs ys : List A) → length xs ≡ n → take n (xs ++ ys) ≡ xs
  take-append n xs ys e = subst (λ m. take m (xs ++ ys) ≡ xs) e (go xs)
    where
      go : (zs : List A) → take (length zs) (zs ++ ys) ≡ zs
      go [] = refl
      go (z ∷ zs) = ap (λ l. z ∷ l) (go zs)

  pub drop-append : (n : ℕ) (xs ys : List A) → length xs ≡ n → drop n (xs ++ ys) ≡ ys
  drop-append n xs ys e = subst (λ m. drop m (xs ++ ys) ≡ ys) e (go xs)
    where
      go : (zs : List A) → drop (length zs) (zs ++ ys) ≡ ys
      go [] = refl
      go (z ∷ zs) = go zs

module _ (P : ℕ → Type 0) where
  pub All-take : (n : ℕ) (xs : List ℕ) → All P xs → All P (take n xs)
  All-take zero xs h = tt
  All-take (suc n) [] h = tt
  All-take (suc n) (x ∷ xs) h = (h.0, All-take n xs h.1)

  pub All-drop : (n : ℕ) (xs : List ℕ) → All P xs → All P (drop n xs)
  All-drop zero xs h = h
  All-drop (suc n) [] h = tt
  All-drop (suc n) (x ∷ xs) h = All-drop n xs h.1

-- What holds of the pieces with their check characters.
abbrev pub IsChecked : ℕ → List ℕ → List ℕ → Type 0
IsChecked n text luhnized =
    (length luhnized ≡ n * 14)
    × (All IsLetter luhnized
        × ((check_pieces n luhnized ≡ some true) × (remove_checks n luhnized ≡ text)))

IsChecked-piece :
    (n : ℕ) (piece rest text : List ℕ) (check : ℕ)
    → length piece ≡ 13
    → calculate piece ≡ some check
    → All IsLetter piece
    → IsLetter check
    → IsChecked n text rest
    → IsChecked (suc n) (piece ++ text) (piece ++ check ∷ rest)
unfolding check_pieces remove_checks
IsChecked-piece n piece rest text check long e letters letter (size, (others, (valid, stripped))) =
    let whole : piece ++ check ∷ rest ≡ (piece ++ check ∷ []) ++ rest = simp append_assoc in
    let long14 : length (piece ++ check ∷ []) ≡ 14 =
      omega (arith, length-append piece (check ∷ []), long) in
    let first : take 14 (piece ++ check ∷ rest) ≡ piece ++ check ∷ [] =
      ap (take 14) whole ∙ take-append 14 (piece ++ check ∷ []) rest long14 in
    let later : drop 14 (piece ++ check ∷ rest) ≡ rest =
      ap (drop 14) whole ∙ drop-append 14 (piece ++ check ∷ []) rest long14 in
    let good : validate (piece ++ check ∷ []) ≡ some true =
      validate-calculate piece check check e ∙ ap some (ground arith) in
    (
      omega (arith, length-append piece (check ∷ rest), long, size),
      (
        All-append IsLetter piece (check ∷ rest) letters (letter, others),
        (
          rw (first, later, good) valid,
          rw (take-append 13 piece (check ∷ rest) long, later, stripped) refl,
        ),
      ),
    )

-- Letters in whole pieces get their check characters.
abbrev pub IsLuhnized : ℕ → List ℕ → Option (List ℕ) → Type 0
IsLuhnized n text none = ⊥
IsLuhnized n text (some luhnized) = IsChecked n text luhnized

luhnize-piece :
    (n : ℕ) (piece text : List ℕ) (check : ℕ) (o : Option (List ℕ))
    → length piece ≡ 13
    → calculate piece ≡ some check
    → All IsLetter piece
    → IsLetter check
    → IsLuhnized n text o
    → IsLuhnized (suc n) (piece ++ text) (o >>= λ rest. some (piece ++ check ∷ rest))
luhnize-piece n piece text check none long e letters letter h = h
luhnize-piece n piece text check (some rest) long e letters letter h =
    IsChecked-piece n piece rest text check long e letters letter h

pub luhnize-IsLuhnized :
    (n : ℕ) (text : List ℕ)
    → length text ≡ n * 13
    → All IsLetter text
    → IsLuhnized n text (luhnize n text)
unfolding luhnize calculate check_pieces remove_checks
luhnize-IsLuhnized zero [] long letters = (omega arith, (tt, (refl, refl)))
luhnize-IsLuhnized zero (c ∷ cs) long letters = absurd omega arith
luhnize-IsLuhnized (suc n) text long letters =
    let (check, (e, letter)) =
      calc_from-IsLetter (take 13 text) 1 0 (All-take IsLetter 13 text letters) in
    let piece_long : length (take 13 text) ≡ 13 = omega (arith, length-take 13 text) in
    let rest_long : length (drop 13 text) ≡ n * 13 = omega (arith, length-drop 13 text) in
    let h : IsLuhnized (suc n) (take 13 text ++ drop 13 text)
        (luhnize n (drop 13 text) >>= λ rest. some (take 13 text ++ check ∷ rest)) =
      luhnize-piece n (take 13 text) (drop 13 text) check (luhnize n (drop 13 text)) piece_long e
        (All-take IsLetter 13 text letters) letter
        (luhnize-IsLuhnized n (drop 13 text) rest_long (All-drop IsLetter 13 text letters)) in
    rw (luhnize, e)
      (subst
        (λ t.
          IsLuhnized (suc n) t
            (luhnize n (drop 13 text) >>= λ rest. some (take 13 text ++ check ∷ rest)))
        (take-append-drop 13 text) h)

abbrev pub is_kept : ℕ → Bool
is_kept c = not (c == dash)

keep_if-letters :
    (xs ys : List ℕ) → All IsLetter xs → keep_if is_kept (xs ++ ys) ≡ xs ++ keep_if is_kept ys
keep_if-letters [] ys h = refl
keep_if-letters (x ∷ xs) ys (h, hs) =
    rw (IsLetter-dash x h) (ap (λ l. x ∷ l) (keep_if-letters xs ys hs))

is_zero : (n : ℕ) → (n == 0) ≡ true → n ≡ 0
is_zero n h = ground arith

is_positive : (n : ℕ) → (n == 0) ≡ false → 0 < n
is_positive n h = ground arith

empty : (xs : List ℕ) → length xs ≡ 0 → xs ≡ []
empty [] h = refl
empty (x ∷ xs) h = absurd omega arith

pub keep_if-insert_dashes :
    (n : ℕ) (text : List ℕ)
    → length text ≡ n * 7
    → All IsLetter text
    → keep_if is_kept (insert_dashes n text) ≡ text
unfolding insert_dashes
keep_if-insert_dashes zero [] long letters = refl
keep_if-insert_dashes zero (c ∷ cs) long letters = absurd omega arith
keep_if-insert_dashes (suc n) text long letters = elim (Bool-cases (n == 0)) [
  | inl last ↦
      let rest_long : length (drop 7 text) ≡ 0 =
        omega (arith, length-drop 7 text, is_zero n last) in
      let e : [] ≡ drop 7 text = sym (empty (drop 7 text) rest_long) in
      rw (insert_dashes, last)
        (keep_if-letters (take 7 text) [] (All-take IsLetter 7 text letters)
          ∙ (ap (λ l. take 7 text ++ l) e ∙ take-append-drop 7 text))
  | inr more ↦
      let rest =
        keep_if-insert_dashes n (drop 7 text) (omega (arith, length-drop 7 text))
          (All-drop IsLetter 7 text letters) in
      rw
        (
          insert_dashes,
          more,
          keep_if-letters (take 7 text) (dash ∷ insert_dashes n (drop 7 text))
              (All-take IsLetter 7 text letters),
          rest,
        )
        (take-append-drop 7 text)
]

pub length-insert_dashes :
    (n : ℕ) (text : List ℕ) → length text ≡ n * 7 → length (insert_dashes n text) ≡ n * 7 + (n - 1)
unfolding insert_dashes
length-insert_dashes zero text long = refl
length-insert_dashes (suc n) text long = elim (Bool-cases (n == 0)) [
  | inl last ↦
      rw (insert_dashes, last)
        (omega (arith, length-append (take 7 text) [], length-take 7 text, is_zero n last))
  | inr more ↦
      let rest = length-insert_dashes n (drop 7 text) (omega (arith, length-drop 7 text)) in
      rw (insert_dashes, more)
        (omega (
          arith,
          length-append (take 7 text) (dash ∷ insert_dashes n (drop 7 text)),
          length-take 7 text,
          rest,
          is_positive n more,
        ))
]
