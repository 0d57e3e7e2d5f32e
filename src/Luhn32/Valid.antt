-- ===== src/Luhn32/Valid.antt =====
-- proto/luhn32.cpp: a text with its check character is valid.
use syncspirit.Prelude.{ℕ, ◌≡◌, refl, ap, ◌∙◌, List, [], ◌∷◌, ◌++◌, Option, none, some, ◌==◌}
use syncspirit.Luhn32.{calculate, split_last, validate}

split_last-append : (x : ℕ) (xs : List ℕ) (c : ℕ) → split_last x (xs ++ (c ∷ [])) ≡ (x ∷ xs, c)
split_last-append x [] c = refl
split_last-append x (y ∷ xs) c = ap (λ (r : List ℕ × ℕ). (x ∷ r.0, r.1)) (split_last-append y xs c)

checked :
    (d : ℕ) (o : Option ℕ) (c : ℕ)
    → o ≡ some c
    → elim o [ none ↦ none | some result ↦ some (d == result) ] ≡ some (d == c)
checked d o c h = rw h refl

-- With a character behind it, a text, also an empty one, is valid exactly if that is the check
-- character of the text, which it has.
pub validate-calculate :
    (xs : List ℕ) (c d : ℕ) → calculate xs ≡ some c → validate (xs ++ (d ∷ [])) ≡ some (d == c)
unfolding validate
validate-calculate [] c d h = checked d (calculate []) c h
validate-calculate (x ∷ xs) c d h =
    ap
      (λ (r : List ℕ × ℕ). elim (calculate r.0) [
        | none ↦ none
        | some result ↦ some (r.1 == result)
      ])
      (split_last-append x xs d)
    ∙ checked d (calculate (x ∷ xs)) c h
