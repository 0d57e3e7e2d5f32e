-- ===== src/Luhn32/Errors.antt =====
-- proto/luhn32.cpp: a wrong character changes the check character.
use syncspirit.Prelude.{
  ℕ, ◌+◌, ◌-◌, ◌*◌, ◌%◌, ◌<◌, ◌≡◌, ◌⊎◌, inl, inr, refl, ap, sym, ◌∙◌, List, [], ◌∷◌, ◌++◌, Option,
  none, some, arith, if◌then◌else◌, ◌==◌, Option-cases, Bool-cases, dec_lt, ◌≤◌,
}
use syncspirit.Luhn32.{in_alphabet, out_alphabet, addend, calc_from, calculate}

in_alphabet_injective : (i j : ℕ) → i < 32 → j < 32 → in_alphabet i ≡ in_alphabet j → i ≡ j
unfolding in_alphabet
in_alphabet_injective i j l m e = ground (arith, e)

check_injective :
    (s t : ℕ)
    → in_alphabet ((32 - s % 32) % 32) ≡ in_alphabet ((32 - t % 32) % 32)
    → s % 32 ≡ t % 32
check_injective s t e = omega (
  arith,
  in_alphabet_injective ((32 - s % 32) % 32) ((32 - t % 32) % 32) (omega arith) (omega arith) e,
)

out_alphabet_below : (c p : ℕ) → out_alphabet c ≡ some p → p < 32
unfolding out_alphabet
out_alphabet_below c p e = ground (arith, e)

out_alphabet_injective : (c d p : ℕ) → out_alphabet c ≡ some p → out_alphabet d ≡ some p → c ≡ d
unfolding out_alphabet
out_alphabet_injective c d p e f = ground (arith, e, f)

-- The factor is 1 or 2.
abbrev IsFactor : ℕ → Type 0
IsFactor factor = (factor ≡ 1) ⊎ (factor ≡ 2)

sums_before : (s t d : ℕ) → (s + d) % 32 ≡ (t + d) % 32 → s % 32 ≡ t % 32
sums_before s t d e = omega (arith, e)

addend_one : (p : ℕ) → p < 32 → addend 1 p ≡ p
addend_one p l = omega (arith, l)

addend_two :
    (p : ℕ) → p < 32 → ((addend 2 p ≡ 2 * p) × (p < 16)) ⊎ ((addend 2 p + 31 ≡ 2 * p) × (16 ≤ p))
addend_two p l = elim (dec_lt p 16) [
  | yes low ↦ inl (omega (arith, low), low)
  | no high ↦ inr (omega (arith, l, high), omega (arith, high))
]

same_two :
    (s p q a b : ℕ)
    → p < 32
    → q < 32
    → ((a ≡ 2 * p) × (p < 16)) ⊎ ((a + 31 ≡ 2 * p) × (16 ≤ p))
    → ((b ≡ 2 * q) × (q < 16)) ⊎ ((b + 31 ≡ 2 * q) × (16 ≤ q))
    → (s + a) % 32 ≡ (s + b) % 32
    → p ≡ q
same_two s p q a b l m (inl g) (inl h) e = omega (arith, l, m, g.0, g.1, h.0, h.1, e)
same_two s p q a b l m (inl g) (inr h) e = omega (arith, l, m, g.0, g.1, h.0, h.1, e)
same_two s p q a b l m (inr g) (inl h) e = omega (arith, l, m, g.0, g.1, h.0, h.1, e)
same_two s p q a b l m (inr g) (inr h) e = omega (arith, l, m, g.0, g.1, h.0, h.1, e)

same_one : (s p q a b : ℕ) → p < 32 → q < 32 → a ≡ p → b ≡ q → (s + a) % 32 ≡ (s + b) % 32 → p ≡ q
same_one s p q a b l m g h e = omega (arith, l, m, g, h, e)

addend_injective :
    (factor s p q : ℕ)
    → IsFactor factor
    → p < 32
    → q < 32
    → (s + addend factor p) % 32 ≡ (s + addend factor q) % 32
    → p ≡ q
addend_injective factor s p q (inl one) l m e =
    same_one s p q (addend factor p) (addend factor q) l m
      (ap (λ f. addend f p) one ∙ addend_one p l) (ap (λ f. addend f q) one ∙ addend_one q m) e
addend_injective factor s p q (inr two) l m e =
    let same : (s + addend 2 p) % 32 ≡ (s + addend 2 q) % 32 =
      sym (ap (λ f. (s + addend f p) % 32) two) ∙ e ∙ ap (λ f. (s + addend f q) % 32) two in
    same_two s p q (addend 2 p) (addend 2 q) l m (addend_two p l) (addend_two q m) same

-- The check characters agree, and there is one.
abbrev pub Agree : Option ℕ → Option ℕ → Type 0
Agree none o = ⊥
Agree (some c) none = ⊥
Agree (some c) (some d) = c ≡ d

no_agree : {A : Type 0} (o : Option ℕ) → Agree o none → A
no_agree none e = absurd e
no_agree (some c) e = absurd e

-- Equal check characters after the same characters come of sums that are equal modulo 32.
calc_sums :
    (cs : List ℕ) (factor s t : ℕ)
    → Agree (calc_from factor s cs) (calc_from factor t cs)
    → s % 32 ≡ t % 32
unfolding calc_from
calc_sums [] factor s t = check_injective s t
calc_sums (c ∷ cs) factor s t = elim (Option-cases (out_alphabet c)) [
  | inl bad ↦ rw (bad, calc_from) (λ e. absurd e)
  | inr (p, good) ↦
      rw (good, calc_from)
        (λ e. sums_before s t (addend factor p) (
          calc_sums cs (if factor == 2 then 1 else 2) (s + addend factor p) (t + addend factor p)
            e))
]

other-IsFactor : (factor : ℕ) → IsFactor (if factor == 2 then 1 else 2)
other-IsFactor factor = elim (Bool-cases (factor == 2)) [
  | inl two ↦ rw two (inl refl)
  | inr one ↦ rw one (inr refl)
]

calc_first :
    (factor s c d : ℕ) (ys : List ℕ)
    → IsFactor factor
    → Agree (calc_from factor s (c ∷ ys)) (calc_from factor s (d ∷ ys))
    → c ≡ d
unfolding calc_from
calc_first factor s c d ys f = elim (Option-cases (out_alphabet c)) [
  | inl bad ↦ rw (bad, calc_from) (λ e. absurd e)
  | inr (p, good) ↦ elim (Option-cases (out_alphabet d)) [
    | inl wrong ↦
        rw (good, wrong, calc_from)
          (no_agree (calc_from (if factor == 2 then 1 else 2) (s + addend factor p) ys))
    | inr (q, fine) ↦
        rw (good, fine, calc_from)
          (λ e.
            let sums =
              calc_sums ys (if factor == 2 then 1 else 2) (s + addend factor p)
                (s + addend factor q) e in
            let same : p ≡ q =
              addend_injective factor s p q f (out_alphabet_below c p good)
                (out_alphabet_below d q fine) sums in
            out_alphabet_injective c d p good (fine ∙ ap some (sym same)))
  ]
]

calc_wrong :
    (xs ys : List ℕ) (factor s c d : ℕ)
    → IsFactor factor
    → Agree (calc_from factor s (xs ++ (c ∷ ys))) (calc_from factor s (xs ++ (d ∷ ys)))
    → c ≡ d
unfolding calc_from
calc_wrong [] ys factor s c d f = calc_first factor s c d ys f
calc_wrong (x ∷ xs) ys factor s c d f = elim (Option-cases (out_alphabet x)) [
  | inl bad ↦ rw (bad, calc_from) (λ e. absurd e)
  | inr (p, good) ↦
      rw (good, calc_from)
        (calc_wrong xs ys (if factor == 2 then 1 else 2) (s + addend factor p) c d
          (other-IsFactor factor))
]

-- One wrong character changes the check character: where two texts differ at one place at most and
-- have the same check character, they do not differ there. This holds for texts of any length whose
-- characters are of the alphabet.
pub calculate-Agree :
    (xs ys : List ℕ) (c d : ℕ)
    → Agree (calculate (xs ++ (c ∷ ys))) (calculate (xs ++ (d ∷ ys)))
    → c ≡ d
unfolding calculate
calculate-Agree xs ys c d = calc_wrong xs ys 1 0 c d (inl refl)
