-- ===== src/FilePath/Elements.antt =====
-- model/misc/path.cpp: the offsets cut the text into the elements that it was made from.
use mathlib.Core.List.{append_assoc}
use native.Mathlib.Nat.{zero-add}
use syncspirit.Prelude.{
  ℕ, ◌+◌, ◌-◌, ◌≡◌, refl, List, [], ◌∷◌, ◌++◌, arith, length, length-append, take, drop, ap, ◌∙◌,
  sym,
}
use syncspirit.FilePath.{offsets, make_path, get_own_name, get_parent_name, back}

-- The text of a path: its elements with a slash between.
abbrev pub joined : List ℕ → List (List ℕ) → List ℕ
joined root [] = root
joined root (e ∷ es) = root ++ (b'/' ∷ joined e es)

take-append : (xs ys : List ℕ) → take (length xs) (xs ++ ys) ≡ xs
take-append [] ys = refl
take-append (x ∷ xs) ys = ap (λ zs. x ∷ zs) (take-append xs ys)

drop-append : (xs ys : List ℕ) → drop (length xs) (xs ++ ys) ≡ ys
drop-append [] ys = refl
drop-append (x ∷ xs) ys = drop-append xs ys

take-all : (xs : List ℕ) → take (length xs) xs ≡ xs
take-all [] = refl
take-all (x ∷ xs) = ap (λ zs. x ∷ zs) (take-all xs)

abbrev pub last_element : List ℕ → List (List ℕ) → List ℕ
last_element root [] = root
last_element root (e ∷ es) = last_element e es

abbrev pub init_text : List ℕ → List (List ℕ) → List ℕ
init_text root [] = []
init_text root (e ∷ []) = root
init_text root (e ∷ next ∷ es) = root ++ (b'/' ∷ init_text e (next ∷ es))

-- A text in front of the first element, so that the walk can be followed.
abbrev past : List ℕ → List ℕ → List ℕ
past front root = front ++ (root ++ b'/' ∷ [])

length-past : (front root : List ℕ) → length (past front root) ≡ length front + length root + 1
length-past front root =
    omega (arith, length-append front (root ++ b'/' ∷ []), length-append root (b'/' ∷ []))

past-append :
    (front root rest : List ℕ) → past front root ++ rest ≡ front ++ (root ++ (b'/' ∷ rest))
past-append front root rest = simp append_assoc

own_name_at :
    (front root : List ℕ) (es : List (List ℕ))
    → drop (back (offsets (length front + length root) es) (length front)) (front ++ joined root es)
      ≡ last_element root es
unfolding offsets
own_name_at front root [] = drop-append front root
own_name_at front root (e ∷ es) =
    let p : length front + length root + 1 ≡ length (past front root) =
      sym (length-past front root) in
    let q : length front + length root + (length e + 1) ≡ length (past front root) + length e =
      omega (arith, length-past front root) in
    let t : front ++ joined root (e ∷ es) ≡ past front root ++ joined e es =
      sym (past-append front root (joined e es)) in
    (λ i. drop (back (offsets (q i) es) (p i)) (t i)) ∙ own_name_at (past front root) e es

parent_at :
    (front root e : List ℕ) (es : List (List ℕ))
    → take
        (back (offsets (length front + length root) (e ∷ es)) 0 - 1)
        (front ++ joined root (e ∷ es))
      ≡ front ++ init_text root (e ∷ es)
unfolding offsets
parent_at front root e [] =
    let n : length front + length root + 1 - 1 ≡ length (front ++ root) =
      omega (arith, length-append front root) in
    let t : front ++ (root ++ (b'/' ∷ e)) ≡ (front ++ root) ++ (b'/' ∷ e) = simp append_assoc in
    (λ i. take (n i) (t i)) ∙ take-append (front ++ root) (b'/' ∷ e)
parent_at front root e (next ∷ es) =
    let q : length front + length root + (length e + 1) ≡ length (past front root) + length e =
      omega (arith, length-past front root) in
    let t : front ++ joined root (e ∷ next ∷ es) ≡ past front root ++ joined e (next ∷ es) =
      sym (past-append front root (joined e (next ∷ es))) in
    (λ i. take (back (offsets (q i) (next ∷ es)) 0 - 1) (t i))
    ∙ parent_at (past front root) e next es
    ∙ past-append front root (init_text e (next ∷ es))

-- The own name of a path is its last element, and the parent's name is the text before it.
pub get_own_name_lem :
    (root e : List ℕ) (es : List (List ℕ))
    → (get_own_name (make_path (joined root (e ∷ es)) root (e ∷ es)) ≡ last_element root (e ∷ es))
      × (get_parent_name (make_path (joined root (e ∷ es)) root (e ∷ es)) ≡ init_text root (e ∷ es))
unfolding get_own_name get_parent_name make_path offsets
get_own_name_lem root e es = (
  ground (arith, simp zero-add at (own_name_at [] root (e ∷ es))),
  ground (arith, simp zero-add at (parent_at [] root e es)),
)
