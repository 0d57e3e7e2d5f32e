-- ===== src/Version/Best.antt =====
-- model/version.cpp: the best counter of a vector, and what an update does to it.
use native.Mathlib.Nat.{zero-add}
use mathlib.Core.Path.{subst}
use syncspirit.Prelude.{
  ℕ, zero, suc, ◌+◌, ◌<◌, ◌≤◌, ◌≡◌, refl, sym, ◌⊎◌, inl, inr, true, false, List, [], ◌∷◌, some,
  arith, get_elem?, ltb, Bool-cases,
}
use syncspirit.Prelude.Find.{All}
use syncspirit.Version.{
  Counter, Version, find_best, mark_at, from_proto, no_counter, last_marked, get_best,
}
use syncspirit.Version.Wire.{IsPlain}

abbrev pub AtMost : ℕ → List Counter → Type 0
AtMost n = All (λ c. c.value ≤ n)

AtMost-mono : (m n : ℕ) (cs : List Counter) → m ≤ n → AtMost m cs → AtMost n cs
AtMost-mono m n [] h a = tt
AtMost-mono m n (c ∷ cs) h a = (omega arith, AtMost-mono m n cs h a.1)

-- The loop ends at the index that it began with, or at a counter above the bound.
abbrev Found : List Counter → ℕ → ℕ → ℕ → ℕ → Type 0
Found cs i index best r =
    ((r ≡ index) × AtMost best cs)
    ⊎ ((j : ℕ) × (m : Counter) × (r ≡ i + j)
        × (get_elem? cs j ≡ some m)
        × (best < m.value)
        × AtMost m.value cs)

find_best-Found :
    (cs : List Counter) (i index best : ℕ) → Found cs i index best (find_best cs i index best)
unfolding find_best
find_best-Found [] i index best = inl (refl, tt)
find_best-Found (c ∷ cs) i index best = elim (Bool-cases (ltb best c.value)) [
  | inl above ↦ rw above (higher above (find_best-Found cs (suc i) i c.value))
  | inr below ↦ rw below (lower below (find_best-Found cs (suc i) index best))
]
  where
    higher :
        ltb best c.value ≡ true
        → Found cs (suc i) i c.value (find_best cs (suc i) i c.value)
        → Found (c ∷ cs) i index best (find_best cs (suc i) i c.value)
    higher above (inl (e, a)) = inr (0, c, omega (arith, e), refl, ground arith, (omega arith, a))
    higher above (inr (j, m, e, g, l, a)) =
        inr (suc j, m, omega (arith, e), g, ground arith, (omega arith, a))

    lower :
        ltb best c.value ≡ false
        → Found cs (suc i) index best (find_best cs (suc i) index best)
        → Found (c ∷ cs) i index best (find_best cs (suc i) index best)
    lower below (inl (e, a)) = inl (e, (ground arith, a))
    lower below (inr (j, m, e, g, l, a)) = inr (suc j, m, omega (arith, e), g, l, (ground arith, a))

last_marked-IsPlain : (r : Counter) (cs : List Counter) → IsPlain cs → last_marked r cs ≡ r
unfolding last_marked
last_marked-IsPlain r [] h = refl
last_marked-IsPlain r (c ∷ cs) h = ground (arith, last_marked-IsPlain r cs h.1)

last_marked-mark_at :
    (r : Counter) (i : ℕ) (cs : List Counter) (m : Counter)
    → IsPlain cs
    → get_elem? cs i ≡ some m
    → last_marked r (mark_at i cs) ≡ m
unfolding last_marked mark_at
last_marked-mark_at r i [] m h e = cc
last_marked-mark_at r zero (c ∷ cs) m h e = ground (arith, last_marked-IsPlain c cs h.1)
last_marked-mark_at r (suc i) (c ∷ cs) m h e = ground (arith, last_marked-mark_at r i cs m h.1 e)

get_best-mark_at :
    (cs : List Counter) (i : ℕ) (m : Counter)
    → IsPlain cs
    → get_elem? cs i ≡ some m
    → get_best (record { counters = mark_at i cs }) ≡ m
unfolding get_best
get_best-mark_at cs i m h e = last_marked-mark_at no_counter i cs m h e

find_best-Best :
    (c : Counter) (cs : List Counter) (r : ℕ)
    → Found (c ∷ cs) 0 0 c.value r
    → (m : Counter) × (get_elem? (c ∷ cs) r ≡ some m) × AtMost m.value (c ∷ cs)
find_best-Best c cs r (inl (e, a)) = (c, ground arith, a)
find_best-Best c cs r (inr (j, m, e, g, l, a)) = (m, rw e (rw zero-add g), a)

-- The best counter of a vector read from the wire is one of its counters, and no counter has a
-- larger value. The values leave the mark's bit free.
pub from_proto-get_best :
    (cs : List Counter) (v : Version)
    → IsPlain cs
    → from_proto cs ≡ some v
    → (i : ℕ) × (get_elem? cs i ≡ some (get_best v)) × AtMost (get_best v).value cs
unfolding from_proto
from_proto-get_best [] v h e = cc
from_proto-get_best (c ∷ cs) v h e =
    let index : ℕ = find_best (c ∷ cs) 0 0 c.value in
    let (m, g, a) = find_best-Best c cs index (find_best-Found (c ∷ cs) 0 0 c.value) in
    let best : get_best v ≡ m = cc (get_best-mark_at (c ∷ cs) index m h g) in
    (index, rw best g, subst (λ b. AtMost b.value (c ∷ cs)) (sym best) a)
