-- ===== src/Mediator/Counts.antt =====
-- fs/updates_mediator.cpp: how many events of a path are expected.
use syncspirit.Prelude.{
  ℕ, ◌+◌, ◌-◌, ◌<◌, ◌^◌, ◌≡◌, refl, Bool, true, false, List, [], ◌∷◌, none, some, arith,
  if◌then◌else◌, Bool-cases, inl, inr, ap, ◌↔◌,
}
use syncspirit.File.Wire.{same_text}
use syncspirit.Mediator.{FileUpdate, Mediator, find_update, erase_update, insert_update, take_event}

same_text_refl : (s : List ℕ) → same_text s s ≡ true
same_text_refl [] = refl
same_text_refl (c ∷ cs) = ground (arith, same_text_refl cs)

same_text-eq : (s t : List ℕ) → same_text s t ≡ true → s ≡ t
same_text-eq [] [] h = refl
same_text-eq [] (d ∷ ds) h = cc
same_text-eq (c ∷ cs) [] h = cc
same_text-eq (c ∷ cs) (d ∷ ds) h = ground (arith, same_text-eq cs ds)

pub same_text_iff : (s t : List ℕ) → (same_text s t ≡ true) ↔ (s ≡ t)
same_text_iff s t = (same_text-eq s t, λ e. ground (arith, same_text_refl s))

-- How many events of the path a set expects.
abbrev pub count_in : List ℕ → List FileUpdate → ℕ
count_in path us = elim (find_update path us) [ none ↦ 0 | some n ↦ n ]

-- How many events of the path are expected at all.
abbrev pub expected : List ℕ → Mediator → ℕ
expected path m = count_in path m.postponed.updates + count_in path m.next.updates

pub count_in-insert :
    (p q : List ℕ) (n : ℕ) (us : List FileUpdate)
    → count_in p us + n < 2 ^ 32
    → n < 2 ^ 32
    → count_in q (insert_update p n us) ≡ count_in q us + (if same_text p q then n else 0)
unfolding find_update insert_update
count_in-insert p q n [] l k = ground (arith, same_text_iff p q)
count_in-insert p q n (u ∷ us) l k = ground (
  arith,
  same_text_iff u.path p,
  same_text_iff u.path q,
  same_text_iff p q,
  count_in-insert p q n us,
)

-- One entry for a path, each with a positive number of events.
abbrev pub IsProper : List FileUpdate → Type 0
IsProper [] = Unit
IsProper (u ∷ us) =
    (find_update u.path us ≡ none) × (0 < u.update_type) × (u.update_type < 2 ^ 32) × IsProper us

abbrev pub one_if : Bool → ℕ
one_if true = 1
one_if false = 0

find_update-eq : (p q : List ℕ) (us : List FileUpdate) → p ≡ q → find_update p us ≡ find_update q us
find_update-eq p q us e = ap (λ r. find_update r us) e

pub count_in-erase :
    (p q : List ℕ) (us : List FileUpdate)
    → IsProper us
    → count_in q (erase_update p us) ≡ (if same_text p q then 0 else count_in q us)
unfolding find_update erase_update
count_in-erase p q [] h = ground arith
count_in-erase p q (u ∷ us) h = ground (
  arith,
  same_text_iff u.path p,
  same_text_iff u.path q,
  same_text_iff p q,
  count_in-erase p q us h.3,
  h.0,
)

pub count_in-take_event :
    (p q : List ℕ) (us : List FileUpdate)
    → IsProper us
    → count_in q (take_event p us) ≡ count_in q us - one_if (same_text p q)
unfolding find_update take_event
count_in-take_event p q [] h = ground arith
count_in-take_event p q (u ∷ us) h = ground (
  arith,
  same_text_iff u.path p,
  same_text_iff u.path q,
  same_text_iff p q,
  count_in-take_event p q us h.3,
  h.0,
)

find_update-insert :
    (p q : List ℕ) (n : ℕ) (us : List FileUpdate)
    → same_text p q ≡ false
    → find_update q us ≡ none
    → find_update q (insert_update p n us) ≡ none
unfolding find_update insert_update
find_update-insert p q n [] d h = ground arith
find_update-insert p q n (u ∷ us) d h = ground (arith, find_update-insert p q n us d)

find_update-erase :
    (p q : List ℕ) (us : List FileUpdate)
    → find_update q us ≡ none
    → find_update q (erase_update p us) ≡ none
unfolding find_update erase_update
find_update-erase p q [] h = refl
find_update-erase p q (u ∷ us) h = ground (arith, find_update-erase p q us)

find_update-take_event :
    (p q : List ℕ) (us : List FileUpdate)
    → find_update q us ≡ none
    → find_update q (take_event p us) ≡ none
unfolding find_update take_event
find_update-take_event p q [] h = refl
find_update-take_event p q (u ∷ us) h = ground (arith, find_update-take_event p q us)

pub insert_update-IsProper :
    (p : List ℕ) (n : ℕ) (us : List FileUpdate)
    → 0 < n
    → count_in p us + n < 2 ^ 32
    → IsProper us
    → IsProper (insert_update p n us)
unfolding insert_update find_update
insert_update-IsProper p n [] k l h = ground arith
insert_update-IsProper p n (u ∷ us) k l h = elim (Bool-cases (same_text u.path p)) [
  | inl hit ↦ ground arith
  | inr miss ↦ ground (
    arith,
    same_text_iff u.path p,
    same_text_iff p u.path,
    find_update-insert p u.path n us,
    insert_update-IsProper p n us k,
  )
]

pub erase_update-IsProper :
    (p : List ℕ) (us : List FileUpdate) → IsProper us → IsProper (erase_update p us)
unfolding erase_update
erase_update-IsProper p [] h = tt
erase_update-IsProper p (u ∷ us) h =
    ground (arith, find_update-erase p u.path us h.0, erase_update-IsProper p us h.3)

pub take_event-IsProper :
    (p : List ℕ) (us : List FileUpdate) → IsProper us → IsProper (take_event p us)
unfolding take_event
take_event-IsProper p [] h = tt
take_event-IsProper p (u ∷ us) h =
    ground (arith, find_update-take_event p u.path us h.0, take_event-IsProper p us h.3)
