-- ===== src/MruList/Recent.antt =====
-- model/misc/lru_cache.hpp: the list stays within its size and without duplicates, and an item that
-- was used is the newest.
use syncspirit.Prelude.{
  ℕ, zero, suc, ◌≤◌, ◌≡◌, ◌≢◌, refl, List, [], ◌∷◌, Option, none, some, arith, ltb, length, take,
  ap, sym, ◌∙◌, Bool-cases, inl, inr,
}
use syncspirit.Prelude.Find.{All}
use syncspirit.MruList.{
  Item, MruList, find_key, erase_key, pop_back, move_front, push, put_found, put, get_found, get,
}

-- No later item of the list has the key of an earlier one.
abbrev pub IsUnique : List Item → Type 0
IsUnique [] = Unit
IsUnique (item ∷ il) = All (λ other. other.key ≢ item.key) il × IsUnique il

pub record IsSound (self : MruList) : Type 0 where
  pub unique : IsUnique self.il
  pub bounded : length self.il ≤ self.max_items

All-erase_key : (P : Item → Type 0) (key : ℕ) (il : List Item) → All P il → All P (erase_key key il)
unfolding erase_key
All-erase_key P key [] h = tt
All-erase_key P key (item ∷ il) h = ground (arith, All-erase_key P key il h.1)

erase_key-IsUnique : (key : ℕ) (il : List Item) → IsUnique il → IsUnique (erase_key key il)
unfolding erase_key
erase_key-IsUnique key [] h = tt
erase_key-IsUnique key (item ∷ il) h =
    ground (
      arith,
      All-erase_key (λ other. other.key ≢ item.key) key il h.0,
      erase_key-IsUnique key il h.1,
    )

erase_key-gone : (key : ℕ) (il : List Item) → All (λ other. other.key ≢ key) (erase_key key il)
unfolding erase_key
erase_key-gone key [] = tt
erase_key-gone key (item ∷ il) = ground (arith, erase_key-gone key il)

find_key-key :
    (key : ℕ) (il : List Item) (item : Item) → find_key key il ≡ some item → item.key ≡ key
find_key-key key [] item h = ground (arith, h)
find_key-key key (other ∷ il) item h = ground (arith, h, find_key-key key il item)

-- Erasing a key that is there, once, takes one item away.
length-erase_key_le : (key : ℕ) (il : List Item) → length (erase_key key il) ≤ length il
unfolding erase_key
length-erase_key_le key [] = omega arith
length-erase_key_le key (item ∷ il) = ground (arith, length-erase_key_le key il)

length-erase_key_lt :
    (key : ℕ) (il : List Item) (item : Item)
    → find_key key il ≡ some item
    → suc (length (erase_key key il)) ≤ length il
unfolding erase_key
length-erase_key_lt key [] item h = ground (arith, h)
length-erase_key_lt key (other ∷ il) item h =
    ground (arith, h, length-erase_key_le key il, length-erase_key_lt key il item)

find_key-none :
    (key : ℕ) (il : List Item) → find_key key il ≡ none → All (λ other. other.key ≢ key) il
find_key-none key [] h = tt
find_key-none key (other ∷ il) h = ground (arith, h, find_key-none key il)

All-pop_back : (P : Item → Type 0) (il : List Item) → All P il → All P (pop_back il)
unfolding pop_back
All-pop_back P [] h = tt
All-pop_back P (item ∷ []) h = tt
All-pop_back P (item ∷ next ∷ il) h = (h.0, All-pop_back P (next ∷ il) h.1)

pop_back-IsUnique : (il : List Item) → IsUnique il → IsUnique (pop_back il)
unfolding pop_back
pop_back-IsUnique [] h = tt
pop_back-IsUnique (item ∷ []) h = tt
pop_back-IsUnique (item ∷ next ∷ il) h = (
  All-pop_back (λ other. other.key ≢ item.key) (next ∷ il) h.0,
  pop_back-IsUnique (next ∷ il) h.1,
)

pop_back-take : (item : Item) (il : List Item) → pop_back (item ∷ il) ≡ take (length il) (item ∷ il)
unfolding pop_back
pop_back-take item [] = refl
pop_back-take item (next ∷ il) = ap (λ t. item ∷ t) (pop_back-take next il)

length-pop_back : (item : Item) (il : List Item) → length (pop_back (item ∷ il)) ≡ length il
unfolding pop_back
length-pop_back item [] = refl
length-pop_back item (next ∷ il) = ap suc (length-pop_back next il)

move_front-IsSound :
    (self : MruList) (key : ℕ) (item : Item)
    → find_key key self.il ≡ some item
    → IsSound self
    → IsSound (record self { il = move_front item self.il })
unfolding move_front
move_front-IsSound self key item found s =
    let same = find_key-key key self.il item found in
    record {
      unique = (erase_key-gone item.key self.il, erase_key-IsUnique item.key self.il s.unique);
      bounded = grind (arith, length-erase_key_lt key self.il item found, s.bounded, same);
    }

push-IsSound :
    (self : MruList) (item : Item)
    → find_key item.key self.il ≡ none
    → IsSound self
    → IsSound (record self { il = push item self.max_items self.il })
unfolding push
push-IsSound self item missing s =
    elim (Bool-cases (ltb self.max_items (length (item ∷ self.il)))) [
      | inl full ↦ rw full (record {
        unique =
            pop_back-IsUnique (item ∷ self.il) (find_key-none item.key self.il missing, s.unique);
        bounded = rw (length-pop_back item self.il) s.bounded;
      })
      | inr room ↦ rw room (record {
        unique = (find_key-none item.key self.il missing, s.unique);
        bounded = ground (arith, room);
      })
    ]

-- What a put leaves of a sound list: the newest item has the key, and the others are the former
-- ones without that key, in their order, as far as there is room.
abbrev pub IsPut : Item → MruList → MruList → Type 0
IsPut item before after =
    (find_key item.key before.il ≡ none → after.il ≡ take before.max_items (item ∷ before.il))
    × ((old : Item)
        → find_key item.key before.il ≡ some old
        → after.il ≡ old ∷ erase_key item.key before.il)

put_found-IsSound :
    (found : Option Item) (item : Item) (self : MruList)
    → find_key item.key self.il ≡ found
    → IsSound self
    → IsSound (put_found found item self)
unfolding put_found
put_found-IsSound (some old) item self e s = move_front-IsSound self item.key old e s
put_found-IsSound none item self e s = push-IsSound self item e s

take_all : (n : ℕ) (il : List Item) → length il ≤ n → take n il ≡ il
take_all zero [] h = refl
take_all (suc n) [] h = refl
take_all (suc n) (item ∷ il) h = ap (λ t. item ∷ t) (take_all n il (omega arith))
take_all zero (item ∷ il) h = absurd (omega arith)

some_injective : (a b : Item) → some a ≡ some b → a ≡ b
some_injective a b e = cc

some_ne : (a : Item) → some a ≢ none
some_ne a e = cc

move_front-front :
    (a b : Item) (key : ℕ) (il : List Item)
    → a.key ≡ key
    → a ≡ b
    → move_front a il ≡ b ∷ erase_key key il
unfolding move_front
move_front-front a b key il same equal =
    ap (λ k. a ∷ erase_key k il) same ∙ ap (λ o. o ∷ erase_key key il) equal

push_lem :
    (item : Item) (self : MruList)
    → IsSound self
    → push item self.max_items self.il ≡ take self.max_items (item ∷ self.il)
unfolding push
push_lem item self s = elim (Bool-cases (ltb self.max_items (length (item ∷ self.il)))) [
  | inl full ↦
      let exact : self.max_items ≡ length self.il = grind (arith, full, s.bounded) in
      rw (full, pop_back-take item self.il, exact) refl
  | inr room ↦ rw room (sym (take_all self.max_items (item ∷ self.il) (ground (arith, room))))
]

put_found-IsPut :
    (found : Option Item) (item : Item) (self : MruList)
    → find_key item.key self.il ≡ found
    → IsSound self
    → IsPut item self (put_found found item self)
unfolding put_found move_front
put_found-IsPut (some old) item self e s =
    let same = find_key-key item.key self.il old e in
    (
      λ missing. absurd (some_ne old (sym e ∙ missing)),
      λ other there.
          let equal : old ≡ other = some_injective old other (sym e ∙ there) in
          move_front-front old other item.key self.il same equal,
    )
put_found-IsPut none item self e s =
    (λ missing. push_lem item self s, λ other there. absurd (some_ne other (sym there ∙ e)))

-- A put keeps a list without duplicates and within its size. If no item of the list has the key,
-- the new item comes to the front and the oldest one goes when there is no room. Otherwise the item
-- that has the key comes to the front as it was, and the others keep their order.
pub put-IsSound :
    (item : Item) (self : MruList)
    → IsSound self
    → IsSound (put item self) × IsPut item self (put item self)
unfolding put
put-IsSound item self s = (
  put_found-IsSound (find_key item.key self.il) item self refl s,
  put_found-IsPut (find_key item.key self.il) item self refl s,
)

-- What a search leaves and gives: the item with the key is given and comes to the front, and the
-- others keep their order; without such an item nothing is given and the list stays.
abbrev pub IsGet : ℕ → MruList → MruList × Option Item → Type 0
IsGet key before after =
    (after.1 ≡ find_key key before.il)
    × (find_key key before.il ≡ none → after.0 ≡ before)
    × ((item : Item)
        → find_key key before.il ≡ some item
        → after.0.il ≡ item ∷ erase_key key before.il)

get_found-IsSound :
    (found : Option Item) (key : ℕ) (self : MruList)
    → find_key key self.il ≡ found
    → IsSound self
    → IsSound (get_found found self).0 × IsGet key self (get_found found self)
unfolding get_found move_front
get_found-IsSound (some item) key self e s =
    let same = find_key-key key self.il item e in
    (
      move_front-IsSound self key item e s,
      (
        sym e,
        λ missing. absurd (some_ne item (sym e ∙ missing)),
        λ other there.
            let equal : item ≡ other = some_injective item other (sym e ∙ there) in
            move_front-front item other key self.il same equal,
      ),
    )
get_found-IsSound none key self e s =
    (s, (sym e, λ missing. refl, λ other there. absurd (some_ne other (sym there ∙ e))))

-- A search keeps a list without duplicates and within its size. It gives the item that has the key
-- and brings it to the front, the others in their order; if there is none, the list stays as it is.
pub get-IsSound :
    (key : ℕ) (self : MruList)
    → IsSound self
    → IsSound (get key self).0 × IsGet key self (get key self)
unfolding get
get-IsSound key self s = get_found-IsSound (find_key key self.il) key self refl s
