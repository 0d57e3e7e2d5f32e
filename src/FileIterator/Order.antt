-- ===== src/FileIterator/Order.antt =====
-- model/misc/file_iterator.cpp: the comparator of a queue never puts two files before each other.
use syncspirit.Prelude.{
  ℕ, ◌≡◌, refl, Bool, true, false, not, ◌&&◌, List, [], ◌∷◌, arith, if◌then◌else◌, ltb, ◌==◌,
  Bool-cases, inl, inr,
}
use syncspirit.File.{FileInfo}
use syncspirit.File.Wire.{Blocks, get_size}
use syncspirit.FileIterator.{
  PullOrder, random, alphabetic, smallest, largest, oldest, newest, char_key, text_less,
  blocks_total, ordered_before, file_less,
}

ltb_asym : (a b : ℕ) → ltb a b ≡ true → ltb b a ≡ false
ltb_asym a b h = ground arith

text_less_asym : (s t : List ℕ) → text_less s t ≡ true → text_less t s ≡ false
unfolding text_less
text_less_asym s [] = λ h. absurd cc
text_less_asym [] (d ∷ ds) = λ h. refl
text_less_asym (c ∷ cs) (d ∷ ds) = elim (Bool-cases (ltb (char_key c) (char_key d))) [
  | inl before ↦ rw (before, ltb_asym (char_key c) (char_key d) before) (λ h. refl)
  | inr other ↦ elim (Bool-cases (ltb (char_key d) (char_key c))) [
    | inl after ↦ rw (other, after) (λ h. absurd cc)
    | inr same ↦ rw (other, same) (text_less_asym cs ds)
  ]
]

ordered_before_asym :
    (order : PullOrder) (store : Blocks) (l r : FileInfo)
    → ordered_before order store l r ≡ true
    → ordered_before order store r l ≡ false
unfolding ordered_before
ordered_before_asym newest store l r h = ground (arith, h)
ordered_before_asym oldest store l r h = ground (arith, h)
ordered_before_asym smallest store l r h = ltb_asym (get_size store l) (get_size store r) h
ordered_before_asym largest store l r h = ltb_asym (get_size store r) (get_size store l) h
ordered_before_asym random store l r h = absurd cc
ordered_before_asym alphabetic store l r h = absurd cc

-- The tests of the comparator, with the answers of both orders.
abbrev combined : Bool → Bool → Bool → Bool → Bool → Bool
combined le re before after name =
    if le && not re
    then true
    else if re && not le
    then false
    else if before
    then true
    else if after
    then false
    else name

combined_asym :
    (le re before after name other : Bool)
    → (before ≡ true → after ≡ false)
    → (name ≡ true → other ≡ false)
    → combined le re before after name ≡ true
    → combined re le after before other ≡ false
combined_asym true false before after name other b n h = refl
combined_asym false true before after name other b n h = absurd cc
combined_asym true true true true name other b n h = b refl
combined_asym true true true false name other b n h = refl
combined_asym true true false true name other b n h = absurd cc
combined_asym true true false false name other b n h = n h
combined_asym false false true true name other b n h = b refl
combined_asym false false true false name other b n h = refl
combined_asym false false false true name other b n h = absurd cc
combined_asym false false false false name other b n h = n h

-- Of two files at most one is before the other, whatever the order of the folder, so no file is
-- before itself.
pub file_less_asym :
    (order : PullOrder) (store : Blocks) (l r : FileInfo)
    → file_less order store l r ≡ true
    → file_less order store r l ≡ false
unfolding file_less
file_less_asym order store l r h =
    combined_asym (blocks_total l == 0) (blocks_total r == 0) (ordered_before order store l r)
      (ordered_before order store r l) (text_less l.name r.name) (text_less r.name l.name)
      (ordered_before_asym order store l r) (text_less_asym l.name r.name) h
