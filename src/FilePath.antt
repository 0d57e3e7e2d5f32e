-- ===== src/FilePath.antt =====
-- model/misc/path.{h,cpp}: a relative path kept as its text and the offsets of its elements but the
-- first. Which elements a text has is the matter of `std::filesystem::path`; the constructor takes
-- them as an argument.
pub mod Elements
use syncspirit.Prelude.{
  ℕ, zero, suc, ◌+◌, ◌-◌, Bool, true, false, ◌&&◌, List, [], ◌∷◌, ◌++◌, Option, none, some,
  if◌then◌else◌, ltb, leb, ◌==◌, length, get_elem?, take, drop,
}

pub record FilePath : Type 0 where
  pub name : List ℕ
  pub pieces : List ℕ

-- The loop of the constructor over the elements behind the first.
unfoldable pub offsets : ℕ → List (List ℕ) → List ℕ
offsets prev [] = []
offsets prev (e ∷ es) = (prev + 1) ∷ offsets (prev + (length e + 1)) es

unfoldable pub make_path : List ℕ → List ℕ → List (List ℕ) → FilePath
unfolding offsets
make_path full_name root es = record { name = full_name; pieces = offsets (length root) es }

unfoldable pub get_pieces_size : FilePath → ℕ
get_pieces_size p = length p.pieces + (if length p.name == 0 then 0 else 1)

abbrev pub back : List ℕ → ℕ → ℕ
back [] d = d
back (x ∷ xs) d = back xs x

unfoldable pub get_parent_name : FilePath → List ℕ
get_parent_name p = if length p.pieces == 0 then [] else take (back p.pieces 0 - 1) p.name

unfoldable pub get_own_name : FilePath → List ℕ
get_own_name p = if length p.pieces == 0 then p.name else drop (back p.pieces 0) p.name

-- `view.find(self) == 0`.
unfoldable pub starts_with : List ℕ → List ℕ → Bool
starts_with [] text = true
starts_with (c ∷ cs) [] = false
starts_with (c ∷ cs) (d ∷ ds) = c == d && starts_with cs ds

unfoldable pub contains : FilePath → FilePath → Bool
unfolding starts_with
contains p other = starts_with p.name other.name

abbrev pub piece_before : List ℕ → ℕ → ℕ
piece_before pieces zero = 0
piece_before [] (suc i) = 0
piece_before (x ∷ xs) (suc zero) = x
piece_before (x ∷ xs) (suc (suc i)) = piece_before xs (suc i)

-- `iterator_t::operator*` at a position.
unfoldable pub element_at : FilePath → ℕ → List ℕ
element_at p position =
    let b = piece_before p.pieces position in
    elim (get_elem? p.pieces position) [
      | none ↦ drop b p.name
      | some next ↦ take (next - 1 - b) (drop b p.name)
    ]

-- `operator++`: `none` is the end.
unfoldable pub next_position : FilePath → ℕ → Option ℕ
next_position p position =
    if ltb (length p.pieces) (position + 1) then none else some (position + 1)

-- The walk from `begin()` to `end()`.
unfoldable pub walk : FilePath → ℕ → ℕ → List (List ℕ)
unfolding element_at
walk p zero position = []
walk p (suc left) position = element_at p position ∷ walk p left (suc position)

unfoldable pub elements : FilePath → List (List ℕ)
unfolding walk
elements p = walk p (suc (length p.pieces)) 0
