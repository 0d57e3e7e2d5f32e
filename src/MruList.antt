-- ===== src/MruList.antt =====
-- model/misc/lru_cache.hpp (`mru_list_t`): the most recently used items, the newest first. An item
-- is known by its key, which two items of the list never share.
pub mod Recent
use syncspirit.Prelude.{
  ℕ, zero, suc, ◌+◌, Bool, true, false, not, List, [], ◌∷◌, Option, none, some, if◌then◌else◌, ltb,
  ◌==◌, length,
}
use syncspirit.Prelude.Find.{find_if, keep_if}

-- An item: what `get_lru_key` gives for it, and the rest of it.
pub record Item : Type 0 where
  pub key : ℕ
  pub value : ℕ

pub record MruList : Type 0 where
  pub il : List Item
  pub max_items : ℕ

abbrev pub find_key : ℕ → List Item → Option Item
find_key key = find_if (λ item. item.key == key)

unfoldable pub erase_key : ℕ → List Item → List Item
erase_key key = keep_if (λ item. not (item.key == key))

unfoldable pub pop_back : List Item → List Item
pop_back [] = []
pop_back (item ∷ []) = []
pop_back (item ∷ next ∷ items) = item ∷ pop_back (next ∷ items)

-- `relocate(begin, position)` of the item that was found.
unfoldable pub move_front : Item → List Item → List Item
unfolding erase_key
move_front item il = item ∷ erase_key item.key il

unfoldable pub push : Item → ℕ → List Item → List Item
unfolding pop_back
push item max_items il =
    if ltb max_items (length (item ∷ il)) then pop_back (item ∷ il) else item ∷ il

unfoldable pub put_found : Option Item → Item → MruList → MruList
unfolding move_front push
put_found (some old) item self = record self { il = move_front old self.il }
put_found none item self = record self { il = push item self.max_items self.il }

-- A duplicate stays as it is and comes to the front.
unfoldable pub put : Item → MruList → MruList
unfolding put_found
put item self = put_found (find_key item.key self.il) item self

unfoldable pub remove : Item → MruList → MruList
unfolding erase_key
remove item self = record self { il = erase_key item.key self.il }

unfoldable pub get_found : Option Item → MruList → MruList × Option Item
unfolding move_front
get_found (some item) self = (record self { il = move_front item self.il }, some item)
get_found none self = (self, none)

-- The empty item that the code returns for a missing key is `none`.
unfoldable pub get : ℕ → MruList → MruList × Option Item
unfolding get_found
get key self = get_found (find_key key self.il) self

unfoldable pub clear : MruList → MruList
clear self = record self { il = [] }
