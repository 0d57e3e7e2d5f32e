-- ===== src/Version.antt =====
-- model/version.{h,cpp}: the version vector of a file. A counter is a device's short id and a
-- 64-bit value, whose top bit (BEST_MASK) marks the counter that the vector counts as its best.
pub mod Best
pub mod Wire
pub mod Update
use syncspirit.Prelude.{
  ℕ, zero, suc, ◌+◌, ◌-◌, ◌/◌, ◌%◌, ◌^◌, max, Bool, true, false, ◌&&◌, List, [], ◌∷◌, ◌++◌, map,
  Option, none, some, if◌then◌else◌, ltb, leb, ◌==◌, length, set, get_elem?,
}
use syncspirit.Prelude.Find.{any_of}

pub record Counter : Type 0 where
  pub id : ℕ  -- uint64
  pub value : ℕ  -- uint64

pub record Version : Type 0 where
  pub counters : List Counter

abbrev pub best_mask : ℕ
best_mask = 2 ^ 63

-- `value & BEST_MASK`, `value & ~BEST_MASK` and `value | BEST_MASK` on a uint64.
abbrev pub is_marked : ℕ → Bool
is_marked value = leb best_mask value

abbrev pub unmark : ℕ → ℕ
unmark value = value % best_mask

abbrev pub mark : ℕ → ℕ
mark value = if leb best_mask value then value else value + best_mask

-- The loop of `version_t(const proto::Vector &)`: the index of the best counter so far, and its value.
unfoldable pub find_best : List Counter → ℕ → ℕ → ℕ → ℕ
find_best [] i best_index best = best_index
find_best (c ∷ cs) i best_index best =
    find_best cs (suc i) (if ltb best c.value then i else best_index)
      (if ltb best c.value then c.value else best)

-- `proto::set_value(counters[i], … | BEST_MASK)`.
unfoldable pub mark_at : ℕ → List Counter → List Counter
mark_at i [] = []
mark_at zero (c ∷ cs) = record c { value = mark c.value } ∷ cs
mark_at (suc i) (c ∷ cs) = c ∷ mark_at i cs

-- `version_t(const proto::Vector &)`; `none` is the failed assertion on an empty vector.
unfoldable pub from_proto : List Counter → Option Version
from_proto [] = none
from_proto (c ∷ cs) = some (record { counters = mark_at (find_best (c ∷ cs) 0 0 c.value) (c ∷ cs) })

abbrev pub unmarked : Counter → Counter
unmarked c = record { id = c.id; value = unmark c.value }

-- `to_proto` and `as_proto`.
unfoldable pub to_proto : Version → List Counter
to_proto v = map unmarked v.counters

-- `v = std::max((value & ~BEST_MASK) + 1, v)` over the marked counters.
unfoldable pub next_value : List Counter → ℕ → ℕ
next_value [] v = v
next_value (c ∷ cs) v = next_value cs (if is_marked c.value then max (unmark c.value + 1) v else v)

-- The inner loop of `update`: the first counter of the device.
unfoldable pub index_of : ℕ → List Counter → Option ℕ
index_of id [] = none
index_of id (c ∷ cs) =
    if c.id == id then some 0 else elim (index_of id cs) [ none ↦ none | some i ↦ some (suc i) ]

-- `best_index` after the outer loop: the inner one runs only below a marked counter.
unfoldable pub update_index : ℕ → List Counter → Option ℕ
update_index id cs = if any_of (λ c. is_marked c.value) cs then index_of id cs else none

abbrev pub write_counter : Counter → Option ℕ → List Counter → List Counter
write_counter c none cs = cs ++ c ∷ []
write_counter c (some i) cs = set cs i c

-- `update(device)`, at the device's id and the clock's seconds.
unfoldable pub update : ℕ → ℕ → Version → Version
update id now v = record {
  counters =
      write_counter (record { id = id; value = mark (next_value v.counters now) })
        (update_index id v.counters) v.counters;
}

abbrev pub no_counter : Counter
no_counter = record { id = 0; value = 0 }

-- The loop of `get_best`: the last marked counter wins.
unfoldable pub last_marked : Counter → List Counter → Counter
last_marked r [] = r
last_marked r (c ∷ cs) = last_marked (if is_marked c.value then unmarked c else r) cs

unfoldable pub get_best : Version → Counter
unfolding last_marked
get_best v = last_marked no_counter v.counters

unfoldable pub covers : List Counter → Counter → Bool
covers [] best = false
covers (c ∷ cs) best = if c.id == best.id then leb best.value (unmark c.value) else covers cs best

-- `contains(other)`.
unfoldable pub contains : Version → Version → Bool
contains v other = covers v.counters (get_best other)

-- The loop of `identical_to`, over vectors of one size.
unfoldable pub same_counters : List Counter → List Counter → Bool
same_counters [] ds = true
same_counters (c ∷ cs) [] = true
same_counters (c ∷ cs) (d ∷ ds) =
    if c.id == d.id && unmark c.value == unmark d.value then same_counters cs ds else false

unfoldable pub identical_to : Version → Version → Bool
identical_to v w =
    if length v.counters == length w.counters then same_counters v.counters w.counters else false

-- `get_counters` builds a copy without the marks, and returns the member.
unfoldable pub get_counters : Version → List Counter
get_counters v = v.counters
