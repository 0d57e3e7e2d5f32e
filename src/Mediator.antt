-- ===== src/Mediator.antt =====
-- fs/updates_mediator.{h,cpp}: the changes on disk that the program makes itself, so that the watcher
-- can tell them from those of others. Paths are texts, times are numbers (none is
-- `not_a_date_time`), and an ordered set of updates is a list with one entry for a path.
pub mod Counts
pub mod Expiry
use syncspirit.Prelude.{
  ℕ, zero, suc, ◌+◌, ◌-◌, ◌%◌, ◌^◌, Bool, true, false, not, ◌&&◌, ◌||◌, List, [], ◌∷◌, Option, none,
  some, if◌then◌else◌, ltb, leb, ◌==◌, length,
}
use syncspirit.File.Wire.{same_text}
use syncspirit.FsUtils.{is_temporal}

-- `file_update_t`, as the mediator uses it.
pub record FileUpdate : Type 0 where
  pub path : List ℕ
  pub update_type : ℕ  -- uint32, a number of events here

pub record Updates : Type 0 where
  pub updates : List FileUpdate
  pub deadline : Option ℕ

pub record Mediator : Type 0 where
  pub interval : ℕ
  pub next : Updates
  pub postponed : Updates
  pub enabled : Bool

-- `updates.find(path)`, as the count of its entry.
unfoldable pub find_update : List ℕ → List FileUpdate → Option ℕ
find_update path [] = none
find_update path (u ∷ us) =
    if same_text u.path path then some u.update_type else find_update path us

unfoldable pub erase_update : List ℕ → List FileUpdate → List FileUpdate
erase_update path [] = []
erase_update path (u ∷ us) = if same_text u.path path then us else u ∷ erase_update path us

-- The lambda `insert`: a new entry, or `update_type += counter`.
unfoldable pub insert_update : List ℕ → ℕ → List FileUpdate → List FileUpdate
insert_update path counter [] = record { path = path; update_type = counter } ∷ []
insert_update path counter (u ∷ us) =
    if same_text u.path path
    then record u { update_type = (u.update_type + counter) % 2 ^ 32 } ∷ us
    else u ∷ insert_update path counter us

-- `it->update_type--`, and the entry is erased at 0.
unfoldable pub take_event : List ℕ → List FileUpdate → List FileUpdate
take_event path [] = []
take_event path (u ∷ us) =
    if same_text u.path path
    then (if (u.update_type + 2 ^ 32 - 1) % 2 ^ 32 == 0
        then us
        else record u { update_type = (u.update_type + 2 ^ 32 - 1) % 2 ^ 32 } ∷ us)
    else u ∷ take_event path us

abbrev pub insert_into : List ℕ → ℕ → Updates → Updates
insert_into path counter t = record t { updates = insert_update path counter t.updates }

-- Both inserts, of the path and of the one that it is moved from.
abbrev pub insert_both : List ℕ → List ℕ → ℕ → Updates → Updates
insert_both path prev_path counter t =
    if not (length prev_path == 0) && not (is_temporal prev_path)
    then insert_into prev_path counter (insert_into path counter t)
    else insert_into path counter t

abbrev pub same_time : Option ℕ → ℕ → Bool
same_time none t = false
same_time (some d) t = d == t

abbrev pub later : Option ℕ → ℕ → Option ℕ
later none interval = none
later (some d) interval = some (d + interval)

-- The events of the path that wait in `next` and move with it.
abbrev pub moved_counter : List ℕ → List FileUpdate → ℕ
moved_counter path us = elim (find_update path us) [ none ↦ 1 | some n ↦ (1 + n) % 2 ^ 32 ]

abbrev pub mask_postponed : List ℕ → List ℕ → Mediator → Mediator
mask_postponed path prev_path m =
    let target =
      if length m.postponed.updates == 0
      then record m.postponed { deadline = later m.next.deadline m.interval }
      else m.postponed in
    record m {
      next = record m.next { updates = erase_update path m.next.updates };
      postponed = insert_both path prev_path (moved_counter path m.next.updates) target;
    }

unfoldable pub mask : List ℕ → List ℕ → ℕ → Mediator → Mediator
unfolding find_update erase_update insert_update
mask path prev_path deadline m =
    if not m.enabled
    then m
    else if is_temporal path
    then m
    else if same_time m.next.deadline deadline
    then record m { next = insert_both path prev_path 1 m.next }
    else elim m.next.deadline [
      | none ↦ record m {
        next = insert_both path prev_path 1 (record m.next { deadline = some deadline });
      }
      | some d ↦ mask_postponed path prev_path m
    ]

-- One turn of the loop of `is_masked` over the two sets.
unfoldable pub events_in : List ℕ → Updates → Option ℕ
events_in path t = elim t.deadline [ none ↦ none | some d ↦ find_update path t.updates ]

abbrev pub without_event : List ℕ → Updates → Updates
without_event path t = record t { updates = take_event path t.updates }

-- The new state, and the number of events that were expected for the path.
unfoldable pub is_masked : List ℕ → Mediator → Mediator × ℕ
unfolding events_in take_event
is_masked path m = elim (events_in path m.postponed) [
  | some events ↦ (record m { postponed = without_event path m.postponed }, events)
  | none ↦ elim (events_in path m.next) [
    | some events ↦ (record m { next = without_event path m.next }, events)
    | none ↦ (m, 0)
  ]
]

abbrev pub no_updates : Updates
no_updates = record { updates = []; deadline = none }

-- `next` is emptied and swapped with `postponed`; whether anything is left to expire.
unfoldable pub clean_expired : Mediator → Mediator × Bool
clean_expired m =
    (record m { next = m.postponed; postponed = no_updates }, not (length m.postponed.updates == 0))

unfoldable pub enable : Bool → Mediator → Mediator
enable value m = record m { enabled = value }
