-- ===== src/Version/Update.antt =====
-- model/version.cpp: what `update` does to the best counter and to the order of versions.
use syncspirit.Prelude.{
  ℕ, zero, suc, ◌+◌, ◌%◌, ◌^◌, ◌<◌, ◌≤◌, ◌≡◌, refl, sym, inl, inr, Bool, true, false, List, [], ◌∷◌,
  ◌++◌, Option, none, some, arith, length, set, drop, if◌then◌else◌, Option-cases, max,
}
use syncspirit.Prelude.Find.{All, any_of}
use syncspirit.Version.{
  Counter, Version, best_mask, unmarked, is_marked, unmark, mark, next_value, index_of,
  update_index, write_counter, update, no_counter, last_marked, get_best, covers, contains,
}

abbrev any_marked : List Counter → Bool
any_marked = any_of (λ c. is_marked c.value)

-- The counters behind the one that an update writes.
abbrev pub behind : Option ℕ → List Counter → List Counter
behind none cs = []
behind (some i) cs = drop (suc i) cs

last_marked-any :
    (r s : Counter) (cs : List Counter)
    → last_marked r cs ≡ (if any_marked cs then last_marked s cs else r)
unfolding last_marked
last_marked-any r s [] = refl
last_marked-any r s (c ∷ cs) = ground (
  arith,
  last_marked-any (if is_marked c.value then unmarked c else r)
      (if is_marked c.value then unmarked c else s) cs,
)

last_marked-append :
    (r : Counter) (cs : List Counter) (c : Counter)
    → is_marked c.value ≡ true
    → last_marked r (cs ++ c ∷ []) ≡ unmarked c
unfolding last_marked
last_marked-append r [] c h = ground arith
last_marked-append r (d ∷ cs) c h =
    last_marked-append (if is_marked d.value then unmarked d else r) cs c h

index_of-lt : (id : ℕ) (cs : List Counter) (i : ℕ) → index_of id cs ≡ some i → i < length cs
unfolding index_of
index_of-lt id [] i e = cc
index_of-lt id (c ∷ cs) i e = elim (Option-cases (index_of id cs)) [
  | inl absent ↦ ground arith
  | inr (j, found) ↦ ground (arith, index_of-lt id cs j found)
]

last_marked-set :
    (r : Counter) (cs : List Counter) (i : ℕ) (c : Counter)
    → i < length cs
    → is_marked c.value ≡ true
    → last_marked r (set cs i c)
      ≡ (if any_marked (drop (suc i) cs) then last_marked r cs else unmarked c)
unfolding last_marked
last_marked-set r [] i c l h = elim l [ ]
last_marked-set r (d ∷ cs) zero c l h =
    ground (arith, last_marked-any (unmarked c) (if is_marked d.value then unmarked d else r) cs)
last_marked-set r (d ∷ cs) (suc i) c l h =
    last_marked-set (if is_marked d.value then unmarked d else r) cs i c (omega arith) h

-- The larger of the clock and of one more than each marked value.
abbrev pub largest : ℕ → List Counter → ℕ
largest now [] = now
largest now (c ∷ cs) = max (if is_marked c.value then c.value % 2 ^ 63 + 1 else 0) (largest now cs)

-- A counter holds 63 bits below its mark.
abbrev pub written : ℕ → ℕ → Version → Counter
written id now v = record { id = id; value = largest now v.counters % 2 ^ 63 }

next_value-max : (cs : List Counter) (m v : ℕ) → next_value cs (max m v) ≡ max m (next_value cs v)
unfolding next_value
next_value-max [] m v = refl
next_value-max (c ∷ cs) m v = grind (
  arith,
  next_value-max cs m v,
  next_value-max cs m (max (unmark c.value + 1) v),
  next_value-max cs (unmark c.value + 1) v,
)

next_value-largest : (cs : List Counter) (now : ℕ) → next_value cs now ≡ largest now cs
unfolding next_value
next_value-largest [] now = refl
next_value-largest (c ∷ cs) now =
    ground (arith, next_value-largest cs now, next_value-max cs (unmark c.value + 1) now)

unmark-mark : (n : ℕ) → unmark (mark n) ≡ n % 2 ^ 63
unmark-mark n = ground arith

get_best-write :
    (v : Version) (c : Counter) (target : Option ℕ)
    → ((i : ℕ) → target ≡ some i → i < length v.counters)
    → is_marked c.value ≡ true
    → get_best (record { counters = write_counter c target v.counters })
      ≡ (if any_marked (behind target v.counters) then get_best v else unmarked c)
unfolding get_best
get_best-write v c none h m = last_marked-append no_counter v.counters c m
get_best-write v c (some i) h m = last_marked-set no_counter v.counters i c (h i refl) m

update_index-lt : (id : ℕ) (cs : List Counter) (i : ℕ) → update_index id cs ≡ some i → i < length cs
unfolding update_index
update_index-lt id cs i e = ground (arith, index_of-lt id cs i)

-- After an update the best counter is the one that the update wrote, under the device's id and with
-- the larger of the clock's value and of one more than each marked value, cut to 63 bits; unless a
-- marked counter stands behind the written one: then the best counter is the old one.
pub update-get_best :
    (id now : ℕ) (v : Version)
    → get_best (update id now v) ≡ (
        if any_of (λ c. is_marked c.value) (behind (update_index id v.counters) v.counters)
        then get_best v
        else written id now v)
unfolding update
update-get_best id now v = rw (sym (unmark-next_value v.counters now)) (
    get_best-write v (record { id = id; value = mark (next_value v.counters now) })
      (update_index id v.counters) (update_index-lt id v.counters) (ground arith))
  where
    unmark-next_value :
        (cs : List Counter) (n : ℕ) → unmark (mark (next_value cs n)) ≡ largest n cs % 2 ^ 63
    unmark-next_value cs n = rw (unmark-mark (next_value cs n), next_value-largest cs n) refl

-- The clock and every marked value lie below the value that an update writes.
next_value-le : (cs : List Counter) (v : ℕ) → v ≤ next_value cs v
unfolding next_value
next_value-le [] v = omega arith
next_value-le (c ∷ cs) v =
    ground (arith, next_value-le cs (if is_marked c.value then max (unmark c.value + 1) v else v))

last_marked-lt-next_value :
    (r : Counter) (cs : List Counter) (v : ℕ)
    → r.value < v
    → (last_marked r cs).value < next_value cs v
unfolding last_marked next_value
last_marked-lt-next_value r [] v h = h
last_marked-lt-next_value r (c ∷ cs) v h =
    last_marked-lt-next_value (if is_marked c.value then unmarked c else r) cs
      (if is_marked c.value then max (unmark c.value + 1) v else v) (ground arith)

get_best-lt-next_value :
    (v : Version) (now : ℕ) → 0 < now → (get_best v).value < next_value v.counters now
unfolding get_best
get_best-lt-next_value v now h = last_marked-lt-next_value no_counter v.counters now h

covers-append :
    (cs : List Counter) (c b : Counter) → covers cs b ≡ true → covers (cs ++ c ∷ []) b ≡ true
unfolding covers
covers-append [] c b h = cc
covers-append (d ∷ cs) c b h = ground (arith, covers-append cs c b)

covers-set :
    (cs : List Counter) (i : ℕ) (c b : Counter)
    → index_of c.id cs ≡ some i
    → b.value ≤ unmark c.value
    → covers cs b ≡ true
    → covers (set cs i c) b ≡ true
unfolding covers index_of
covers-set [] i c b e l h = cc
covers-set (d ∷ cs) zero c b e l h = ground arith
covers-set (d ∷ cs) (suc i) c b e l h = elim (Option-cases (index_of c.id cs)) [
  | inl absent ↦ ground arith
  | inr (j, found) ↦ ground (arith, covers-set cs i c b)
]

covers-write :
    (cs : List Counter) (target : Option ℕ) (c b : Counter)
    → ((i : ℕ) → target ≡ some i → index_of c.id cs ≡ some i)
    → b.value ≤ unmark c.value
    → covers cs b ≡ true
    → covers (write_counter c target cs) b ≡ true
covers-write cs none c b t l h = covers-append cs c b h
covers-write cs (some i) c b t l h = covers-set cs i c b (t i refl) l h

update_index-index_of :
    (id : ℕ) (cs : List Counter) (i : ℕ) → update_index id cs ≡ some i → index_of id cs ≡ some i
unfolding update_index
update_index-index_of id cs i e = ground arith

-- What a version contains, its update contains: no update loses what the file had seen. The clock
-- is past its epoch, and the new value fits below the mark.
pub contains-update :
    (id now : ℕ) (v w : Version)
    → 0 < now
    → next_value v.counters now < best_mask
    → (get_best w).value ≤ next_value v.counters now
    → contains v w ≡ true
    → contains (update id now v) w ≡ true
unfolding contains update
contains-update id now v w p b l h =
    covers-write v.counters (update_index id v.counters)
      (record { id = id; value = mark (next_value v.counters now) }) (get_best w)
      (update_index-index_of id v.counters) (ground arith) h

-- No counter of the vector is above its best one.
abbrev pub IsTopped : Version → Type 0
IsTopped v = All (λ c. unmark c.value ≤ (get_best v).value) v.counters

covers_above :
    (n : ℕ) (cs : List Counter) (b : Counter)
    → All (λ c. unmark c.value ≤ n) cs
    → n < b.value
    → covers cs b ≡ false
unfolding covers
covers_above n [] b a l = refl
covers_above n (c ∷ cs) b a l = ground (arith, covers_above n cs b a.1 l)

-- An update makes a version that contains the old one and is not contained in it, where the clock
-- is past 0, the value that the update writes is less than 2 ^ 63, no counter is above the best
-- one, the old version contains itself, and no marked counter stands behind the written one.
pub update_supersedes :
    (id now : ℕ) (v : Version)
    → 0 < now
    → next_value v.counters now < best_mask
    → IsTopped v
    → contains v v ≡ true
    → any_of (λ c. is_marked c.value) (behind (update_index id v.counters) v.counters) ≡ false
    → (contains (update id now v) v ≡ true) × (contains v (update id now v) ≡ false)
unfolding contains
update_supersedes id now v p b t c e = (
  contains-update id now v v p b (omega (arith, get_best-lt-next_value v now p)) c,
  covers_above (get_best v).value v.counters (get_best (update id now v)) t (
      ground (
        arith,
        update-get_best id now v,
        next_value-largest v.counters now,
        get_best-lt-next_value v now p,
      )),
)
