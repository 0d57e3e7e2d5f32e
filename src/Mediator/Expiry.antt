-- ===== src/Mediator/Expiry.antt =====
-- fs/updates_mediator.cpp: what is masked is told once for each event, and expires.
use syncspirit.Prelude.{
  ℕ, ◌+◌, ◌-◌, ◌<◌, ◌^◌, ◌≡◌, refl, true, false, List, [], ◌∷◌, none, some, arith, Bool-cases, inl,
  inr, ◌⊎◌, ◌==◌, length, ◌↔◌, Option-cases,
}
use syncspirit.File.Wire.{same_text}
use syncspirit.FsUtils.{is_temporal}
use syncspirit.Mediator.{
  FileUpdate, Updates, Mediator, find_update, mask, take_event, is_masked, clean_expired,
  moved_counter,
}
use syncspirit.Mediator.Counts.{
  IsProper, expected, count_in-insert, count_in-erase, count_in-take_event, insert_update-IsProper,
  erase_update-IsProper, take_event-IsProper, one_if, same_text_iff,
}

abbrev pub IsDated : Updates → Type 0
IsDated t = t.deadline ≡ none → t.updates ≡ []

pub record IsSound (m : Mediator) : Type 0 where
  pub next_proper : IsProper m.next.updates
  pub next_dated : IsDated m.next
  pub postponed_proper : IsProper m.postponed.updates
  pub postponed_dated : IsDated m.postponed

find_update-cases :
    (p : List ℕ) (us : List FileUpdate)
    → IsProper us
    → (find_update p us ≡ none) ⊎ ((n : ℕ) × (find_update p us ≡ some n) × (0 < n))
unfolding find_update
find_update-cases p [] h = inl refl
find_update-cases p (u ∷ us) h = elim (Bool-cases (same_text u.path p)) [
  | inl hit ↦ inr (u.update_type, rw hit, h.1)
  | inr miss ↦ rw miss (find_update-cases p us h.3)
]

dated_cases :
    (t : Updates)
    → IsDated t
    → ((t.deadline ≡ none) × (t.updates ≡ [])) ⊎ ((d : ℕ) × (t.deadline ≡ some d))
dated_cases t h = elim (Option-cases t.deadline) [
  | inl undated ↦ inl (undated, h undated)
  | inr (d, dated) ↦ inr (d, dated)
]

-- A change of one's own to a path adds one event to those expected of it, wherever it is kept, and
-- none to those of the others; and the mediator stays sound.
pub expected-mask :
    (p q : List ℕ) (deadline : ℕ) (m : Mediator)
    → IsSound m
    → m.enabled ≡ true
    → is_temporal p ≡ false
    → expected p m + 1 < 2 ^ 32
    → IsSound (mask p [] deadline m)
      × (expected q (mask p [] deadline m) ≡ expected q m + one_if (same_text p q))
unfolding mask
expected-mask p q deadline m s on lasting room =
    let moved : ℕ = moved_counter p m.next.updates in
    ground (
      arith,
      count_in-insert p q 1 m.next.updates,
      count_in-insert p q moved m.postponed.updates,
      count_in-erase p q m.next.updates s.next_proper,
      insert_update-IsProper p 1 m.next.updates,
      insert_update-IsProper p moved m.postponed.updates,
      erase_update-IsProper p m.next.updates s.next_proper,
      same_text_iff p q,
    )

-- Asking for a path tells how many events of it are expected, 0 exactly if there are none, and takes
-- one of them off; nothing changes for the other paths.
pub expected-is_masked :
    (p q : List ℕ) (m : Mediator)
    → IsSound m
    → IsSound (is_masked p m).0
      × (expected q (is_masked p m).0 ≡ expected q m - one_if (same_text p q))
      × (((is_masked p m).1 ≡ 0) ↔ (expected p m ≡ 0))
unfolding is_masked find_update take_event
expected-is_masked p q m s = ground (
  arith,
  count_in-take_event p q m.next.updates s.next_proper,
  count_in-take_event p q m.postponed.updates s.postponed_proper,
  take_event-IsProper p m.next.updates s.next_proper,
  take_event-IsProper p m.postponed.updates s.postponed_proper,
  same_text_iff p q,
  find_update-cases p m.next.updates s.next_proper,
  find_update-cases p m.postponed.updates s.postponed_proper,
  dated_cases m.next s.next_dated,
  dated_cases m.postponed s.postponed_dated,
)

empty_of_length : (us : List FileUpdate) → (length us == 0) ≡ true → us ≡ []
empty_of_length [] h = refl
empty_of_length (u ∷ us) h = ground arith

-- After two expiries no event is expected any more, and after one that answers with false neither.
pub expected-clean_expired :
    (q : List ℕ) (m : Mediator)
    → (expected q (clean_expired (clean_expired m).0).0 ≡ 0)
      × ((clean_expired m).1 ≡ false → expected q (clean_expired m).0 ≡ 0)
unfolding clean_expired find_update
expected-clean_expired q m = ground (arith, empty_of_length m.postponed.updates)
