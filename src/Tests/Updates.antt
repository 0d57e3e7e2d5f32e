-- ===== src/Tests/Updates.antt =====
-- Runs of fs/updates_mediator.cpp.
use syncspirit.Prelude.{ℕ, ◌≡◌, refl, true, false, List, [], ◌∷◌, some, arith}
use syncspirit.Mediator.{Mediator, clean_expired, find_update}
use syncspirit.Mediator.Counts.{expected}
use syncspirit.Mediator.Expiry.{IsSound, expected-clean_expired}

abbrev file_a : List ℕ
file_a = b'a' ∷ []

-- One event of `a` is expected before time 5, and one later.
abbrev waiting : Mediator
waiting = record {
  interval = 10;
  next = record { updates = record { path = file_a; update_type = 1 } ∷ []; deadline = some 5 };
  postponed = record {
    updates = record { path = file_a; update_type = 1 } ∷ [];
    deadline = some 15;
  };
  enabled = true;
}

waiting-IsSound : IsSound waiting
unfolding find_update
waiting-IsSound = record {
  next_proper = (refl, omega arith, omega arith, tt);
  next_dated = λ e. cc;
  postponed_proper = (refl, omega arith, omega arith, tt);
  postponed_dated = λ e. cc;
}

expected-clean_expired_example :
    (expected file_a (clean_expired (clean_expired waiting).0).0 ≡ 0)
    × ((clean_expired waiting).1 ≡ false → expected file_a (clean_expired waiting).0 ≡ 0)
expected-clean_expired_example = expected-clean_expired file_a waiting
