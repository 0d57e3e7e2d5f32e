-- ===== src/ClusterUpdate/Steps.antt =====
-- model/diff/peer/cluster_update.cpp: what holds of a result if there is one, and loops that keep it.
use syncspirit.Prelude.{
  inl, inr, ◌≡◌, sym, refl, subst, Bool, true, false, if◌then◌else◌, List, [], ◌∷◌,
}
use syncspirit.Prelude.Find.{Any}
use syncspirit.ClusterUpdate.{Outcome, ok, err, ◌>>=◌, State}
use syncspirit.ClusterUpdate.Passes.{for_each}

-- What holds of the state, unless there is an error.
abbrev pub Holds : {A : Type 0} → (A → Type 0) → Outcome A → Type 0
Holds P (ok a) = P a
Holds P (err e) = Unit

module _ {A B : Type 0} where
  pub Holds-bind :
      (P : A → Type 0) (Q : B → Type 0) (o : Outcome A) (f : A → Outcome B)
      → Holds P o
      → ((a : A) → P a → Holds Q (f a))
      → Holds Q (o >>= f)
  Holds-bind P Q (ok a) f h k = k a h
  Holds-bind P Q (err e) f h k = tt

module _ {A : Type 0} where
  pub Holds-if :
      (P : A → Type 0) (b : Bool) (o r : Outcome A)
      → (b ≡ true → Holds P o)
      → (b ≡ false → Holds P r)
      → Holds P (if b then o else r)
  Holds-if P true o r h k = h refl
  Holds-if P false o r h k = k refl

  pub Holds-any : (P : A → Type 0) (o : Outcome A) → ((a : A) → P a) → Holds P o
  Holds-any P (ok a) h = h a
  Holds-any P (err e) h = tt

module _ {A : Type 0} (step : A → State → Outcome State) where
  -- What each step keeps, the loop keeps.
  pub Holds-for_each :
      (P : State → Type 0) (xs : List A) (s : State)
      → ((x : A) (t : State) → P t → Holds P (step x t))
      → P s
      → Holds P (for_each step xs s)
  unfolding for_each
  Holds-for_each P [] s h p = p
  Holds-for_each P (x ∷ xs) s h p =
      Holds-bind P P (step x s) (for_each step xs) (h x s p) (λ t. Holds-for_each P xs t h)

  -- What the step of one entry reaches and each step keeps holds after the loop.
  pub for_each_reached :
      (P : State → Type 0) (y : A) (xs : List A) (s : State)
      → Any (λ x. x ≡ y) xs
      → ((t : State) → Holds P (step y t))
      → ((x : A) (t : State) → P t → Holds P (step x t))
      → Holds P (for_each step xs s)
  unfolding for_each
  for_each_reached P y [] s m h k = elim m [ ]
  for_each_reached P y (x ∷ xs) s (inl here) h k =
      Holds-bind P P (step x s) (for_each step xs)
        (subst (λ z. Holds P (step z s)) (sym here) (h s)) (λ t. Holds-for_each P xs t k)
  for_each_reached P y (x ∷ xs) s (inr m) h k =
      Holds-bind (λ t. Unit {0}) P (step x s) (for_each step xs)
        (Holds-any (λ t. Unit {0}) (step x s) (λ t. tt)) (λ t u. for_each_reached P y xs t m h k)
