-- ===== src/Prelude/Pairs.antt =====
-- Two lists side by side: what a loop selects from its input, and what it makes of each element.
use mathlib.Core.Path.{◌≡◌, refl, ap}
use mathlib.Core.Logic.{◌↔◌, inl, inr}
use mathlib.Core.Bool.{Bool, true, ◌&&◌}
use mathlib.Core.List.{List, [], ◌∷◌, map}
use kubeguard.Prelude.Tests.{Bool-cases, false-true}
use mathlib.Core.Path.{sym, ◌∙◌}
use kubeguard.Prelude.Lists.{filter}

-- The second list has the elements of the first that have the property, in their order.
pub data IsSelection {A : Type 0} (P : A → Type 0) : List A → List A → Type 0 where
  nothing : IsSelection P [] []
  kept : {x : A} {xs ys : List A} → P x → IsSelection P xs ys → IsSelection P (x ∷ xs) (x ∷ ys)
  skipped : {x : A} {xs ys : List A} → ¬ P x → IsSelection P xs ys → IsSelection P (x ∷ xs) ys

pub filter-IsSelection :
    {A : Type 0} (P : A → Type 0) (p : A → Bool)
    → ((x : A) → (p x ≡ true) ↔ P x)
    → (xs : List A) → IsSelection P xs (filter p xs)
unfolding filter
filter-IsSelection P p f [] = IsSelection.nothing
filter-IsSelection P p f (x ∷ xs) = elim (Bool-cases (p x)) [
  | inl y ↦ rw y (IsSelection.kept ((f x).0 y) (filter-IsSelection P p f xs))
  | inr n ↦
      rw n (IsSelection.skipped (λ h. false-true (sym n ∙ (f x).1 h)) (filter-IsSelection P p f xs))
]

-- Two selections, one after the other.
pub filter-filter :
    {A : Type 0} (p q : A → Bool) (xs : List A)
    → filter q (filter p xs) ≡ filter (λ x. p x && q x) xs
unfolding filter
filter-filter p q [] = refl
filter-filter p q (x ∷ xs) = elim (Bool-cases (p x)) [
  | inl y ↦ elim (Bool-cases (q x)) [
    | inl z ↦ rw (y, filter, z) (ap (λ l. x ∷ l) (filter-filter p q xs))
    | inr z ↦ rw (y, filter, z) (filter-filter p q xs)
  ]
  | inr n ↦ rw (n, filter) (filter-filter p q xs)
]

-- The lists are as long as each other, and related place by place.
abbrev pub AllPairs : {A B : Type 0} → (A → B → Type 0) → List A → List B → Type 0
AllPairs R [] [] = Unit
AllPairs R [] (y ∷ ys) = ⊥
AllPairs R (x ∷ xs) [] = ⊥
AllPairs R (x ∷ xs) (y ∷ ys) = R x y × AllPairs R xs ys

pub map-AllPairs :
    {A B : Type 0} (R : A → B → Type 0) (f : A → B)
    → ((x : A) → R x (f x))
    → (xs : List A) → AllPairs R xs (map f xs)
map-AllPairs R f h [] = tt
map-AllPairs R f h (x ∷ xs) = (h x, map-AllPairs R f h xs)
