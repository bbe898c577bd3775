-- ===== src/Prelude/Lists.antt =====
-- Loops over lists as functions into `Bool`, and the predicates by recursion that they decide.
use Prim.Native.Nat.{ℕ, suc, ◌+◌}
use mathlib.Core.Path.{◌≡◌, refl, ap}
use mathlib.Core.Logic.{◌⊎◌, inl, inr, ◌↔◌}
use mathlib.Core.Bool.{Bool, true, false, ◌&&◌, ◌||◌}
use mathlib.Core.Option.{Option, none, some}
use mathlib.Core.List.{List, [], ◌∷◌, ◌++◌, map}
use native.Mathlib.Omega.{arith}
use kubeguard.Prelude.Tests.{if◌then◌else◌, Bool-cases}

module _ {ℓ} {A : Type ℓ} where
  abbrev pub length : List A → ℕ
  length [] = 0
  length (x ∷ xs) = suc (length xs)

  -- `for x { if p(x) { return true } }; return false`
  unfoldable pub any : (A → Bool) → List A → Bool
  any p [] = false
  any p (x ∷ xs) = p x || any p xs

  -- `for x { if !p(x) { return false } }; return true`
  unfoldable pub all : (A → Bool) → List A → Bool
  all p [] = true
  all p (x ∷ xs) = p x && all p xs

  -- `for x { if p(x) { out = append(out, x) } }`
  unfoldable pub filter : (A → Bool) → List A → List A
  filter p [] = []
  filter p (x ∷ xs) = let rest = filter p xs in if p x then x ∷ rest else rest

  -- `for x { if p(x) { return x, true } }`
  unfoldable pub find : (A → Bool) → List A → Option A
  find p [] = none
  find p (x ∷ xs) = let rest = find p xs in if p x then some x else rest

  pub length-append : (xs ys : List A) → length (xs ++ ys) ≡ length xs + length ys
  length-append [] ys = omega arith
  length-append (x ∷ xs) ys = omega (arith, length-append xs ys)

module _ {ℓ κ} {A : Type ℓ} {B : Type κ} where
  -- `for x { out = append(out, f(x)...) }`
  unfoldable pub flat_map : (A → List B) → List A → List B
  flat_map f [] = []
  flat_map f (x ∷ xs) = f x ++ flat_map f xs

  pub length-map : (f : A → B) (xs : List A) → length (map f xs) ≡ length xs
  length-map f [] = refl
  length-map f (x ∷ xs) = ap suc (length-map f xs)

module _ {ℓ} {A : Type ℓ} (P : A → Type 0) where
  -- Every element satisfies `P`.
  abbrev pub All : List A → Type 0
  All [] = Unit
  All (x ∷ xs) = P x × All xs

  -- Some element satisfies `P`, with its place.
  abbrev pub Any : List A → Type 0
  Any [] = ⊥
  Any (x ∷ xs) = P x ⊎ Any xs

  pub All-append : (xs ys : List A) → All xs → All ys → All (xs ++ ys)
  All-append [] ys h k = k
  All-append (x ∷ xs) ys h k = (h.0, All-append xs ys h.1 k)

  pub Any-append_left : (xs ys : List A) → Any xs → Any (xs ++ ys)
  Any-append_left [] ys h = elim h [ ]
  Any-append_left (x ∷ xs) ys (inl h) = inl h
  Any-append_left (x ∷ xs) ys (inr h) = inr (Any-append_left xs ys h)

  pub Any-append_right : (xs ys : List A) → Any ys → Any (xs ++ ys)
  Any-append_right [] ys h = h
  Any-append_right (x ∷ xs) ys h = inr (Any-append_right xs ys h)

  pub Any-append_cases : (xs ys : List A) → Any (xs ++ ys) → Any xs ⊎ Any ys
  Any-append_cases [] ys h = inr h
  Any-append_cases (x ∷ xs) ys (inl h) = inl (inl h)
  Any-append_cases (x ∷ xs) ys (inr h) = elim (Any-append_cases xs ys h) [
    | inl a ↦ inl (inr a)
    | inr b ↦ inr b
  ]

-- `a` stands in the list.
abbrev pub In : {A : Type 0} → A → List A → Type 0
In a xs = Any (λ x. x ≡ a) xs

module _ {ℓ} {A : Type ℓ} {P Q : A → Type 0} where
  pub All-imp : ((x : A) → P x → Q x) → (xs : List A) → All P xs → All Q xs
  All-imp f [] h = tt
  All-imp f (x ∷ xs) h = (f x h.0, All-imp f xs h.1)

  pub Any-imp : ((x : A) → P x → Q x) → (xs : List A) → Any P xs → Any Q xs
  Any-imp f [] h = elim h [ ]
  Any-imp f (x ∷ xs) (inl h) = inl (f x h)
  Any-imp f (x ∷ xs) (inr h) = inr (Any-imp f xs h)

  -- What holds of every element and what holds of some meet at one element.
  pub Any-and_All :
      {R : A → Type 0}
      → ((x : A) → P x → Q x → R x)
      → (xs : List A) → All P xs
      → Any Q xs
      → Any R xs
  Any-and_All f [] h k = elim k [ ]
  Any-and_All f (x ∷ xs) h (inl k) = inl (f x h.0 k)
  Any-and_All f (x ∷ xs) h (inr k) = inr (Any-and_All f xs h.1 k)

module _ {A : Type 0} {P : A → Type 0} where
  pub Any-witness : (xs : List A) → Any P xs → (a : A) × In a xs × P a
  Any-witness [] h = elim h [ ]
  Any-witness (x ∷ xs) (inl h) = (x, inl refl, h)
  Any-witness (x ∷ xs) (inr h) = let (a, i, p) = Any-witness xs h in (a, inr i, p)

  pub All-of_In : (xs : List A) → ((a : A) → In a xs → P a) → All P xs
  All-of_In [] f = tt
  All-of_In (x ∷ xs) f = (f x (inl refl), All-of_In xs (λ a i. f a (inr i)))

module _ {A : Type 0} (P : A → Type 0) where
  pub All-In : (a : A) (xs : List A) → All P xs → In a xs → P a
  All-In a [] h i = elim i [ ]
  All-In a (x ∷ xs) h (inl e) = rw (← e) h.0
  All-In a (x ∷ xs) h (inr i) = All-In a xs h.1 i

  pub Any-In : (a : A) (xs : List A) → In a xs → P a → Any P xs
  Any-In a [] i p = elim i [ ]
  Any-In a (x ∷ xs) (inl e) p = inl (rw e p)
  Any-In a (x ∷ xs) (inr i) p = inr (Any-In a xs i p)

module _ {A : Type 0} (P : A → Type 0) (p : A → Bool) where
  pub filter-All : (xs : List A) → All P xs → All P (filter p xs)
  unfolding filter
  filter-All [] h = tt
  filter-All (x ∷ xs) h = elim (Bool-cases (p x)) [
    | inl y ↦ rw y (h.0, filter-All xs h.1)
    | inr n ↦ rw n (filter-All xs h.1)
  ]

module _ {A : Type 0} (p : A → Bool) where
  pub any-true : (xs : List A) → any p xs ≡ true → Any (λ x. p x ≡ true) xs
  unfolding any
  any-true [] h = absurd (ground arith)
  any-true (x ∷ xs) h = elim (Bool-cases (p x)) [
    | inl y ↦ inl y
    | inr n ↦ inr (any-true xs (rw n at h))
  ]

  pub true-any : (xs : List A) → Any (λ x. p x ≡ true) xs → any p xs ≡ true
  unfolding any
  true-any [] h = elim h [ ]
  true-any (x ∷ xs) (inl h) = rw h
  true-any (x ∷ xs) (inr h) = ground (arith, true-any xs h)

  pub any_iff : (xs : List A) → (any p xs ≡ true) ↔ Any (λ x. p x ≡ true) xs
  any_iff xs = (any-true xs, true-any xs)

  pub any-false : (xs : List A) → any p xs ≡ false → All (λ x. p x ≡ false) xs
  unfolding any
  any-false [] h = tt
  any-false (x ∷ xs) h = (ground arith, any-false xs (ground arith))

  pub all_iff : (xs : List A) → (all p xs ≡ true) ↔ All (λ x. p x ≡ true) xs
  unfolding all
  all_iff [] = (λ _. tt, λ _. refl)
  all_iff (x ∷ xs) =
      (λ h. (ground arith, (all_iff xs).0 (ground arith)), λ h. ground (arith, (all_iff xs).1 h.1))

  pub All-filter : (xs : List A) → All (λ x. p x ≡ true) (filter p xs)
  unfolding filter
  All-filter [] = tt
  All-filter (x ∷ xs) = elim (Bool-cases (p x)) [
    | inl y ↦ rw y (y, All-filter xs)
    | inr n ↦ rw n (All-filter xs)
  ]

  pub find-some : (xs : List A) (a : A) → find p xs ≡ some a → In a xs × (p a ≡ true)
  unfolding find
  find-some [] a h = absurd (ground arith)
  find-some (x ∷ xs) a h = elim (Bool-cases (p x)) [
    | inl y ↦ let e : x ≡ a = ground arith in (inl e, rw (← e) y)
    | inr n ↦ let (i, q) = find-some xs a (rw n at h) in (inr i, q)
  ]

  pub find-none : (xs : List A) → find p xs ≡ none → All (λ x. p x ≡ false) xs
  unfolding find
  find-none [] h = tt
  find-none (x ∷ xs) h = (ground arith, find-none xs (ground arith))

  pub find-is_some : (xs : List A) → any p xs ≡ true → (a : A) × (find p xs ≡ some a)
  unfolding find any
  find-is_some [] h = absurd (ground arith)
  find-is_some (x ∷ xs) h = elim (Bool-cases (p x)) [
    | inl y ↦ (x, rw y)
    | inr n ↦ let (a, e) = find-is_some xs (rw n at h) in (a, rw n e)
  ]

  pub Any-filter :
      (P : A → Type 0) (xs : List A) → Any P (filter p xs) → Any (λ x. P x × (p x ≡ true)) xs
  unfolding filter
  Any-filter P [] h = elim h [ ]
  Any-filter P (x ∷ xs) h = elim (Bool-cases (p x)) [
    | inl y ↦ elim (rw y at h) [ inl k ↦ inl (k, y) | inr k ↦ inr (Any-filter P xs k) ]
    | inr n ↦ inr (Any-filter P xs (rw n at h))
  ]

  pub filter-Any :
      (P : A → Type 0) (xs : List A) → Any (λ x. P x × (p x ≡ true)) xs → Any P (filter p xs)
  unfolding filter
  filter-Any P [] h = elim h [ ]
  filter-Any P (x ∷ xs) (inl (k, y)) = rw y (inl k)
  filter-Any P (x ∷ xs) (inr h) = elim (Bool-cases (p x)) [
    | inl y ↦ rw y (inr (filter-Any P xs h))
    | inr n ↦ rw n (filter-Any P xs h)
  ]

module _ {ℓ κ} {A : Type ℓ} {B : Type κ} (P : B → Type 0) where
  pub Any-map : (f : A → B) (xs : List A) → Any P (map f xs) → Any (λ x. P (f x)) xs
  Any-map f [] h = elim h [ ]
  Any-map f (x ∷ xs) (inl h) = inl h
  Any-map f (x ∷ xs) (inr h) = inr (Any-map f xs h)

  pub map-Any : (f : A → B) (xs : List A) → Any (λ x. P (f x)) xs → Any P (map f xs)
  map-Any f [] h = elim h [ ]
  map-Any f (x ∷ xs) (inl h) = inl h
  map-Any f (x ∷ xs) (inr h) = inr (map-Any f xs h)

  pub Any-flat_map :
      (f : A → List B) (xs : List A) → Any P (flat_map f xs) → Any (λ x. Any P (f x)) xs
  unfolding flat_map
  Any-flat_map f [] h = elim h [ ]
  Any-flat_map f (x ∷ xs) h = elim (Any-append_cases P (f x) (flat_map f xs) h) [
    | inl k ↦ inl k
    | inr k ↦ inr (Any-flat_map f xs k)
  ]

  pub flat_map-Any :
      (f : A → List B) (xs : List A) → Any (λ x. Any P (f x)) xs → Any P (flat_map f xs)
  unfolding flat_map
  flat_map-Any f [] h = elim h [ ]
  flat_map-Any f (x ∷ xs) (inl h) = Any-append_left P (f x) (flat_map f xs) h
  flat_map-Any f (x ∷ xs) (inr h) = Any-append_right P (f x) (flat_map f xs) (flat_map-Any f xs h)

  pub All-flat_map :
      (f : A → List B) (xs : List A) → ((x : A) → All P (f x)) → All P (flat_map f xs)
  unfolding flat_map
  All-flat_map f [] h = tt
  All-flat_map f (x ∷ xs) h = All-append P (f x) (flat_map f xs) (h x) (All-flat_map f xs h)

-- `len(xs) > 0`
abbrev pub nonempty {ℓ} : {A : Type ℓ} → List A → Bool
nonempty [] = false
nonempty (x ∷ xs) = true

module _ {A : Type 0} where
  pub nonempty-Any : (xs : List A) → nonempty xs ≡ true → Any (λ x. Unit) xs
  nonempty-Any [] h = absurd (ground arith)
  nonempty-Any (x ∷ xs) h = inl tt

  pub Any-nonempty : (P : A → Type 0) (xs : List A) → Any P xs → nonempty xs ≡ true
  Any-nonempty P [] h = elim h [ ]
  Any-nonempty P (x ∷ xs) h = refl

-- Two tests that pass together are equal.
pub Bool_ext : (a b : Bool) → (a ≡ true) ↔ (b ≡ true) → a ≡ b
Bool_ext a b h = ground arith
