-- ===== src/Prelude/Sort.antt =====
-- `sort.SliceStable` and `sort.Strings`: a stable sort by a Boolean `less`. Every stable sort gives
-- the same list; this one inserts, from the last element to the first.
use Prim.Native.Nat.{suc}
use mathlib.Core.Path.{◌≡◌, refl}
use mathlib.Core.Logic.{◌⊎◌, inl, inr, ◌↔◌}
use mathlib.Core.Bool.{Bool, true, false}
use mathlib.Core.List.{List, [], ◌∷◌, Perm}
use mathlib.Core.List.Perm
use native.Mathlib.Omega.{arith}
use kubeguard.Prelude.Tests.{if◌then◌else◌, Bool-cases}
use kubeguard.Prelude.Lists.{length, All, Any, All-imp}

module _ {A : Type 0} (less : A → A → Bool) where
  unfoldable pub insert : A → List A → List A
  insert x [] = x ∷ []
  insert x (y ∷ ys) = let later = y ∷ insert x ys in if less y x then later else x ∷ y ∷ ys

  unfoldable pub sort_stable : List A → List A
  unfolding insert
  sort_stable [] = []
  sort_stable (x ∷ xs) = insert x (sort_stable xs)

  insert-perm : (x : A) (l : List A) → Perm (insert x l) (x ∷ l)
  unfolding insert
  insert-perm x [] = Perm.rfl
  insert-perm x (y ∷ ys) = elim (Bool-cases (less y x)) [
    | inl e ↦ rw e (Perm.trans (Perm.cons y (insert-perm x ys)) (Perm.swap x y ys))
    | inr e ↦ rw e Perm.rfl
  ]

  -- The result is a rearrangement of the input.
  pub sort_stable-perm : (l : List A) → Perm (sort_stable l) l
  unfolding sort_stable
  sort_stable-perm [] = Perm.rfl
  sort_stable-perm (x ∷ xs) =
      Perm.trans (insert-perm x (sort_stable xs)) (Perm.cons x (sort_stable-perm xs))

  length-insert : (x : A) (l : List A) → length (insert x l) ≡ suc (length l)
  unfolding insert
  length-insert x [] = refl
  length-insert x (y ∷ ys) = ground (arith, length-insert x ys)

  pub length-sort_stable : (l : List A) → length (sort_stable l) ≡ length l
  unfolding sort_stable
  length-sort_stable [] = refl
  length-sort_stable (x ∷ xs) =
      omega (arith, length-insert x (sort_stable xs), length-sort_stable xs)

  module _ (P : A → Type 0) where
    insert-Any : (x : A) (l : List A) → Any P (insert x l) ↔ (P x ⊎ Any P l)
    unfolding insert
    insert-Any x [] = (λ h. h, λ h. h)
    insert-Any x (y ∷ ys) = elim (Bool-cases (less y x)) [
      | inl e ↦ rw e (ground (arith, insert-Any x ys))
      | inr e ↦ rw e (λ h. h, λ h. h)
    ]

    -- What is found in the input is found in the result, and the other way round.
    pub sort_stable-Any : (l : List A) → Any P (sort_stable l) ↔ Any P l
    unfolding sort_stable
    sort_stable-Any [] = (λ h. h, λ h. h)
    sort_stable-Any (x ∷ xs) = ground (arith, insert-Any x (sort_stable xs), sort_stable-Any xs)

    insert-All : (x : A) (l : List A) → P x → All P l → All P (insert x l)
    unfolding insert
    insert-All x [] p h = (p, tt)
    insert-All x (y ∷ ys) p h = elim (Bool-cases (less y x)) [
      | inl e ↦ rw e (h.0, insert-All x ys p h.1)
      | inr e ↦ rw e (p, h)
    ]

    pub sort_stable-All : (l : List A) → All P l → All P (sort_stable l)
    unfolding sort_stable
    sort_stable-All [] h = tt
    sort_stable-All (x ∷ xs) h = insert-All x (sort_stable xs) h.0 (sort_stable-All xs h.1)

  -- No element comes after one that it is less than: every pair, not only neighbours.
  abbrev pub IsSorted : List A → Type 0
  IsSorted [] = Unit
  IsSorted (x ∷ xs) = All (λ y. less y x ≡ false) xs × IsSorted xs

-- What `sort` asks of `less`: asymmetry, and that incomparability with order is transitive.
pub record IsWeakOrder {A : Type 0} (less : A → A → Bool) : Type 0 where
  pub asymm : (a b : A) → less a b ≡ true → less b a ≡ false
  pub ge_trans : (a b c : A) → less b a ≡ false → less c b ≡ false → less c a ≡ false

module _ {A : Type 0} (less : A → A → Bool) (w : IsWeakOrder less) where
  insert-IsSorted : (x : A) (l : List A) → IsSorted less l → IsSorted less (insert less x l)
  unfolding insert
  insert-IsSorted x [] h = (tt, tt)
  insert-IsSorted x (y ∷ ys) h = elim (Bool-cases (less y x)) [
    | inl e ↦
        rw e (
          insert-All less (λ z. less z y ≡ false) x ys (w.asymm y x e) h.0,
          insert-IsSorted x ys h.1,
        )
    | inr e ↦ rw e ((e, All-imp (λ z. w.ge_trans x y z e) ys h.0), h)
  ]

  -- The result is sorted.
  pub sort_stable-IsSorted : (l : List A) → IsSorted less (sort_stable less l)
  unfolding sort_stable
  sort_stable-IsSorted [] = tt
  sort_stable-IsSorted (x ∷ xs) = insert-IsSorted x (sort_stable less xs) (sort_stable-IsSorted xs)

-- Of any two elements, the earlier is related to the later.
abbrev pub Ordered : {A : Type 0} → (A → A → Type 0) → List A → Type 0
Ordered R [] = Unit
Ordered R (x ∷ xs) = All (R x) xs × Ordered R xs

-- What `less` rules out of a sorted list.
pub IsSorted-Ordered :
    {A : Type 0} (less : A → A → Bool) (R : A → A → Type 0)
    → ((x y : A) → less y x ≡ false → R x y)
    → (l : List A) → IsSorted less l
    → Ordered R l
IsSorted-Ordered less R f [] h = tt
IsSorted-Ordered less R f (x ∷ xs) h = (All-imp (f x) xs h.0, IsSorted-Ordered less R f xs h.1)
