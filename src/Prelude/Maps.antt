-- ===== src/Prelude/Maps.antt =====
-- A Go map with text keys, as the list of its entries: what `m[k]`, `m[k] = v` and `delete(m, k)` do.
use Prim.Native.String.{String}
use mathlib.Core.Path.{◌≡◌, refl}
use mathlib.Core.Logic.{◌≢◌, ◌⊎◌, inl, inr}
use mathlib.Core.Bool.{not}
use mathlib.Core.Option.{Option, none, some}
use mathlib.Core.List.{List, [], ◌∷◌, map}
use native.Mathlib.Omega.{arith}
use text.Mathlib.Text.{◌==◌}
use text.Mathlib.TextEquality.{eq_iff}
use kubeguard.Prelude.Tests.{if◌then◌else◌, Bool-cases, none-some, some_inj}
use kubeguard.Prelude.Lists.{filter, All}

abbrev pub Dict : Type 0 → Type 0
Dict A = List (String × A)

module _ {A : Type 0} where
  -- `m[k]`, with `ok`
  unfoldable pub get : String → Dict A → Option A
  get k [] = none
  get k (e ∷ d) = let rest = get k d in if e.0 == k then some e.1 else rest

  -- `delete(m, k)`
  unfoldable pub delete : String → Dict A → Dict A
  unfolding filter
  delete k d = filter (λ e. not (e.0 == k)) d

  -- `m[k] = v`
  unfoldable pub set : String → A → Dict A → Dict A
  unfolding delete
  set k v d = (k, v) ∷ delete k d

  -- The keys, to be ranged over.
  unfoldable pub keys : Dict A → List String
  keys d = map (λ e. e.0) d

  pub get-delete_same : (k : String) (d : Dict A) → get k (delete k d) ≡ none
  unfolding get delete filter
  get-delete_same k [] = refl
  get-delete_same k (e ∷ d) = ground (arith, get-delete_same k d)

  pub get-delete_other : (k j : String) (d : Dict A) → j ≢ k → get k (delete j d) ≡ get k d
  unfolding get delete filter
  get-delete_other k j [] n = refl
  get-delete_other k j (e ∷ d) n =
      ground (arith, get-delete_other k j d n, eq_iff e.0 k, eq_iff e.0 j)

  pub get-set_same : (k : String) (v : A) (d : Dict A) → get k (set k v d) ≡ some v
  unfolding get set
  get-set_same k v d = ground (arith, eq_iff k k)

  pub get-set_other : (k j : String) (v : A) (d : Dict A) → j ≢ k → get k (set j v d) ≡ get k d
  unfolding get set
  get-set_other k j v d n = ground (arith, get-delete_other k j d n, eq_iff j k)

  pub get-set_cases :
      (k j : String) (v a : A) (d : Dict A)
      → get k (set j v d) ≡ some a
      → ((j ≡ k) × (a ≡ v)) ⊎ (get k d ≡ some a)
  get-set_cases k j v a d h = elim (Bool-cases (j == k)) [
    | inl e ↦ inl (ground (arith, eq_iff j k, get-set_same k v d))
    | inr n ↦ inr (rw (← get-set_other k j v d (ground (arith, eq_iff j k))) h)
  ]

  pub get-delete_cases :
      (k j : String) (a : A) (d : Dict A)
      → get k (delete j d) ≡ some a
      → (j ≢ k) × (get k d ≡ some a)
  get-delete_cases k j a d h = elim (Bool-cases (j == k)) [
    | inl e ↦ absurd (ground (arith, eq_iff j k, get-delete_same k d))
    | inr n ↦
        (ground (arith, eq_iff j k), rw (← get-delete_other k j d (ground (arith, eq_iff j k))) h)
  ]

module _ {A : Type 0} (P : String × A → Type 0) where
  -- What holds of every entry holds of the one that is looked up.
  pub get-All : (k : String) (a : A) (d : Dict A) → All P d → get k d ≡ some a → P (k, a)
  unfolding get
  get-All k a [] h e = absurd (none-some e)
  get-All k a (x ∷ d) h e = elim (Bool-cases (x.0 == k)) [
    | inl y ↦
        let j : x.0 ≡ k = (eq_iff x.0 k).0 y in
        let v : x.1 ≡ a = some_inj (rw y at e) in rw (← j, ← v) h.0
    | inr n ↦ get-All k a d h.1 (rw n at e)
  ]
