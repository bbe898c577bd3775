-- ===== src/Graph/Coverage/Sums.antt =====
-- internal/graph/coverage.go: the figures of the breakdown add up.
use kubeguard.Prelude.{
  ℕ, suc, ◌+◌, String, not, ◌&&◌, List, [], ◌∷◌, ◌≡◌, refl, inl, inr, arith, ◌==◌, eq_iff,
  Bool-cases, length, if◌then◌else◌,
}
use kubeguard.Model.{Resource}
use kubeguard.Graph.{Graph}
use kubeguard.Graph.Coverage.{is_assessed, tally, kind_label, count_resources, coverage}

-- All the tallies together.
abbrev pub tally_sum : List (String × ℕ) → ℕ
tally_sum [] = 0
tally_sum ((k, n) ∷ m) = n + tally_sum m

-- The tally of a kind: 0 where there is none.
abbrev pub tally_of : String → List (String × ℕ) → ℕ
tally_of k [] = 0
tally_of k ((j, n) ∷ m) = if j == k then n else tally_of k m

-- How many of the resources no check assesses and have this label.
abbrev pub skipped_with : String → List Resource → ℕ
skipped_with k [] = 0
skipped_with k (r ∷ rs) =
    let rest = skipped_with k rs in
    if not (is_assessed r) && kind_label r == k then suc rest else rest

tally-sum : (k : String) (m : List (String × ℕ)) → tally_sum (tally k m) ≡ suc (tally_sum m)
unfolding tally
tally-sum k [] = refl
tally-sum k ((j, n) ∷ m) = elim (Bool-cases (j == k)) [
  | inl y ↦ rw y (omega arith)
  | inr n' ↦ rw n' (omega (arith, tally-sum k m))
]

tally-of :
    (k l : String) (m : List (String × ℕ))
    → tally_of l (tally k m) ≡ (if k == l then suc (tally_of l m) else tally_of l m)
unfolding tally
tally-of k l [] = refl
tally-of k l ((j, n) ∷ m) = ground (arith, tally-of k l m, eq_iff j k, eq_iff k l, eq_iff j l)

count_resources-sum :
    (a : ℕ) (m : List (String × ℕ)) (rs : List Resource)
    → (count_resources a m rs).0 + tally_sum (count_resources a m rs).1
      ≡ a + tally_sum m + length rs
unfolding count_resources
count_resources-sum a m [] = omega arith
count_resources-sum a m (r ∷ rs) = elim (Bool-cases (is_assessed r)) [
  | inl y ↦ rw y (omega (arith, count_resources-sum (suc a) m rs))
  | inr n ↦
      rw n (
        omega
          (arith, count_resources-sum a (tally (kind_label r) m) rs, tally-sum (kind_label r) m))
]

count_resources-of :
    (l : String) (a : ℕ) (m : List (String × ℕ)) (rs : List Resource)
    → tally_of l (count_resources a m rs).1 ≡ tally_of l m + skipped_with l rs
unfolding count_resources
count_resources-of l a m [] = omega arith
count_resources-of l a m (r ∷ rs) = elim (Bool-cases (is_assessed r)) [
  | inl y ↦ rw y (count_resources-of l (suc a) m rs)
  | inr n ↦ rw n (elim (Bool-cases (kind_label r == l)) [
    | inl e ↦ rw e (
        ground
          (arith, count_resources-of l a (tally (kind_label r) m) rs, tally-of (kind_label r) l m))
    | inr e ↦ rw e (
        ground
          (arith, count_resources-of l a (tally (kind_label r) m) rs, tally-of (kind_label r) l m))
  ])
]

-- The assessable and the skipped resources are together the discovered ones, the tallies by kind sum
-- up to the skipped ones, and the tally of each kind counts the resources of that kind that no check
-- assesses.
pub coverage_sums :
    (g : Graph)
    → ((coverage g).assessable + (coverage g).skipped ≡ (coverage g).discovered)
      × (tally_sum (coverage g).skipped_by_kind ≡ (coverage g).skipped)
      × ((k : String) → tally_of k (coverage g).skipped_by_kind ≡ skipped_with k g.resources)
unfolding coverage
coverage_sums g = (
  omega (arith, count_resources-sum 0 [] g.resources),
  omega (arith, count_resources-sum 0 [] g.resources),
  λ k. omega (arith, count_resources-of k 0 [] g.resources),
)
