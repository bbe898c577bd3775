-- ===== src/Attack/Sorted.antt =====
-- `sortPaths` of internal/attack/engine.go and the numbering: the order of the paths.
use kubeguard.Model.{Workload}
use kubeguard.Prelude.{
  Option, none, some, flat_map, Option-cases, ℕ, suc, ◌<◌, ◌⊎◌, inl, inr, arith, ap, map, Perm,
  Ordered, IsSorted-Ordered, not_next, str_lt, sort_stable, sort_stable-perm, String, Bool, List,
  [], ◌∷◌, ◌≡◌, refl, length, All, IsWeakOrder, IsSorted, sort_stable-IsSorted, str-IsKeyOrder,
  gtb-IsKeyOrder, ltb-IsKeyOrder, last-IsWeakOrder, next-IsWeakOrder, cat, decimal3, false,
}
use mathlib.Core.List.Perm
use kubeguard.Api.{AttackPath, ResourceRef, rank}
use kubeguard.Api.Gravity.{gravity, rank-gravity}
use kubeguard.Graph.{Graph}
use kubeguard.Attack.Engine.{
  path_less, entry_key, sort_paths, number_paths, paths_of, build_for_workload, build_paths,
}

path_less-IsWeakOrder : IsWeakOrder path_less
path_less-IsWeakOrder =
    next-IsWeakOrder gtb-IsKeyOrder (λ p. rank p.severity)
      (next-IsWeakOrder ltb-IsKeyOrder (λ p. length p.hops)
        (last-IsWeakOrder str-IsKeyOrder (λ p. entry_key p.entry)))

-- The ids from `i` on, in the order of the paths.
abbrev pub Numbered : ℕ → List AttackPath → Type 0
Numbered i [] = Unit
Numbered i (p ∷ ps) = (p.id ≡ cat ("AP-" ∷ decimal3 (suc i) ∷ [])) × Numbered (suc i) ps

number_paths-Numbered : (i : ℕ) (ps : List AttackPath) → Numbered i (number_paths i ps)
unfolding number_paths
number_paths-Numbered i [] = tt
number_paths-Numbered i (p ∷ ps) = (refl, number_paths-Numbered (suc i) ps)

not_less-number :
    (x : AttackPath) (id : String) (i : ℕ) (ps : List AttackPath)
    → All (λ y. path_less y x ≡ false) ps
    → All (λ y. path_less y (record x { id = id }) ≡ false) (number_paths i ps)
unfolding number_paths
not_less-number x id i [] h = tt
not_less-number x id i (p ∷ ps) h = (h.0, not_less-number x id (suc i) ps h.1)

number_paths-IsSorted :
    (i : ℕ) (ps : List AttackPath) → IsSorted path_less ps → IsSorted path_less (number_paths i ps)
unfolding number_paths
number_paths-IsSorted i [] h = tt
number_paths-IsSorted i (p ∷ ps) h = (
  not_less-number p (cat ("AP-" ∷ decimal3 (suc i) ∷ [])) (suc i) ps h.0,
  number_paths-IsSorted (suc i) ps h.1,
)

abbrev pub entrance : ResourceRef → String
entrance r = cat (r.namespace ∷ "/" ∷ r.kind ∷ "/" ∷ r.name ∷ [])

-- The path `x` is more severe than `y`, or as severe and shorter, or as long and of no later entry.
abbrev pub PathPrecedes : AttackPath → AttackPath → Type 0
PathPrecedes x y =
    (gravity y.severity < gravity x.severity)
    ⊎ ((gravity x.severity ≡ gravity y.severity)
        × ((length x.hops < length y.hops)
            ⊎ ((length x.hops ≡ length y.hops)
                × (str_lt (entrance y.entry) (entrance x.entry) ≡ false))))

not_less-PathPrecedes : (x y : AttackPath) → path_less y x ≡ false → PathPrecedes x y
unfolding entry_key
not_less-PathPrecedes x y h =
    rw (← rank-gravity x.severity, ← rank-gravity y.severity)
      (elim (not_next gtb-IsKeyOrder (rank x.severity) (rank y.severity) _ h) [
        | inl l ↦ inl (ground arith)
        | inr (e, h') ↦ inr (
          e,
          elim (not_next ltb-IsKeyOrder (length x.hops) (length y.hops) _ h') [
            | inl l ↦ inl (ground arith)
            | inr last ↦ inr last
          ],
        )
      ])

-- What a path says, without its id.
abbrev pub anonymous : AttackPath → AttackPath
anonymous p = record p { id = "" }

anonymous-number_paths :
    (i : ℕ) (ps : List AttackPath) → map anonymous (number_paths i ps) ≡ map anonymous ps
unfolding number_paths
anonymous-number_paths i [] = refl
anonymous-number_paths i (p ∷ ps) = ap (λ l. anonymous p ∷ l) (anonymous-number_paths (suc i) ps)

abbrev pub only : Option AttackPath → List AttackPath
only none = []
only (some p) = p ∷ []

paths_of-flat_map :
    (quote : String → String) (g : Graph) (b : Bool) (ws : List Workload)
    → paths_of quote g b ws ≡ flat_map (λ w. only (build_for_workload quote g w b)) ws
unfolding paths_of flat_map
paths_of-flat_map quote g b [] = refl
paths_of-flat_map quote g b (w ∷ ws) = elim (Option-cases (build_for_workload quote g w b)) [
  | inl e ↦ rw (e, paths_of, flat_map) (paths_of-flat_map quote g b ws)
  | inr (p, e) ↦ rw (e, paths_of, flat_map) (ap (λ l. p ∷ l) (paths_of-flat_map quote g b ws))
]

-- The paths are in order, more severe first, then shorter, then by entry; their ids count them in that
-- order from AP-001; and but for the ids they are the paths of the workloads, one for each workload that
-- has one.
pub build_paths-IsSorted :
    (quote : String → String) (g : Graph) (b : Bool)
    → Ordered PathPrecedes (build_paths quote g b)
      × Numbered 0 (build_paths quote g b)
      × Perm
          (map anonymous (build_paths quote g b))
          (map anonymous (flat_map (λ w. only (build_for_workload quote g w b)) g.workloads))
unfolding build_paths sort_paths
build_paths-IsSorted quote g b =
    let ps = paths_of quote g b g.workloads in
    (
      IsSorted-Ordered path_less PathPrecedes not_less-PathPrecedes _
          (number_paths-IsSorted 0 _ (sort_stable-IsSorted path_less path_less-IsWeakOrder ps)),
      number_paths-Numbered 0 _,
      rw (anonymous-number_paths 0 (sort_stable path_less ps)) (
          rw (← paths_of-flat_map quote g b g.workloads)
            (Perm.map anonymous (sort_stable-perm path_less ps))),
    )
