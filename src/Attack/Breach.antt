-- ===== src/Attack/Breach.antt =====
-- internal/attack/engine.go: what assuming a breach adds.
use kubeguard.Prelude.{
  String, true, false, some, ◌≡◌, inl, inr, none-some, Bool-cases, Option-cases,
}
use kubeguard.Api.{AttackPath}
use kubeguard.Model.{Workload}
use kubeguard.Graph.{Graph}
use kubeguard.Attack.Escape.{workload_escape, exposing_service}
use kubeguard.Attack.Engine.{Walk, enter, build_for_workload}

module _ (quote : String → String) (g : Graph) (w : Workload) where
  enter-breach : (k : Walk) → enter quote g w false ≡ some k → enter quote g w true ≡ some k
  unfolding enter
  enter-breach k h = elim (Option-cases (exposing_service g w)) [
    | inr (svc, e) ↦ rw (e, enter) (rw (e, enter) at h)
    | inl e ↦ elim (Bool-cases (workload_escape w)) [
      | inl y ↦ rw (e, y, enter) (rw (e, y, enter) at h)
      | inr n ↦ absurd (none-some (rw (e, n, enter) at h))
    ]
  ]

  -- A workload that has a path without an assumed breach has the same path with one.
  pub build_for_workload-breach :
      (p : AttackPath)
      → build_for_workload quote g w false ≡ some p
      → build_for_workload quote g w true ≡ some p
  unfolding build_for_workload
  build_for_workload-breach p h = elim (Option-cases (enter quote g w false)) [
    | inl e ↦ absurd (none-some (rw (e, build_for_workload) at h))
    | inr (k, e) ↦ rw (enter-breach k e, build_for_workload) (rw (e, build_for_workload) at h)
  ]
