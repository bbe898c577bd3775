-- ===== src/Attack/Unbacked.antt =====
-- internal/attack/engine.go: the hop of an escape by a capability that no finding backs.
use kubeguard.Prelude.{
  String, Bool, true, false, List, [], ◌∷◌, map, some, ◌≡◌, ◌==◌, eq_iff, refl, sym, ◌∙◌, inl, inr,
  All, Any, All-In, Any-imp, Any-map, Any-flat_map, Any-witness, Any-append_left, Any-append_right,
  false-true, sort_stable-Any, MapRange,
}
use kubeguard.Api.{Capability, Finding, PathHop, AttackPath}
use kubeguard.Model.{Workload}
use kubeguard.Graph.{Graph}
use kubeguard.Attack.Escape.{workload_escape, host_path_name}
use kubeguard.Attack.Engine.{Walk, add, escape, chain, build_for_workload}
use kubeguard.Attack.Keeps.{finish-Ends, harvest-keeps, spread-keeps}
use kubeguard.Attack.Linked.{any_cause}
use kubeguard.Attack.Detected.{enter-cur, escape-detected}
use kubeguard.Checks.Containers.{report_if, per_container, privileged_meta, privileged_run}
use kubeguard.Checks.Own.{registry-Own}
use kubeguard.Checks.Profile.{zeal_default}
use kubeguard.Checks.Scan.{registry, run_check, scan_unsorted, scan, sort_findings, finding_less}
use kubeguard.Checks.Fires.{Fires, Reports, run_check_zeal}
use kubeguard.Compliance.Evaluate.{fired_checks}

-- Some container of some workload is privileged.
abbrev pub HasPrivileged : Graph → Type 0
HasPrivileged g = Any (λ w. Any (λ c. c.privileged ≡ true) w.pod_spec.containers) g.workloads

report_if-true :
    (b : Bool) (w : Workload) (path value : String)
    → Reports "KG-001" (report_if b privileged_meta w path value)
    → b ≡ true
report_if-true true w path value h = refl
report_if-true false w path value h = elim h [ ]

privileged_run-HasPrivileged : (g : Graph) → Reports "KG-001" (privileged_run g) → HasPrivileged g
unfolding privileged_run per_container
privileged_run-HasPrivileged g h =
    Any-imp
      (λ w q.
        Any-imp (λ c r. report_if-true c.privileged w _ _ r) w.pod_spec.containers
          (Any-flat_map (λ f. f.id ≡ "KG-001") _ w.pod_spec.containers q))
      g.workloads (Any-flat_map (λ f. f.id ≡ "KG-001") _ g.workloads h)

-- KG-001 is the id of one check only.
registry-privileged :
    (m : MapRange) (g : Graph)
    → All
        (λ c. (c.meta.id == "KG-001") ≡ true → Reports "KG-001" (c.run g) → HasPrivileged g)
        (registry m)
unfolding registry
registry-privileged m g = (
  λ e r. privileged_run-HasPrivileged g r,
  (
    λ e r. absurd (false-true e),
    (
      λ e r. absurd (false-true e),
      (
        λ e r. absurd (false-true e),
        (
          λ e r. absurd (false-true e),
          (
            λ e r. absurd (false-true e),
            (
              λ e r. absurd (false-true e),
              (
                λ e r. absurd (false-true e),
                (
                  λ e r. absurd (false-true e),
                  (
                    λ e r. absurd (false-true e),
                    (
                      λ e r. absurd (false-true e),
                      (
                        λ e r. absurd (false-true e),
                        (
                          λ e r. absurd (false-true e),
                          (
                            λ e r. absurd (false-true e),
                            (
                              λ e r. absurd (false-true e),
                              (
                                λ e r. absurd (false-true e),
                                (
                                  λ e r. absurd (false-true e),
                                  (
                                    λ e r. absurd (false-true e),
                                    (
                                      λ e r. absurd (false-true e),
                                      (
                                        λ e r. absurd (false-true e),
                                        (
                                          λ e r. absurd (false-true e),
                                          (λ e r. absurd (false-true e), tt),
                                        ),
                                      ),
                                    ),
                                  ),
                                ),
                              ),
                            ),
                          ),
                        ),
                      ),
                    ),
                  ),
                ),
              ),
            ),
          ),
        ),
      ),
    ),
  ),
)

map_same : (fs : List Finding) → map (λ f. f) fs ≡ fs
map_same [] = refl
map_same (f ∷ fs) = rw (map_same fs) refl

-- KG-001 fires only if some container is privileged.
pub Fires-HasPrivileged : (m : MapRange) (g : Graph) → Fires m g "KG-001" → HasPrivileged g
unfolding fired_checks scan sort_findings scan_unsorted
Fires-HasPrivileged m g h =
    let unsorted =
      (sort_stable-Any finding_less (λ f. f.id ≡ "KG-001") _).0
        (Any-map (λ x. x ≡ "KG-001") (λ f. f.id) _ h) in
    let (c, i, r) =
      Any-witness (registry m)
        (Any-flat_map (λ f. f.id ≡ "KG-001") (run_check g zeal_default) (registry m) unsorted) in
    let own : Reports "KG-001" (c.run g) = rw (run_check_zeal g c, map_same (c.run g)) at r in
    let (f, j, e) = Any-witness (c.run g) own in
    let named =
      All-In (λ x. x.id ≡ c.meta.id) f (c.run g)
        (All-In (λ x. All (λ y. y.id ≡ x.meta.id) (x.run g)) c (registry m) (registry-Own g m) i)
        j in
    All-In (λ x. (x.meta.id == "KG-001") ≡ true → Reports "KG-001" (x.run g) → HasPrivileged g) c
      (registry m) (registry-privileged m g) i ((eq_iff c.meta.id "KG-001").1 (sym named ∙ e)) own

abbrev Blames : PathHop → Type 0
Blames h = (h.to ≡ Capability.node_access) × (h.enabled_by ≡ "KG-001")

-- Some hop leads to the node and names the check on privileged containers.
abbrev pub BlamesPrivileged : List PathHop → Type 0
BlamesPrivileged = Any Blames

add-BlamesPrivileged :
    (k : Walk) (to : Capability) (by : String) (tech : List String) (narr : String)
    → BlamesPrivileged k.hops
    → Unit {0}
    → BlamesPrivileged (add k to by tech narr).hops
unfolding add
add-BlamesPrivileged k to by tech narr h u = Any-append_left Blames k.hops _ h

hop-BlamesPrivileged :
    (k : Walk) (to : Capability) (by : String) (tech : List String) (narr : String)
    → to ≡ Capability.node_access
    → by ≡ "KG-001"
    → BlamesPrivileged (add k to by tech narr).hops
unfolding add
hop-BlamesPrivileged k to by tech narr e f =
    let both : (to ≡ Capability.node_access) × (by ≡ "KG-001") = (e, f) in
    Any-append_right Blames k.hops _ (inl both)

escape-BlamesPrivileged :
    (quote : String → String) (w : Workload) (k : Walk)
    → workload_escape w ≡ true
    → host_path_name w ≡ ""
    → BlamesPrivileged (escape quote w k).hops
unfolding escape
escape-BlamesPrivileged quote w k y e = rw (y, e, escape) (hop-BlamesPrivileged _ _ _ _ _ refl refl)

-- In a graph with no privileged container, a workload that can escape, though by no host path, has a
-- path with a hop to the node that names KG-001, which does not fire.
pub escape-unbacked :
    (quote : String → String) (m : MapRange) (g : Graph) (w : Workload) (b : Bool)
    → workload_escape w ≡ true
    → host_path_name w ≡ ""
    → ¬ HasPrivileged g
    → (p : AttackPath) × (build_for_workload quote g w b ≡ some p)
      × BlamesPrivileged p.hops
      × ¬ Fires m g "KG-001"
unfolding build_for_workload chain
escape-unbacked quote m g w b y e h =
    let (p, f, critical, node) = escape-detected quote g w b y in
    let (k, entered, cur) = enter-cur quote g w b (inr (rw y refl)) in
    let ends = finish-Ends quote w (chain quote g w k) p (rw (entered, build_for_workload) at f) in
    let kind : Walk → Type 0 = λ x. BlamesPrivileged x.hops in
    let kept =
      spread-keeps quote (λ to by. Unit {0}) kind add-BlamesPrivileged g w (any_cause g w) _
        (harvest-keeps quote (λ to by. Unit {0}) kind add-BlamesPrivileged g w (any_cause g w) _
          (escape-BlamesPrivileged quote w k y e)) in
    (p, f, rw ends.same_hops kept, λ x. h (Fires-HasPrivileged m g x))
