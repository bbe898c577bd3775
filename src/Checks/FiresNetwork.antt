-- ===== src/Checks/FiresNetwork.antt =====
-- When the check on default-deny policies fires: KG-017, over the namespaces that have workloads.
use kubeguard.Prelude.{
  String, false, List, [], ◌∷◌, ◌≡◌, ◌≢◌, refl, sym, ◌∙◌, inl, inr, ◌==◌, eq_iff, Bool-cases, Any,
  In, any, any-true, Any-imp, flat_map-Any, Any-In, MapRange, if◌then◌else◌, range_sorted,
  range_sorted-irrel, sort_stable-Any, str_lt, set_add, sort_strings,
}
use mathlib.Core.List.Perm
use mathlib.Core.Path.{subst}
use kubeguard.Model.{Workload}
use kubeguard.Graph.{Graph}
use kubeguard.Graph.Resolve.{has_default_deny}
use kubeguard.Checks.Check.{finding, ns_ref, ev}
use kubeguard.Checks.NetworkChecks.{
  namespaces_with_workloads, network_policy_run, network_policy_meta,
}
use kubeguard.Checks.Fires.{Fires, Reports, network_policy-Fires}

module _ (ns : String) where
  set_add-keep : (k : String) (keys : List String) → In ns keys → In ns (set_add k keys)
  unfolding set_add
  set_add-keep k keys i = elim (Bool-cases (any (λ j. j == k) keys)) [
    | inl y ↦ rw y i
    | inr n ↦ rw n (inr i)
  ]

  -- A key that is in the set stays in it, and a workload's namespace gets in.
  namespaces_with_workloads-keep :
      (keys : List String) (ws : List Workload)
      → In ns keys
      → In ns (namespaces_with_workloads keys ws)
  unfolding namespaces_with_workloads
  namespaces_with_workloads-keep keys [] i = i
  namespaces_with_workloads-keep keys (w ∷ ws) i =
      namespaces_with_workloads-keep (if w.namespace == "" then keys else set_add w.namespace keys)
        ws
        (elim (Bool-cases (w.namespace == "")) [
          | inl y ↦ rw y i
          | inr n ↦ rw n (set_add-keep w.namespace keys i)
        ])

  set_add-In : (keys : List String) → In ns (set_add ns keys)
  unfolding set_add
  set_add-In keys = elim (Bool-cases (any (λ j. j == ns) keys)) [
    | inl y ↦ rw y (Any-imp (λ j q. (eq_iff j ns).0 q) keys (any-true (λ j. j == ns) keys y))
    | inr n ↦ rw n (inl refl)
  ]

  namespaces_with_workloads-In :
      (keys : List String) (ws : List Workload)
      → ns ≢ ""
      → Any (λ w. w.namespace ≡ ns) ws
      → In ns (namespaces_with_workloads keys ws)
  unfolding namespaces_with_workloads
  namespaces_with_workloads-In keys [] named h = elim h [ ]
  namespaces_with_workloads-In keys (w ∷ ws) named (inl h) =
      namespaces_with_workloads-keep (if w.namespace == "" then keys else set_add w.namespace keys)
        ws
        (elim (Bool-cases (w.namespace == "")) [
          | inl y ↦ absurd (named (sym h ∙ (eq_iff w.namespace "").0 y))
          | inr n ↦ rw (n, h) (set_add-In keys)
        ])
  namespaces_with_workloads-In keys (w ∷ ws) named (inr h) =
      namespaces_with_workloads-In (if w.namespace == "" then keys else set_add w.namespace keys) ws
        named h

in_order : MapRange
in_order = record { range = λ keys. keys; range_perm = λ keys. Perm.rfl }

range_sorted-In :
    (m : MapRange) (ns : String) (keys : List String) → In ns keys → In ns (range_sorted m keys)
unfolding range_sorted sort_strings in_order
range_sorted-In m ns keys i =
    subst (In ns) (range_sorted-irrel in_order m keys)
      ((sort_stable-Any str_lt (λ x. x ≡ ns) keys).1 i)

-- A workload in a namespace that has a name and no default-deny policy makes KG-017 fire.
pub Fires-of_no_default_deny :
    (m : MapRange) (g : Graph) (ns : String)
    → ns ≢ ""
    → Any (λ w. w.namespace ≡ ns) g.workloads
    → has_default_deny g ns ≡ false
    → Fires m g "KG-017"
unfolding network_policy_run
Fires-of_no_default_deny m g ns named i h = network_policy-Fires m g (
    flat_map-Any (λ f. f.id ≡ "KG-017") _
      (range_sorted m (namespaces_with_workloads [] g.workloads))
      (Any-In
        (λ k. Reports "KG-017" (
          if has_default_deny g k
          then []
          else finding network_policy_meta (ns_ref k)
              (ev "networkpolicies" "no default-deny in namespace")
            ∷ []))
        ns _ (range_sorted-In m ns _ (namespaces_with_workloads-In ns [] g.workloads named i))
        (rw h (unfold finding in inl refl))))
