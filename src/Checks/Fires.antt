-- ===== src/Checks/Fires.antt =====
-- When a check fires: the ids of a scan, and the checks that the attack engine names.
use kubeguard.Prelude.{
  String, Bool, true, List, [], ◌∷◌, map, ◌≡◌, ◌≢◌, refl, inl, inr, arith, ◌==◌, eq_iff, Bool-cases,
  Any, In, any, Any-imp, map-Any, flat_map, flat_map-Any, Any-In, sort_stable-Any, MapRange,
  if◌then◌else◌,
}
use kubeguard.Api.{Finding}
use kubeguard.Model.{Workload, ContainerView, VolumeView, Service}
use kubeguard.Graph.{Graph}
use kubeguard.Checks.Check.{Meta, Check, finding}
use kubeguard.Checks.Containers.{
  report_if, per_container, privileged_meta, privileged_run, dangerous_caps_meta,
  dangerous_caps_run,
}
use kubeguard.Checks.Predicates.{is_dangerous_cap}
use kubeguard.Checks.Pods.{
  host_path_finding, host_path_meta, host_path_run, automount_effective, automount_token_meta,
  automount_token_run,
}
use kubeguard.Checks.RbacChecks.{
  cluster_admin_binding_meta, cluster_admin_binding_run, secrets_access_meta, secrets_access_run,
  pod_create_meta, pod_create_run,
}
use kubeguard.Checks.NetworkChecks.{
  is_exposed_type, exposure_finding, exposure_meta, exposure_run, network_policy_meta,
  network_policy_run,
}
use kubeguard.Checks.Profile.{zeal_default, includes}
use kubeguard.Checks.Scan.{
  registry, override, run_check, scan_unsorted, scan, sort_findings, finding_less, lookup_severity,
}
use kubeguard.Compliance.Evaluate.{fired_checks}

-- The check `id` has a finding in the scan under the default profile.
abbrev pub Fires : MapRange → Graph → String → Type 0
Fires m g id = In id (fired_checks (scan m g zeal_default))

-- Some finding has the id.
abbrev pub Reports : String → List Finding → Type 0
Reports id = Any (λ f. f.id ≡ id)

pub run_check_zeal : (g : Graph) (c : Check) → run_check g zeal_default c ≡ map (λ f. f) (c.run g)
unfolding run_check includes zeal_default override lookup_severity any
run_check_zeal g c = refl

-- What a check of the registry reports is in the scan.
Fires-of_registry :
    (m : MapRange) (g : Graph) (id : String) (c : Check)
    → In c (registry m)
    → Reports id (c.run g)
    → Fires m g id
unfolding fired_checks scan scan_unsorted sort_findings
Fires-of_registry m g id c i r =
    map-Any (λ x. x ≡ id) (λ f. f.id) _
      ((sort_stable-Any finding_less (λ f. f.id ≡ id) _).1 (
        flat_map-Any (λ f. f.id ≡ id) (run_check g zeal_default) (registry m)
          (Any-In (λ x. Reports id (run_check g zeal_default x)) c (registry m) i
            (rw (run_check_zeal g c) (map-Any (λ f. f.id ≡ id) (λ f. f) (c.run g) r)))))

module _ (m : MapRange) (g : Graph) where
  pub privileged-Fires :
      Reports privileged_meta.id (privileged_run g) → Fires m g privileged_meta.id
  unfolding registry
  privileged-Fires =
      Fires-of_registry m g privileged_meta.id
        (record { meta = privileged_meta; run = privileged_run }) (inl refl)

  pub host_path-Fires : Reports host_path_meta.id (host_path_run g) → Fires m g host_path_meta.id
  unfolding registry
  host_path-Fires =
      Fires-of_registry m g host_path_meta.id
        (record { meta = host_path_meta; run = host_path_run }) (inr (inl refl))

  pub dangerous_caps-Fires :
      Reports dangerous_caps_meta.id (dangerous_caps_run g) → Fires m g dangerous_caps_meta.id
  unfolding registry
  dangerous_caps-Fires =
      Fires-of_registry m g dangerous_caps_meta.id
        (record { meta = dangerous_caps_meta; run = dangerous_caps_run })
        (inr (inr (inr (inr (inr (inr (inr (inl refl))))))))

  pub cluster_admin_binding-Fires :
      Reports cluster_admin_binding_meta.id (cluster_admin_binding_run g)
      → Fires m g cluster_admin_binding_meta.id
  unfolding registry
  cluster_admin_binding-Fires =
      Fires-of_registry m g cluster_admin_binding_meta.id
        (record { meta = cluster_admin_binding_meta; run = cluster_admin_binding_run })
        (inr (inr (inr (inr (inr (inr (inr (inr (inr (inr (inl refl)))))))))))

  pub secrets_access-Fires :
      Reports secrets_access_meta.id (secrets_access_run g) → Fires m g secrets_access_meta.id
  unfolding registry
  secrets_access-Fires =
      Fires-of_registry m g secrets_access_meta.id
        (record { meta = secrets_access_meta; run = secrets_access_run })
        (inr (inr (inr (inr (inr (inr (inr (inr (inr (inr (inr (inr (inl refl)))))))))))))

  pub pod_create-Fires :
      Reports pod_create_meta.id (pod_create_run g) → Fires m g pod_create_meta.id
  unfolding registry
  pod_create-Fires =
      Fires-of_registry m g pod_create_meta.id
        (record { meta = pod_create_meta; run = pod_create_run })
        (inr (inr (inr (inr (inr (inr (inr (inr (inr (inr (inr (inr (inr (inl refl))))))))))))))

  pub automount_token-Fires :
      Reports automount_token_meta.id (automount_token_run g) → Fires m g automount_token_meta.id
  unfolding registry
  automount_token-Fires =
      Fires-of_registry m g automount_token_meta.id
        (record { meta = automount_token_meta; run = automount_token_run })
        (inr
          (inr (inr (inr (inr (inr (inr (inr (inr (inr (inr (inr (inr (inr (inl refl)))))))))))))))

  pub network_policy-Fires :
      Reports network_policy_meta.id (network_policy_run m g) → Fires m g network_policy_meta.id
  unfolding registry
  network_policy-Fires =
      Fires-of_registry m g network_policy_meta.id
        (record { meta = network_policy_meta; run = network_policy_run m })
        (inr (
          inr (
            inr (
              inr (
                inr
                  (inr (inr (inr (inr (inr (inr (inr (inr (inr (inr (inr (inl refl)))))))))))))))))

  pub exposure-Fires : Reports exposure_meta.id (exposure_run g) → Fires m g exposure_meta.id
  unfolding registry
  exposure-Fires =
      Fires-of_registry m g exposure_meta.id (record { meta = exposure_meta; run = exposure_run })
        (inr (
          inr (
            inr (
              inr (
                inr (
                  inr (
                    inr
                      (inr (inr (inr (inr (inr (inr (inr (inr (inr (inr (inl refl))))))))))))))))))

report_if-Reports :
    (b : Bool) (mt : Meta) (w : Workload) (path value : String)
    → b ≡ true
    → Reports mt.id (report_if b mt w path value)
unfolding finding
report_if-Reports b mt w path value h = rw h (inl refl)

-- What a check reports on one workload, it reports on the graph.
per_workload-Reports :
    (id : String) (f : Workload → List Finding) (g : Graph) (w : Workload)
    → In w g.workloads
    → Reports id (f w)
    → Reports id (flat_map f g.workloads)
per_workload-Reports id f g w i h =
    flat_map-Any (λ x. x.id ≡ id) f g.workloads (Any-In (λ v. Reports id (f v)) w g.workloads i h)

per_container-Reports :
    (id : String) (f : Workload → ContainerView → List Finding) (g : Graph) (w : Workload)
    → In w g.workloads
    → Any (λ c. Reports id (f w c)) w.pod_spec.containers
    → Reports id (per_container f g)
unfolding per_container
per_container-Reports id f g w i h =
    per_workload-Reports id (λ v. flat_map (f v) v.pod_spec.containers) g w i
      (flat_map-Any (λ x. x.id ≡ id) (f w) w.pod_spec.containers h)

-- One volume of a workload with a host path.
host_path-Reports :
    (w : Workload) (v : VolumeView)
    → v.host_path ≢ ""
    → Reports "KG-002" (if v.host_path == "" then [] else host_path_finding w v ∷ [])
unfolding host_path_finding finding
host_path-Reports w v h = elim (Bool-cases (v.host_path == "")) [
  | inl y ↦ absurd (h ((eq_iff v.host_path "").0 y))
  | inr n ↦ rw n (inl (ground arith))
]

module _ (m : MapRange) (g : Graph) (w : Workload) (i : In w g.workloads) where
  -- A privileged container of a workload makes KG-001 fire.
  pub Fires-of_privileged :
      Any (λ c. c.privileged ≡ true) w.pod_spec.containers → Fires m g privileged_meta.id
  unfolding privileged_run per_container
  Fires-of_privileged h = privileged-Fires m g (
      per_container-Reports "KG-001" _ g w i
        (Any-imp (λ c p. report_if-Reports c.privileged privileged_meta w _ _ p) _ h))

  pub Fires-of_cap :
      Any (λ c. Any (λ name. is_dangerous_cap name ≡ true) c.caps_add) w.pod_spec.containers
      → Fires m g dangerous_caps_meta.id
  unfolding dangerous_caps_run per_container
  Fires-of_cap h = dangerous_caps-Fires m g (
      per_container-Reports "KG-008" _ g w i (
        Any-imp
          (λ c caps.
            flat_map-Any (λ x. x.id ≡ "KG-008") _ c.caps_add
              (Any-imp
                (λ name p. report_if-Reports (is_dangerous_cap name) dangerous_caps_meta w _ _ p) _
                caps))
          _ h))

  pub Fires-of_host_path :
      Any (λ v. v.host_path ≢ "") w.pod_spec.volumes → Fires m g host_path_meta.id
  unfolding host_path_run
  Fires-of_host_path h = host_path-Fires m g (
      per_workload-Reports "KG-002" _ g w i (
        flat_map-Any (λ x. x.id ≡ "KG-002") _ w.pod_spec.volumes
          (Any-imp (host_path-Reports w) _ h)))

  pub Fires-of_automount : automount_effective g w ≡ true → Fires m g automount_token_meta.id
  unfolding automount_token_run
  Fires-of_automount h = automount_token-Fires m g (
      per_workload-Reports "KG-015" _ g w i
        (report_if-Reports (automount_effective g w) automount_token_meta w _ _ h))

exposed-Reports :
    (g : Graph) (svc : Service)
    → is_exposed_type svc.type ≡ true
    → Reports "KG-018" (if is_exposed_type svc.type then exposure_finding g svc ∷ [] else [])
unfolding exposure_finding finding
exposed-Reports g svc h = rw h (inl (ground arith))

pub Fires-of_exposed :
    (m : MapRange) (g : Graph) (svc : Service)
    → In svc g.services
    → is_exposed_type svc.type ≡ true
    → Fires m g exposure_meta.id
unfolding exposure_run
Fires-of_exposed m g svc i h = exposure-Fires m g (
    flat_map-Any (λ x. x.id ≡ "KG-018") _ g.services
      (Any-In
        (λ s. Reports "KG-018" (if is_exposed_type s.type then exposure_finding g s ∷ [] else []))
        svc g.services i (exposed-Reports g svc h)))
