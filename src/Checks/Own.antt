-- ===== src/Checks/Own.antt =====
-- The findings of each check of internal/checks bear its own id.
use kubeguard.Prelude.{
  String, Bool, true, false, List, [], ◌∷◌, ◌≡◌, refl, inl, inr, arith, if◌then◌else◌, Bool-cases,
  Option-cases, All, All-append, All-flat_map, flat_map, MapRange, range_sorted,
}
use kubeguard.Api.{Finding}
use kubeguard.Model.{Resource, Workload, ContainerView, VolumeView, RoleRef, Subject, Service}
use kubeguard.Graph.{Graph}
use kubeguard.Checks.Check.{Meta, finding}
use kubeguard.Checks.Containers.{
  per_container, report_if, privileged_run, run_as_root_run, allow_priv_esc_run, dangerous_caps_run,
  read_only_root_fs_run, resource_limits_run, mutable_image_run, cap_drop_all_run,
  untrusted_registry_run, seccomp_run,
}
use kubeguard.Checks.Pods.{
  host_path_finding, host_path_run, host_network_run, host_pid_run, host_ipc_run,
  automount_token_run, default_sa_run,
}
use kubeguard.Checks.RbacChecks.{
  admin_reason, all_roles, check_binding, cluster_admin_binding_run, per_role, has_priv_subject,
  wildcard_rbac_run, secrets_access_run, pod_create_run,
}
use kubeguard.Checks.NetworkChecks.{
  namespaces_with_workloads, network_policy_run, exposure_finding, exposure_run,
}
use kubeguard.Checks.Scan.{registry}

-- Every finding has the id.
abbrev pub Own : String → List Finding → Type 0
Own id = All (λ f. f.id ≡ id)

if-Own : (id : String) (b : Bool) (f : Finding) → f.id ≡ id → Own id (if b then f ∷ [] else [])
if-Own id true f h = (h, tt)
if-Own id false f h = tt

unless-Own : (id : String) (b : Bool) (f : Finding) → f.id ≡ id → Own id (if b then [] else f ∷ [])
unless-Own id true f h = tt
unless-Own id false f h = (h, tt)

report_if-Own :
    (b : Bool) (m : Meta) (w : Workload) (path value : String)
    → Own m.id (report_if b m w path value)
unfolding finding
report_if-Own b m w path value = if-Own m.id b _ refl

per_container-Own :
    (id : String) (f : Workload → ContainerView → List Finding) (g : Graph)
    → ((w : Workload) (c : ContainerView) → Own id (f w c))
    → Own id (per_container f g)
unfolding per_container
per_container-Own id f g h =
    All-flat_map (λ x. x.id ≡ id) _ g.workloads
      (λ w. All-flat_map (λ x. x.id ≡ id) (f w) w.pod_spec.containers (h w))

per_workload-Own :
    (id : String) (f : Workload → List Finding) (g : Graph)
    → ((w : Workload) → Own id (f w))
    → Own id (flat_map f g.workloads)
per_workload-Own id f g h = All-flat_map (λ x. x.id ≡ id) f g.workloads h

module _ (g : Graph) where
  privileged_run-Own : Own "KG-001" (privileged_run g)
  unfolding privileged_run per_container
  privileged_run-Own = per_container-Own "KG-001" _ g (λ w c. report_if-Own _ _ w _ _)

  run_as_root_run-Own : Own "KG-006" (run_as_root_run g)
  unfolding run_as_root_run per_container
  run_as_root_run-Own = per_container-Own "KG-006" _ g (λ w c. report_if-Own _ _ w _ _)

  allow_priv_esc_run-Own : Own "KG-007" (allow_priv_esc_run g)
  unfolding allow_priv_esc_run per_container
  allow_priv_esc_run-Own = per_container-Own "KG-007" _ g (λ w c. report_if-Own _ _ w _ _)

  read_only_root_fs_run-Own : Own "KG-009" (read_only_root_fs_run g)
  unfolding read_only_root_fs_run per_container
  read_only_root_fs_run-Own = per_container-Own "KG-009" _ g (λ w c. report_if-Own _ _ w _ _)

  resource_limits_run-Own : Own "KG-010" (resource_limits_run g)
  unfolding resource_limits_run per_container
  resource_limits_run-Own = per_container-Own "KG-010" _ g (λ w c. report_if-Own _ _ w _ _)

  mutable_image_run-Own : Own "KG-019" (mutable_image_run g)
  unfolding mutable_image_run per_container
  mutable_image_run-Own = per_container-Own "KG-019" _ g (λ w c. report_if-Own _ _ w _ _)

  cap_drop_all_run-Own : Own "KG-021" (cap_drop_all_run g)
  unfolding cap_drop_all_run per_container
  cap_drop_all_run-Own = per_container-Own "KG-021" _ g (λ w c. report_if-Own _ _ w _ _)

  untrusted_registry_run-Own : Own "KG-022" (untrusted_registry_run g)
  unfolding untrusted_registry_run per_container
  untrusted_registry_run-Own = per_container-Own "KG-022" _ g (λ w c. report_if-Own _ _ w _ _)

  seccomp_run-Own : Own "KG-020" (seccomp_run g)
  unfolding seccomp_run per_container
  seccomp_run-Own = per_container-Own "KG-020" _ g (λ w c. report_if-Own _ _ w _ _)

  dangerous_caps_run-Own : Own "KG-008" (dangerous_caps_run g)
  unfolding dangerous_caps_run per_container
  dangerous_caps_run-Own =
      per_container-Own "KG-008" _ g
        (λ w c. All-flat_map (λ x. x.id ≡ "KG-008") _ c.caps_add (λ name. report_if-Own _ _ w _ _))

  host_network_run-Own : Own "KG-003" (host_network_run g)
  unfolding host_network_run
  host_network_run-Own = per_workload-Own "KG-003" _ g (λ w. report_if-Own _ _ w _ _)

  host_pid_run-Own : Own "KG-004" (host_pid_run g)
  unfolding host_pid_run
  host_pid_run-Own = per_workload-Own "KG-004" _ g (λ w. report_if-Own _ _ w _ _)

  host_ipc_run-Own : Own "KG-005" (host_ipc_run g)
  unfolding host_ipc_run
  host_ipc_run-Own = per_workload-Own "KG-005" _ g (λ w. report_if-Own _ _ w _ _)

  automount_token_run-Own : Own "KG-015" (automount_token_run g)
  unfolding automount_token_run
  automount_token_run-Own = per_workload-Own "KG-015" _ g (λ w. report_if-Own _ _ w _ _)

  default_sa_run-Own : Own "KG-016" (default_sa_run g)
  unfolding default_sa_run
  default_sa_run-Own = per_workload-Own "KG-016" _ g (λ w. report_if-Own _ _ w _ _)

  wildcard_rbac_run-Own : Own "KG-012" (wildcard_rbac_run g)
  unfolding wildcard_rbac_run per_role finding
  wildcard_rbac_run-Own =
      All-flat_map (λ x. x.id ≡ "KG-012") _ (all_roles g) (λ r. if-Own "KG-012" _ _ refl)

  secrets_access_run-Own : Own "KG-013" (secrets_access_run g)
  unfolding secrets_access_run per_role finding
  secrets_access_run-Own =
      All-flat_map (λ x. x.id ≡ "KG-013") _ (all_roles g) (λ r. if-Own "KG-013" _ _ refl)

  pod_create_run-Own : Own "KG-014" (pod_create_run g)
  unfolding pod_create_run per_role finding
  pod_create_run-Own =
      All-flat_map (λ x. x.id ≡ "KG-014") _ (all_roles g) (λ r. if-Own "KG-014" _ _ refl)

  host_path_finding-id : (w : Workload) (v : VolumeView) → (host_path_finding w v).id ≡ "KG-002"
  unfolding host_path_finding finding
  host_path_finding-id w v = ground arith

  host_path_run-Own : Own "KG-002" (host_path_run g)
  unfolding host_path_run
  host_path_run-Own = per_workload-Own "KG-002" _ g (λ w.
      All-flat_map (λ x. x.id ≡ "KG-002") _ w.pod_spec.volumes
        (λ v. unless-Own "KG-002" _ _ (host_path_finding-id w v)))

  exposure_finding-id : (svc : Service) → (exposure_finding g svc).id ≡ "KG-018"
  unfolding exposure_finding finding
  exposure_finding-id svc = ground arith

  exposure_run-Own : Own "KG-018" (exposure_run g)
  unfolding exposure_run
  exposure_run-Own =
      All-flat_map (λ x. x.id ≡ "KG-018") _ g.services
        (λ svc. if-Own "KG-018" _ _ (exposure_finding-id svc))

  network_policy_run-Own : (m : MapRange) → Own "KG-017" (network_policy_run m g)
  unfolding network_policy_run finding
  network_policy_run-Own m =
      All-flat_map (λ x. x.id ≡ "KG-017") _
        (range_sorted m (namespaces_with_workloads [] g.workloads))
        (λ ns. unless-Own "KG-017" _ _ refl)

  check_binding-Own :
      (r : Resource) (rr : RoleRef) (subs : List Subject) → Own "KG-011" (check_binding g r rr subs)
  unfolding check_binding finding
  check_binding-Own r rr subs = elim (Bool-cases (has_priv_subject subs)) [
    | inr n ↦ rw n tt
    | inl y ↦ elim (Option-cases (admin_reason g rr)) [
      | inl e ↦ rw (y, e) tt
      | inr (why, e) ↦ rw (y, e) (refl, tt)
    ]
  ]

  cluster_admin_binding_run-Own : Own "KG-011" (cluster_admin_binding_run g)
  unfolding cluster_admin_binding_run
  cluster_admin_binding_run-Own =
      All-append (λ x. x.id ≡ "KG-011") _ _
        (All-flat_map (λ x. x.id ≡ "KG-011") _ g.cluster_role_bindings
          (λ b. check_binding-Own b.resource b.role_ref b.subjects))
        (All-flat_map (λ x. x.id ≡ "KG-011") _ g.role_bindings
          (λ b. check_binding-Own b.resource b.role_ref b.subjects))

  -- Every check of the registry reports under its own id.
  pub registry-Own : (m : MapRange) → All (λ c. Own c.meta.id (c.run g)) (registry m)
  unfolding registry
  registry-Own m = (
    privileged_run-Own,
    (
      host_path_run-Own,
      (
        host_network_run-Own,
        (
          host_pid_run-Own,
          (
            host_ipc_run-Own,
            (
              run_as_root_run-Own,
              (
                allow_priv_esc_run-Own,
                (
                  dangerous_caps_run-Own,
                  (
                    read_only_root_fs_run-Own,
                    (
                      resource_limits_run-Own,
                      (
                        cluster_admin_binding_run-Own,
                        (
                          wildcard_rbac_run-Own,
                          (
                            secrets_access_run-Own,
                            (
                              pod_create_run-Own,
                              (
                                automount_token_run-Own,
                                (
                                  default_sa_run-Own,
                                  (
                                    network_policy_run-Own m,
                                    (
                                      exposure_run-Own,
                                      (
                                        mutable_image_run-Own,
                                        (
                                          seccomp_run-Own,
                                          (cap_drop_all_run-Own, (untrusted_registry_run-Own, tt)),
                                        ),
                                      ),
                                    ),
                                  ),
                                ),
                              ),
                            ),
                          ),
                        ),
                      ),
                    ),
                  ),
                ),
              ),
            ),
          ),
        ),
      ),
    ),
  )
