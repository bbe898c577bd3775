-- ===== src/Graph/Build/Typed.antt =====
-- `Build` of internal/graph/graph.go: the roles stand in the list for their kind.
use kubeguard.Prelude.{
  List, [], ◌∷◌, ◌≡◌, inl, inr, ◌==◌, eq_iff, Bool-cases, All, All-append, MapRange,
}
use kubeguard.Model.{Resource}
use kubeguard.Graph.{Graph}
use kubeguard.Graph.Decode.{Decoder}
use kubeguard.Graph.Normalize.{is_workload_kind}
use kubeguard.Graph.Build.{Building, start, add_typed, add_all, add_resource, build}

-- Every role object has the kind of its list.
pub record IsTyped (g : Graph) : Type 0 where
  pub cluster : All (λ r. r.kind ≡ "ClusterRole") g.cluster_roles
  pub local : All (λ r. r.kind ≡ "Role") g.roles

module _ (d : Decoder) where
  add_typed-IsTyped : (g : Graph) (r : Resource) → IsTyped g → IsTyped (add_typed d g r)
  unfolding add_typed
  add_typed-IsTyped g r t = elim (Bool-cases (is_workload_kind r.kind)) [
    | inl a ↦ rw a (record { cluster = t.cluster; local = t.local })
    | inr a ↦ elim (Bool-cases (r.kind == "ServiceAccount")) [
      | inl b ↦ rw (a, b) (record { cluster = t.cluster; local = t.local })
      | inr b ↦ elim (Bool-cases (r.kind == "Role")) [
        | inl c ↦
            rw (a, b, c)
              (record {
                cluster = t.cluster;
                local =
                    All-append (λ x. x.kind ≡ "Role") g.roles _ t.local
                      ((eq_iff r.kind "Role").0 c, tt);
              })
        | inr c ↦ elim (Bool-cases (r.kind == "ClusterRole")) [
          | inl e ↦
              rw (a, b, c, e)
                (record {
                  cluster =
                      All-append (λ x. x.kind ≡ "ClusterRole") g.cluster_roles _ t.cluster
                        ((eq_iff r.kind "ClusterRole").0 e, tt);
                  local = t.local;
                })
          | inr e ↦ elim (Bool-cases (r.kind == "RoleBinding")) [
            | inl f ↦ rw (a, b, c, e, f) (record { cluster = t.cluster; local = t.local })
            | inr f ↦ elim (Bool-cases (r.kind == "ClusterRoleBinding")) [
              | inl h ↦ rw (a, b, c, e, f, h) (record { cluster = t.cluster; local = t.local })
              | inr h ↦ elim (Bool-cases (r.kind == "Service")) [
                | inl i ↦ rw (a, b, c, e, f, h, i) (record { cluster = t.cluster; local = t.local })
                | inr i ↦ elim (Bool-cases (r.kind == "NetworkPolicy")) [
                  | inl j ↦
                      rw (a, b, c, e, f, h, i, j) (record { cluster = t.cluster; local = t.local })
                  | inr j ↦ rw (a, b, c, e, f, h, i, j) t
                ]
              ]
            ]
          ]
        ]
      ]
    ]
  ]

  add_all-IsTyped :
      (b : Building) (rs : List Resource) → IsTyped b.graph → IsTyped (add_all d b rs).graph
  unfolding add_all add_resource
  add_all-IsTyped b [] t = t
  add_all-IsTyped b (r ∷ rs) t =
      add_all-IsTyped (add_resource d b r) rs (add_typed-IsTyped b.graph r t)

  -- In the graph that `Build` makes of any resources, each object in the list of Roles is a Role, and
  -- each in the list of ClusterRoles is a ClusterRole.
  pub build-IsTyped : (m : MapRange) (rs : List Resource) → IsTyped (build d m rs)
  unfolding build
  build-IsTyped m rs =
      let t = add_all-IsTyped (start rs) rs (record { cluster = tt; local = tt }) in
      record { cluster = t.cluster; local = t.local }
