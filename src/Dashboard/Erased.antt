-- ===== src/Dashboard/Erased.antt =====
-- What `handleDeleteTenant` of internal/dashboard/tenants_api.go leaves of a tenant.
use kubeguard.Prelude.{
  ℕ, String, true, not, ◌&&◌, ◌||◌, [], ◌∷◌, ◌++◌, some, ◌==◌, ◌≡◌, ◌≢◌, refl, ap, ◌⊎◌, inl, inr,
  arith, eq_iff, false-true, sym, ◌∙◌, Bool-cases, some_inj, get, get-set_same, get-delete_same,
  get-delete_other,
}
use kubeguard.Dashboard.Run.{replay}
use kubeguard.Dashboard.Isolated.{IsForgotten, delete_tenant-IsForgotten}
use kubeguard.Dashboard.Audit.{AuditEntry, entries, write, list_entries, purge_tenant}
use kubeguard.Dashboard.Auth.{allowed, Principal, ApiState, Response, log, write_error}
use kubeguard.Dashboard.Clusters.{valid_cluster_id}
use kubeguard.Dashboard.Tenants.{erase_tenant, handle_delete_tenant}

failed_not_done :
    {B : Type 0} {code n : ℕ} {msg : String} {b : B}
    → Response.failed code msg ≡ Response.done n b
    → ⊥
failed_not_done h = cc

erase-IsForgotten :
    (target : String) (a : ApiState) → IsForgotten target (erase_tenant target a).store
unfolding erase_tenant replay
erase-IsForgotten target a = delete_tenant-IsForgotten (λ xs. "") target a.store [] tt

erase-entries :
    (target : String) (a : ApiState) → list_entries target (erase_tenant target a).audit ≡ []
unfolding erase_tenant list_entries purge_tenant entries
erase-entries target a = rw (get-delete_same target a.audit) refl

erase-log :
    (target : String) (e : AuditEntry) (a : ApiState)
    → target ≢ e.tenant
    → list_entries e.tenant (erase_tenant target (log e a)).audit
      ≡ list_entries e.tenant a.audit ++ e ∷ []
unfolding erase_tenant list_entries purge_tenant log write
erase-log target e a n =
    rw
      (
        get-delete_other e.tenant target (write e a.audit) n,
        get-set_same e.tenant (entries (get e.tenant a.audit) ++ e ∷ []) a.audit,
      )
      (unfold entries in refl)

-- The entry of the erasure is the last of the caller's log, or the log is the one erased.
abbrev pub IsLogged : String → Principal → String → ApiState → ApiState → Type 0
IsLogged now p target a a' =
    ((target ≡ p.tenant) × (list_entries p.tenant a'.audit ≡ []))
    ⊎ ((target ≢ p.tenant)
        × (list_entries p.tenant a'.audit
            ≡ list_entries p.tenant a.audit ++ allowed now p "tenant.delete" target ∷ []))

erase-IsLogged :
    (now : String) (p : Principal) (target : String) (a : ApiState)
    → IsLogged now p target a (erase_tenant target (log (allowed now p "tenant.delete" target) a))
unfolding allowed
erase-IsLogged now p target a =
    let e = allowed now p "tenant.delete" target in
    elim (Bool-cases (target == p.tenant)) [
      | inl y ↦
          let same : target ≡ p.tenant = (eq_iff target p.tenant).0 y in
          inl (
            same,
            ap (λ k. list_entries k (erase_tenant target (log e a)).audit) (sym same)
                ∙ erase-entries target (log e a),
          )
      | inr k ↦
          let other : target ≢ p.tenant = λ y. false-true (sym k ∙ (eq_iff target p.tenant).1 y) in
          inr (other, erase-log target e a other)
    ]

module _ (now : String) (p : Principal) (target : String) (a a' : ApiState) where
  -- An erasure that succeeds is of the caller's own tenant or by a super-admin, and leaves nothing of the
  -- tenant that a read of the store finds and no entry in its audit log. The erasure of another tenant is
  -- the last entry of the caller's log, after all earlier ones; the erasure of the caller's own tenant
  -- leaves that log empty, without an entry of the erasure itself.
  pub handle_delete_tenant-erased :
      handle_delete_tenant now p target a ≡ some (Response.done 204 tt, a')
      → ((target ≡ p.tenant) ⊎ (p.super_admin ≡ true))
        × IsForgotten target a'.store
        × (list_entries target a'.audit ≡ [])
        × IsLogged now p target a a'
  unfolding handle_delete_tenant write_error
  handle_delete_tenant-erased h =
      elim (Bool-cases (target == "" || not (valid_cluster_id target))) [
        | inl y ↦ absurd (failed_not_done (ap (λ z. z.0) (some_inj (rw y at h))))
        | inr n ↦ elim (Bool-cases (not (target == p.tenant) && not p.super_admin)) [
          | inl y ↦ absurd (failed_not_done (ap (λ z. z.0) (some_inj (rw (n, y) at h))))
          | inr o ↦
              let b = log (allowed now p "tenant.delete" target) a in
              let same : erase_tenant target b ≡ a' = ap (λ z. z.1) (some_inj (rw (n, o) at h)) in
              rw (← same) (
                elim (Bool-cases (target == p.tenant)) [
                  | inl y ↦ inl ((eq_iff target p.tenant).0 y)
                  | inr k ↦ inr (ground arith)
                ],
                erase-IsForgotten target b,
                erase-entries target b,
                erase-IsLogged now p target a,
              )
        ]
      ]
