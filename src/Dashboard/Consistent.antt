-- ===== src/Dashboard/Consistent.antt =====
-- The rows that internal/dashboard/lifecycle_api.go and memstore.go can reach.
use kubeguard.Prelude.{
  ℕ, String, true, List, Option, none, some, ◌≡◌, ◌≢◌, refl, inl, inr, false-true, get-All,
  if◌then◌else◌,
}
use kubeguard.Dashboard.{FindingState, Waiver, FindingLifecycle, MemStore, new_mem_store}
use kubeguard.Dashboard.Store.{open_row, upsert_lifecycle}
use kubeguard.Dashboard.Reads.{get_lifecycle}
use kubeguard.Dashboard.Auth.{Role, Principal, ApiState}
use kubeguard.Dashboard.Lifecycle.{is_triage_state, is_resolved}
use kubeguard.Dashboard.Triage.{
  LifecycleConfig, Ticks, set_state, accept_risk, revoke, handle_set_state, handle_create_waiver,
  handle_delete_waiver,
}
use kubeguard.Dashboard.Routes.{LifecycleRequest, serve_lifecycle}
use kubeguard.Dashboard.Run.{Op, apply}
use kubeguard.Dashboard.Invariant.{IsStore, IsRows, or_empty-IsRows, new-IsStore, apply-IsStore}
use kubeguard.Dashboard.Rows.{
  AllRows, new-AllRows, upsert_lifecycle-AllRows, get_lifecycle-AllRows, OpRows, apply-AllRows,
}
use kubeguard.Dashboard.Changes.{
  Ends, require_role-Ends, handle_set_state-Ends, handle_create_waiver-Ends,
  handle_delete_waiver-Ends,
}

-- A row has a waiver, with a justification, exactly in the state risk-accepted, and a time of
-- resolution only in the state resolved.
unfoldable pub Agrees : FindingState → Option Waiver → String → Type 0
Agrees FindingState.state_risk_accepted (some w) resolved = (w.justification ≢ "") × (resolved ≡ "")
Agrees FindingState.state_risk_accepted none resolved = ⊥
Agrees FindingState.state_resolved w resolved = w ≡ none
Agrees FindingState.state_open w resolved = (w ≡ none) × (resolved ≡ "")
Agrees FindingState.state_acknowledged w resolved = (w ≡ none) × (resolved ≡ "")
Agrees FindingState.state_in_progress w resolved = (w ≡ none) × (resolved ≡ "")
Agrees (FindingState.state_other s) w resolved = ⊥

unfoldable pub IsConsistent : FindingLifecycle → Type 0
IsConsistent lc = Agrees lc.state lc.waiver lc.resolved_at

triage-Agrees :
    (s : FindingState) (stamp : String)
    → is_triage_state s ≡ true
    → Agrees s none (if is_resolved s then stamp else "")
unfolding Agrees
triage-Agrees FindingState.state_open stamp y = (refl, refl)
triage-Agrees FindingState.state_acknowledged stamp y = (refl, refl)
triage-Agrees FindingState.state_in_progress stamp y = (refl, refl)
triage-Agrees FindingState.state_resolved stamp y = refl
triage-Agrees FindingState.state_risk_accepted stamp y = absurd (false-true y)
triage-Agrees (FindingState.state_other s) stamp y = absurd (false-true y)

revoked :
    (s : FindingState) (w : Option Waiver) (resolved : String)
    → w ≢ none
    → Agrees s w resolved
    → resolved ≡ ""
unfolding Agrees
revoked FindingState.state_risk_accepted (some w) r n c = c.1
revoked FindingState.state_risk_accepted none r n c = elim c [ ]
revoked FindingState.state_resolved w r n c = absurd (n c)
revoked FindingState.state_open w r n c = c.1
revoked FindingState.state_acknowledged w r n c = c.1
revoked FindingState.state_in_progress w r n c = c.1
revoked (FindingState.state_other s) w r n c = elim c [ ]

abbrev IsSound : MemStore → Type 0
IsSound m = IsStore m × AllRows IsConsistent m

upsert-IsSound :
    (digest : List String → String) (t : String) (lc : FindingLifecycle) (a a' : ApiState)
    → a'.store ≡ upsert_lifecycle t lc a.store
    → IsConsistent lc
    → IsSound a.store
    → IsSound a'.store
unfolding apply
upsert-IsSound digest t lc a a' e c (w, r) = rw e (
  apply-IsStore digest (Op.op_upsert t lc) a.store w,
  upsert_lifecycle-AllRows IsConsistent t lc a.store c r,
)

-- A call of the store other than that of the handlers of triage requests.
unfoldable pub IsInternal : Op → Type 0
IsInternal (Op.op_register t c) = Unit {0}
IsInternal (Op.op_delete t id) = Unit {0}
IsInternal (Op.op_record t id scan_id rep at) = Unit {0}
IsInternal (Op.op_provision t display_name) = Unit {0}
IsInternal (Op.op_erase t) = Unit {0}
IsInternal (Op.op_seed t id fs now) = Unit {0}
IsInternal (Op.op_upsert t lc) = ⊥

internal-OpRows :
    (digest : List String → String) (o : Op) → IsInternal o → OpRows IsConsistent digest o
unfolding IsInternal OpRows IsConsistent Agrees open_row
internal-OpRows digest (Op.op_register t c) i = tt
internal-OpRows digest (Op.op_delete t id) i = tt
internal-OpRows digest (Op.op_record t id scan_id rep at) i = tt
internal-OpRows digest (Op.op_provision t display_name) i = tt
internal-OpRows digest (Op.op_erase t) i = tt
internal-OpRows digest (Op.op_seed t id fs now) i = λ f. (refl, refl)
internal-OpRows digest (Op.op_upsert t lc) i = elim i [ ]

module _ (digest : List String → String) (parse_time : String → Option ℕ)
    (format_time : ℕ → String) where
  -- The states of the dashboard that triage requests and the other calls of the store lead to.
  pub data Reach : ApiState → Type 0 where
    fresh : (a : ApiState) → a.store ≡ new_mem_store → Reach a
    served :
        (cfg : LifecycleConfig) (t : Ticks) (p : Principal) (req : LifecycleRequest)
        (a a' : ApiState)
        → Reach a
        → Ends (serve_lifecycle digest parse_time format_time cfg t p req) a a'
        → Reach a'
    called :
        (o : Op) (a : ApiState)
        → Reach a
        → IsInternal o
        → Reach (record a { store = apply digest o a.store })

  serve_lifecycle-IsSound :
      (cfg : LifecycleConfig) (t : Ticks) (p : Principal) (req : LifecycleRequest) (a a' : ApiState)
      → IsSound a.store
      → Ends (serve_lifecycle digest parse_time format_time cfg t p req) a a'
      → IsSound a'.store
  unfolding serve_lifecycle IsConsistent Agrees
  serve_lifecycle-IsSound cfg t p (LifecycleRequest.post_state key body) a a' w h =
      elim (require_role-Ends t.seen Role.role_analyst "finding.triage" p
        (λ p. handle_set_state digest t p key body) a a' h) [
          | inl same ↦ rw same w
          | inr (_, h') ↦ elim (handle_set_state-Ends digest t p key body a a' w.0 h') [
            | inl same ↦ rw same w
            | inr (b, y, (lc, _, e)) ↦
                upsert-IsSound digest p.tenant (set_state t.stamp b lc) a a' e
                  (triage-Agrees b.state t.stamp y) w
          ]
        ]
  serve_lifecycle-IsSound cfg t p (LifecycleRequest.post_waiver key body) a a' w h =
      elim (require_role-Ends t.seen cfg.waiver_approver_role "finding.waiver" p
        (λ p. handle_create_waiver digest parse_time format_time cfg t p key body) a a' h) [
          | inl same ↦ rw same w
          | inr (_, h') ↦
              elim (handle_create_waiver-Ends digest parse_time format_time cfg t p key body a a'
                w.0 h') [
                  | inl same ↦ rw same w
                  | inr (b, exp, _, proper, (lc, _, e)) ↦
                      upsert-IsSound digest p.tenant
                        (accept_risk format_time t.stamp p b.justification exp lc) a a' e
                        (proper.justified, refl) w
                ]
        ]
  serve_lifecycle-IsSound cfg t p (LifecycleRequest.delete_waiver key) a a' w h =
      elim (require_role-Ends t.seen cfg.waiver_approver_role "finding.waiver" p
        (λ p. handle_delete_waiver t p key) a a' h) [
          | inl same ↦ rw same w
          | inr (_, h') ↦ elim (handle_delete_waiver-Ends t p key a a' h') [
            | inl same ↦ rw same w
            | inr (lc, g, n, e) ↦
                upsert-IsSound digest p.tenant (revoke t.stamp lc) a a' e
                  (
                    refl,
                    revoked lc.state lc.waiver lc.resolved_at n
                        (get_lifecycle-AllRows IsConsistent a.store p.tenant key lc w.1 g),
                  )
                  w
          ]
        ]

  Reach-IsSound : (a : ApiState) → Reach a → IsSound a.store
  Reach-IsSound a (Reach.fresh _ e) = rw e (new-IsStore, new-AllRows IsConsistent)
  Reach-IsSound a (Reach.served cfg t p req b _ r h) =
      serve_lifecycle-IsSound cfg t p req b a (Reach-IsSound b r) h
  Reach-IsSound a (Reach.called o b r i) =
      let (w, s) = Reach-IsSound b r in
      (
        apply-IsStore digest o b.store w,
        apply-AllRows IsConsistent digest o b.store (internal-OpRows digest o i) s,
      )

  -- In every state that triage requests and the other calls of the store lead to, each row stands under
  -- its key, has a waiver, with a justification, exactly if it is risk-accepted, and has a time of
  -- resolution only if it is resolved; no row has another state than the five.
  pub Reach-IsConsistent :
      (a : ApiState)
      → Reach a
      → (t k : String) (lc : FindingLifecycle) → get_lifecycle t k a.store ≡ some lc
      → (lc.key ≡ k) × IsConsistent lc
  unfolding get_lifecycle IsRows
  Reach-IsConsistent a r t k lc g =
      let (w, s) = Reach-IsSound a r in
      (
        get-All (λ e. e.1.key ≡ e.0) k lc _ (or_empty-IsRows t a.store w) g,
        get_lifecycle-AllRows IsConsistent a.store t k lc s g,
      )
