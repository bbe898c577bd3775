-- ===== src/Dashboard/Approved.antt =====
-- Who accepts a risk, by the routes of internal/dashboard/lifecycle_api.go.
use kubeguard.Prelude.{
  ℕ, ◌≤◌, String, true, List, Option, some, ◌==◌, ◌≡◌, refl, sym, ◌∙◌, ap, ◌⊎◌, inl, inr, arith,
  eq_iff, Bool-cases, get, set, get-set_cases, get-set_same, get-set_other,
}
use kubeguard.Dashboard.{FindingState, FindingLifecycle, MemStore, or_empty}
use kubeguard.Dashboard.Store.{upsert_lifecycle}
use kubeguard.Dashboard.Reads.{get_lifecycle}
use kubeguard.Dashboard.Auth.{Role, Principal, ApiState, role_rank}
use kubeguard.Dashboard.Lifecycle.{is_triage_state}
use kubeguard.Dashboard.Triage.{
  LifecycleConfig, Ticks, WaiverBody, handle_set_state, handle_create_waiver, handle_delete_waiver,
}
use kubeguard.Dashboard.Routes.{LifecycleRequest, serve_lifecycle}
use kubeguard.Dashboard.Invariant.{IsStore}
use kubeguard.Dashboard.Changes.{
  Ends, IsProper, require_role-Ends, handle_set_state-Ends, handle_create_waiver-Ends,
  handle_delete_waiver-Ends,
}

get_lifecycle-upsert :
    (t k t' : String) (lc lc' : FindingLifecycle) (m : MemStore)
    → get_lifecycle t' k (upsert_lifecycle t lc m) ≡ some lc'
    → ((t ≡ t') × (lc.key ≡ k) × (lc' ≡ lc)) ⊎ (get_lifecycle t' k m ≡ some lc')
unfolding get_lifecycle upsert_lifecycle or_empty
get_lifecycle-upsert t k t' lc lc' m h = elim (Bool-cases (t == t')) [
  | inl y ↦
      let e : t ≡ t' = (eq_iff t t').0 y in
      let h' : get k (set lc.key lc (or_empty (get t m.lifecycle))) ≡ some lc' =
        rw (← e, get-set_same t (set lc.key lc (or_empty (get t m.lifecycle))) m.lifecycle) at h in
      elim (get-set_cases k lc.key lc lc' _ h') [
        | inl (i, j) ↦ inl (e, i, j)
        | inr old ↦ inr (rw (← e) old)
      ]
  | inr n ↦ inr (
      rw
        (get-set_other t' t (set lc.key lc (or_empty (get t m.lifecycle))) m.lifecycle
          (ground (arith, eq_iff t t')))
        at h)
]

not_triage :
    (s : FindingState) → is_triage_state s ≡ true → s ≡ FindingState.state_risk_accepted → ⊥
not_triage s y e = absurd (ground (arith, ap is_triage_state e))

open_not_accepted : FindingState.state_open ≡ FindingState.state_risk_accepted → ⊥
open_not_accepted e = cc

module _ (digest : List String → String) (parse_time : String → Option ℕ)
    (format_time : ℕ → String) where
  -- The request is one for a waiver of the row, by an approver, and the row has that waiver.
  pub record IsApproved (cfg : LifecycleConfig) (t : Ticks) (p : Principal) (req : LifecycleRequest)
      (k : String) (lc : FindingLifecycle) : Type 0 where
    pub body : WaiverBody
    pub exp : ℕ
    pub approver : role_rank cfg.waiver_approver_role ≤ role_rank p.role
    pub requested : req ≡ LifecycleRequest.post_waiver k (some body)
    pub proper : IsProper digest parse_time format_time cfg t.now body exp
    pub waived :
        lc.waiver
        ≡ some (record {
          justification = body.justification;
          approved_by = p.subject;
          created_at = t.stamp;
          expires_at = format_time exp;
        })

  unchanged :
      (t k : String) (lc : FindingLifecycle) (a a' : ApiState)
      → a'.store ≡ a.store
      → get_lifecycle t k a'.store ≡ some lc
      → get_lifecycle t k a.store ≡ some lc
  unchanged t k lc a a' e h = rw (← e) h

  -- A row that is risk-accepted after a request was so before, as the same row, or the request is one
  -- for its waiver by a principal of the row's tenant with the approver's role or a higher one, with a
  -- justification and an expiry that is in the future and within the limit, and the row has that waiver.
  pub serve_lifecycle-IsApproved :
      (cfg : LifecycleConfig) (t : Ticks) (p : Principal) (req : LifecycleRequest) (a a' : ApiState)
      → IsStore a.store
      → Ends (serve_lifecycle digest parse_time format_time cfg t p req) a a'
      → (tenant k : String) (lc : FindingLifecycle) → get_lifecycle tenant k a'.store ≡ some lc
      → lc.state ≡ FindingState.state_risk_accepted
      → (get_lifecycle tenant k a.store ≡ some lc)
        ⊎ ((p.tenant ≡ tenant) × IsApproved cfg t p req k lc)
  unfolding serve_lifecycle
  serve_lifecycle-IsApproved cfg t p (LifecycleRequest.post_state key body) a a' w h tenant k lc g
        s =
      elim (require_role-Ends t.seen Role.role_analyst "finding.triage" p
        (λ p. handle_set_state digest t p key body) a a' h) [
          | inl same ↦ inl (unchanged tenant k lc a a' same g)
          | inr (_, h') ↦ elim (handle_set_state-Ends digest t p key body a a' w h') [
            | inl same ↦ inl (unchanged tenant k lc a a' same g)
            | inr (b, y, (lc', _, e)) ↦
                elim (get_lifecycle-upsert p.tenant k tenant _ lc a.store (rw e at g)) [
                  | inr old ↦ inl old
                  | inl (_, _, same) ↦
                      absurd (not_triage b.state y (sym (ap (λ x. x.state) same) ∙ s))
                ]
          ]
        ]
  serve_lifecycle-IsApproved cfg t p (LifecycleRequest.post_waiver key body) a a' w h tenant k lc g
        s =
      elim (require_role-Ends t.seen cfg.waiver_approver_role "finding.waiver" p
        (λ p. handle_create_waiver digest parse_time format_time cfg t p key body) a a' h) [
          | inl same ↦ inl (unchanged tenant k lc a a' same g)
          | inr (role, h') ↦
              elim (handle_create_waiver-Ends digest parse_time format_time cfg t p key body a a' w
                h') [
                  | inl same ↦ inl (unchanged tenant k lc a a' same g)
                  | inr (b, exp, is, proper, (lc', i, e)) ↦
                      elim (get_lifecycle-upsert p.tenant k tenant _ lc a.store (rw e at g)) [
                        | inr old ↦ inl old
                        | inl (mine, j, same) ↦ inr (
                          mine,
                          record {
                            body = b;
                            exp = exp;
                            approver = role;
                            requested = rw (is, sym i ∙ j) refl;
                            proper = proper;
                            waived = ap (λ x. x.waiver) same;
                          },
                        )
                      ]
                ]
        ]
  serve_lifecycle-IsApproved cfg t p (LifecycleRequest.delete_waiver key) a a' w h tenant k lc g s =
      elim (require_role-Ends t.seen cfg.waiver_approver_role "finding.waiver" p
        (λ p. handle_delete_waiver t p key) a a' h) [
          | inl same ↦ inl (unchanged tenant k lc a a' same g)
          | inr (_, h') ↦ elim (handle_delete_waiver-Ends t p key a a' h') [
            | inl same ↦ inl (unchanged tenant k lc a a' same g)
            | inr (lc', _, _, e) ↦
                elim (get_lifecycle-upsert p.tenant k tenant _ lc a.store (rw e at g)) [
                  | inr old ↦ inl old
                  | inl (_, _, same) ↦ absurd (open_not_accepted (sym (ap (λ x. x.state) same) ∙ s))
                ]
          ]
        ]
