-- ===== src/Dashboard/Changes.antt =====
-- What the handlers of internal/dashboard/lifecycle_api.go may do to the rows of the store.
use kubeguard.Prelude.{
  ℕ, ◌+◌, ◌≤◌, ◌<◌, String, true, List, [], ◌∷◌, Option, none, some, ◌==◌, ◌≡◌, ◌≢◌, refl, sym, ◌∙◌,
  ap, ◌⊎◌, inl, inr, arith, eq_iff, Bool-cases, Option-cases, none-some, some_inj, ltb, find,
  find-some, get-All,
}
use kubeguard.Dashboard.{Cluster, FindingLifecycle, MemStore}
use kubeguard.Dashboard.Store.{lifecycle_key, upsert_lifecycle}
use kubeguard.Dashboard.Reads.{list_clusters, report, get_lifecycle}
use kubeguard.Dashboard.Audit.{AuditEntry}
use kubeguard.Dashboard.Auth.{
  Principal, ApiState, Response, Handler, Role, role_rank, log, require_role, write_error,
}
use kubeguard.Dashboard.Invariant.{IsStore, IsRows, or_empty-IsRows}
use kubeguard.Dashboard.Lifecycle.{is_triage_state}
use kubeguard.Dashboard.Triage.{
  LifecycleConfig, Ticks, StateBody, WaiverBody, fresh_row, search_reports, load_or_init_lifecycle,
  with_row, commit, set_state, handle_set_state, accept_risk, create_until, handle_create_waiver,
  revoke, handle_delete_waiver,
}

-- The handler returned, with this state after it.
abbrev pub Ends : {B : Type 0} → Handler B → ApiState → ApiState → Type 0
Ends {B = B} h a a' = (r : Response B) × (h a ≡ some (r, a'))

pub write_error-Ends :
    {B : Type 0} (code : ℕ) (msg : String) (a a' : ApiState)
    → Ends (write_error {B = B} code msg) a a'
    → a'.store ≡ a.store
unfolding write_error
write_error-Ends code msg a a' (r, h) = ap (λ x. x.1.store) (some_inj (sym h))

commit-Ends :
    (p : Principal) (lc : FindingLifecycle) (e : AuditEntry) (a a' : ApiState)
    → Ends (commit p lc e) a a'
    → a'.store ≡ upsert_lifecycle p.tenant lc a.store
unfolding commit log
commit-Ends p lc e a a' (r, h) = ap (λ x. x.1.store) (some_inj (sym h))

pub require_role-Ends :
    {B : Type 0} (now : String) (min_role : Role) (action : String) (p : Principal)
    (next : Principal → Handler B) (a a' : ApiState)
    → Ends (require_role now min_role action p next) a a'
    → (a'.store ≡ a.store) ⊎ ((role_rank min_role ≤ role_rank p.role) × Ends (next p) a a')
unfolding require_role log
require_role-Ends now min_role action p next a a' (r, h) =
    elim (Bool-cases (ltb (role_rank p.role) (role_rank min_role))) [
      | inl y ↦ inl (write_error-Ends 403 "insufficient role" _ a' (r, rw y at h))
      | inr n ↦ inr (ground arith, (r, rw n at h))
    ]

-- The handler left the store as it was, or put a row into it that it derives from the one with the key.
abbrev pub Derives :
    Principal → String → (FindingLifecycle → FindingLifecycle) → ApiState → ApiState → Type 0
Derives p key f a a' =
    (lc : FindingLifecycle) × (lc.key ≡ key) × (a'.store ≡ upsert_lifecycle p.tenant (f lc) a.store)

module _ (digest : List String → String) where
  search_reports-key :
      (tenant key seen : String) (m : MemStore) (cs : List Cluster) (lc : FindingLifecycle)
      → search_reports digest tenant key seen m cs ≡ some (some lc)
      → lc.key ≡ key
  unfolding search_reports
  search_reports-key tenant key seen m [] lc h = absurd (ground arith)
  search_reports-key tenant key seen m (c ∷ cs) lc h = elim (Option-cases (report tenant c.id m)) [
    | inl e ↦ absurd (none-some (rw (e, search_reports) at h))
    | inr (none, e) ↦ search_reports-key tenant key seen m cs lc (rw (e, search_reports) at h)
    | inr (some rep, e) ↦
        elim (Option-cases (find (λ f. lifecycle_key digest c.id f == key) rep.findings)) [
          | inl e' ↦ search_reports-key tenant key seen m cs lc (rw (e, e', search_reports) at h)
          | inr (f, e') ↦
              let (_, k) = find-some (λ f. lifecycle_key digest c.id f == key) rep.findings f e' in
              let h' : some (some (fresh_row digest c.id seen f)) ≡ some (some lc) =
                rw (e, e', search_reports) at h in
              rw (← some_inj (some_inj h')) ((eq_iff _ key).0 k)
        ]
  ]

  load-key :
      (tenant key seen : String) (m : MemStore) (lc : FindingLifecycle)
      → IsStore m
      → load_or_init_lifecycle digest tenant key seen m ≡ some (some lc)
      → lc.key ≡ key
  unfolding load_or_init_lifecycle get_lifecycle IsRows
  load-key tenant key seen m lc w h = elim (Option-cases (get_lifecycle tenant key m)) [
    | inr (lc', e) ↦
        (let same : lc' ≡ lc = some_inj (some_inj (rw (e, load_or_init_lifecycle) at h)) in
          rw (← same) (get-All (λ e. e.1.key ≡ e.0) key lc' _ (or_empty-IsRows tenant m w) e))
    | inl e ↦ elim (Option-cases (list_clusters tenant m)) [
      | inl e' ↦ absurd (none-some (rw (e, e', load_or_init_lifecycle) at h))
      | inr (cs, e') ↦
          search_reports-key tenant key seen m cs lc (rw (e, e', load_or_init_lifecycle) at h)
    ]
  ]

  with_row-Ends :
      (p : Principal) (key seen : String) (f : FindingLifecycle → FindingLifecycle)
      (e : FindingLifecycle → AuditEntry) (a a' : ApiState)
      → IsStore a.store
      → Ends (with_row digest p.tenant key seen (λ lc. commit p (f lc) (e lc))) a a'
      → (a'.store ≡ a.store) ⊎ Derives p key f a a'
  unfolding with_row
  with_row-Ends p key seen f e a a' w (r, h) =
      elim (Option-cases (load_or_init_lifecycle digest p.tenant key seen a.store)) [
        | inl l ↦ absurd (none-some (rw (l, with_row) at h))
        | inr (none, l) ↦
            inl (write_error-Ends 404 "unknown finding" a a' (r, rw (l, with_row) at h))
        | inr (some lc, l) ↦ inr (
          lc,
          load-key p.tenant key seen a.store lc w l,
          commit-Ends p (f lc) (e lc) a a' (r, rw (l, with_row) at h),
        )
      ]

  pub handle_set_state-Ends :
      (t : Ticks) (p : Principal) (key : String) (body : Option StateBody) (a a' : ApiState)
      → IsStore a.store
      → Ends (handle_set_state digest t p key body) a a'
      → (a'.store ≡ a.store)
        ⊎ ((b : StateBody) × (is_triage_state b.state ≡ true)
            × Derives p key (set_state t.stamp b) a a')
  unfolding handle_set_state
  handle_set_state-Ends t p key none a a' w h = inl (write_error-Ends _ _ a a' h)
  handle_set_state-Ends t p key (some b) a a' w (r, h) =
      elim (Bool-cases (is_triage_state b.state)) [
        | inr n ↦ inl (
            write_error-Ends 400
              "state must be one of open, acknowledged, in-progress, resolved (risk-accepted is set via a waiver)"
              a a' (r, rw n at h))
        | inl y ↦ elim (with_row-Ends p key t.seen (set_state t.stamp b) _ a a' w (r, rw y at h)) [
          | inl same ↦ inl same
          | inr d ↦ inr (b, y, d)
        ]
      ]

  module _ (parse_time : String → Option ℕ) (format_time : ℕ → String) where
    -- The request asks for a waiver with a justification until an instant within the limit.
    pub record IsProper (cfg : LifecycleConfig) (now : ℕ) (b : WaiverBody) (exp : ℕ) : Type 0 where
      pub justified : b.justification ≢ ""
      pub parsed : parse_time b.expires_at ≡ some exp
      pub future : now < exp
      pub limited : exp ≤ now + cfg.max_waiver_duration

    pub handle_create_waiver-Ends :
        (cfg : LifecycleConfig) (t : Ticks) (p : Principal) (key : String)
        (body : Option WaiverBody) (a a' : ApiState)
        → IsStore a.store
        → Ends (handle_create_waiver digest parse_time format_time cfg t p key body) a a'
        → (a'.store ≡ a.store)
          ⊎ ((b : WaiverBody) × (exp : ℕ) × (body ≡ some b)
              × IsProper cfg t.now b exp
              × Derives p key (accept_risk format_time t.stamp p b.justification exp) a a')
    unfolding handle_create_waiver create_until
    handle_create_waiver-Ends cfg t p key none a a' w h = inl (write_error-Ends _ _ a a' h)
    handle_create_waiver-Ends cfg t p key (some b) a a' w (r, h) =
        elim (Bool-cases (b.justification == "")) [
          | inl y ↦
              inl (
                write_error-Ends 400 "justification is required to accept risk" a a' (r, rw y at h))
          | inr j ↦ elim (Option-cases (parse_time b.expires_at)) [
            | inl e ↦ inl (
                write_error-Ends 400 "expiresAt must be an RFC3339 timestamp" a a'
                  (r, rw (j, e, handle_create_waiver) at h))
            | inr (exp, e) ↦ elim (Bool-cases (ltb t.now exp)) [
              | inr n ↦ inl (
                  write_error-Ends 400 "expiresAt must be in the future" a a'
                    (r, rw (j, e, n, handle_create_waiver) at h))
              | inl f ↦ elim (Bool-cases (ltb (t.now + cfg.max_waiver_duration) exp)) [
                | inl y ↦ inl (
                    write_error-Ends 400 "waiver exceeds the maximum allowed duration" a a'
                      (r, rw (j, e, f, y, handle_create_waiver) at h))
                | inr l ↦
                    elim (with_row-Ends p key t.seen
                      (accept_risk format_time t.stamp p b.justification exp) _ a a' w
                      (r, rw (j, e, f, l, handle_create_waiver) at h)) [
                        | inl same ↦ inl same
                        | inr d ↦ inr (
                          b,
                          exp,
                          refl,
                          record {
                            justified = ground (arith, eq_iff b.justification "");
                            parsed = e;
                            future = ground arith;
                            limited = ground arith;
                          },
                          d,
                        )
                      ]
              ]
            ]
          ]
        ]

pub handle_delete_waiver-Ends :
    (t : Ticks) (p : Principal) (key : String) (a a' : ApiState)
    → Ends (handle_delete_waiver t p key) a a'
    → (a'.store ≡ a.store)
      ⊎ ((lc : FindingLifecycle) × (get_lifecycle p.tenant key a.store ≡ some lc)
          × (lc.waiver ≢ none)
          × (a'.store ≡ upsert_lifecycle p.tenant (revoke t.stamp lc) a.store))
unfolding handle_delete_waiver
handle_delete_waiver-Ends t p key a a' (r, h) =
    elim (Option-cases (get_lifecycle p.tenant key a.store)) [
      | inl e ↦ inl (
          write_error-Ends 404 "no active waiver for this finding" a a'
            (r, rw (e, handle_delete_waiver) at h))
      | inr (lc, e) ↦ elim (Option-cases lc.waiver) [
        | inl n ↦ inl (
            write_error-Ends 404 "no active waiver for this finding" a a'
              (r, rw (e, n, handle_delete_waiver) at h))
        | inr (x, y) ↦ inr (
          lc,
          e,
          (λ z. none-some (sym z ∙ y)),
          commit-Ends p (revoke t.stamp lc) _ a a' (r, rw (e, y, handle_delete_waiver) at h),
        )
      ]
    ]
