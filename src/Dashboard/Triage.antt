-- ===== src/Dashboard/Triage.antt =====
-- The handlers of internal/dashboard/lifecycle_api.go. A body that is `none` is no JSON. A handler reads
-- the clock more than once: `now` is `a.clock()`, `seen` and `stamp` are the results of `a.now()`.
use kubeguard.Prelude.{
  ℕ, ◌+◌, String, not, List, [], ◌∷◌, Option, none, some, ◌==◌, ltb, cat, if◌then◌else◌, find,
}
use kubeguard.Api.{Finding}
use kubeguard.Dashboard.{Cluster, FindingState, FindingLifecycle, MemStore}
use kubeguard.Dashboard.Store.{lifecycle_key, upsert_lifecycle}
use kubeguard.Dashboard.Reads.{list_clusters, report, get_lifecycle}
use kubeguard.Dashboard.Audit.{AuditEntry}
use kubeguard.Dashboard.Auth.{allowed, Role, Principal, Response, Handler, log, write_error}
use kubeguard.Dashboard.Lifecycle.{is_triage_state, is_resolved}

-- `MaxWaiverDuration` in nanoseconds.
pub record LifecycleConfig : Type 0 where
  pub waiver_approver_role : Role
  pub max_waiver_duration : ℕ

pub record Ticks : Type 0 where
  pub now : ℕ
  pub seen : String
  pub stamp : String

pub record StateBody : Type 0 where
  pub state : FindingState
  pub assignee : String

pub record WaiverBody : Type 0 where
  pub justification : String
  pub expires_at : String

-- `string(s)`
unfoldable pub state_text : FindingState → String
state_text FindingState.state_open = "open"
state_text FindingState.state_acknowledged = "acknowledged"
state_text FindingState.state_in_progress = "in-progress"
state_text FindingState.state_resolved = "resolved"
state_text FindingState.state_risk_accepted = "risk-accepted"
state_text (FindingState.state_other s) = s

-- `a.store.UpsertLifecycle(p.Tenant, lc); a.audit.Write(…); writeJSON(w, http.StatusOK, lc)`
unfoldable pub commit : Principal → FindingLifecycle → AuditEntry → Handler FindingLifecycle
unfolding log upsert_lifecycle
commit p lc e a =
    some (Response.done 200 lc, log e (record a { store = upsert_lifecycle p.tenant lc a.store }))

-- The row after `handleSetState`.
unfoldable pub set_state : String → StateBody → FindingLifecycle → FindingLifecycle
set_state stamp body lc = record lc {
  state = body.state;
  assignee = if not (body.assignee == "") then body.assignee else lc.assignee;
  waiver = none;
  resolved_at = if is_resolved body.state then stamp else "";
  last_updated = stamp;
}

-- The row after `handleCreateWaiver`.
unfoldable pub accept_risk :
    (ℕ → String) → String → Principal → String → ℕ → FindingLifecycle → FindingLifecycle
accept_risk format_time stamp p justification exp lc = record lc {
  state = FindingState.state_risk_accepted;
  resolved_at = "";
  waiver = some (record {
    justification = justification;
    approved_by = p.subject;
    created_at = stamp;
    expires_at = format_time exp;
  });
  last_updated = stamp;
}

module _ (digest : List String → String) where
  -- The row of a finding that is not tracked.
  unfoldable pub fresh_row : String → String → Finding → FindingLifecycle
  unfolding lifecycle_key
  fresh_row id seen f = record {
    key = lifecycle_key digest id f;
    cluster_id = id;
    finding_id = f.id;
    resource = f.resource;
    state = FindingState.state_open;
    assignee = "";
    waiver = none;
    first_seen = seen;
    last_updated = "";
    resolved_at = "";
  }

  -- The first of the tenant's current findings that has the key.
  unfoldable pub search_reports :
      String → String → String → MemStore → List Cluster → Option (Option FindingLifecycle)
  unfolding lifecycle_key fresh_row report find
  search_reports tenant key seen m [] = some none
  search_reports tenant key seen m (c ∷ cs) = elim (report tenant c.id m) [
    | none ↦ none
    | some none ↦ search_reports tenant key seen m cs
    | some (some rep) ↦ elim (find (λ f. lifecycle_key digest c.id f == key) rep.findings) [
      | none ↦ search_reports tenant key seen m cs
      | some f ↦ some (some (fresh_row c.id seen f))
    ]
  ]

  -- `none` is a panic of the store.
  unfoldable pub load_or_init_lifecycle :
      String → String → String → MemStore → Option (Option FindingLifecycle)
  unfolding get_lifecycle list_clusters search_reports
  load_or_init_lifecycle tenant key seen m = elim (get_lifecycle tenant key m) [
    | some lc ↦ some (some lc)
    | none ↦ elim (list_clusters tenant m) [
      | none ↦ none
      | some cs ↦ search_reports tenant key seen m cs
    ]
  ]

  -- `lc` loaded, or 404.
  unfoldable pub with_row :
      String
      → String
      → String
      → (FindingLifecycle → Handler FindingLifecycle)
      → Handler FindingLifecycle
  unfolding load_or_init_lifecycle write_error
  with_row tenant key seen k a = elim (load_or_init_lifecycle tenant key seen a.store) [
    | none ↦ none
    | some none ↦ write_error 404 "unknown finding" a
    | some (some lc) ↦ k lc a
  ]

  unfoldable pub handle_set_state :
      Ticks → Principal → String → Option StateBody → Handler FindingLifecycle
  unfolding with_row set_state commit allowed state_text write_error
  handle_set_state t p key none = write_error 400 "invalid JSON body"
  handle_set_state t p key (some body) =
      if not (is_triage_state body.state)
      then write_error 400
          "state must be one of open, acknowledged, in-progress, resolved (risk-accepted is set via a waiver)"
      else with_row p.tenant key t.seen (λ lc. commit p (set_state t.stamp body lc) (
          allowed t.stamp p "finding.triage"
            (cat (lc.finding_id ∷ " " ∷ state_text lc.state ∷ "→" ∷ state_text body.state ∷ []))))

  module _ (parse_time : String → Option ℕ) (format_time : ℕ → String) where
    -- `handleCreateWaiver` from the expiry on.
    unfoldable pub create_until :
        LifecycleConfig → Ticks → Principal → String → String → ℕ → Handler FindingLifecycle
    unfolding with_row accept_risk commit allowed write_error
    create_until cfg t p key justification exp =
        if not (ltb t.now exp)
        then write_error 400 "expiresAt must be in the future"
        else if ltb (t.now + cfg.max_waiver_duration) exp
        then write_error 400 "waiver exceeds the maximum allowed duration"
        else with_row p.tenant key t.seen (λ lc.
          commit p (accept_risk format_time t.stamp p justification exp lc) (
            allowed t.stamp p "finding.waiver"
              (cat (lc.finding_id ∷ " until " ∷ format_time exp ∷ []))))

    unfoldable pub handle_create_waiver :
        LifecycleConfig → Ticks → Principal → String → Option WaiverBody → Handler FindingLifecycle
    unfolding create_until write_error
    handle_create_waiver cfg t p key none = write_error 400 "invalid JSON body"
    handle_create_waiver cfg t p key (some body) =
        if body.justification == ""
        then write_error 400 "justification is required to accept risk"
        else elim (parse_time body.expires_at) [
          | none ↦ write_error 400 "expiresAt must be an RFC3339 timestamp"
          | some exp ↦ create_until cfg t p key body.justification exp
        ]

-- The row after `handleDeleteWaiver`.
unfoldable pub revoke : String → FindingLifecycle → FindingLifecycle
revoke stamp lc = record lc { state = FindingState.state_open; waiver = none; last_updated = stamp }

unfoldable pub handle_delete_waiver : Ticks → Principal → String → Handler FindingLifecycle
unfolding get_lifecycle revoke commit allowed write_error
handle_delete_waiver t p key a = elim (get_lifecycle p.tenant key a.store) [
  | none ↦ write_error 404 "no active waiver for this finding" a
  | some lc ↦ elim lc.waiver [
    | none ↦ write_error 404 "no active waiver for this finding" a
    | some w ↦
        commit p (revoke t.stamp lc) (allowed t.stamp p "finding.waiver.revoke" lc.finding_id) a
  ]
]
