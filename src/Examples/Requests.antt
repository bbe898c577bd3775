-- ===== src/Examples/Requests.antt =====
-- The theorems on the dashboard's requests, at one waiver and one erasure.
use kubeguard.Prelude.{
  ℕ, String, Bool, true, false, List, [], ◌∷◌, Option, none, some, ◌==◌, ◌≡◌, ◌≢◌, ◌⊎◌, refl, inl,
  inr, pos, In, eq_iff, eq_refl, false-true, some_inj, if◌then◌else◌,
}
use kubeguard.Dashboard.{new_mem_store, FindingState, FindingLifecycle}
use kubeguard.Dashboard.Reads.{get_lifecycle}
use kubeguard.Dashboard.Audit.{list_entries}
use kubeguard.Dashboard.Invariant.{IsStore, replay-IsStore}
use kubeguard.Dashboard.Store.{cluster_named}
use kubeguard.Dashboard.Run.{Op, apply}
use kubeguard.Dashboard.Isolated.{SameReads, IsForgotten}
use kubeguard.Dashboard.Auth.{Role, Principal, ApiState, Response, static_authenticate}
use kubeguard.Dashboard.Triage.{LifecycleConfig, Ticks, WaiverBody}
use kubeguard.Dashboard.Routes.{LifecycleRequest, serve_lifecycle}
use kubeguard.Dashboard.Tenants.{handle_delete_tenant}
use kubeguard.Dashboard.Changes.{Ends}
use kubeguard.Dashboard.Approved.{IsApproved, serve_lifecycle-IsApproved}
use kubeguard.Dashboard.Consistent.{Reach, IsInternal, IsConsistent, Reach-IsConsistent}
use kubeguard.Dashboard.Security.{Front}
use kubeguard.Dashboard.Router.{Env, Request, serve}
use kubeguard.Dashboard.Authorized.{serve-isolated}
use kubeguard.Dashboard.Erased.{IsLogged, handle_delete_tenant-erased}
use kubeguard.Examples.Fleet.{digest, clock, ops, running, flaky, stamps, stored, scanned}

abbrev admin : Principal
admin = record { subject = "ann"; tenant = "acme"; role = Role.role_admin; super_admin = false }

abbrev stamp : ℕ → String
stamp n = "2030-01-01T00:00:00Z"

abbrev config : LifecycleConfig
config = record { waiver_approver_role = Role.role_admin; max_waiver_duration = 1000 }

abbrev ticks : Ticks
ticks = record { now = 7; seen = "t4"; stamp = "t5" }

abbrev key : String
key = digest ("prod" ∷ "KG-001" ∷ "Deployment" ∷ "shop" ∷ "web" ∷ [])

abbrev asked : WaiverBody
asked = record { justification = "sandbox"; expires_at = "2030-01-01T00:00:00Z" }

abbrev wanted : LifecycleRequest
wanted = LifecycleRequest.post_waiver key (some asked)

-- The state after an outcome.
abbrev after : {B : Type 0} → Option (Response B × ApiState) → ApiState
after none = running
after (some r) = r.1

abbrev row_after : Option FindingLifecycle → FindingLifecycle
row_after none = record {
  key = "";
  cluster_id = "";
  finding_id = "";
  resource = record { kind = ""; namespace = ""; name = "" };
  state = FindingState.state_open;
  assignee = "";
  waiver = none;
  first_seen = "";
  last_updated = "";
  resolved_at = "";
}
row_after (some lc) = lc

abbrev waived : ApiState
waived = after (serve_lifecycle digest clock stamp config ticks admin wanted running)

abbrev waived_row : FindingLifecycle
waived_row = row_after (get_lifecycle "acme" key waived.store)

stored-IsStore : IsStore stored
stored-IsStore = replay-IsStore digest ops

waived-Ends : Ends (serve_lifecycle digest clock stamp config ticks admin wanted) running waived
unfolding serve_lifecycle kubeguard.Prelude.get kubeguard.Dashboard.Run.replay
    kubeguard.Dashboard.Store.seed_findings kubeguard.Prelude.set
    kubeguard.Dashboard.Store.register_cluster kubeguard.Dashboard.Store.record_scan new_mem_store
    kubeguard.Prelude.join
waived-Ends = (Response.done 200 waived_row, refl)

waived_found : get_lifecycle "acme" key waived.store ≡ some waived_row
unfolding get_lifecycle kubeguard.Prelude.get serve_lifecycle kubeguard.Dashboard.Run.replay
    kubeguard.Dashboard.Store.seed_findings kubeguard.Prelude.set
    kubeguard.Dashboard.Store.register_cluster kubeguard.Dashboard.Store.record_scan new_mem_store
    kubeguard.Prelude.join
waived_found = refl

waived_accepted : waived_row.state ≡ FindingState.state_risk_accepted
unfolding get_lifecycle kubeguard.Prelude.get serve_lifecycle kubeguard.Dashboard.Run.replay
    kubeguard.Dashboard.Store.seed_findings kubeguard.Prelude.set
    kubeguard.Dashboard.Store.register_cluster kubeguard.Dashboard.Store.record_scan new_mem_store
    kubeguard.Prelude.join
waived_accepted = refl

serve_lifecycle-IsApproved_example :
    (get_lifecycle "acme" key running.store ≡ some waived_row)
    ⊎ ((admin.tenant ≡ "acme")
        × IsApproved digest clock stamp config ticks admin wanted key waived_row)
serve_lifecycle-IsApproved_example =
    serve_lifecycle-IsApproved digest clock stamp config ticks admin wanted running waived
      stored-IsStore waived-Ends "acme" key waived_row waived_found waived_accepted

abbrev front : Front
front = record {
  trim_slash = λ s. s;
  max_body = 1048576;
  allowed_origins = "https://board" ∷ [];
  allow = some (λ t. t == "acme");
  content_length = pos 64;
  method = "POST";
  origin = "https://board";
}

abbrev environment : Env
environment = record {
  digest = digest;
  parse_time = clock;
  format_time = stamp;
  trim = λ s. s;
  exists = λ s. true;
  registrar = true;
  queue_size = 256;
  life = config;
  front = front;
  auth = static_authenticate (("s3cret", admin) ∷ []);
  scanner = some flaky;
  now = "t6";
  ticks = ticks;
  stamps = stamps;
  scan_id = "scan-3";
}

abbrev served : ApiState
served = after (serve environment "s3cret" (Request.lifecycle wanted) running)

served-Ends : Ends (serve environment "s3cret" (Request.lifecycle wanted)) running served
unfolding serve static_authenticate kubeguard.Prelude.get kubeguard.Dashboard.Run.replay
    kubeguard.Prelude.set new_mem_store kubeguard.Prelude.join
served-Ends = (Response.done 200 tt, refl)

admin_only :
    (p : Principal)
    → environment.auth "s3cret" ≡ some p
    → (p.tenant ≢ "other") × (p.super_admin ≡ false)
unfolding static_authenticate kubeguard.Prelude.get
admin_only p h =
    let e : admin ≡ p = some_inj h in
    rw (← e) ((λ x. false-true ((eq_iff "acme" "other").1 x)), refl)

serve-isolated_example : SameReads "other" served.store running.store
serve-isolated_example =
    serve-isolated environment "s3cret" (Request.lifecycle wanted) running served "other"
      stored-IsStore served-Ends admin_only

abbrev operator : Principal
operator = record { subject = "joe"; tenant = "zeal"; role = Role.role_admin; super_admin = true }

abbrev erased : ApiState
erased = after (handle_delete_tenant "t7" operator "acme" running)

erased_done :
    handle_delete_tenant "t7" operator "acme" running ≡ some (Response.done 204 tt, erased)
unfolding handle_delete_tenant
erased_done = refl

handle_delete_tenant-erased_example :
    (("acme" ≡ operator.tenant) ⊎ (operator.super_admin ≡ true))
    × IsForgotten "acme" erased.store
    × (list_entries "acme" erased.audit ≡ [])
    × IsLogged "t7" operator "acme" running erased
handle_delete_tenant-erased_example =
    handle_delete_tenant-erased "t7" operator "acme" running erased erased_done

abbrev start : ApiState
start = record running { store = new_mem_store }

abbrev step : Op → ApiState → ApiState
step o a = record a { store = apply digest o a.store }

abbrev registered : ApiState
registered = step (Op.op_register "acme" (cluster_named "prod")) start

abbrev seeded : ApiState
seeded = step (Op.op_seed "acme" "prod" scanned.findings "2029-01-01T00:00:00Z") registered

seeded_Reach : Reach digest clock stamp seeded
unfolding IsInternal
seeded_Reach =
    Reach.called (Op.op_seed "acme" "prod" scanned.findings "2029-01-01T00:00:00Z") registered
      (Reach.called (Op.op_register "acme" (cluster_named "prod")) start (Reach.fresh start refl)
        tt)
      tt

abbrev reached : ApiState
reached = after (serve_lifecycle digest clock stamp config ticks admin wanted seeded)

abbrev reached_row : FindingLifecycle
reached_row = row_after (get_lifecycle "acme" key reached.store)

reached-Ends : Ends (serve_lifecycle digest clock stamp config ticks admin wanted) seeded reached
unfolding serve_lifecycle kubeguard.Prelude.get apply kubeguard.Dashboard.Store.seed_findings
    kubeguard.Prelude.set kubeguard.Dashboard.Store.register_cluster new_mem_store
    kubeguard.Prelude.join
reached-Ends = (Response.done 200 reached_row, refl)

reached_found : get_lifecycle "acme" key reached.store ≡ some reached_row
unfolding get_lifecycle kubeguard.Prelude.get serve_lifecycle apply
    kubeguard.Dashboard.Store.seed_findings kubeguard.Prelude.set
    kubeguard.Dashboard.Store.register_cluster new_mem_store kubeguard.Prelude.join
reached_found = refl

Reach-IsConsistent_example : (reached_row.key ≡ key) × IsConsistent reached_row
Reach-IsConsistent_example =
    Reach-IsConsistent digest clock stamp reached
      (Reach.served config ticks admin wanted seeded reached seeded_Reach reached-Ends) "acme" key
      reached_row reached_found
