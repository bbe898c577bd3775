-- ===== src/Dashboard/Lane.antt =====
-- `handleListLifecycle` of internal/dashboard/lifecycle_api.go, the triage lane, and the functions there
-- that enforcement reads.
use kubeguard.Prelude.{
  ℕ, ◌*◌, ℤ, pos, is_positive, String, Bool, not, List, [], ◌∷◌, ◌++◌, map, Option, none, some,
  ◌==◌, if◌then◌else◌, any, filter, MapRange, Dict, get, set, keys,
}
use kubeguard.Api.{Finding}
use kubeguard.Dashboard.{FindingLifecycle, MemStore}
use kubeguard.Dashboard.Store.{lifecycle_key}
use kubeguard.Dashboard.Reads.{list_clusters, report, list_lifecycle, sort_lifecycle, rows_at}
use kubeguard.Dashboard.Auth.{Role}
use kubeguard.Dashboard.Lifecycle.{MttrSummary, settle, is_actively_waived, compute_mttr}
use kubeguard.Dashboard.Triage.{LifecycleConfig, fresh_row}

-- `MaxWaiverDuration` before the defaults, in nanoseconds.
pub record RawLifecycleConfig : Type 0 where
  pub waiver_approver_role : Role
  pub max_waiver_duration : ℤ

unfoldable pub or_admin : Role → Role
or_admin (Role.role_other s) = if s == "" then Role.role_admin else Role.role_other s
or_admin Role.role_viewer = Role.role_viewer
or_admin Role.role_analyst = Role.role_analyst
or_admin Role.role_admin = Role.role_admin

-- 90 days where the duration is not positive.
unfoldable pub or_ninety_days : ℤ → ℕ
or_ninety_days (pos n) = if is_positive (pos n) then n else 90 * 24 * 3600000000000
or_ninety_days (ℤ.negsuc n) = 90 * 24 * 3600000000000

unfoldable pub with_defaults : RawLifecycleConfig → LifecycleConfig
unfolding or_admin or_ninety_days
with_defaults c = record {
  waiver_approver_role = or_admin c.waiver_approver_role;
  max_waiver_duration = or_ninety_days c.max_waiver_duration;
}

-- `stored`: the rows by key.
unfoldable pub index_rows : List FindingLifecycle → Dict FindingLifecycle → Dict FindingLifecycle
index_rows [] d = d
index_rows (lc ∷ lcs) d = index_rows lcs (set lc.key lc d)

-- `items` and `seen` of the loops.
pub record Lane : Type 0 where
  pub items : List FindingLifecycle
  pub seen : List String

unfoldable pub is_seen : String → List String → Bool
unfolding any
is_seen key seen = any (λ k. k == key) seen

pub record LifecycleView : Type 0 where
  pub items : List FindingLifecycle
  pub mttr : MttrSummary

module _ (digest : List String → String) (parse_time : String → Option ℕ) (now : ℕ) where
  -- The stored row of the finding, or one that is open.
  unfoldable pub row_of : Dict FindingLifecycle → String → Finding → FindingLifecycle
  unfolding fresh_row lifecycle_key
  row_of stored id f = elim (get (lifecycle_key digest id f) stored) [
    | none ↦ fresh_row digest id "" f
    | some lc ↦ lc
  ]

  unfoldable pub add_finding : Dict FindingLifecycle → String → Lane → Finding → Lane
  unfolding is_seen row_of settle lifecycle_key
  add_finding stored id l f = if is_seen (lifecycle_key digest id f) l.seen then l else record {
    items = l.items ++ settle parse_time now (row_of stored id f) ∷ [];
    seen = lifecycle_key digest id f ∷ l.seen;
  }

  unfoldable pub add_findings : Dict FindingLifecycle → String → List Finding → Lane → Lane
  unfolding add_finding
  add_findings stored id [] l = l
  add_findings stored id (f ∷ fs) l = add_findings stored id fs (add_finding stored id l f)

  -- The loop over the clusters; `none` is a panic of the store.
  unfoldable pub add_clusters :
      String → MemStore → Dict FindingLifecycle → List String → Lane → Option Lane
  unfolding report add_findings
  add_clusters tenant m stored [] l = some l
  add_clusters tenant m stored (id ∷ ids) l = elim (report tenant id m) [
    | none ↦ none
    | some none ↦ add_clusters tenant m stored ids l
    | some (some rep) ↦ add_clusters tenant m stored ids (add_findings stored id rep.findings l)
  ]

  -- The stored rows that no current finding has, in the order of the map, and the summary.
  unfoldable pub finish_lane : MapRange → Dict FindingLifecycle → Lane → LifecycleView
  unfolding rows_at is_seen settle sort_lifecycle compute_mttr filter
  finish_lane r stored l =
      let rest = rows_at stored (filter (λ k. not (is_seen k l.seen)) (r.range (keys stored))) in
      let items = sort_lifecycle (l.items ++ map (settle parse_time now) rest) in
      record { items = items; mttr = compute_mttr parse_time items now }

  unfoldable pub handle_list_lifecycle :
      MapRange → String → String → MemStore → Option LifecycleView
  unfolding list_lifecycle list_clusters index_rows add_clusters finish_lane
  handle_list_lifecycle r tenant cluster m =
      let stored = index_rows (list_lifecycle r tenant cluster m) [] in
      elim (if not (cluster == "")
        then some (cluster ∷ [])
        else elim (list_clusters tenant m) [ none ↦ none | some cs ↦ some (map (λ c. c.id) cs) ]) [
          | none ↦ none
          | some ids ↦ elim (add_clusters tenant m stored ids (record { items = []; seen = [] })) [
            | none ↦ none
            | some l ↦ some (finish_lane r stored l)
          ]
        ]

  unfoldable pub waived_keys : MapRange → String → String → MemStore → List String
  unfolding list_lifecycle is_actively_waived filter
  waived_keys r tenant cluster m =
      map (λ lc. lc.key)
        (filter (λ lc. is_actively_waived parse_time lc now) (list_lifecycle r tenant cluster m))

-- `blocking` and `waivedOut`
unfoldable pub blocking_findings :
    (List String → String) → String → List Finding → List String → List Finding × List Finding
unfolding is_seen lifecycle_key
blocking_findings digest id [] waived = ([], [])
blocking_findings digest id (f ∷ fs) waived =
    let rest = blocking_findings digest id fs waived in
    if is_seen (lifecycle_key digest id f) waived
    then (rest.0, f ∷ rest.1)
    else (f ∷ rest.0, rest.1)
