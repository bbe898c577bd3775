-- ===== src/Dashboard/Findings.antt =====
-- The listing of findings of internal/dashboard/api.go: filter, sort and page. `lower` is
-- `strings.ToLower`, `equal_fold` is `strings.EqualFold`, `trim` is `strings.TrimSpace`, `split` is
-- `strings.Split(·, ",")` and `atoi` is `strconv.Atoi`.
use kubeguard.Prelude.{
  ℕ, ℤ, pos, String, Bool, true, false, not, ◌&&◌, ◌||◌, List, [], ◌∷◌, ◌++◌, map, Option, none,
  some, ◌==◌, str_lt, nat_eq, ltb, if◌then◌else◌, length, any, filter, sort_stable, join, contains,
}
use kubeguard.Api.{Severity, rank, Finding, Report}
use kubeguard.Dashboard.{MemStore}
use kubeguard.Dashboard.Reads.{report}
use kubeguard.Dashboard.Paginate.{paginate, query_int}

unfoldable pub or_default : String → String → String
or_default v default = if v == "" then default else v

-- The texts of the query, `""` where it has none.
pub record Params : Type 0 where
  pub cluster : String
  pub severity : String
  pub category : String
  pub framework : String
  pub namespace : String
  pub search : String
  pub sort : String
  pub order : String
  pub limit : String
  pub offset : String

-- `severities` is nil as `none`.
pub record FindingQuery : Type 0 where
  pub severities : Option (List Severity)
  pub category : String
  pub framework : String
  pub namespace : String
  pub search : String
  pub sort : String
  pub order : String
  pub limit : ℤ
  pub offset : ℤ

-- `api.Severity(s)`
unfoldable pub severity_named : String → Severity
severity_named s =
    if s == "critical"
    then Severity.critical
    else if s == "high"
    then Severity.high
    else if s == "medium"
    then Severity.medium
    else if s == "low"
    then Severity.low
    else if s == "info"
    then Severity.info
    else Severity.other s

-- `string(s) == string(t)`
unfoldable pub same_severity : Severity → Severity → Bool
same_severity (Severity.other s) (Severity.other t) = s == t
same_severity (Severity.other s) t = false
same_severity s (Severity.other t) = false
same_severity s t = nat_eq (rank s) (rank t)

unfoldable pub parse_finding_query :
    (String → String)
    → (String → String)
    → (String → List String)
    → (String → Option ℤ)
    → Params
    → FindingQuery
unfolding or_default severity_named query_int
parse_finding_query lower trim split atoi q = record {
  severities =
      if q.severity == ""
      then none
      else some (map (λ s. severity_named (lower (trim s))) (split q.severity));
  category = q.category;
  framework = lower q.framework;
  namespace = q.namespace;
  search = lower q.search;
  sort = or_default q.sort "severity";
  order = or_default q.order "desc";
  limit = query_int atoi q.limit (pos 50);
  offset = query_int atoi q.offset (pos 0);
}

unfoldable pub finding_has_framework : (String → String) → Finding → String → Bool
unfolding any
finding_has_framework lower f fw = any (λ ref. contains fw (lower ref.framework)) f.refs

unfoldable pub finding_matches : (String → String) → Finding → String → Bool
finding_matches lower f term = contains term (
    lower (
      join " " (
        f.id ∷ f.title ∷ f.category ∷ f.resource.kind ∷ f.resource.namespace ∷ f.resource.name
        ∷ [])))

-- `q.severities == nil || q.severities[s]`
unfoldable pub has_severity : Option (List Severity) → Severity → Bool
unfolding any same_severity
has_severity none s = true
has_severity (some sevs) s = any (λ t. same_severity t s) sevs

module _ (lower : String → String) (equal_fold : String → String → Bool) where
  -- No test of the loop of `filterFindings` skips the finding.
  unfoldable pub passes : FindingQuery → Finding → Bool
  unfolding has_severity finding_has_framework finding_matches
  passes q f =
      has_severity q.severities f.severity
      && (q.category == "" || equal_fold f.category q.category)
      && (q.namespace == "" || equal_fold f.resource.namespace q.namespace)
      && (q.framework == "" || finding_has_framework lower f q.framework)
      && (q.search == "" || finding_matches lower f q.search)

  unfoldable pub filter_findings : List Finding → FindingQuery → List Finding
  unfolding filter passes
  filter_findings fs q = filter (passes q) fs

-- `ascLess`
unfoldable pub asc_less : String → Finding → Finding → Bool
asc_less key a b =
    if key == "id"
    then str_lt a.id b.id
    else if key == "category"
    then (if not (a.category == b.category) then str_lt a.category b.category else str_lt a.id b.id)
    else (if not (nat_eq (rank a.severity) (rank b.severity))
        then ltb (rank a.severity) (rank b.severity)
        else str_lt a.id b.id)

-- The swaps of the loop that reverses a slice.
unfoldable pub reverse : List Finding → List Finding
reverse [] = []
reverse (f ∷ fs) = reverse fs ++ f ∷ []

unfoldable pub sort_findings : List Finding → String → String → List Finding
unfolding asc_less reverse
sort_findings fs key order =
    let sorted = sort_stable (asc_less key) fs in
    if not (order == "asc") then reverse sorted else sorted

-- The fields of the response of `handleFindings`.
pub record FindingsPage : Type 0 where
  pub findings : List Finding
  pub total : ℕ
  pub limit : ℤ
  pub offset : ℤ

module _ (lower : String → String) (equal_fold : String → String → Bool) where
  -- What the response lists, over all its pages.
  unfoldable pub listing : FindingQuery → Report → List Finding
  unfolding filter_findings sort_findings
  listing q rep = sort_findings (filter_findings lower equal_fold rep.findings q) q.sort q.order

  unfoldable pub findings_page : FindingQuery → Report → Option FindingsPage
  unfolding listing paginate
  findings_page q rep = elim (paginate (listing q rep) q.limit q.offset) [
    | none ↦ none
    | some page ↦ some (record {
      findings = page;
      total = length (filter_findings lower equal_fold rep.findings q);
      limit = q.limit;
      offset = q.offset;
    })
  ]

  -- `none` is a panic.
  unfoldable pub handle_findings :
      (String → String)
      → (String → List String)
      → (String → Option ℤ)
      → String
      → Params
      → MemStore
      → Option FindingsPage
  unfolding report parse_finding_query findings_page
  handle_findings trim split atoi tenant q m = elim (report tenant q.cluster m) [
    | none ↦ none
    | some none ↦ some (record { findings = []; total = 0; limit = pos 0; offset = pos 0 })
    | some (some rep) ↦ findings_page (parse_finding_query lower trim split atoi q) rep
  ]
