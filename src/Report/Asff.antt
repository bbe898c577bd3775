-- ===== src/Report/Asff.antt =====
-- `buildASFF` of internal/report/asff.go. Parameters: the length of a text in bytes and its first bytes
-- (`len(s)` and `s[:n]`, which may end inside a character), `strings.ToUpper`, `strings.TrimSpace`, the
-- replacer of the slug and the environment.
use Prim.Native.Char.{code}
use kubeguard.Prelude.{
  ℕ, suc, ◌-◌, String, Bool, false, not, ◌&&◌, ◌||◌, List, [], ◌∷◌, ◌++◌, map, ◌==◌, nat_eq, leb,
  if◌then◌else◌, nonempty, any, cat, join, contains, decimal, length, sort_strings, Dict, set,
}
use kubeguard.Api.{Severity, ResourceRef, ControlRef, Evidence, Finding, Report}
use kubeguard.Attack.Text.{cap_text}
use kubeguard.Risk.Score.{severity_text}
use kubeguard.Report.{AsffOptions, AsffSeverity, AsffCompliance, AsffFinding}

abbrev pub asff_title_max : ℕ
asff_title_max = 256

abbrev pub asff_description_max : ℕ
asff_description_max = 1024

abbrev pub asff_max_requirements : ℕ
asff_max_requirements = 32

unfoldable pub asff_first_non_empty : List String → String
asff_first_non_empty [] = ""
asff_first_non_empty (v ∷ vs) =
    let rest = asff_first_non_empty vs in if not (v == "") then v else rest

-- `os.Getenv`
unfoldable pub asff_options_from_env : (String → String) → AsffOptions
unfolding asff_first_non_empty
asff_options_from_env getenv =
    let region = asff_first_non_empty (
      getenv "KUBEGUARD_AWS_REGION"
      ∷ getenv "AWS_REGION"
      ∷ getenv "AWS_DEFAULT_REGION"
      ∷ "us-east-1"
      ∷ []) in
    let account =
      asff_first_non_empty
        (getenv "KUBEGUARD_AWS_ACCOUNT_ID" ∷ getenv "AWS_ACCOUNT_ID" ∷ "000000000000" ∷ []) in
    let product = getenv "KUBEGUARD_SECURITYHUB_PRODUCT_ARN" in
    record {
      region = region;
      account_id = account;
      product_arn =
          if product == ""
          then cat (
              "arn:aws:securityhub:" ∷ region ∷ ":" ∷ account ∷ ":product/" ∷ account ∷ "/default"
              ∷ [])
          else product;
    }

unfoldable pub asff_severity_for : Severity → AsffSeverity
asff_severity_for Severity.critical = record { label = "CRITICAL"; normalized = 90 }
asff_severity_for Severity.high = record { label = "HIGH"; normalized = 70 }
asff_severity_for Severity.medium = record { label = "MEDIUM"; normalized = 40 }
asff_severity_for Severity.low = record { label = "LOW"; normalized = 10 }
asff_severity_for Severity.info = record { label = "INFORMATIONAL"; normalized = 0 }
asff_severity_for (Severity.other s) = record { label = "INFORMATIONAL"; normalized = 0 }

-- `resourceFQN` of internal/report/sarif.go.
unfoldable pub resource_fqn : ResourceRef → String
resource_fqn r =
    if not (r.namespace == "")
    then cat (r.namespace ∷ "/" ∷ r.kind ∷ "/" ∷ r.name ∷ [])
    else cat (r.kind ∷ "/" ∷ r.name ∷ [])

-- `seen[s]`
unfoldable pub has_text : String → List String → Bool
unfolding any
has_text s seen = any (λ t. t == s) seen

-- `ref.ID[0] == 'T' || ref.ID[0] == 't'`
unfoldable pub starts_with_t : String → Bool
starts_with_t String.[] = false
starts_with_t (String.◌∷◌ c s) = nat_eq (code c) b'T' || nat_eq (code c) b't'

unfoldable pub asff_resource_details : Finding → Dict String
asff_resource_details f =
    let d : Dict String = set "Name" f.resource.name (set "Kind" f.resource.kind []) in
    let e =
      if not (f.resource.namespace == "") then set "Namespace" f.resource.namespace d else d in
    if not (f.category == "") then set "Category" f.category e else e

-- What the evidence of a description says.
unfoldable pub evidence_part : Evidence → String
evidence_part e = if not (e.value == "") then cat (e.path ∷ "=" ∷ e.value ∷ []) else e.path

unfoldable pub asff_description : Finding → String → String
unfolding evidence_part
asff_description f fqn = cat (
    (if not (f.remediation.summary == "") then f.remediation.summary else f.title)
    ∷ " Resource: "
    ∷ fqn
    ∷ "."
    ∷ (if nonempty f.evidence
        then " Evidence: " ∷ join "; " (map evidence_part f.evidence) ∷ "." ∷ []
        else []))

module _ (trim : String → String) where
  -- `s` of the loop of `asffRequirements`.
  unfoldable pub requirement : ControlRef → String
  requirement ref =
      let s = trim (cat (ref.framework ∷ " " ∷ ref.id ∷ [])) in
      trim (if not (ref.title == "") then cat (s ∷ " " ∷ ref.title ∷ []) else s)

  -- The loop, with `out` so far, which has the texts that are seen.
  unfoldable pub collect_requirements : List ControlRef → List String → List String
  unfolding requirement has_text
  collect_requirements [] out = out
  collect_requirements (ref ∷ refs) out =
      let s = requirement ref in
      let skip = s == "" || has_text s out in
      let next = if skip then out else out ++ s ∷ [] in
      let rest = collect_requirements refs next in
      if not skip && leb asff_max_requirements (length next) then next else rest

  unfoldable pub asff_requirements : Finding → List String
  unfolding collect_requirements sort_strings
  asff_requirements f = sort_strings (collect_requirements f.refs [])

  unfoldable pub asff_product_fields : Finding → String → Dict String
  unfolding asff_requirements severity_text cap_text
  asff_product_fields f profile =
      let pf : Dict String = set "kubeguard/severity" (severity_text f.severity) (
        set "kubeguard/profile" profile
          (set "kubeguard/category" f.category (set "kubeguard/checkId" f.id []))) in
      let granted =
        (if nonempty f.grants
          then set "kubeguard/grants" (join "," (map cap_text f.grants)) pf
          else pf) in
      if nonempty (asff_requirements f)
      then set "kubeguard/refs" (join "; " (asff_requirements f)) granted
      else granted

  -- A nil `RelatedRequirements` is the empty list.
  unfoldable pub asff_compliance_for : Finding → AsffCompliance
  unfolding asff_requirements
  asff_compliance_for f = record { status = "FAILED"; related_requirements = asff_requirements f }

  module _ (byte_len : String → ℕ) (first_bytes : ℕ → String → String) (upper : String → String)
      (replace : String → String) where
    unfoldable pub asff_truncate : String → ℕ → String
    asff_truncate s max_len =
        if leb (byte_len s) max_len
        then s
        else if leb max_len 3
        then first_bytes max_len s
        else cat (first_bytes (max_len - 3) s ∷ "..." ∷ [])

    unfoldable pub is_technique : ControlRef → Bool
    unfolding starts_with_t
    is_technique ref =
        contains "ATT&CK" (upper ref.framework)
        || contains "ATTACK" (upper ref.framework)
        || (leb 4 (byte_len ref.id) && starts_with_t ref.id)

    -- The loop of `asffTechniques`, with `out` so far, which has the ids that are seen.
    unfoldable pub collect_techniques : List ControlRef → List String → List String
    unfolding is_technique has_text
    collect_techniques [] out = out
    collect_techniques (ref ∷ refs) out =
        collect_techniques refs
          (if is_technique ref && not (has_text ref.id out) then out ++ ref.id ∷ [] else out)

    unfoldable pub asff_techniques : Finding → List String
    unfolding collect_techniques
    asff_techniques f = collect_techniques f.refs []

    unfoldable pub asff_types : Finding → List String
    unfolding asff_techniques
    asff_types f =
        "Software and Configuration Checks/AWS Security Best Practices"
        ∷ map (λ t. cat ("TTPs/" ∷ t ∷ [])) (asff_techniques f)

    unfoldable pub asff_remediation_text : Finding → String
    unfolding asff_truncate
    asff_remediation_text f =
        if not (f.remediation.summary == "")
        then asff_truncate f.remediation.summary asff_description_max
        else "Review and remediate per the KubeGuard finding details."

    -- `replace` is the replacer of blanks and slashes by dashes.
    unfoldable pub asff_slug : String → String
    asff_slug s = if s == "" then "default" else replace s

    unfoldable pub asff_finding : AsffOptions → Report → ℕ → Finding → AsffFinding
    unfolding asff_slug asff_types asff_severity_for asff_truncate asff_description
        asff_remediation_text asff_product_fields asff_resource_details resource_fqn
        asff_compliance_for
    asff_finding opts r i f =
        let fqn = resource_fqn f.resource in
        record {
          schema_version = "2018-10-08";
          id =
              cat (
                "kubeguard/" ∷ asff_slug r.profile ∷ "/" ∷ fqn ∷ "/" ∷ f.id ∷ "/" ∷ decimal i ∷ []);
          product_arn = opts.product_arn;
          generator_id = cat ("kubeguard/" ∷ f.id ∷ []);
          aws_account_id = opts.account_id;
          region = opts.region;
          types = asff_types f;
          created_at = r.generated_at;
          updated_at = r.generated_at;
          severity = asff_severity_for f.severity;
          title = asff_truncate (cat (f.id ∷ ": " ∷ f.title ∷ [])) asff_title_max;
          description = asff_truncate (asff_description f fqn) asff_description_max;
          remediation = asff_remediation_text f;
          product_fields = asff_product_fields f r.profile;
          resources =
              record {
                kind = "Other";
                id = fqn;
                region = opts.region;
                other = asff_resource_details f;
              }
              ∷ [];
          compliance = asff_compliance_for f;
          record_state = "ACTIVE";
          workflow = "NEW";
        }

    unfoldable pub build_from : AsffOptions → Report → ℕ → List Finding → List AsffFinding
    unfolding asff_finding
    build_from opts r i [] = []
    build_from opts r i (f ∷ fs) = asff_finding opts r i f ∷ build_from opts r (suc i) fs

    unfoldable pub build_asff : AsffOptions → Report → List AsffFinding
    unfolding build_from
    build_asff opts r = build_from opts r 0 r.findings
