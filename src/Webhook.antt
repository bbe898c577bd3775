-- ===== src/Webhook.antt =====
-- internal/webhook: the validating admission webhook (validate.go, handler.go).
pub mod Gate
use kubeguard.Prelude.{
  ℕ, String, Bool, true, false, List, [], ◌∷◌, ◌++◌, map, Option, none, some, ◌==◌, if◌then◌else◌,
  any, filter, cat, join, MapRange,
}
use kubeguard.Api.{Finding}
use kubeguard.Model.{Json, Fields, StringMap, Resource}
use kubeguard.Graph.Decode.{Decoder}
use kubeguard.Graph.Build.{build}
use kubeguard.Checks.Profile.{zeal_default}
use kubeguard.Checks.Scan.{scan}
use kubeguard.Waiver.{Entry, WaivedFinding, Partitioned, is_empty, partition}

abbrev pub deny_checks : List String
deny_checks = "KG-001" ∷ "KG-002" ∷ "KG-003" ∷ "KG-004" ∷ "KG-005" ∷ "KG-006" ∷ "KG-008" ∷ []

unfoldable pub is_deny_check : String → Bool
unfolding any
is_deny_check id = any (λ k. k == id) deny_checks

-- A `corev1.Pod`: the fields that are read, and the object that `json.Marshal` and
-- `json.Unmarshal` make of it, or the error of either.
pub record Pod : Type 0 where
  pub name : String
  pub generate_name : String
  pub namespace : String
  pub labels : StringMap
  pub uid : String
  pub encoded : Option Fields

-- `raw[k] = v`
unfoldable pub set_field : String → Json → Fields → Fields
set_field k v Fields.end = Fields.field k v Fields.end
set_field k v (Fields.field j w fs) =
    if j == k then Fields.field j v fs else Fields.field j w (set_field k v fs)

unfoldable pub pod_resource : Pod → Option Resource
unfolding set_field
pod_resource pod = elim pod.encoded [
  | none ↦ none
  | some raw ↦ some (record {
    api_version = "v1";
    kind = "Pod";
    namespace = pod.namespace;
    name = (if pod.name == "" then cat (pod.generate_name ∷ "(generated)" ∷ []) else pod.name);
    uid = pod.uid;
    labels = pod.labels;
    annotations = [];
    raw =
        Json.obj (set_field "apiVersion" (Json.text "v1") (set_field "kind" (Json.text "Pod") raw));
  })
]

pub record Config : Type 0 where
  pub fail_open : Bool
  pub waivers : Option (List Entry)

-- `allowed` and `denied` carry their message; `errored` is the status 500.
pub data Verdict : Type 0 where
  allowed denied : String → Verdict
  errored : Verdict

pub record Response : Type 0 where
  pub verdict : Verdict
  pub warnings : List String

abbrev answer : Verdict → Response
answer v = record { verdict = v; warnings = [] }

unfoldable pub warning : WaivedFinding → String
unfolding cat
warning wf = cat (
    "kubeguard: waived " ∷ wf.finding.id ∷ " (" ∷ wf.entry.justification ∷ ", until "
    ∷ wf.entry.expires ∷ ")" ∷ [])

abbrev pub reason : Finding → String
reason f = cat (f.id ∷ " " ∷ f.title ∷ [])

-- The waiver-aware split: every violation blocks where there are no waivers.
unfoldable pub split : Option (List Entry) → List Finding → ℕ → Partitioned
unfolding is_empty partition
split waivers violations now =
    if is_empty waivers
    then record { blocking = violations; waived = [] }
    else partition waivers violations now

-- The end of `Handle`.
unfoldable pub respond : List Finding → List WaivedFinding → Response
unfolding warning
respond [] waived = record {
  verdict = Verdict.allowed "kubeguard: all violations covered by active waivers";
  warnings = map warning waived;
}
respond (f ∷ fs) waived = record {
  verdict = Verdict.denied (cat ("kubeguard denied pod: " ∷ join "; " (map reason (f ∷ fs)) ∷ []));
  warnings = map warning waived;
}

-- `Handle` after the violations are known.
unfoldable pub decide : Config → ℕ → List Finding → Response
decide cfg now [] = answer (Verdict.allowed "kubeguard: no restricted-profile violations")
decide cfg now (v ∷ vs) = let s = split cfg.waivers (v ∷ vs) now in respond s.blocking s.waived

-- The request's pod, or the message of the decoder's error.
pub data Request : Type 0 where
  decoded : Pod → Request
  undecoded : String → Request

module _ (d : Decoder) (m : MapRange) where
  -- `none` is an error of `podResource`.
  unfoldable pub violations : Pod → Option (List Finding)
  unfolding filter
  violations pod = elim (pod_resource pod) [
    | none ↦ none
    | some res ↦
        some (filter (λ f. is_deny_check f.id) (scan m (build d m (res ∷ [])) zeal_default))
  ]

  unfoldable pub handle : Config → ℕ → Request → Response
  handle cfg now (undecoded e) =
      if cfg.fail_open
      then answer (Verdict.allowed "kubeguard: could not decode pod (fail-open)")
      else answer
          (Verdict.denied (cat ("kubeguard: could not decode pod (fail-closed): " ∷ e ∷ [])))
  handle cfg now (decoded pod) = elim (violations pod) [
    | none ↦
        if cfg.fail_open
        then answer (Verdict.allowed "kubeguard: evaluation error (fail-open)")
        else answer Verdict.errored
    | some vs ↦ decide cfg now vs
  ]
