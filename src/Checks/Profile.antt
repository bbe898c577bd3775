-- ===== src/Checks/Profile.antt =====
-- internal/checks/profile.go: which checks run, and the severities that a profile overrides.
use kubeguard.Prelude.{
  String, Bool, true, false, ◌||◌, List, [], ◌∷◌, Option, none, some, ◌==◌, if◌then◌else◌, any,
}
use kubeguard.Api.{Severity}

pub record Profile : Type 0 where
  pub name : String
  pub included : List String
  pub excluded : List String
  pub severity_override : List (String × Severity)

unfoldable pub includes : Profile → String → Bool
unfolding any
includes p id =
    if any (λ e. e == id) p.excluded
    then false
    else elim p.included [ [] ↦ true | i ∷ is ↦ any (λ j. j == id) (i ∷ is) ]

unfoldable pub zeal_default : Profile
zeal_default = record {
  name = "zeal-default";
  included = [];
  excluded = [];
  severity_override = [];
}

unfoldable pub cis_profile : Profile
cis_profile = record {
  name = "cis";
  included = [];
  excluded = [];
  severity_override = ("KG-018", Severity.medium) ∷ [];
}

-- `none` is the error "unknown profile".
unfoldable pub profile_by_name : String → Option Profile
profile_by_name name =
    if name == "" || name == "zeal-default"
    then some zeal_default
    else if name == "cis"
    then some cis_profile
    else none
