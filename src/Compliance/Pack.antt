-- ===== src/Compliance/Pack.antt =====
-- internal/compliance/pack.go: a pack of controls, and what a valid one has.
use kubeguard.Prelude.{
  nonempty, ℕ, suc, String, Bool, not, ◌&&◌, List, [], ◌∷◌, Option, none, some, ◌==◌, if◌then◌else◌,
}

pub record Control : Type 0 where
  pub id : String
  pub title : String
  pub maps_to : List String
  pub assessable : Bool

pub record Pack : Type 0 where
  pub id : String
  pub title : String
  pub version : String
  pub disclaimer : String
  pub controls : List Control

-- The errors of `validate`, with the index or the id of the control.
pub data PackError : Type 0 where
  missing_pack_id missing_title missing_disclaimer no_controls : PackError
  missing_control_id : ℕ → PackError
  maps_to_nothing : String → PackError

-- `trim` is `strings.TrimSpace`.
module _ (trim : String → String) where
  -- The loop over the controls, from index `i` on; `none` is no error.
  unfoldable pub validate_controls : ℕ → List Control → Option PackError
  validate_controls i [] = none
  validate_controls i (c ∷ cs) =
      let rest = validate_controls (suc i) cs in
      if trim c.id == ""
      then some (missing_control_id i)
      else if c.assessable && not (nonempty c.maps_to)
      then some (maps_to_nothing c.id)
      else rest

  unfoldable pub validate : Pack → Option PackError
  unfolding validate_controls
  validate p =
      if trim p.id == ""
      then some missing_pack_id
      else if trim p.title == ""
      then some missing_title
      else if trim p.disclaimer == ""
      then some missing_disclaimer
      else if not (nonempty p.controls)
      then some no_controls
      else validate_controls 0 p.controls
