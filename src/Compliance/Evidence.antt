-- ===== src/Compliance/Evidence.antt =====
-- internal/compliance/evidence.go: one evidence pack for each framework.
pub mod Agreement
use kubeguard.Prelude.{
  nonempty, ℕ, suc, ◌-◌, String, Bool, List, [], ◌∷◌, ◌++◌, map, ◌==◌, if◌then◌else◌, filter,
  flat_map, sort_strings,
}
use kubeguard.Api.{Finding, EvidenceControl, EvidencePack, Report}
use kubeguard.Compliance.Pack.{Control, Pack}
use kubeguard.Compliance.Evaluate.{is_assessed, rate_of}

-- `byCheck[id]`
unfoldable pub by_check : List Finding → String → List Finding
unfolding filter
by_check findings id = filter (λ f. f.id == id) findings

-- The counters and the controls of `ep`.
pub record Pages : Type 0 where
  pub assessed : ℕ
  pub breached : ℕ
  pub controls : List EvidenceControl

unfoldable pub evidence_control : List Finding → Control → EvidenceControl
unfolding by_check flat_map
evidence_control findings c =
    let mapped = sort_strings c.maps_to in
    let fs = flat_map (by_check findings) mapped in
    record {
      control_id = c.id;
      title = c.title;
      maps_to = mapped;
      breached = nonempty fs;
      findings = fs;
    }

unfoldable pub add_control : List Finding → List String → Pages → Control → Pages
add_control findings executed e c =
    let ctrl = evidence_control findings c in
    if is_assessed executed c
    then record {
      assessed = suc e.assessed;
      breached = (if ctrl.breached then suc e.breached else e.breached);
      controls = e.controls ++ ctrl ∷ [];
    }
    else e

unfoldable pub add_controls : List Finding → List String → Pages → List Control → Pages
add_controls findings executed e [] = e
add_controls findings executed e (c ∷ cs) =
    add_controls findings executed (add_control findings executed e c) cs

unfoldable pub evidence_pack : Report → List String → Pack → EvidencePack
evidence_pack rep executed p =
    let e =
      add_controls rep.findings executed (record { assessed = 0; breached = 0; controls = [] })
        p.controls in
    record {
      generated_at = rep.generated_at;
      source = rep.source;
      profile = rep.profile;
      id = p.id;
      framework = p.title;
      version = p.version;
      assessed = e.assessed;
      breached = e.breached;
      passed = e.assessed - e.breached;
      pass_rate = rate_of (e.assessed - e.breached) e.assessed;
      controls = e.controls;
      disclaimer = p.disclaimer;
    }

unfoldable pub build_evidence : Report → List Pack → List String → List EvidencePack
build_evidence rep packs executed = map (evidence_pack rep executed) packs
