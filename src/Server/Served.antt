-- ===== src/Server/Served.antt =====
-- The reports that internal/server/server.go serves.
use kubeguard.Prelude.{
  String, List, [], ◌∷◌, ◌++◌, Option, none, some, if◌then◌else◌, ◌≡◌, refl, sym, ◌⊎◌, ◌∙◌, ap, inl,
  inr, none-some, some_inj, Bool-cases, ◌&&◌, Option-cases, All, Any, MapRange,
}
use mathlib.Core.List.{append_assoc, append-nil}
use mathlib.Core.Path.{subst}
use kubeguard.Api.{Report}
use kubeguard.Model.{Resource}
use kubeguard.Graph.Decode.{Decoder}
use kubeguard.Graph.Build.{build}
use kubeguard.Compliance.Pack.{Pack}
use kubeguard.Attack.Justified.{IsJustified}
use kubeguard.Analyzer.{analyze}
use kubeguard.Analyzer.Backed.{analyze-IsJustified}
use kubeguard.History.{Record, from_report}
use kubeguard.Server.{
  Config, Server, ScanInput, Answer, new_server, append_history, snapshot, scan_report, scan_once,
  handle_report, serve_scans,
}

failed-ok : {rep : Report} → Answer.failed 503 ≡ Answer.ok rep → ⊥
failed-ok h = cc

ok_inj : {a b : Report} → Answer.ok a ≡ Answer.ok b → a ≡ b
ok_inj h = cc

answered : (s : Server) (rep : Report) → handle_report s ≡ Answer.ok rep → snapshot s ≡ some rep
unfolding handle_report
answered s rep h = elim (Option-cases (snapshot s)) [
  | inl e ↦ absurd (failed-ok (rw (e, handle_report) at h))
  | inr (r, e) ↦ e ∙ ap some (ok_inj (rw (e, handle_report) at h))
]

module _ (d : Decoder) (quote : String → String) (m : MapRange) (packs : Option (List Pack)) where
  -- The report of the last scan that has one, else the given one.
  unfoldable pub last_report : Config → List ScanInput → Option Report → Option Report
  unfolding scan_report
  last_report cfg [] o = o
  last_report cfg (i ∷ is) o = elim (scan_report d quote m packs cfg i) [
    | none ↦ last_report cfg is o
    | some rep ↦ last_report cfg is (some rep)
  ]

  -- The records of the scans that have a report, where there is a store and the append succeeds.
  unfoldable pub records : Config → List ScanInput → List Record
  unfolding scan_report from_report
  records cfg [] = []
  records cfg (i ∷ is) =
      let rest = records cfg is in
      elim (scan_report d quote m packs cfg i) [
        | none ↦ rest
        | some rep ↦ if cfg.stored && i.appended then from_report rep ∷ rest else rest
      ]

  -- The report is that of the scan's resources, at its time.
  abbrev pub IsScanOf : Report → ScanInput → Type 0
  IsScanOf rep i =
      (resources : List Resource) × (i.loaded ≡ some (resources, rep.source))
      × (rep.generated_at ≡ i.now)
      × All (IsJustified m (build d m resources)) rep.paths

  scan_report-IsScanOf :
      (cfg : Config) (i : ScanInput) (rep : Report)
      → scan_report d quote m packs cfg i ≡ some rep
      → IsScanOf rep i
  unfolding scan_report
  scan_report-IsScanOf cfg i rep h = elim (Option-cases i.loaded) [
    | inl e ↦ absurd (none-some (rw (e, scan_report) at h))
    | inr ((resources, source), e) ↦
        elim (Option-cases (analyze d quote m packs resources cfg.profile cfg.assume_breach [])) [
          | inl e' ↦ absurd (none-some (rw (e, e', scan_report) at h))
          | inr (r, e') ↦
              subst (λ x. IsScanOf x i) (some_inj (rw (e, e', scan_report) at h))
                (
                  resources,
                  e,
                  refl,
                  analyze-IsJustified d quote m packs resources cfg.profile cfg.assume_breach [] r
                      e',
                )
        ]
  ]

  last_report-Any :
      (cfg : Config) (is : List ScanInput) (o : Option Report) (rep : Report)
      → last_report cfg is o ≡ some rep
      → (o ≡ some rep) ⊎ Any (IsScanOf rep) is
  unfolding last_report
  last_report-Any cfg [] o rep h = inl h
  last_report-Any cfg (i ∷ is) o rep h = elim (Option-cases (scan_report d quote m packs cfg i)) [
    | inl e ↦ elim (last_report-Any cfg is o rep (rw (e, last_report) at h)) [
      | inl same ↦ inl same
      | inr a ↦ inr (inr a)
    ]
    | inr (r, e) ↦ elim (last_report-Any cfg is (some r) rep (rw (e, last_report) at h)) [
      | inl same ↦ inr (inl (scan_report-IsScanOf cfg i rep (e ∙ same)))
      | inr a ↦ inr (inr a)
    ]
  ]

  -- One scan: what is served after it, and its record.
  scan-last :
      (i : ScanInput) (is : List ScanInput) (s : Server)
      → last_report s.cfg is (snapshot (scan_once d quote m packs i s).1)
        ≡ last_report s.cfg (i ∷ is) (snapshot s)
  unfolding scan_once last_report snapshot
  scan-last i is s = elim (Option-cases (scan_report d quote m packs s.cfg i)) [
    | inl e ↦ rw (e, scan_once, last_report) refl
    | inr (r, e) ↦ rw (e, scan_once, last_report) refl
  ]

  scan-cfg : (i : ScanInput) (s : Server) → (scan_once d quote m packs i s).1.cfg ≡ s.cfg
  unfolding scan_once
  scan-cfg i s = elim (Option-cases (scan_report d quote m packs s.cfg i)) [
    | inl e ↦ rw (e, scan_once) refl
    | inr (r, e) ↦ rw (e, scan_once) refl
  ]

  snapshot-serve_scans :
      (is : List ScanInput) (s : Server)
      → snapshot (serve_scans d quote m packs is s) ≡ last_report s.cfg is (snapshot s)
  unfolding serve_scans last_report
  snapshot-serve_scans [] s = refl
  snapshot-serve_scans (i ∷ is) s =
      let s' = (scan_once d quote m packs i s).1 in
      snapshot-serve_scans is s'
      ∙ ap (λ c. last_report c is (snapshot s')) (scan-cfg i s)
      ∙ scan-last i is s

  scan-records :
      (i : ScanInput) (is : List ScanInput) (s : Server)
      → (scan_once d quote m packs i s).1.history ++ records s.cfg is
        ≡ s.history ++ records s.cfg (i ∷ is)
  unfolding scan_once records append_history
  scan-records i is s = elim (Option-cases (scan_report d quote m packs s.cfg i)) [
    | inl e ↦ rw (e, scan_once, records) refl
    | inr (r, e) ↦ elim (Bool-cases s.cfg.stored) [
      | inl y ↦ elim (Bool-cases i.appended) [
        | inl z ↦
            rw (e, scan_once, records, y, z)
              (append_assoc s.history (from_report r ∷ []) (records s.cfg is))
        | inr z ↦ rw (e, scan_once, records, y, z) refl
      ]
      | inr n ↦ rw (e, scan_once, records, n) refl
    ]
  ]

  history-serve_scans :
      (is : List ScanInput) (s : Server)
      → (serve_scans d quote m packs is s).history ≡ s.history ++ records s.cfg is
  unfolding serve_scans records
  history-serve_scans [] s = sym (append-nil s.history)
  history-serve_scans (i ∷ is) s =
      let s' = (scan_once d quote m packs i s).1 in
      history-serve_scans is s'
      ∙ ap (λ c. s'.history ++ records c is) (scan-cfg i s)
      ∙ scan-records i is s

  -- Whatever scans the service makes, `/v1/report` answers with the report of the last scan without an
  -- error, that report has the source and the time of one of the scans, and paths whose hops the checks
  -- on that scan's resources justify, and the history has a record of each scan without an error, in
  -- order, where there is a store and the append succeeds.
  pub handle_report-IsScanOf :
      (cfg : Config) (is : List ScanInput) (rep : Report)
      → handle_report (serve_scans d quote m packs is (new_server cfg)) ≡ Answer.ok rep
      → (last_report (new_server cfg).cfg is none ≡ some rep)
        × Any (IsScanOf rep) is
        × ((serve_scans d quote m packs is (new_server cfg)).history
            ≡ records (new_server cfg).cfg is)
  unfolding handle_report new_server
  handle_report-IsScanOf cfg is rep h =
      let s = new_server cfg in
      let l = sym (snapshot-serve_scans is s) ∙ answered (serve_scans d quote m packs is s) rep h in
      (
        l,
        elim (last_report-Any _ is none rep l) [ inl n ↦ absurd (none-some n) | inr a ↦ a ],
        history-serve_scans is s,
      )
