-- ===== src/Gate/Waived.antt =====
-- When the gate of internal/cli/scan.go breaks a build.
use kubeguard.Prelude.{
  ℕ, ◌≤◌, ◌<◌, String, true, false, List, [], ◌∷◌, Option, none, some, ◌==◌, ◌≡◌, ◌≢◌, refl, sym,
  ap, ◌⊎◌, inl, inr, arith, eq_iff, leb, ltb, All, Any, Bool-cases, Option-cases,
}
use kubeguard.Api.{Severity, rank, Finding}
use kubeguard.Waiver.{Entry, match_entry, is_empty, partition}
use kubeguard.Webhook.Gate.{partition-none, partition-nil}
use kubeguard.Gate.{GateResult, parse_severity, count_at_or_above, gate_breach, blocking_of, gate}

positive : {n : ℕ} → 0 < n → ltb 0 n ≡ true
positive h = ground arith

-- The finding counts: it has the threshold's rank, and no waiver matches it now.
abbrev pub Blocks : Option (List Entry) → ℕ → Severity → Finding → Type 0
Blocks waivers now threshold f =
    (rank threshold ≤ rank f.severity) × (match_entry waivers f now ≡ none)

abbrev pub Harmless : Option (List Entry) → ℕ → Severity → Finding → Type 0
Harmless waivers now threshold f =
    (rank f.severity < rank threshold) ⊎ ((e : Entry) × (match_entry waivers f now ≡ some e))

-- The blocking findings are those of the partition also where there are no waivers.
blocking-partition :
    (waivers : Option (List Entry)) (now : ℕ) (fs : List Finding)
    → (blocking_of waivers now fs).0 ≡ (partition waivers fs now).blocking
unfolding blocking_of is_empty
blocking-partition none now fs = sym (ap (λ p. p.blocking) (partition-none fs now))
blocking-partition (some []) now fs = sym (ap (λ p. p.blocking) (partition-nil fs now))
blocking-partition (some (e ∷ es)) now fs = refl

module _ (waivers : Option (List Entry)) (now : ℕ) (t : Severity) where
  count-cases :
      (fs : List Finding)
      → ((count_at_or_above (partition waivers fs now).blocking t ≡ 0)
          × All (Harmless waivers now t) fs)
        ⊎ ((0 < count_at_or_above (partition waivers fs now).blocking t)
            × Any (Blocks waivers now t) fs)
  unfolding count_at_or_above partition
  count-cases [] = inl (refl, tt)
  count-cases (f ∷ fs) = elim (Option-cases (match_entry waivers f now)) [
    | inr (w, e) ↦ elim (count-cases fs) [
      | inl (z, a) ↦ inl (rw (e, partition) z, (inr (w, e), a))
      | inr (z, a) ↦ inr (rw (e, partition) z, inr a)
    ]
    | inl e ↦ elim (Bool-cases (leb (rank t) (rank f.severity))) [
      | inl y ↦ inr (rw (e, partition, y) (omega arith), inl (ground arith, e))
      | inr n ↦ elim (count-cases fs) [
        | inl (z, a) ↦ inl (rw (e, partition, n) z, (inl (ground arith), a))
        | inr (z, a) ↦ inr (rw (e, partition, n) z, inr a)
      ]
    ]
  ]

-- With a threshold that parses, the gate breaks the build exactly if some finding of its rank or above
-- has no waiver that matches it now; it passes if each finding is below it or waived.
pub gate_lem :
    (fail_on : String) (waivers : Option (List Entry)) (now : ℕ) (t : Severity) (fs : List Finding)
    → fail_on ≢ ""
    → parse_severity fail_on ≡ some t
    → ((gate fail_on waivers now fs ≡ GateResult.gate_passed) × All (Harmless waivers now t) fs)
      ⊎ ((msg : String) × (gate fail_on waivers now fs ≡ GateResult.gate_hit msg)
          × Any (Blocks waivers now t) fs)
unfolding gate
gate_lem fail_on waivers now t fs n e =
    let given : (fail_on == "") ≡ false = ground (arith, eq_iff fail_on "") in
    let b = blocking-partition waivers now fs in
    elim (count-cases waivers now t fs) [
      | inl (z, a) ↦ inl (rw (given, e, gate, b, z) refl, a)
      | inr (z, a) ↦ inr (
        gate_breach t (count_at_or_above (partition waivers fs now).blocking t),
        rw (given, e, gate, b, positive z) refl,
        a,
      )
    ]
