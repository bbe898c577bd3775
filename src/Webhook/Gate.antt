-- ===== src/Webhook/Gate.antt =====
-- When the webhook admits a pod, and that it never hides a waiver.
use kubeguard.Prelude.{
  ℕ, String, false, List, [], ◌∷◌, map, Option, none, some, ◌≡◌, refl, ◌⊎◌, inl, inr, arith, All,
  Any, MapRange, Option-cases, find,
}
use kubeguard.Api.{Finding}
use kubeguard.Graph.Decode.{Decoder}
use kubeguard.Waiver.{Entry, WaivedFinding, match_entry, partition}
use kubeguard.Webhook.{
  Pod, Config, Verdict, Response, Request, decoded, undecoded, warning, split, respond, decide,
  violations, handle,
}

abbrev pub IsAllowed : Response → Type 0
IsAllowed r = (msg : String) × (r.verdict ≡ Verdict.allowed msg)

abbrev pub IsDenied : Response → Type 0
IsDenied r = (msg : String) × (r.verdict ≡ Verdict.denied msg)

pub partition-none :
    (fs : List Finding) (now : ℕ) → partition none fs now ≡ record { blocking = fs; waived = [] }
unfolding partition match_entry
partition-none [] now = refl
partition-none (f ∷ fs) now = rw (partition-none fs now)

pub partition-nil :
    (fs : List Finding) (now : ℕ)
    → partition (some []) fs now ≡ record { blocking = fs; waived = [] }
unfolding partition match_entry find
partition-nil [] now = refl
partition-nil (f ∷ fs) now = rw (partition-nil fs now)

-- The split is the partition also where there are no waivers.
split-eq-partition :
    (s : Option (List Entry)) (fs : List Finding) (now : ℕ) → split s fs now ≡ partition s fs now
unfolding split
split-eq-partition none fs now = rw (partition-none fs now)
split-eq-partition (some []) fs now = rw (partition-nil fs now)
split-eq-partition (some (e ∷ es)) fs now = refl

-- No waiver of the configuration covers the finding now.
abbrev pub Blocks : Config → ℕ → Finding → Type 0
Blocks cfg now f = match_entry cfg.waivers f now ≡ none

-- The finding is covered, by this waiver.
abbrev pub Waived : Config → ℕ → Finding → Type 0
Waived cfg now f = (e : Entry) × (match_entry cfg.waivers f now ≡ some e)

partition-cases :
    (cfg : Config) (now : ℕ) (vs : List Finding)
    → ((f : Finding) × (fs : List Finding) × ((partition cfg.waivers vs now).blocking ≡ f ∷ fs)
        × Any (Blocks cfg now) vs)
      ⊎ (((partition cfg.waivers vs now).blocking ≡ []) × All (Waived cfg now) vs)
unfolding partition
partition-cases cfg now [] = inr (refl, tt)
partition-cases cfg now (v ∷ vs) = elim (Option-cases (match_entry cfg.waivers v now)) [
  | inl e ↦ inl (v, (partition cfg.waivers vs now).blocking, rw (e, partition), inl e)
  | inr (w, e) ↦ elim (partition-cases cfg now vs) [
    | inl (f, fs, b, a) ↦ inl (f, fs, rw (e, partition) b, inr a)
    | inr (b, a) ↦ inr (rw (e, partition) b, ((w, e), a))
  ]
]

respond-warnings :
    (b : List Finding) (w : List WaivedFinding) → (respond b w).warnings ≡ map warning w
unfolding respond
respond-warnings [] w = refl
respond-warnings (f ∷ fs) w = refl

respond-cons :
    (f : Finding) (fs : List Finding) (w : List WaivedFinding) → IsDenied (respond (f ∷ fs) w)
unfolding respond
respond-cons f fs w = (_, refl)

respond-nil : (w : List WaivedFinding) → IsAllowed (respond [] w)
unfolding respond
respond-nil w = (_, refl)

-- The webhook denies a pod with a violation that no active waiver covers, and admits it if each
-- violation is covered; either way it warns of every waiver that it applied.
pub decide_lem :
    (cfg : Config) (now : ℕ) (vs : List Finding)
    → ((IsDenied (decide cfg now vs) × Any (Blocks cfg now) vs)
        ⊎ (IsAllowed (decide cfg now vs) × All (Waived cfg now) vs))
      × ((decide cfg now vs).warnings ≡ map warning (partition cfg.waivers vs now).waived)
unfolding decide
decide_lem cfg now [] = (inr ((_, refl), tt), unfold partition in refl)
decide_lem cfg now (v ∷ vs) = rw (split-eq-partition cfg.waivers (v ∷ vs) now) (
  elim (partition-cases cfg now (v ∷ vs)) [
    | inl (f, fs, b, a) ↦ inl (rw b (respond-cons f fs _), a)
    | inr (b, a) ↦ inr (rw b (respond-nil _), a)
  ],
  respond-warnings _ _,
)

not-IsDenied : (r : Response) → IsAllowed r → ¬ IsDenied r
not-IsDenied r (a, e) (b, f) = cc

-- Without fail-open, an admitted request holds a pod that was decoded and evaluated, and each of
-- whose violations an active waiver covers.
pub handle_fail_closed :
    (d : Decoder) (m : MapRange) (cfg : Config) (now : ℕ) (req : Request)
    → cfg.fail_open ≡ false
    → IsAllowed (handle d m cfg now req)
    → (pod : Pod) × (vs : List Finding) × (req ≡ decoded pod)
      × (violations d m pod ≡ some vs)
      × All (Waived cfg now) vs
unfolding handle
handle_fail_closed d m cfg now (undecoded e) h (msg, a) = absurd (ground arith)
handle_fail_closed d m cfg now (decoded pod) h a = elim (Option-cases (violations d m pod)) [
  | inl e ↦ (let (msg, v) = a in absurd (ground arith))
  | inr (vs, e) ↦ elim (decide_lem cfg now vs).0 [
    | inl (denied, _) ↦ absurd (not-IsDenied (decide cfg now vs) (rw (e, handle) at a) denied)
    | inr (_, w) ↦ (pod, vs, refl, e, w)
  ]
]
