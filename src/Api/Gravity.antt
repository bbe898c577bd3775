-- ===== src/Api/Gravity.antt =====
-- The order of the severities of pkg/api/types.go.
use kubeguard.Prelude.{ℕ, ◌≡◌, refl}
use kubeguard.Api.{Severity, rank}

-- Critical comes first, then high, medium, low, info and any other text.
abbrev pub gravity : Severity → ℕ
gravity Severity.critical = 5
gravity Severity.high = 4
gravity Severity.medium = 3
gravity Severity.low = 2
gravity Severity.info = 1
gravity (Severity.other s) = 0

pub rank-gravity : (s : Severity) → rank s ≡ gravity s
unfolding rank
rank-gravity Severity.critical = refl
rank-gravity Severity.high = refl
rank-gravity Severity.medium = refl
rank-gravity Severity.low = refl
rank-gravity Severity.info = refl
rank-gravity (Severity.other s) = refl
