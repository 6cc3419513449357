-- ===== src/Pressure/Thresholds.antt =====
-- The thresholds of a validated policy.
-- (app-server/src/context-pressure-controller.mjs)
use work_engine.Common.{checks, ◌≤◌, ◌<◌, ◌≡◌, String, ok, arith}
use work_engine.Pressure.{Bands, Band, RawBand, Policy, RawPolicy, normalize_band, validate_policy}

-- Each band is left below the threshold by which it is entered, the bands do not overlap, and no
-- threshold passes 10000 basis points.
pub record IsOrdered (b : Bands) : Type 0 where
  pub approaching_gap : b.approaching.exit < b.approaching.enter
  pub replacement_gap : b.replacement_candidate.exit < b.replacement_candidate.enter
  pub critical_gap : b.critical.exit < b.critical.enter
  pub approaching_below : b.approaching.enter ≤ b.replacement_candidate.exit
  pub replacement_below : b.replacement_candidate.enter ≤ b.critical.exit
  pub bounded : b.critical.enter ≤ 10000

normalize_band-lt :
    (r : RawBand) (b : Band) → normalize_band r ≡ ok b → (b.exit < b.enter) × (b.enter ≤ 10000)
unfolding normalize_band checks
normalize_band-lt r b e = ground arith

-- A policy that validation accepts is ordered, each band's exit below its entry, and bounded.
pub validate_policy-IsOrdered :
    (revision_of : Bands → String) (r : RawPolicy) (p : Policy)
    → validate_policy revision_of r ≡ ok p
    → IsOrdered p.bands × (p.policy_revision ≡ revision_of p.bands)
unfolding validate_policy checks
validate_policy-IsOrdered revision_of r p e = ground (
  arith,
  normalize_band-lt r.approaching p.bands.approaching,
  normalize_band-lt r.replacement_candidate p.bands.replacement_candidate,
  normalize_band-lt r.critical p.bands.critical,
)
