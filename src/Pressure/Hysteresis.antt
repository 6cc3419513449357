-- ===== src/Pressure/Hysteresis.antt =====
-- `dispositionFor` against one rule for all four dispositions, and what hysteresis means.
-- (app-server/src/context-pressure-controller.mjs)
use work_engine.Common.{ℕ, ◌≤◌, ◌<◌, ◌≡◌, arith, leb, if◌then◌else◌}
use work_engine.Pressure.{
  Disposition, comfortable, approaching, replacement_candidate, critical, Bands, disposition_for,
}
use work_engine.Pressure.Thresholds.{IsOrdered}

abbrev pub rank : Disposition → ℕ
rank comfortable = 0
rank approaching = 1
rank replacement_candidate = 2
rank critical = 3

abbrev pub enter_of : Bands → Disposition → ℕ
enter_of b comfortable = 0
enter_of b approaching = b.approaching.enter
enter_of b replacement_candidate = b.replacement_candidate.enter
enter_of b critical = b.critical.enter

abbrev pub exit_of : Bands → Disposition → ℕ
exit_of b comfortable = 0
exit_of b approaching = b.approaching.exit
exit_of b replacement_candidate = b.replacement_candidate.exit
exit_of b critical = b.critical.exit

-- From `d`, a band at or below `d` is held down to its exit, and one above it is entered at its entry.
abbrev pub Meets : Bands → Disposition → ℕ → Disposition → Type 0
Meets b d p k = (if leb (rank k) (rank d) then exit_of b k else enter_of b k) ≤ p

-- From any disposition the next one is the highest band whose threshold the pressure meets: the
-- exit threshold for the bands up to the current one, the entry threshold for those above.
pub disposition_for-highest :
    (d k : Disposition) (p : ℕ) (b : Bands)
    → Meets b d p (disposition_for d p b)
      × (rank (disposition_for d p b) < rank k → ¬ Meets b d p k)
unfolding disposition_for
disposition_for-highest comfortable k p b = (ground arith, λ h m. ground arith)
disposition_for-highest approaching k p b = (ground arith, λ h m. ground arith)
disposition_for-highest replacement_candidate k p b = (ground arith, λ h m. ground arith)
disposition_for-highest critical k p b = (ground arith, λ h m. ground arith)

-- Under an ordered policy the same pressure seen again changes nothing.
pub disposition_for_idem :
    (d : Disposition) (p : ℕ) (b : Bands)
    → IsOrdered b
    → disposition_for (disposition_for d p b) p b ≡ disposition_for d p b
unfolding disposition_for
disposition_for_idem comfortable p b o = ground arith
disposition_for_idem approaching p b o = ground arith
disposition_for_idem replacement_candidate p b o = ground arith
disposition_for_idem critical p b o = ground arith

-- Under an ordered policy the next disposition does not fall as the pressure and the current
-- disposition rise.
pub disposition_for_mono :
    (d e : Disposition) (p q : ℕ) (b : Bands)
    → IsOrdered b
    → rank d ≤ rank e
    → p ≤ q
    → rank (disposition_for d p b) ≤ rank (disposition_for e q b)
unfolding disposition_for
disposition_for_mono comfortable e p q b o h k = ground arith
disposition_for_mono approaching e p q b o h k = ground arith
disposition_for_mono replacement_candidate e p q b o h k = ground arith
disposition_for_mono critical e p q b o h k = ground arith

-- A disposition that was just entered from below is left downwards only when the pressure has
-- fallen through the whole gap of its band, from its entry threshold to below its exit threshold.
pub disposition_for_gap :
    (d : Disposition) (p q : ℕ) (b : Bands)
    → let r = disposition_for d p b in
      rank d < rank r
      → rank (disposition_for r q b) < rank r
      → (enter_of b r ≤ p) × (q < exit_of b r)
unfolding disposition_for
disposition_for_gap comfortable p q b up down = ground arith
disposition_for_gap approaching p q b up down = ground arith
disposition_for_gap replacement_candidate p q b up down = ground arith
disposition_for_gap critical p q b up down = ground arith
