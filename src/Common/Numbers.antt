-- ===== src/Common/Numbers.antt =====
-- Numbers and revisions as a caller may pass them, before a component has checked them.
use Prim.Native.Nat.{ℕ, zero, suc}
use Prim.Native.Char.{code}
use Prim.Native.String.{String}
use mathlib.Core.Bool.{Bool, true, false, ◌&&◌, ◌||◌}
use mathlib.Core.Option.{Option, none, some}
use work_engine.Common.Tests.{leb, ◌==◌, if◌then◌else◌}

-- An integer that is not negative, a negative one, or a value that is no integer.
pub data RawNumber : Type 0 where
  int : ℕ → RawNumber
  negative : RawNumber
  not_integer : RawNumber

abbrev pub max_safe_integer : ℕ
max_safe_integer = 9007199254740991

-- `Number.isSafeInteger(value) && lo <= value <= hi`, with `hi` none where the source has no bound.
unfoldable pub safe_between : ℕ → Option ℕ → RawNumber → Option ℕ
safe_between lo none (int n) = if leb n max_safe_integer && leb lo n then some n else none
safe_between lo (some hi) (int n) =
    if leb n max_safe_integer && leb lo n && leb n hi then some n else none
safe_between lo hi negative = none
safe_between lo hi not_integer = none

-- `Number.isInteger(value) && lo <= value`
unfoldable pub integer_from : ℕ → RawNumber → Option ℕ
integer_from lo (int n) = if leb lo n then some n else none
integer_from lo negative = none
integer_from lo not_integer = none

abbrev pub is_hex : ℕ → Bool
is_hex c = (leb b'a' c && leb c b'f') || (leb b'0' c && leb c b'9')

-- Exactly so many hexadecimal digits, and nothing after them.
unfoldable pub hex_run : ℕ → String → Bool
hex_run zero String.[] = true
hex_run zero (String.◌∷◌ c s) = false
hex_run (suc n) String.[] = false
hex_run (suc n) (String.◌∷◌ c s) = is_hex (code c) && hex_run n s

unfoldable pub strip_prefix : String → String → Option String
strip_prefix String.[] s = some s
strip_prefix (String.◌∷◌ c p) String.[] = none
strip_prefix (String.◌∷◌ c p) (String.◌∷◌ d s) =
    let rest = strip_prefix p s in if code c == code d then rest else none

-- `/^sha256:[a-f0-9]{64}$/.test(value)`
unfoldable pub is_sha_revision : String → Bool
unfolding hex_run strip_prefix
is_sha_revision s = elim (strip_prefix "sha256:" s) [ none ↦ false | some rest ↦ hex_run 64 rest ]
