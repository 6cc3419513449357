-- ===== src/Campaign/Contract.antt =====
-- The checks and the identities of a slice campaign
-- (app-server/src/services/slice-campaign/contract.mjs).
use Prim.Native.Nat.{◌/◌, ◌%◌}
use Prim.Native.String.{◌++◌ as str_append}
use work_engine.Common.{
  ℕ, suc, zero, Bool, true, false, not, ◌&&◌, ◌||◌, List, [], ◌∷◌, String, Result, ok, err, ◌>>=◌,
  ◌>>◌, require, refuse, or_throw, if◌then◌else◌, text_eq, is_blank, integer_from, hex_run, ltb,
}
use work_engine.Common.Json.{Json, str, obj}
use work_engine.Campaign.Types.{
  RawIdentity, Identity, Error, not_an_object, empty_text, not_sha256, bad_slice_number,
}

-- `requireRecord`
unfoldable pub require_record : Json → Result Error (Unit {0})
require_record (obj fields) = ok tt
require_record _ = err not_an_object

-- `requireText`
unfoldable pub require_text : String → Result Error (Unit {0})
require_text s = refuse (is_blank s) empty_text

unfoldable pub require_text_field : Json → Result Error (Unit {0})
unfolding require_text
require_text_field (str s) = require_text s
require_text_field _ = err empty_text

-- `requireSha256`
unfoldable pub require_sha256 : String → Result Error (Unit {0})
unfolding require_text
require_sha256 s = do require_text s; require (hex_run 64 s) not_sha256

unfoldable pub require_sha256_field : Json → Result Error (Unit {0})
unfolding require_sha256
require_sha256_field (str s) = require_sha256 s
require_sha256_field _ = err empty_text

-- `normalizeIdentity`
unfoldable pub normalize_identity : RawIdentity → Result Error Identity
unfolding require_text
normalize_identity v = do
  require_text v.run_id
  require_text v.attempt_id
  require_text v.plan_version
  n ← or_throw (integer_from 1 v.slice_number) bad_slice_number
  ok (record {
    run_id = v.run_id;
    slice_number = n;
    attempt_id = v.attempt_id;
    plan_version = v.plan_version;
  })

digit : ℕ → List String → String
digit n [] = ""
digit zero (d ∷ ds) = d
digit (suc n) (d ∷ ds) = digit n ds

-- A number in decimal; as many steps as the number has units are enough.
unfoldable pub decimal : ℕ → ℕ → String
unfolding digit
decimal zero n = digit n ("0" ∷ [])
decimal (suc fuel) n =
    let d = digit (n % 10) ("0" ∷ "1" ∷ "2" ∷ "3" ∷ "4" ∷ "5" ∷ "6" ∷ "7" ∷ "8" ∷ "9" ∷ []) in
    let rest = decimal fuel (n / 10) in if ltb n 10 then d else str_append rest d

-- `identityKey`
unfoldable pub identity_key : Identity → String
unfolding decimal
identity_key i = str_append i.run_id (
    str_append ":" (
      str_append (decimal i.slice_number i.slice_number)
        (str_append ":" (str_append i.attempt_id (str_append ":" i.plan_version)))))

unfoldable pub includes : List String → String → Bool
includes [] s = false
includes (t ∷ ts) s = text_eq t s || includes ts s

-- `new Set(values).size === values.length`
unfoldable pub distinct : List String → Bool
unfolding includes
distinct [] = true
distinct (s ∷ ss) = not (includes ss s) && distinct ss
