-- ===== src/Generation/Extension.antt =====
-- The extension contract that the store uses (app-server/src/run-extension-bundle-contract.mjs).
use Prim.Native.String.{◌++◌ as str_append}
use work_engine.Common.{
  ◌>>◌, ◌&&◌, Bool, true, false, String, Result, ok, require, if◌then◌else◌, text_eq, is_some,
  strip_prefix,
}
use work_engine.Common.{Bool, true, false, Result, require}
use work_engine.Common.Json.{Json, get_or_null}
use work_engine.Generation.Types.{
  Attachment, ExtensionState, admitted, activated, executed, artifact_sealed, detached, cleaned,
  retained, Receipt, Error, invalid_extension_transition,
}

-- `EXTENSION_TRANSITIONS[from]?.includes(to)`
unfoldable pub allows_extension : ExtensionState → ExtensionState → Bool
allows_extension admitted activated = true
allows_extension activated executed = true
allows_extension executed artifact_sealed = true
allows_extension artifact_sealed detached = true
allows_extension detached cleaned = true
allows_extension detached retained = true
allows_extension _ _ = false

unfoldable pub assert_extension_transition :
    ExtensionState → ExtensionState → Result Error (Unit {0})
assert_extension_transition from to =
    require (allows_extension from to) invalid_extension_transition

unfoldable pub extension_receipt : Attachment → ExtensionState → Json → Receipt
extension_receipt attachment state details = record {
  bundle_id = attachment.bundle_id;
  attachment_sha256 = attachment.sha256;
  state = state;
  workload = get_or_null "workload" details;
  transport = get_or_null "transport" details;
  artifact = get_or_null "artifact" details;
}

-- A run of an extension, as it is requested.
pub record RunEnvelope : Type 0 where
  pub network : String
  pub credentials : String
  pub repository_subject : String
  pub checkout : String
  pub artifact_root : String
  pub scratch_root : String
  pub retention : String
  pub namespace : String

pub data EnvelopeError : Type 0 where
  unsealed missing_text outside_namespace : EnvelopeError

abbrev is_present : String → Bool
is_present s = if text_eq s "" then false else true

abbrev is_inside : String → String → Bool
is_inside namespace root = is_some (strip_prefix (str_append namespace "/") root)

-- `validateRunEnvelope`
unfoldable pub validate_run_envelope : RunEnvelope → Result EnvelopeError RunEnvelope
unfolding strip_prefix
validate_run_envelope run = do
  require (text_eq run.network "sealed" && text_eq run.credentials "none") unsealed
  require (is_present run.repository_subject) missing_text
  require (is_present run.checkout) missing_text
  require (is_present run.artifact_root) missing_text
  require (is_present run.scratch_root) missing_text
  require (is_present run.retention) missing_text
  require (is_present run.namespace) missing_text
  require (is_inside run.namespace run.artifact_root && is_inside run.namespace run.scratch_root)
      outside_namespace
  ok run
