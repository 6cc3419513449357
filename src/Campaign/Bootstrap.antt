-- ===== src/Campaign/Bootstrap.antt =====
-- External bootstrap packets (app-server/src/services/slice-campaign/external-bootstrap-adoption-contract.mjs)
-- and `adoptExternalBootstrapEvidence` of the service. The fields of a packet are those of its record.
use work_engine.Common.{
  ℕ, Bool, false, ◌&&◌, ◌||◌, List, [], ◌∷◌, Option, none, String, Result, ok, ◌>>=◌, ◌>>◌, require,
  refuse, text_eq, is_some, is_blank, is_empty, length, ◌==◌, RawNumber, safe_between, lookup,
}
use work_engine.Common.Json.{Json, str, get_or_null}
use work_engine.Campaign.Types.{
  RawIdentity, Identity, Adoption, State, Error, bad_packet, packet_identity, packet_revision,
  packet_boundary,
}
use work_engine.Campaign.Contract.{
  require_text, require_sha256, normalize_identity, identity_key, includes,
}
use work_engine.Campaign.Stores.{Store, adopt_evidence}
use work_engine.Campaign.Publishing.{current, require_revision}

pub record TaskItem : Type 0 where
  pub path : String
  pub action : String

pub record Checkpoint : Type 0 where
  pub parent_commit : String
  pub commit : String
  pub tree : String
  pub ref : String
  pub task_patch_sha256 : String

pub record Gate : Type 0 where
  pub manifest_sha256 : String
  pub receipt_sha256 : String
  pub passed : RawNumber
  pub failed : RawNumber
  pub workspace_integrity_sha256 : String

pub record Packet : Type 0 where
  pub schema_version : ℕ
  pub kind : String
  pub provenance : String
  pub identity : RawIdentity
  pub expected_campaign_revision : String
  pub objective : String
  pub boundary_reference : String
  pub boundary_sha256 : String
  pub baseline_commit : String
  pub baseline_tree : String
  pub task_manifest : List TaskItem
  pub checkpoint : Checkpoint
  pub gate : Gate
  pub incident_refs : List String
  pub limitations : List String
  pub whole_packet_sha256 : String

unfoldable pub check_manifest : List TaskItem → Result Error (Unit {0})
unfolding require_text includes
check_manifest [] = ok tt
check_manifest (item ∷ items) = do
  require_text item.path
  require (includes ("add" ∷ "modify" ∷ "delete" ∷ []) item.action) bad_packet
  check_manifest items

unfoldable pub check_checkpoint : Checkpoint → Result Error (Unit {0})
unfolding require_text require_sha256
check_checkpoint c = do
  require_text c.parent_commit
  require_text c.commit
  require_text c.tree
  require_text c.ref
  require_sha256 c.task_patch_sha256

unfoldable pub check_gate : Gate → Result Error (Unit {0})
unfolding require_sha256 safe_between
check_gate g = do
  require_sha256 g.manifest_sha256
  require_sha256 g.receipt_sha256
  require_sha256 g.workspace_integrity_sha256
  require (is_some (safe_between 0 none g.passed)) bad_packet
  require (is_some (safe_between 0 none g.failed)) bad_packet

any_blank : List String → Bool
any_blank [] = false
any_blank (s ∷ ss) = is_blank s || any_blank ss

unfoldable pub preserves_limitations : List String → Bool
unfolding includes
preserves_limitations limitations =
    length limitations == 3
    && includes limitations "app_server_lifecycle_proof_unavailable"
    && includes limitations "app_server_mailbox_proof_unavailable"
    && includes limitations "app_server_delivery_output_proof_unavailable"

-- `validateExternalBootstrapPacket`; `digest` is that of the packet without its own digest.
unfoldable pub validate_packet : (Packet → String) → Packet → Result Error Identity
unfolding normalize_identity require_text require_sha256 check_manifest check_checkpoint check_gate
    any_blank preserves_limitations
validate_packet digest p = do
  require (p.schema_version == 1 && text_eq p.kind "work-engine.external-bootstrap-evidence-packet")
      bad_packet
  require (text_eq p.provenance "external_bootstrap_wind_walker") bad_packet
  identity ← normalize_identity p.identity
  require_sha256 p.expected_campaign_revision
  require_text p.objective
  require_text p.boundary_reference
  require_sha256 p.boundary_sha256
  require_text p.baseline_commit
  require_text p.baseline_tree
  refuse (is_empty p.task_manifest) bad_packet
  check_manifest p.task_manifest
  check_checkpoint p.checkpoint
  check_gate p.gate
  refuse (is_empty p.incident_refs || any_blank p.incident_refs) bad_packet
  require (preserves_limitations p.limitations) bad_packet
  require_sha256 p.whole_packet_sha256
  require (text_eq (digest p) p.whole_packet_sha256) bad_packet
  ok identity

is_text : Json → String → Bool
is_text (str t) s = text_eq t s
is_text other s = false

-- Whether the packet has the campaign's boundary and baseline.
unfoldable pub is_about : Packet → State → Bool
unfolding is_text
is_about p state =
    is_text (get_or_null "reference" state.body.accepted_boundary) p.boundary_reference
    && is_text (get_or_null "sha256" state.body.accepted_boundary) p.boundary_sha256
    && is_text (get_or_null "acceptedCommit" state.body.baseline) p.baseline_commit
    && is_text (get_or_null "acceptedTree" state.body.baseline) p.baseline_tree

-- `adoptExternalBootstrapEvidence`; `content` is the packet as it is stored.
unfoldable pub adopt_external_bootstrap_evidence :
    (Packet → String)
    → RawIdentity
    → String
    → Packet
    → Json
    → Store
    → Result Error (Store × Adoption)
unfolding current require_revision validate_packet is_about adopt_evidence identity_key
adopt_external_bootstrap_evidence digest identity expected p content s = do
  state ← current identity s
  require_revision state expected
  verified ← validate_packet digest p
  require (text_eq (identity_key verified) (identity_key state.body.identity)) packet_identity
  require (text_eq p.expected_campaign_revision state.revision) packet_revision
  require (is_about p state) packet_boundary
  adopt_evidence (identity_key state.body.identity) state.revision
      (record {
        provenance = p.provenance;
        packet_digest = p.whole_packet_sha256;
        packet = content;
      })
      s

-- `recoverExternalBootstrapEvidence`
unfoldable pub recover_external_bootstrap_evidence :
    RawIdentity → Store → Result Error (Option Adoption)
unfolding current normalize_identity identity_key
recover_external_bootstrap_evidence identity s = do
  normalized ← normalize_identity identity
  _ ← current identity s
  ok (lookup (identity_key normalized) s.evidence)
