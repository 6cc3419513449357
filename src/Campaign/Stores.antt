-- ===== src/Campaign/Stores.antt =====
-- InMemorySliceCampaignStore (app-server/src/services/slice-campaign/service.mjs): the campaigns,
-- the campaign that each workspace is admitted to, and adopted bootstrap evidence.
use work_engine.Common.{
  Bool, true, Option, none, some, String, Result, ok, ◌>>◌, require, refuse, if◌then◌else◌, text_eq,
  option_eq, is_some, Dict, lookup, insert, erase,
}
use work_engine.Campaign.Types.{
  State, Adoption, Error, attempt_exists, workspace_admitted, revision_conflict, successor_exists,
  not_the_holder, packet_conflict,
}

pub record Store : Type 0 where
  pub states : Dict State
  pub admissions : Dict String
  pub evidence : Dict Adoption

unfoldable pub revision_of : Option State → Option String
revision_of none = none
revision_of (some s) = some s.revision

-- `this.states.get(key)?.revision === expectedRevision`
unfoldable pub is_at : String → String → Dict State → Bool
unfolding revision_of
is_at key revision states = option_eq (revision_of (lookup key states)) (some revision)

-- Whether no other campaign has the workspace.
unfoldable pub is_free : Option String → String → Bool
is_free none key = true
is_free (some holder) key = text_eq holder key

unfoldable pub admit_state : String → String → State → Store → Result Error Store
unfolding is_free
admit_state key workspace state s = do
  refuse (is_some (lookup key s.states)) attempt_exists
  require (is_free (lookup workspace s.admissions) key) workspace_admitted
  ok (record s {
    admissions = insert workspace key s.admissions;
    states = insert key state s.states;
  })

-- `releaseWorkspace`: the admission goes if it is this campaign's.
unfoldable pub release : Option String → String → Dict String → Dict String
release none key admissions = admissions
release (some workspace) key admissions =
    if option_eq (lookup workspace admissions) (some key)
    then erase workspace admissions
    else admissions

unfoldable pub put : String → State → String → Option String → Store → Result Error Store
unfolding is_at release
put key state expected release_workspace s = do
  require (is_at key expected s.states) revision_conflict
  ok (record s {
    states = insert key state s.states;
    admissions = release release_workspace key s.admissions;
  })

unfoldable pub supersede_state :
    String → String → String → State → String → State → Store → Result Error Store
unfolding is_at
supersede_state key expected workspace state successor_key successor s = do
  require (is_at key expected s.states) revision_conflict
  refuse (is_some (lookup successor_key s.states)) successor_exists
  require (option_eq (lookup workspace s.admissions) (some key)) not_the_holder
  ok (record s {
    states = insert successor_key successor (insert key state s.states);
    admissions = insert workspace successor_key s.admissions;
  })

-- What stays of evidence that was adopted before, and what is written where there is none.
unfoldable pub adopt_evidence : String → String → Adoption → Store → Result Error (Store × Adoption)
unfolding is_at
adopt_evidence key expected adoption s = do
  require (is_at key expected s.states) revision_conflict
  elim (lookup key s.evidence) [
    | some existing ↦ do
      require (text_eq existing.packet_digest adoption.packet_digest) packet_conflict
      ok (s, existing)
    | none ↦ ok (record s { evidence = insert key adoption s.evidence }, adoption)
  ]
