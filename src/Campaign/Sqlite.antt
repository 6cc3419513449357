-- ===== src/Campaign/Sqlite.antt =====
-- SqliteSliceCampaignStore (app-server/src/services/slice-campaign/sqlite-store.mjs), each statement as
-- what it does to its table. An operation that throws is rolled back.
pub mod Links
pub mod Statements
pub mod Agreement
use work_engine.Common.{
  ◌≡◌, Bool, true, false, not, ◌&&◌, ◌||◌, List, [], ◌∷◌, Option, none, some, String, Result, ok,
  err, ◌>>=◌, ◌>>◌, require, refuse, or_throw, if◌then◌else◌, text_eq, option_eq, is_some, Dict,
  lookup, insert, erase,
}
use work_engine.Campaign.Types.{
  State, Adoption, Error, attempt_exists, workspace_admitted, revision_conflict, successor_exists,
  not_the_holder, packet_conflict,
}
use work_engine.Campaign.Stores.{Store, is_free}

-- A row of slice_campaign_state.
pub record StateRow : Type 0 where
  pub revision : String
  pub state : State

pub record Tables : Type 0 where
  pub states : Dict StateRow
  pub admissions : Dict String
  pub evidence : Dict Adoption

abbrev pub row_of : State → StateRow
row_of state = record { revision = state.revision; state = state }

unfoldable pub rows_of : Dict State → Dict StateRow
rows_of [] = []
rows_of ((key, state) ∷ d) = (key, row_of state) ∷ rows_of d

-- The tables that hold what a store in memory holds.
unfoldable pub tables_of : Store → Tables
unfolding rows_of
tables_of s = record { states = rows_of s.states; admissions = s.admissions; evidence = s.evidence }

-- `INSERT INTO slice_campaign_state`, which the primary key may refuse.
unfoldable pub insert_state : String → State → Dict StateRow → Result Error (Dict StateRow)
insert_state key state rows = do
  refuse (is_some (lookup key rows)) attempt_exists
  ok (insert key (row_of state) rows)

-- Whether a campaign has an admission: `identity_key` is unique.
unfoldable pub is_admitted : String → Dict String → Bool
is_admitted key [] = false
is_admitted key ((workspace, holder) ∷ rows) = text_eq holder key || is_admitted key rows

-- `INSERT INTO slice_campaign_admission`, which either key may refuse.
unfoldable pub insert_admission : String → String → Dict String → Result Error (Dict String)
unfolding is_admitted
insert_admission workspace key rows = do
  refuse (is_some (lookup workspace rows) || is_admitted key rows) attempt_exists
  ok (insert workspace key rows)

unfoldable pub sqlite_admit : String → String → State → Tables → Result Error Tables
unfolding insert_state insert_admission is_free
sqlite_admit key workspace state t = do
  require (is_free (lookup workspace t.admissions) key) workspace_admitted
  states ← insert_state key state t.states
  admissions ← insert_admission workspace key t.admissions
  ok (record t { states = states; admissions = admissions })

unfoldable pub row_revision : Option StateRow → Option String
row_revision none = none
row_revision (some row) = some row.revision

-- `WHERE identity_key = ? AND revision = ?`
unfoldable pub selects : String → String → Dict StateRow → Bool
unfolding row_revision
selects key revision rows = option_eq (row_revision (lookup key rows)) (some revision)

-- `DELETE FROM slice_campaign_admission WHERE workspace = ? AND identity_key = ?`
unfoldable pub delete_admission : Option String → String → Dict String → Dict String
delete_admission none key rows = rows
delete_admission (some workspace) key rows =
    if option_eq (lookup workspace rows) (some key) then erase workspace rows else rows

unfoldable pub sqlite_put : String → State → String → Option String → Tables → Result Error Tables
unfolding selects delete_admission
sqlite_put key state expected release_workspace t = do
  require (selects key expected t.states) revision_conflict
  ok (record t {
    states = insert key (row_of state) t.states;
    admissions = delete_admission release_workspace key t.admissions;
  })

-- `UPDATE slice_campaign_admission SET identity_key = ?`. The unique key may refuse it, with an error
-- of the database that is not told apart here.
unfoldable pub transfer : String → String → String → Dict String → Result Error (Dict String)
unfolding is_admitted
transfer workspace key successor_key rows = do
  require (option_eq (lookup workspace rows) (some key)) not_the_holder
  refuse (is_admitted successor_key rows) not_the_holder
  ok (insert workspace successor_key rows)

unfoldable pub sqlite_supersede :
    String → String → String → State → String → State → Tables → Result Error Tables
unfolding selects transfer insert_state
sqlite_supersede key expected workspace state successor_key successor t = do
  require (selects key expected t.states) revision_conflict
  refuse (is_some (lookup successor_key t.states)) successor_exists
  require (option_eq (lookup workspace t.admissions) (some key)) not_the_holder
  states ← insert_state successor_key successor (insert key (row_of state) t.states)
  admissions ← transfer workspace key successor_key t.admissions
  ok (record t { states = states; admissions = admissions })

unfoldable pub sqlite_adopt : String → String → Adoption → Tables → Result Error (Tables × Adoption)
unfolding selects
sqlite_adopt key expected adoption t = do
  require (selects key expected t.states) revision_conflict
  elim (lookup key t.evidence) [
    | some existing ↦ do
      require (text_eq existing.packet_digest adoption.packet_digest) packet_conflict
      ok (t, existing)
    | none ↦ ok (record t { evidence = insert key adoption t.evidence }, adoption)
  ]
