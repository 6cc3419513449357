-- ===== src/Campaign/Publishing.antt =====
-- How the service reads and writes a campaign
-- (app-server/src/services/slice-campaign/service.mjs). An operation that waits for another owner
-- writes what it has prepared before and goes on from there with the answer; a campaign that has
-- moved on in between has another revision, which refuses the write.
use work_engine.Common.{
  Option, none, some, String, Result, ok, ◌>>=◌, ◌>>◌, require, or_throw, text_eq, lookup,
}
use work_engine.Campaign.Types.{
  RawIdentity, Body, State, Digests, Error, revision_conflict, attempt_missing,
}
use work_engine.Campaign.Contract.{normalize_identity, identity_key, require_sha256}
use work_engine.Campaign.Stores.{Store, put}

unfoldable pub published : Digests → Body → State
published digests b = record { body = b; revision = digests.of_body b }

-- `publish`
unfoldable pub publish :
    Digests → Body → String → Option String → Store → Result Error (Store × State)
unfolding published put identity_key
publish digests b expected release_workspace s = do
  s' ← put (identity_key b.identity) (published digests b) expected release_workspace s
  ok (s', published digests b)

-- `current`
unfoldable pub current : RawIdentity → Store → Result Error State
unfolding normalize_identity identity_key
current identity s = do
  normalized ← normalize_identity identity
  or_throw (lookup (identity_key normalized) s.states) attempt_missing

-- `requireRevision`
unfoldable pub require_revision : State → String → Result Error (Unit {0})
unfolding require_sha256
require_revision state expected = do
  require_sha256 expected
  require (text_eq state.revision expected) revision_conflict

-- What an operation does to the campaign it has read: nothing, a new state, or a new state with its
-- workspace released.
pub data Edit : Type 0 where
  keep : Edit
  edit : Body → Edit
  close : Body → Edit

unfoldable pub apply : Digests → State → Edit → Store → Result Error (Store × State)
unfolding publish
apply digests state keep s = ok (s, state)
apply digests state (edit b) s = publish digests b state.revision none s
apply digests state (close b) s = publish digests b state.revision (some state.body.workspace) s

-- The revision that an operation requires before anything else, if it does.
unfoldable pub first_check : State → Option String → Result Error (Unit {0})
unfolding require_revision
first_check state none = ok tt
first_check state (some expected) = require_revision state expected

-- An operation up to its first wait, on the campaign that is there.
unfoldable pub edit_current :
    Digests
    → RawIdentity
    → Option String
    → (State → Result Error Edit)
    → Store
    → Result Error (Store × State)
unfolding current first_check apply
edit_current digests identity checked operation s = do
  state ← current identity s
  first_check state checked
  e ← operation state
  apply digests state e s

-- The rest of an operation, on what it has prepared.
unfoldable pub go_on :
    Digests → State → (State → Result Error Edit) → Store → Result Error (Store × State)
unfolding apply
go_on digests prepared operation s = do e ← operation prepared; apply digests prepared e s
