-- ===== src/Campaign/Runs.antt =====
-- Runs of the service (app-server/src/services/slice-campaign/service.mjs).
use work_engine.Common.{
  ◌≡◌, refl, sym, ◌∙◌, ap, true, List, [], ◌∷◌, some, String, Result, ok, err, some-eq, lookup,
  Post, returns, Post-ok,
}
use work_engine.Common.Json.{Json}
use work_engine.Campaign.Types.{RawIdentity, Phase, terminal, State, Digests, Error}
use work_engine.Campaign.Stores.{Store}
use work_engine.Campaign.Publishing.{current, edit_current, go_on}
use work_engine.Campaign.Admission.{Proposal, admit}
use work_engine.Campaign.Successors.{supersede}
use work_engine.Campaign.Bootstrap.{Packet, adopt_external_bootstrap_evidence}
use work_engine.Campaign.Operations.{Operation, checked_first, edit_of}
use work_engine.Campaign.Moves.{stays, starts, gates, readies, reopens, closes}
use work_engine.Campaign.Exclusive.{
  IsExclusive, is_live, Reaches, here, after, gives_way, Keeps, Keeps-refl, Keeps-trans,
}
use work_engine.Campaign.Exclusive.Edits.{current-there, edit_current-Keeps, go_on-Keeps}
use work_engine.Campaign.Exclusive.Admissions.{admit-Keeps, supersede-Keeps, adopt-Keeps}

-- A call of the service, or the rest of one that has waited.
pub data Call : Type 0 where
  admits : String → Proposal → Call
  edits : RawIdentity → String → Operation → Call
  goes_on : RawIdentity → Operation → Call
  supersedes : RawIdentity → String → String → Proposal → Call
  adopts : (Packet → String) → RawIdentity → String → Packet → Json → Call

kept : {A : Type 0} → Store → Result Error (Store × A) → Store
kept s (ok (s', a)) = s'
kept s (err e) = s

-- The store after a call, which a call that throws leaves as it was. The rest of an operation finds
-- the campaign that it has prepared: on any other its write is refused, which is no call.
unfoldable pub call : Digests → Call → Store → Store
unfolding kept edit_current go_on current edit_of checked_first admit supersede
    adopt_external_bootstrap_evidence
call digests (admits workspace p) s = kept s (admit digests workspace p s)
call digests (edits identity expected operation) s =
    kept s (
      edit_current digests identity (checked_first expected operation) (edit_of digests operation)
        s)
call digests (goes_on identity operation) s = elim (current identity s) [
  | err e ↦ s
  | ok st ↦ kept s (go_on digests st (edit_of digests operation) s)
]
call digests (supersedes identity expected operation p) s =
    kept s (supersede digests identity expected operation p s)
call digests (adopts digest identity expected p content) s =
    kept s (adopt_external_bootstrap_evidence digest identity expected p content s)

unfoldable pub run_calls : Digests → List Call → Store → Store
unfolding call
run_calls digests [] s = s
run_calls digests (c ∷ cs) s = run_calls digests cs (call digests c s)

kept-Keeps :
    {A : Type 0} (s : Store) (r : Result Error (Store × A))
    → IsExclusive s
    → Post (λ p. Keeps s p.0) r
    → Keeps s (kept s r)
unfolding kept
kept-Keeps s (ok (s', a)) v (returns k) = k
kept-Keeps s (err e) v p = Keeps-refl v

call-Keeps : (digests : Digests) (c : Call) (s : Store) → IsExclusive s → Keeps s (call digests c s)
unfolding call
call-Keeps digests (admits workspace p) s v = kept-Keeps s _ v (admit-Keeps digests workspace p s v)
call-Keeps digests (edits identity expected operation) s v =
    kept-Keeps s _ v
      (edit_current-Keeps digests identity (checked_first expected operation) operation s v)
call-Keeps digests (goes_on identity operation) s v = go (current identity s) refl
  where
    go :
        (r : Result Error State)
        → current identity s ≡ r
        → Keeps s (elim r as (λ _. Store) [
          | err e ↦ s
          | ok st ↦ kept s (go_on digests st (edit_of digests operation) s)
        ])
    go (err e) at = Keeps-refl v
    go (ok st) at =
        kept-Keeps s _ v
          (go_on-Keeps digests st operation s v (Post-ok (current-there identity s v) at))
call-Keeps digests (supersedes identity expected operation p) s v =
    kept-Keeps s _ v (supersede-Keeps digests identity expected operation p s v)
call-Keeps digests (adopts digest identity expected p content) s v =
    kept-Keeps s _ v (adopt-Keeps digest identity expected p content s v)

-- Whatever calls are made on an exclusive store, in whatever order and with whatever answers of the
-- other owners: the store stays exclusive (each campaign under its own key, a live one with the
-- admission of its workspace, and a workspace admitted only to a campaign of it); no campaign is
-- lost; each keeps its identity, workspace, boundary, impact and baseline; and its phase gets only
-- where the phase table, the way back from review to the gate, and supersession lead.
pub run_calls-Keeps :
    (digests : Digests) (cs : List Call) (s : Store)
    → IsExclusive s
    → Keeps s (run_calls digests cs s)
unfolding run_calls
run_calls-Keeps digests [] s v = Keeps-refl v
run_calls-Keeps digests (c ∷ cs) s v =
    let k = call-Keeps digests c s v in
    Keeps-trans k (run_calls-Keeps digests cs (call digests c s) k.exclusive)

-- After any calls on an exclusive store, two campaigns of the same workspace that are both live (not
-- terminal and not superseded) are one campaign.
pub run_calls-one :
    (digests : Digests) (cs : List Call) (s : Store) (key key' : String) (st st' : State)
    → IsExclusive s
    → lookup key (run_calls digests cs s).states ≡ some st
    → lookup key' (run_calls digests cs s).states ≡ some st'
    → is_live st.body.phase ≡ true
    → is_live st'.body.phase ≡ true
    → st.body.workspace ≡ st'.body.workspace
    → key ≡ key'
run_calls-one digests cs s key key' st st' v e e' live live' same =
    let x = (run_calls-Keeps digests cs s v).exclusive in
    some-eq (
      sym (x.held key st e live)
      ∙ ap (λ w. lookup w (run_calls digests cs s).admissions) same
      ∙ x.held key' st' e' live')

final-terminal : {p q : Phase} → p ≡ terminal → Reaches p q → q ≡ terminal
final-terminal e here = e
final-terminal e (after stays r) = final-terminal e r
final-terminal e (after starts r) = absurd (cc)
final-terminal e (after gates r) = absurd (cc)
final-terminal e (after readies r) = absurd (cc)
final-terminal e (after reopens r) = absurd (cc)
final-terminal e (after closes r) = final-terminal refl r
final-terminal e gives_way = absurd (cc)

-- A campaign that is terminal in an exclusive store is terminal after any calls.
pub run_calls-terminal :
    (digests : Digests) (cs : List Call) (s : Store) (key : String) (st : State)
    → IsExclusive s
    → lookup key s.states ≡ some st
    → st.body.phase ≡ terminal
    → (st' : State) × (lookup key (run_calls digests cs s).states ≡ some st')
      × (st'.body.phase ≡ terminal)
run_calls-terminal digests cs s key st v e closed =
    let (st', e', l) = (run_calls-Keeps digests cs s v).evolves key st e in
    (st', e', final-terminal closed l.reaches)
