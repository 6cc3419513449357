-- ===== src/Generation/Reloads/History.antt =====
-- A reload's history read as a path through the table TRANSITIONS
-- (app-server/src/executable-generation-store.mjs).
use work_engine.Common.{
  ◌≡◌, refl, Bool, true, false, ◌&&◌, ◌||◌, List, [], ◌∷◌, ◌++◌, Option, none, some, arith,
  if◌then◌else◌,
}
use work_engine.Generation.Types.{
  Status, requested, active_exercised, Event, reached, effect_recorded, predecessor, Entry,
}
use work_engine.Generation.Store.{allows, is_status}
use work_engine.Generation.Reloads.{is_active_status}

-- The status after an event, or none if the event is not legal there. A turn may be accepted by a
-- reload that is exercised already.
unfoldable pub legal : Option Status → Event → Option Status
legal none e = none
legal (some s) (reached t) =
    if allows s t || (is_status s active_exercised && is_status t active_exercised)
    then some t
    else none
legal (some s) effect_recorded = if is_status s active_exercised then some s else none
legal (some s) (predecessor r) = if is_active_status s then some s else none

follow : Option Status → List Entry → Option Status
follow o [] = o
follow o (e ∷ es) = follow (legal o e.event) es

starts : Event → Bool
starts (reached requested) = true
starts _ = false

-- The status that a whole history leads to: it begins with the request, and each event is legal.
unfoldable pub replay : List Entry → Option Status
unfolding follow starts
replay [] = none
replay (e ∷ es) = if starts e.event then follow (some requested) es else none

follow-append :
    (o : Option Status) (xs : List Entry) (e : Entry)
    → follow o (xs ++ e ∷ []) ≡ legal (follow o xs) e.event
unfolding follow
follow-append o [] e = refl
follow-append o (x ∷ xs) e = follow-append (legal o x.event) xs e

pub replay-append :
    (h : List Entry) (s : Status) (e : Entry)
    → replay h ≡ some s
    → replay (h ++ e ∷ []) ≡ legal (some s) e.event
unfolding replay
replay-append [] s e k = cc
replay-append (x ∷ xs) s e k = ground (arith, follow-append (some requested) xs e)
