-- ===== src/Campaign/Requests.antt =====
-- A request with a field set, as an object spread sets it
-- (app-server/src/services/slice-campaign/service.mjs).
use work_engine.Common.{true, String, if◌then◌else◌, text_eq}
use work_engine.Common.Json.{Json, bool, obj, Fields, field, end, get_or_null}

-- A field of an object, set.
set_fields : String → Json → Fields → Fields
set_fields name value end = field name value end
set_fields name value (field other old fields) =
    let rest = set_fields name value fields in
    if text_eq other name then field name value fields else field other old rest

unfoldable pub set_field : String → Json → Json → Json
unfolding set_fields
set_field name value (obj fields) = obj (set_fields name value fields)
set_field name value other = obj (field name value end)

-- The request with `refreshCredentials` in its reviewer request.
unfoldable pub refreshed : Json → Json
unfolding set_field
refreshed content =
    set_field "reviewerRequest"
      (set_field "refreshCredentials" (bool true) (get_or_null "reviewerRequest" content)) content
