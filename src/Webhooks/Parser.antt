-- ===== src/Webhooks/Parser.antt =====
-- webhook-parser.service.ts and common/utils/hash.ts.
use Prim.Native.String.{[] as empty, ◌∷◌ as prepend, ◌++◌ as append}
use clickup_sync.Common.{
  ℕ, zero, suc, String, Bool, false, not, ◌&&◌, ◌||◌, Option, none, some, List, [], ◌∷◌, ◌===◌,
  if◌then◌else◌,
}
use clickup_sync.Webhooks.Json.{
  Json, null, text, object, Items, no_items, item, no_fields, Platform, is_truthy, is_nullish, ◌or◌,
  ◌otherwise◌, get, first_of, items_of, as_text, text_of,
}

pub record ParsedWebhook : Type 0 where
  pub event_type : Json
  pub task_id : Json
  pub logged_user_id : Option String
  pub fingerprint : String
  pub payload : Json

pub record FieldChangeRecord : Type 0 where
  pub field_name : Json
  pub occurred_at : ℕ
  pub changed_by_user_id : Option String
  pub changed_by_user_name : Json
  pub before : Json
  pub after : Json
  pub raw : Json

abbrev pub sha256 : Platform → Json → String
sha256 js input = js.hash (elim (as_text input) [ some s ↦ s | none ↦ js.stringify input ])

-- `s.slice(0, n)`
abbrev slice_to : ℕ → String → String
slice_to zero s = ""
slice_to (suc n) empty = ""
slice_to (suc n) (prepend c s) = prepend c (slice_to n s)

-- `v != null ? String(v) : null`
abbrev optional_text : Platform → Json → Option String
optional_text js v = if is_nullish v then none else some (text_of js v)

abbrev body_of : Json → Json
body_of payload = get "body" payload or payload or object no_fields

abbrev pub event_type_of : Json → Json
event_type_of payload = get "event" (body_of payload) or get "event" payload or null

abbrev first_item : Json → Json
first_item v = first_of (get "history_items" v)

abbrev pub task_id_of : Json → Json
task_id_of payload =
    get "task_id" (body_of payload)
    or get "task_id" payload
    or get "task_id" (get "data" payload)
    or get "task_id" (first_item payload)
    or get "task_id" (first_item (body_of payload))
    or null

abbrev pub event_id_of : Json → Json
event_id_of payload =
    get "id" (first_item (body_of payload))
    or get "event_id" (body_of payload)
    or get "id" (body_of payload)
    or get "id" (first_item payload)
    or get "event_id" payload
    or get "id" payload

-- The fingerprint of a payload without an id.
abbrev fingerprint_of_task : Platform → Json → String
fingerprint_of_task js payload =
    if is_truthy (task_id_of payload) && is_truthy (event_type_of payload)
    then append "event:" (
        append (text_of js (event_type_of payload)) (
          append ":" (
            append (text_of js (task_id_of payload)) (
              append ":" (
                text_of js (
                  get "date" (body_of payload)
                  or get "timestamp" (body_of payload)
                  or text (slice_to 12 (sha256 js payload))))))))
    else append "hash:" (sha256 js payload)

unfoldable pub fingerprint_of : Platform → Json → String
fingerprint_of js payload =
    if is_truthy (event_id_of payload)
    then append "id:" (text_of js (event_id_of payload))
    else fingerprint_of_task js payload

abbrev pub parse : Platform → Json → ParsedWebhook
parse js payload = record {
  event_type = event_type_of payload;
  task_id = task_id_of payload;
  logged_user_id = optional_text js (
      get "id" (get "user" (first_item (body_of payload)))
      otherwise get "id" (get "user" (first_item payload))
      otherwise null);
  fingerprint = fingerprint_of js payload;
  payload = payload;
}

-- `wanted.has(v)`
abbrev has : List String → Json → Bool
has [] v = false
has (f ∷ fields) v = elim (as_text v) [ some s ↦ (s === f) || has fields v | none ↦ false ]

-- `new Date(typeof rawDate === 'string' ? Number(rawDate) : rawDate)`
abbrev date_of_item : Platform → Json → Option ℕ
date_of_item js date = js.date_of (elim (as_text date) [ some s ↦ js.number_of s | none ↦ date ])

abbrev change_of : Platform → Json → ℕ → FieldChangeRecord
change_of js entry occurred_at = record {
  field_name = get "field" entry;
  occurred_at = occurred_at;
  changed_by_user_id = optional_text js (get "id" (get "user" entry) otherwise null);
  changed_by_user_name = get "username" (get "user" entry) otherwise null;
  before = get "before" entry otherwise null;
  after = get "after" entry otherwise null;
  raw = entry;
}

abbrev push_change : Platform → Json → Option ℕ → List FieldChangeRecord → List FieldChangeRecord
push_change js entry none out = out
push_change js entry (some at) out = change_of js entry at ∷ out

-- `for (const item of items)`
abbrev pub changes_of : Platform → List String → Items → List FieldChangeRecord
changes_of js fields no_items = []
changes_of js fields (item entry rest) =
    let out = changes_of js fields rest in
    if not (is_truthy entry) || not (has fields (get "field" entry))
    then out
    else push_change js entry (date_of_item js (get "date" entry)) out

unfoldable pub extract_field_changes : Platform → Json → List String → List FieldChangeRecord
extract_field_changes js payload fields = changes_of js fields (
    items_of
      (get "history_items" (get "body" payload otherwise payload otherwise object no_fields)))

unfoldable pub extract_status_changes : Platform → Json → List FieldChangeRecord
extract_status_changes js payload = extract_field_changes js payload ("status" ∷ [])
