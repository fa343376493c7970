-- ===== src/Preferences.antt =====
-- internal/admission/store.go: the preferences of a workspace, opaque values under optimistic
-- concurrency control. The table has the primary key (workspace_id, preference_key), so a statement
-- restricted to a key reads or changes the one row that SELECT finds. A negative expected revision
-- is `none`. Instants are nanoseconds since Go's zero time; failures of the driver are left out.
pub mod Writes
pub mod Examples
use seven_mirror_server.Common.{
  ℕ, ◌+◌, ◌*◌, Bool, true, false, ◌||◌, ◌&&◌, not, Option, none, some, List, [], ◌∷◌, ◌++◌, ltb,
  ◌==◌, length, if◌then◌else◌,
}
use seven_mirror_server.Common.Result.{Result, ok, err, ◌>>=◌, ◌>>◌, refuse_if}
use seven_mirror_server.Common.Bytes.{Bytes, equal}
use seven_mirror_server.Common.Table.{find, update, exists}
use seven_mirror_server.Admission.{Platform, unix_millis}

abbrev pub max_preference_key_bytes : ℕ
max_preference_key_bytes = 64

abbrev pub max_preference_payload_bytes : ℕ
max_preference_payload_bytes = 256 * 1024

pub record PreferenceRecord : Type 0 where
  pub revision : ℕ
  pub payload : Bytes
  pub updated_at_ms : ℕ

-- A row of workspace_preferences.
pub record Preference : Type 0 where
  pub workspace_id : Bytes
  pub preference_key : Bytes
  pub value : PreferenceRecord

pub record Preferences : Type 0 where
  pub workspaces : List Bytes
  pub rows : List Preference

pub data Error : Type 0 where
  preference_key_invalid preference_payload_invalid preference_revision_conflict : Error
  constraint_failed : Error

-- `workspace_id = ? AND preference_key = ?`
abbrev pub is_preference : Bytes → Bytes → Preference → Bool
is_preference workspace_id key r = equal r.workspace_id workspace_id && equal r.preference_key key

-- The loop over the characters; one that is not ASCII is refused by its bytes, which are above 0x7e.
unfoldable pub is_visible : Bytes → Bool
is_visible [] = true
is_visible (c ∷ cs) = not (ltb c 33 || ltb 126 c) && is_visible cs

unfoldable pub validate_preference_key : Platform → Bytes → Result Error (Unit {0})
validate_preference_key p key = do
  refuse_if
      (ltb (length key) 1 || ltb max_preference_key_bytes (length key) || not (p.valid_utf8 key))
      preference_key_invalid
  refuse_if (not (is_visible key)) preference_key_invalid

unfoldable pub lookup_preference : Preferences → Bytes → Bytes → Option PreferenceRecord
lookup_preference t workspace_id key = elim (find (is_preference workspace_id key) t.rows) [
  | none ↦ none
  | some r ↦ some r.value
]

-- A missing key is `none`.
unfoldable pub read_workspace_preference :
    Platform → Preferences → Bytes → Bytes → Result Error (Option PreferenceRecord)
read_workspace_preference p t workspace_id key = do
  validate_preference_key p key
  ok (lookup_preference t workspace_id key)

abbrev pub new_preference : Bytes → Bytes → Bytes → ℕ → Preference
new_preference workspace_id key payload now_millis = record {
  workspace_id = workspace_id;
  preference_key = key;
  value = record { revision = 1; payload = payload; updated_at_ms = now_millis };
}

-- The INSERT with ON CONFLICT DO NOTHING.
unfoldable pub create_preference :
    Preferences → Bytes → Bytes → Bytes → ℕ → Result Error (ℕ × Preferences)
create_preference t workspace_id key payload now_millis = do
  refuse_if (exists (is_preference workspace_id key) t.rows) preference_revision_conflict
  refuse_if (not (exists (equal workspace_id) t.workspaces)) constraint_failed
  ok (1, record t { rows = t.rows ++ new_preference workspace_id key payload now_millis ∷ [] })

abbrev pub replace_value : Bytes → ℕ → Preference → Preference
replace_value payload now_millis r = record r {
  value = record { revision = r.value.revision + 1; payload = payload; updated_at_ms = now_millis };
}

-- The UPDATE of one revision.
unfoldable pub replace_preference :
    Preferences → Bytes → Bytes → ℕ → Bytes → ℕ → Result Error (ℕ × Preferences)
replace_preference t workspace_id key expected payload now_millis =
    elim (find (is_preference workspace_id key) t.rows) [
      | none ↦ err preference_revision_conflict
      | some r ↦ do
        refuse_if (not (r.value.revision == expected)) preference_revision_conflict
        ok (
          expected + 1,
          record t {
            rows =
                update (is_preference workspace_id key) (replace_value payload now_millis) t.rows;
          },
        )
    ]

abbrev pub write_expecting :
    Preferences → Bytes → Bytes → Option ℕ → Bytes → ℕ → Result Error (ℕ × Preferences)
write_expecting t workspace_id key none payload now_millis = err preference_revision_conflict
write_expecting t workspace_id key (some expected) payload now_millis =
    if expected == 0
    then create_preference t workspace_id key payload now_millis
    else replace_preference t workspace_id key expected payload now_millis

unfoldable pub write_workspace_preference :
    Platform → Preferences → Bytes → Bytes → Option ℕ → Bytes → ℕ → Result Error (ℕ × Preferences)
write_workspace_preference p t workspace_id key expected payload now = do
  validate_preference_key p key
  refuse_if (ltb (length payload) 1 || ltb max_preference_payload_bytes (length payload))
      preference_payload_invalid
  write_expecting t workspace_id key expected payload (unix_millis now)
