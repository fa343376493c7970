-- ===== src/Preferences/Examples.antt =====
-- A preference "k" at its first revision, written twice from there.
use seven_mirror_server.Common.{ℕ, ◌+◌, ◌≡◌, ◌≢◌, refl, true, some, [], ◌∷◌}
use seven_mirror_server.Common.Result.{ok, err}
use seven_mirror_server.Common.Bytes.{Bytes, equal}
use seven_mirror_server.Common.Table.{find, update}
use seven_mirror_server.Admission.{Platform}
use seven_mirror_server.Preferences.{
  Preferences, Preference, preference_key_invalid, is_visible, validate_preference_key,
  lookup_preference, read_workspace_preference, replace_preference, write_workspace_preference,
}
use seven_mirror_server.Preferences.Writes.{Write, run, run_all, write-read, write-once}

abbrev platform : Platform
platform = record {
  sum256 = λ bs. bs;
  encode_base64 = λ bs. bs;
  decode_base64 = λ bs. some bs;
  unmarshals_p256 = λ bs. true;
  valid_utf8 = λ bs. true;
  trim_space = λ bs. bs;
}

abbrev stored : ℕ → Bytes → ℕ → Preference
stored revision payload at_ms = record {
  workspace_id = 1 ∷ [];
  preference_key = 107 ∷ [];
  value = record { revision = revision; payload = payload; updated_at_ms = at_ms };
}

abbrev table : Preference → Preferences
table row = record { workspaces = (1 ∷ []) ∷ []; rows = row ∷ [] }

abbrev write : Bytes → ℕ → Write
write payload now = record {
  workspace_id = 1 ∷ [];
  key = 107 ∷ [];
  expected = some 1;
  payload = payload;
  now = now;
}

space_refused :
    read_workspace_preference platform (table (stored 1 (9 ∷ []) 0)) (1 ∷ []) (32 ∷ [])
    ≡ err preference_key_invalid
unfolding read_workspace_preference validate_preference_key is_visible
space_refused = refl

writes :
    run platform (table (stored 1 (9 ∷ []) 0)) (write (8 ∷ []) 5000000)
    ≡ ok (2, table (stored 2 (8 ∷ []) 5))
unfolding write_workspace_preference validate_preference_key is_visible replace_preference find
    update equal
writes = refl

write-read_example :
    (n : ℕ) × (some 1 ≡ some n)
    × (2 ≡ n + 1)
    × (lookup_preference (table (stored 2 (8 ∷ []) 5)) (1 ∷ []) (107 ∷ [])
        ≡ some (record { revision = 2; payload = 8 ∷ []; updated_at_ms = 5 }))
write-read_example =
    write-read platform (table (stored 1 (9 ∷ []) 0)) (write (8 ∷ []) 5000000) 2
      (table (stored 2 (8 ∷ []) 5)) writes

write-once_example :
    run platform
      (run_all platform (table (stored 2 (8 ∷ []) 5)) (write (7 ∷ []) 0 ∷ []))
      (write (6 ∷ []) 7000000)
    ≢ ok (2, table (stored 2 (6 ∷ []) 7))
write-once_example =
    write-once platform (table (stored 1 (9 ∷ []) 0)) (write (8 ∷ []) 5000000) 2
      (table (stored 2 (8 ∷ []) 5)) (write (7 ∷ []) 0 ∷ []) (write (6 ∷ []) 7000000)
      (2, table (stored 2 (6 ∷ []) 7)) writes refl refl refl
