-- ===== src/Preferences/Writes.antt =====
-- Optimistic concurrency: no write is lost.
use seven_mirror_server.Common.{
  ℕ, ◌+◌, ◌<◌, ◌≡◌, ◌≢◌, refl, sym, ap, ◌∙◌, inl, inr, true, false, Option, none, some, List, [],
  ◌∷◌, ◌++◌, arith, ◌==◌, ==_iff, Bool-cases, Option-cases, if◌then◌else◌,
}
use seven_mirror_server.Common.Result.{Result, ok, err}
use seven_mirror_server.Common.Bytes.{Bytes, equal_refl}
use seven_mirror_server.Common.Table.{
  find, update, exists, find-some, find-append, find-update, exists-find, find-added,
}
use seven_mirror_server.Admission.{Platform, unix_millis}
use seven_mirror_server.Preferences.{
  Preferences, Preference, Error, preference_revision_conflict, is_preference,
  validate_preference_key, lookup_preference, create_preference, new_preference, replace_preference,
  replace_value, write_expecting, write_workspace_preference,
}

-- A call of WriteWorkspacePreference.
pub record Write : Type 0 where
  pub workspace_id : Bytes
  pub key : Bytes
  pub expected : Option ℕ
  pub payload : Bytes
  pub now : ℕ

abbrev pub run : Platform → Preferences → Write → Result Error (ℕ × Preferences)
run p t q = write_workspace_preference p t q.workspace_id q.key q.expected q.payload q.now

abbrev pub after_write : Preferences → Result Error (ℕ × Preferences) → Preferences
after_write t (ok (n, next)) = next
after_write t (err e) = t

unfoldable pub run_all : Platform → Preferences → List Write → Preferences
run_all p t [] = t
run_all p t (q ∷ qs) = run_all p (after_write t (run p t q)) qs

-- The row of a key, at a revision above the given one.
pub record IsBeyond (w k : Bytes) (n : ℕ) (t : Preferences) : Type 0 where
  pub row : Preference
  pub stored : find (is_preference w k) t.rows ≡ some row
  pub above : n < row.value.revision

-- What a write that succeeds does: it adds the first row of its key, or replaces the row that has
-- the expected revision.
data Applied (t : Preferences) (q : Write) (m : ℕ) (next : Preferences) : Type 0 where
  created :
      find (is_preference q.workspace_id q.key) t.rows ≡ none
      → q.expected ≡ some 0
      → m ≡ 1
      → next.rows ≡ t.rows ++ new_preference q.workspace_id q.key q.payload (unix_millis q.now) ∷ []
      → Applied t q m next
  replaced :
      (r : Preference)
      → find (is_preference q.workspace_id q.key) t.rows ≡ some r
      → q.expected ≡ some r.value.revision
      → m ≡ r.value.revision + 1
      → next.rows
        ≡ update
            (is_preference q.workspace_id q.key)
            (replace_value q.payload (unix_millis q.now))
            t.rows
      → Applied t q m next

create-eq-ok :
    (t next : Preferences) (w k payload : Bytes) (now m : ℕ)
    → create_preference t w k payload now ≡ ok (m, next)
    → (exists (is_preference w k) t.rows ≡ false)
      × (m ≡ 1)
      × (next.rows ≡ t.rows ++ new_preference w k payload now ∷ [])
unfolding create_preference
create-eq-ok t next w k payload now m h = ground arith

replace-eq-ok :
    (t next : Preferences) (w k : Bytes) (e : ℕ) (payload : Bytes) (now m : ℕ) (r : Preference)
    → find (is_preference w k) t.rows ≡ some r
    → replace_preference t w k e payload now ≡ ok (m, next)
    → ((r.value.revision == e) ≡ true)
      × (m ≡ e + 1)
      × (next.rows ≡ update (is_preference w k) (replace_value payload now) t.rows)
unfolding replace_preference
replace-eq-ok t next w k e payload now m r stored h =
    ground (arith, rw (stored, replace_preference) at h)

replace-found :
    (t : Preferences) (w k : Bytes) (e : ℕ) (payload : Bytes) (now : ℕ)
    → find (is_preference w k) t.rows ≡ none
    → replace_preference t w k e payload now ≡ err preference_revision_conflict
unfolding replace_preference
replace-found t w k e payload now h = rw (h, replace_preference) refl

checked :
    (p : Platform) (t : Preferences) (q : Write) (x : ℕ × Preferences)
    → run p t q ≡ ok x
    → write_expecting t q.workspace_id q.key q.expected q.payload (unix_millis q.now) ≡ ok x
unfolding write_workspace_preference validate_preference_key
checked p t q x h = ground arith

write_expecting-Applied :
    (t : Preferences) (q : Write) (m : ℕ) (next : Preferences) (e : Option ℕ)
    → q.expected ≡ e
    → write_expecting t q.workspace_id q.key e q.payload (unix_millis q.now) ≡ ok (m, next)
    → Applied t q m next
write_expecting-Applied t q m next none same h = cc
write_expecting-Applied t q m next (some n) same h =
    elim (Option-cases (find (is_preference q.workspace_id q.key) t.rows)) [
      | inl absent ↦ elim (Bool-cases (n == 0)) [
        | inl new ↦
            let (free, one, added) =
              create-eq-ok t next q.workspace_id q.key q.payload (unix_millis q.now) m
                (rw (new) at h) in
            created absent (same ∙ ap some (ground (arith, new, ==_iff n 0))) one added
        | inr old ↦
            let none_there =
              replace-found t q.workspace_id q.key n q.payload (unix_millis q.now) absent in
            ground (arith, rw (old) at h, none_there)
      ]
      | inr (r, stored) ↦ elim (Bool-cases (n == 0)) [
        | inl new ↦
            let (free, one, added) =
              create-eq-ok t next q.workspace_id q.key q.payload (unix_millis q.now) m
                (rw (new) at h) in
            ground (arith, free, exists-find (is_preference q.workspace_id q.key) t.rows r stored)
        | inr old ↦
            let (current, bumped, changed) =
              replace-eq-ok t next q.workspace_id q.key n q.payload (unix_millis q.now) m r stored
                (rw (old) at h) in
            let one : r.value.revision ≡ n = ground (arith, current, ==_iff r.value.revision n) in
            replaced r stored (same ∙ ap some (sym one)) (ground (arith, bumped, one)) changed
      ]
    ]

run-Applied :
    (p : Platform) (t : Preferences) (q : Write) (m : ℕ) (next : Preferences)
    → run p t q ≡ ok (m, next)
    → Applied t q m next
run-Applied p t q m next h =
    write_expecting-Applied t q m next q.expected refl (checked p t q (m, next) h)

-- A revision that was passed stays passed.
Applied-IsBeyond :
    (t : Preferences) (q : Write) (m : ℕ) (next : Preferences) (w k : Bytes) (n : ℕ)
    → Applied t q m next
    → IsBeyond w k n t
    → IsBeyond w k n next
Applied-IsBeyond t q m next w k n (created absent zero_expected one added) b = record {
  row = b.row;
  stored = rw (added) (find-append (is_preference w k) t.rows b.row _ b.stored);
  above = b.above;
}
Applied-IsBeyond t q m next w k n (replaced r stored expected bumped changed) b =
    let reach = is_preference q.workspace_id q.key in
    let change = replace_value q.payload (unix_millis q.now) in
    record {
      row = if reach b.row then change b.row else b.row;
      stored =
          rw (changed)
            (find-update (is_preference w k) reach change t.rows b.row (λ x. refl) b.stored);
      above = ground (arith, b.above);
    }

run_all-IsBeyond :
    (p : Platform) (t : Preferences) (qs : List Write) (w k : Bytes) (n : ℕ)
    → IsBeyond w k n t
    → IsBeyond w k n (run_all p t qs)
unfolding run_all
run_all-IsBeyond p t [] w k n b = b
run_all-IsBeyond p t (q ∷ qs) w k n b =
    run_all-IsBeyond p (after_write t (run p t q)) qs w k n (go (run p t q) refl)
  where
    go :
        (outcome : Result Error (ℕ × Preferences))
        → run p t q ≡ outcome
        → IsBeyond w k n (after_write t outcome)
    go (err e) h = b
    go (ok (m, next)) h = Applied-IsBeyond t q m next w k n (run-Applied p t q m next h) b

-- The row that a write leaves.
Applied-stored :
    (t : Preferences) (q : Write) (m : ℕ) (next : Preferences)
    → Applied t q m next
    → (n : ℕ) × (q.expected ≡ some n)
      × (m ≡ n + 1)
      × (r : Preference) × (find (is_preference q.workspace_id q.key) next.rows ≡ some r)
      × (r.value ≡ record { revision = m; payload = q.payload; updated_at_ms = unix_millis q.now })
Applied-stored t q m next (created absent zero_expected one added) =
    let new = new_preference q.workspace_id q.key q.payload (unix_millis q.now) in
    let key : is_preference q.workspace_id q.key new ≡ true =
      ground (arith, equal_refl q.workspace_id, equal_refl q.key) in
    (
      0,
      zero_expected,
      omega (arith, one),
      new,
      rw (added) (find-added (is_preference q.workspace_id q.key) t.rows new absent key),
      rw (one) refl,
    )
Applied-stored t q m next (replaced r stored expected bumped changed) =
    let moved =
      find-update (is_preference q.workspace_id q.key) (is_preference q.workspace_id q.key)
        (replace_value q.payload (unix_millis q.now)) t.rows r (λ x. refl) stored in
    (
      r.value.revision,
      expected,
      bumped,
      replace_value q.payload (unix_millis q.now) r,
      rw (changed) (rw (find-some (is_preference q.workspace_id q.key) t.rows r stored) at moved),
      rw (bumped) refl,
    )

-- After a write the key reads as the revision it returned, which follows the expected one, with
-- the payload and the time of the write.
pub write-read :
    (p : Platform) (t : Preferences) (q : Write) (m : ℕ) (next : Preferences)
    → run p t q ≡ ok (m, next)
    → (n : ℕ) × (q.expected ≡ some n)
      × (m ≡ n + 1)
      × (lookup_preference next q.workspace_id q.key
          ≡ some (record { revision = m; payload = q.payload; updated_at_ms = unix_millis q.now }))
unfolding lookup_preference
write-read p t q m next h =
    let (n, expected, bumped, r, stored, value) =
      Applied-stored t q m next (run-Applied p t q m next h) in
    (n, expected, bumped, rw (stored, lookup_preference) (ap some value))

-- Nothing writes over a revision that was passed.
beyond-refused :
    (t : Preferences) (q : Write) (m : ℕ) (next : Preferences) (n : ℕ)
    → IsBeyond q.workspace_id q.key n t
    → q.expected ≡ some n
    → Applied t q m next
    → ⊥
beyond-refused t q m next n b e (created absent zero_expected one added) =
    ground (arith, b.stored, absent)
beyond-refused t q m next n b e (replaced r stored expected bumped changed) =
    ground (arith, b.stored, b.above, stored, expected, e)

-- Once a write succeeded, then whatever writes follow, every further write of the same key that
-- expects the same revision fails.
pub write-once :
    (p : Platform) (t : Preferences) (q : Write) (m : ℕ) (next : Preferences) (qs : List Write)
    (again : Write) (outcome : ℕ × Preferences)
    → run p t q ≡ ok (m, next)
    → again.workspace_id ≡ q.workspace_id
    → again.key ≡ q.key
    → again.expected ≡ q.expected
    → run p (run_all p next qs) again ≢ ok outcome
write-once p t q m next qs again outcome h w k e = λ written.
    let (n, expected, bumped, r, stored, value) =
      Applied-stored t q m next (run-Applied p t q m next h) in
    let passed : IsBeyond q.workspace_id q.key n next = record {
      row = r;
      stored = stored;
      above = rw (value) (omega (arith, bumped));
    } in
    let beyond : IsBeyond again.workspace_id again.key n (run_all p next qs) =
      rw (w, k) (run_all-IsBeyond p next qs q.workspace_id q.key n passed) in
    beyond-refused (run_all p next qs) again outcome.0 outcome.1 n beyond (e ∙ expected)
      (run-Applied p (run_all p next qs) again outcome.0 outcome.1 written)
