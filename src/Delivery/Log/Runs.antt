-- ===== src/Delivery/Log/Runs.antt =====
-- Any sequence of requests keeps the history, and answers from it.
use seven_mirror_server.Common.{
  ℕ, suc, ◌+◌, ◌<◌, ◌≡◌, refl, ◌∙◌, subst, List, [], ◌∷◌, ◌++◌, some, inl, inr, Bool-cases, arith,
  length, ltb,
}
use seven_mirror_server.Common.Result.{Result, ok, err}
use seven_mirror_server.Common.Bytes.{Bytes}
use seven_mirror_server.Delivery.{
  Mailbox, DeliveryBatch, Recipient, Error, floor, append_delivery, resume_deliveries,
  read_deliveries, acknowledge_delivery, ensure_delivery_state, resume_mailbox, insert_delivery,
  enforce_delivery_capacity, saved, acknowledge_new, compact_expired_deliveries, save, unix_milli,
}
use seven_mirror_server.Delivery.Log.{Refines, RefinesSlot, RefinesRecipient}
use seven_mirror_server.Delivery.Log.Reads.{ensure-Refines}
use seven_mirror_server.Delivery.Log.Operations.{
  compact-Refines, acknowledge-Refines, enforce-Refines, insert-Refines,
}

-- A request to the store, with its time.
pub data Request : Type 0 where
  append : Bytes → ℕ → ℕ → Request
  resume : ℕ → ℕ → ℕ → Request
  read : ℕ → ℕ → ℕ → Request
  acknowledge : ℕ → Request

-- The recipient and its history after a request; one that fails is rolled back.
abbrev pub State : Type 0
State = List Bytes × Recipient

abbrev pub settle : List Bytes → State → Result Error Recipient → State
settle log s (ok r) = (log, r)
settle log s (err e) = s

abbrev pub recipient_of {ℓ} : {A : Type ℓ} → Result Error (A × Recipient) → Result Error Recipient
recipient_of (ok (a, r)) = ok r
recipient_of (err e) = err e

abbrev pub serve : State → Request → State
serve (log, r) (append envelope expires_at now) =
    settle (log ++ envelope ∷ []) (log, r)
      (recipient_of (append_delivery r envelope expires_at now))
serve (log, r) (resume cursor now limit) =
    settle log (log, r) (recipient_of (resume_deliveries r cursor now limit))
serve (log, r) (read cursor now limit) =
    settle log (log, r) (recipient_of (read_deliveries r cursor now limit))
serve (log, r) (acknowledge cursor) = settle log (log, r) (acknowledge_delivery r cursor)

unfoldable pub serve_all : State → List Request → State
serve_all s [] = s
serve_all s (q ∷ qs) = serve_all (serve s q) qs

append-eq-ok :
    (r r' : Recipient) (envelope : Bytes) (expires_at now id : ℕ)
    → append_delivery r envelope expires_at now ≡ ok (id, r')
    → (m inserted final : Mailbox) × (ensure_delivery_state r ≡ ok m)
      × (insert_delivery envelope expires_at now (compact_expired_deliveries (unix_milli now) m)
          ≡ ok inserted)
      × (enforce_delivery_capacity (suc (length inserted.rows)) inserted ≡ ok final)
      × (id ≡ (compact_expired_deliveries (unix_milli now) m).next_delivery_id)
      × (save r final ≡ r')
unfolding append_delivery
append-eq-ok r r' envelope expires_at now id e = ground arith

-- A successful append adds its envelope to the history under the next number.
pub append-Refines :
    (log : List Bytes) (r r' : Recipient) (envelope : Bytes) (expires_at now id : ℕ)
    → RefinesRecipient log r
    → append_delivery r envelope expires_at now ≡ ok (id, r')
    → RefinesRecipient (log ++ envelope ∷ []) r' × (id ≡ length log + 1)
append-Refines log r r' envelope expires_at now id v e =
    let (m, inserted, final, created, stored, trimmed, numbered, saved) =
      append-eq-ok r r' envelope expires_at now id e in
    let kept : Refines log (compact_expired_deliveries (unix_milli now) m) =
      compact-Refines log m (unix_milli now) (ensure-Refines log r m v created) in
    (
      subst (RefinesRecipient (log ++ envelope ∷ [])) saved (
          enforce-Refines (log ++ envelope ∷ []) (suc (length inserted.rows)) inserted final
            (insert-Refines log _ inserted envelope expires_at now kept stored) trimmed),
      numbered ∙ kept.next,
    )

saved-eq-ok :
    (r r' : Recipient) (b : DeliveryBatch) (res : Result Error (DeliveryBatch × Mailbox))
    → saved r res ≡ ok (b, r')
    → (m : Mailbox) × (res ≡ ok (b, m)) × (save r m ≡ r')
saved-eq-ok r r' b (ok (batch, m)) e = (m, ground arith, ground arith)
saved-eq-ok r r' b (err x) e = cc

-- Reading and acknowledging keep the history.
module _ (log : List Bytes) (r r' : Recipient) (v : RefinesRecipient log r) where
  resume_created :
      (cursor now limit : ℕ) (b : DeliveryBatch)
      → resume_deliveries r cursor now limit ≡ ok (b, r')
      → (m : Mailbox) × (ensure_delivery_state r ≡ ok m)
        × (saved r (resume_mailbox (compact_expired_deliveries (unix_milli now) m) cursor limit)
            ≡ ok (b, r'))
  unfolding resume_deliveries
  resume_created cursor now limit b e = ground arith

  resume-eq-ok :
      (cursor now limit : ℕ) (b : DeliveryBatch)
      → resume_deliveries r cursor now limit ≡ ok (b, r')
      → (m m' : Mailbox) × (ensure_delivery_state r ≡ ok m)
        × (resume_mailbox (compact_expired_deliveries (unix_milli now) m) cursor limit ≡ ok (b, m'))
        × (save r m' ≡ r')
  resume-eq-ok cursor now limit b e =
      let (m, created, rest) = resume_created cursor now limit b e in
      let (m', answered, kept) = saved-eq-ok r r' b _ rest in (m, m', created, answered, kept)

  resume_mailbox-Refines :
      (m m' : Mailbox) (cursor limit : ℕ) (b : DeliveryBatch)
      → Refines log m
      → resume_mailbox m cursor limit ≡ ok (b, m')
      → Refines log m'
  unfolding resume_mailbox
  resume_mailbox-Refines m m' cursor limit b k e = elim (Bool-cases (ltb cursor (floor m))) [
    | inl low ↦ let same : m ≡ m' = ground arith in subst (Refines log) same k
    | inr high ↦
        let same : acknowledge_new cursor m ≡ m' = ground arith in
        subst (Refines log) same (acknowledge-Refines log m cursor k (ground (arith, k.next)))
  ]

  resume-Refines :
      (cursor now limit : ℕ) (b : DeliveryBatch)
      → resume_deliveries r cursor now limit ≡ ok (b, r')
      → RefinesRecipient log r'
  resume-Refines cursor now limit b e =
      let (m, m', created, answered, saved) = resume-eq-ok cursor now limit b e in
      subst (RefinesRecipient log) saved (
        resume_mailbox-Refines _ m' cursor limit b
          (compact-Refines log m (unix_milli now) (ensure-Refines log r m v created)) answered)

  read-eq-ok :
      (cursor now limit : ℕ) (b : DeliveryBatch)
      → read_deliveries r cursor now limit ≡ ok (b, r')
      → (m : Mailbox) × (r.mailbox ≡ some m)
        × (save r (compact_expired_deliveries (unix_milli now) m) ≡ r')
  unfolding read_deliveries
  read-eq-ok cursor now limit b e = ground arith

  read-Refines :
      (cursor now limit : ℕ) (b : DeliveryBatch)
      → read_deliveries r cursor now limit ≡ ok (b, r')
      → RefinesRecipient log r'
  read-Refines cursor now limit b e =
      let (m, found, saved) = read-eq-ok cursor now limit b e in
      subst (RefinesRecipient log) saved
        (compact-Refines log m (unix_milli now) (subst (RefinesSlot log) found v))

  acknowledge-eq-ok :
      (cursor : ℕ)
      → acknowledge_delivery r cursor ≡ ok r'
      → (m : Mailbox) × (ensure_delivery_state r ≡ ok m)
        × (cursor < m.next_delivery_id)
        × (save r (acknowledge_new cursor m) ≡ r')
  unfolding acknowledge_delivery
  acknowledge-eq-ok cursor e = ground arith

  acknowledge_delivery-Refines :
      (cursor : ℕ) → acknowledge_delivery r cursor ≡ ok r' → RefinesRecipient log r'
  acknowledge_delivery-Refines cursor e =
      let (m, created, within, saved) = acknowledge-eq-ok cursor e in
      let kept : Refines log m = ensure-Refines log r m v created in
      subst (RefinesRecipient log) saved
        (acknowledge-Refines log m cursor kept (omega (arith, within, kept.next)))

abbrev pub IsConsistent : State → Type 0
IsConsistent s = RefinesRecipient s.0 s.1

settle-IsConsistent :
    (log : List Bytes) (s : State) (res : Result Error Recipient)
    → IsConsistent s
    → ((r : Recipient) → res ≡ ok r → RefinesRecipient log r)
    → IsConsistent (settle log s res)
settle-IsConsistent log s (ok r) v e = e r refl
settle-IsConsistent log s (err x) v e = v

answered-IsConsistent {ℓ} :
    {A : Type ℓ} (log : List Bytes) (s : State) (res : Result Error (A × Recipient))
    → IsConsistent s
    → ((a : A) (r : Recipient) → res ≡ ok (a, r) → RefinesRecipient log r)
    → IsConsistent (settle log s (recipient_of res))
answered-IsConsistent log s (ok (a, r)) v e = e a r refl
answered-IsConsistent log s (err x) v e = v

pub serve-IsConsistent : (s : State) (q : Request) → IsConsistent s → IsConsistent (serve s q)
serve-IsConsistent (log, r) (append envelope expires_at now) v =
    answered-IsConsistent (log ++ envelope ∷ []) (log, r) _ v
      (λ id r' e. (append-Refines log r r' envelope expires_at now id v e).0)
serve-IsConsistent (log, r) (resume cursor now limit) v =
    answered-IsConsistent log (log, r) _ v
      (λ b r' e. resume-Refines log r r' v cursor now limit b e)
serve-IsConsistent (log, r) (read cursor now limit) v =
    answered-IsConsistent log (log, r) _ v (λ b r' e. read-Refines log r r' v cursor now limit b e)
serve-IsConsistent (log, r) (acknowledge cursor) v =
    settle-IsConsistent log (log, r) _ v (λ r' e. acknowledge_delivery-Refines log r r' v cursor e)

-- From a state that holds its history, any sequence of appends, resumes, reads and acknowledgements,
-- those that fail included, leads to a state that holds its history: the rows above both marks are
-- the appended envelopes, in order under consecutive numbers, and the next number follows the last.
pub serve_all-IsConsistent :
    (s : State) (qs : List Request) → IsConsistent s → IsConsistent (serve_all s qs)
unfolding serve_all
serve_all-IsConsistent s [] v = v
serve_all-IsConsistent s (q ∷ qs) v =
    serve_all-IsConsistent (serve s q) qs (serve-IsConsistent s q v)
