-- ===== src/Relay/Writer/Segments.antt =====
-- Runs of frames that carry consecutive deliveries of a history.
use seven_mirror_server.Common.{
  ℕ, zero, suc, ◌+◌, ◌≤◌, ◌<◌, ◌≡◌, refl, sym, ap, subst, ◌∙◌, true, false, Option, none, some,
  List, [], ◌∷◌, ◌++◌, length, take, drop, arith, Bool-cases, inl, inr, append_assoc, append-nil,
  ◌≢◌,
}
use seven_mirror_server.Common.Bytes.{Bytes}
use seven_mirror_server.Common.Result.{ok, err, Result-cases}
use seven_mirror_server.Protocol.RoutingHeader.{max_int64}
use seven_mirror_server.Protocol.RelayDelivery
use seven_mirror_server.Protocol.RelayDelivery.{encode_delivery}
use seven_mirror_server.Delivery.{StoredDelivery}
use seven_mirror_server.Delivery.Rows.{number}
use seven_mirror_server.Delivery.Log.Reads.{next_entries}
use seven_mirror_server.Relay.Writer.{
  Writer, Socket, Failure, write_failed, bad_frame, unreported_gap, append_frame, move_cursor,
  write_deliveries,
}

-- The entry of a history with the number after `cursor`.
abbrev pub entry : List Bytes → ℕ → Option Bytes
entry [] cursor = none
entry (x ∷ xs) zero = some x
entry (x ∷ xs) (suc cursor) = entry xs cursor

-- The deliveries are those after the cursor, with none missing.
abbrev pub IsSegment : List Bytes → ℕ → List StoredDelivery → Type 0
IsSegment log cursor [] = Unit {0}
IsSegment log cursor (d ∷ ds) =
    (d.id ≡ suc cursor) × (entry log cursor ≡ some d.envelope) × IsSegment log (suc cursor) ds

-- Each frame is the encoding of the delivery after the one before.
abbrev pub AreSent : List Bytes → ℕ → List Bytes → Type 0
AreSent log cursor [] = Unit {0}
AreSent log cursor (f ∷ fs) =
    (x : Bytes) × (entry log cursor ≡ some x)
    × (encode_delivery (suc cursor) x ≡ ok f)
    × AreSent log (suc cursor) fs

pub AreSent-append :
    (log : List Bytes) (c : ℕ) (fs gs : List Bytes)
    → AreSent log c fs
    → AreSent log (c + length fs) gs
    → AreSent log c (fs ++ gs)
AreSent-append log c [] gs v w =
    let same : c + 0 ≡ c = omega arith in subst (λ n. AreSent log n gs) same w
AreSent-append log c (f ∷ fs) gs (x, here, encoded, v) w =
    let same : c + suc (length fs) ≡ suc c + length fs = omega arith in
    (x, here, encoded, AreSent-append log (suc c) fs gs v (subst (λ n. AreSent log n gs) same w))

entry-append :
    (log more : List Bytes) (c : ℕ) (x : Bytes)
    → entry log c ≡ some x
    → entry (log ++ more) c ≡ some x
entry-append [] more c x e = cc
entry-append (y ∷ log) more zero x e = e
entry-append (y ∷ log) more (suc c) x e = entry-append log more c x e

-- A longer history keeps what was sent.
pub AreSent-grow :
    (log more : List Bytes) (c : ℕ) (fs : List Bytes)
    → AreSent log c fs
    → AreSent (log ++ more) c fs
AreSent-grow log more c [] v = tt
AreSent-grow log more c (f ∷ fs) (x, here, encoded, v) =
    (x, entry-append log more c x here, encoded, AreSent-grow log more (suc c) fs v)

entry-bound : (log : List Bytes) (c : ℕ) (x : Bytes) → entry log c ≡ some x → c < length log
entry-bound [] c x e = cc
entry-bound (y ∷ log) zero x e = omega arith
entry-bound (y ∷ log) (suc c) x e = omega (arith, entry-bound log c x e)

encode-range : (id : ℕ) (x f : Bytes) → encode_delivery id x ≡ ok f → id ≤ max_int64
unfolding encode_delivery
encode-range id x f e = ground arith

-- A sent run stays within the history and within the numbers.
pub AreSent-bound :
    (log : List Bytes) (c : ℕ) (fs : List Bytes)
    → c ≤ length log
    → c ≤ max_int64
    → AreSent log c fs
    → (c + length fs ≤ length log) × (c + length fs ≤ max_int64)
AreSent-bound log c [] h r v = (omega arith, omega arith)
AreSent-bound log c (f ∷ fs) h r (x, here, encoded, v) =
    let (a, b) =
      AreSent-bound log (suc c) fs (omega (arith, entry-bound log c x here))
        (encode-range (suc c) x f encoded) v in
    (omega (arith, a), omega (arith, b))

take-number-IsSegment :
    (log : List Bytes) (n c : ℕ) (xs : List Bytes)
    → ((i : ℕ) → entry log (c + i) ≡ entry xs i)
    → IsSegment log c (take n (number c xs))
take-number-IsSegment log zero c xs h = tt
take-number-IsSegment log (suc n) c [] h = tt
take-number-IsSegment log (suc n) c (x ∷ xs) h = (
  refl,
  ap (entry log) (omega arith) ∙ h 0,
  take-number-IsSegment log n (suc c) xs (λ i. ap (entry log) (omega arith) ∙ h (suc i)),
)

entry-drop : (log : List Bytes) (c i : ℕ) → entry log (c + i) ≡ entry (drop c log) i
entry-drop log zero i = ap (entry log) (omega arith)
entry-drop [] (suc c) i = refl
entry-drop (x ∷ log) (suc c) i =
    let same : suc c + i ≡ suc (c + i) = omega arith in
    ap (entry (x ∷ log)) same ∙ entry-drop log c i

-- What a reader is given is a segment.
pub next_entries-IsSegment :
    (log : List Bytes) (c limit : ℕ) → IsSegment log c (next_entries log c limit)
next_entries-IsSegment log c limit =
    take-number-IsSegment log limit c (drop c log) (entry-drop log c)

-- What writing a segment does: frames of consecutive deliveries, all of them unless it fails.
pub record AreWritten (log : List Bytes) (w : Writer) (count : ℕ) (v : Writer) (o : Option Failure)
    : Type 0 where
  pub frames : List Bytes
  pub sent : AreSent log w.sent_cursor frames
  pub cursor : v.sent_cursor ≡ w.sent_cursor + length frames
  pub written : v.written ≡ w.written ++ frames
  pub all : o ≡ none → length frames ≡ count
  pub no_gap : o ≢ some unreported_gap

-- Nothing is written.
stopped-AreWritten :
    (log : List Bytes) (w : Writer) (count : ℕ) (e : Failure)
    → e ≢ unreported_gap
    → AreWritten log w (suc count) w (some e)
stopped-AreWritten log w count e other = record {
  frames = [];
  sent = tt;
  cursor = omega arith;
  written = sym (append-nil w.written);
  all = λ n. cc;
  no_gap = λ n. other (ground arith);
}

-- One frame, then the rest.
next-AreWritten :
    (log : List Bytes) (w : Writer) (count : ℕ) (v : Writer) (o : Option Failure) (f x : Bytes)
    → entry log w.sent_cursor ≡ some x
    → encode_delivery (suc w.sent_cursor) x ≡ ok f
    → AreWritten log (move_cursor (suc w.sent_cursor) (append_frame f w)) count v o
    → AreWritten log w (suc count) v o
next-AreWritten log w count v o f x here encoded rest = record {
  frames = f ∷ rest.frames;
  sent = (x, here, encoded, rest.sent);
  cursor = omega (arith, rest.cursor);
  written = rest.written ∙ append_assoc w.written (f ∷ []) rest.frames;
  all = λ n. ap suc (rest.all n);
  no_gap = rest.no_gap;
}

-- A round of the loop that succeeds.
write_deliveries-step :
    (socket : Socket) (w : Writer) (d : StoredDelivery) (ds : List StoredDelivery) (f : Bytes)
    → d.id ≡ suc w.sent_cursor
    → encode_delivery d.id d.envelope ≡ ok f
    → socket w.written f ≡ true
    → write_deliveries socket w (d ∷ ds)
      ≡ write_deliveries socket (move_cursor (suc w.sent_cursor) (append_frame f w)) ds
unfolding write_deliveries
write_deliveries-step socket w d ds f numbered encoded taken =
    ground (arith, encoded, taken, numbered)

write_deliveries-refused :
    (socket : Socket) (w : Writer) (d : StoredDelivery) (ds : List StoredDelivery) (f : Bytes)
    → encode_delivery d.id d.envelope ≡ ok f
    → socket w.written f ≡ false
    → write_deliveries socket w (d ∷ ds) ≡ (w, some write_failed)
unfolding write_deliveries
write_deliveries-refused socket w d ds f encoded refused = ground (arith, encoded, refused)

write_deliveries-unencoded :
    (socket : Socket) (w : Writer) (d : StoredDelivery) (ds : List StoredDelivery)
    (e : RelayDelivery.Error)
    → encode_delivery d.id d.envelope ≡ err e
    → write_deliveries socket w (d ∷ ds) ≡ (w, some (bad_frame e))
unfolding write_deliveries
write_deliveries-unencoded socket w d ds e bad = ground (arith, bad)

pub write_deliveries-AreWritten :
    (log : List Bytes) (socket : Socket) (w : Writer) (ds : List StoredDelivery)
    → IsSegment log w.sent_cursor ds
    → AreWritten log w (length ds) (write_deliveries socket w ds).0 (write_deliveries socket w ds).1
unfolding write_deliveries
write_deliveries-AreWritten log socket w [] segment = record {
  frames = [];
  sent = tt;
  cursor = omega arith;
  written = sym (append-nil w.written);
  all = λ n. refl;
  no_gap = λ n. cc;
}
write_deliveries-AreWritten log socket w (d ∷ ds) (numbered, here, segment) =
    elim (Result-cases (encode_delivery d.id d.envelope)) [
      | inr (e, bad) ↦
          rw (write_deliveries-unencoded socket w d ds e bad)
            (stopped-AreWritten log w (length ds) (bad_frame e) (λ n. cc))
      | inl (f, encoded) ↦ elim (Bool-cases (socket w.written f)) [
        | inr refused ↦
            rw (write_deliveries-refused socket w d ds f encoded refused)
              (stopped-AreWritten log w (length ds) write_failed (λ n. cc))
        | inl taken ↦
            let same : encode_delivery (suc w.sent_cursor) d.envelope ≡ ok f =
              ap (λ n. encode_delivery n d.envelope) (sym numbered) ∙ encoded in
            rw (write_deliveries-step socket w d ds f numbered encoded taken) (
              next-AreWritten log w (length ds) _ _ f d.envelope here same (
                write_deliveries-AreWritten log socket
                  (move_cursor (suc w.sent_cursor) (append_frame f w)) ds segment))
      ]
    ]
