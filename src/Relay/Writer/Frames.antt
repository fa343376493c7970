-- ===== src/Relay/Writer/Frames.antt =====
-- What a run of the writer leaves on the socket, and how runs are put together.
use seven_mirror_server.Common.{
  ℕ, zero, suc, ◌+◌, ◌-◌, ◌≤◌, ◌<◌, ◌≡◌, ◌≢◌, refl, sym, ap, subst, ◌∙◌, false, Option, some, List,
  [], ◌∷◌, ◌++◌, length, length-append, length-take, length-drop, drop, arith, Bool-cases, inl, inr,
  append_assoc, append-nil, min,
}
use seven_mirror_server.Common.Bytes.{Bytes}
use seven_mirror_server.Common.Result.{Result, ok, err}
use seven_mirror_server.Protocol.RelayDelivery
use seven_mirror_server.Protocol.RelayDelivery.{encode_caught_up, encode_reset_required}
use seven_mirror_server.Delivery.{Mailbox, Recipient}
use seven_mirror_server.Delivery.Rows.{number}
use seven_mirror_server.Delivery.Log.{Refines, RefinesSlot, RefinesRecipient}
use seven_mirror_server.Delivery.Log.Reads.{answer, next_entries}
use seven_mirror_server.Relay.Service.{delivery_batch_size}
use seven_mirror_server.Relay.Writer.{
  Writer, Socket, Failure, count_turn, write_failed, bad_frame, unreported_gap, Outcome, reset_sent,
  caught_up, ignored, still_draining, failed, Drained, Turn, Others, finish, is_gap, write_message,
}
use seven_mirror_server.Relay.Writer.Segments.{AreSent, AreSent-append, AreSent-grow, AreWritten}

-- The recipient that a round starts from: its mailbox holds the history, and no more of it is
-- acknowledged than the client was sent.
pub record IsReady (log : List Bytes) (cursor : ℕ) (r : Recipient) : Type 0 where
  pub mailbox : Mailbox
  pub stored : r.mailbox ≡ some mailbox
  pub history : Refines log mailbox
  pub acknowledged : mailbox.acknowledged_delivery_id ≤ cursor

pub ready-Refines :
    (log : List Bytes) (cursor : ℕ) (r : Recipient) → IsReady log cursor r → RefinesRecipient log r
ready-Refines log cursor r v = subst (λ x. RefinesSlot log x) (sym v.stored) v.history

-- A turn of the others that leaves the history `log`, for a client that was sent everything up to
-- the cursor.
pub record IsTurn (log : List Bytes) (cursor : ℕ) (t : Turn) : Type 0 where
  pub ready : IsReady log cursor t.recipient
  pub time : 0 < t.now

-- From the history `log`, the others append `appended n` in the turn with n rounds left, and
-- acknowledge at most what was sent.
unfoldable pub AreTurns : Others → (ℕ → List Bytes) → ℕ → List Bytes → Type 0
AreTurns others appended zero log = Unit {0}
AreTurns others appended (suc n) log =
    ((cursor : ℕ) (r : Recipient)
      → IsReady log cursor r
      → IsTurn (log ++ appended n) cursor (others n cursor r))
    × AreTurns others appended n (log ++ appended n)

-- What the others appended in a number of turns.
unfoldable pub gathered : (ℕ → List Bytes) → ℕ → ℕ → List Bytes
gathered appended fuel zero = []
gathered appended zero (suc k) = []
gathered appended (suc n) (suc k) = appended n ++ gathered appended n k

-- The control frame at the end, for the history and the cursor at that time.
abbrev pub IsEnding : List Bytes → ℕ → List Bytes → Outcome → Type 0
IsEnding log cursor tail reset_sent =
    (f : Bytes) × (encode_reset_required (length log) ≡ ok f) × (tail ≡ f ∷ [])
IsEnding log cursor tail caught_up =
    (cursor ≡ length log) × (f : Bytes) × (encode_caught_up cursor ≡ ok f) × (tail ≡ f ∷ [])
IsEnding log cursor tail still_draining = tail ≡ []
IsEnding log cursor tail ignored = ⊥
IsEnding log cursor tail (failed e) = (tail ≡ []) × (e ≢ unreported_gap)

-- The frames on the socket: deliveries of the history one after the other from the cursor, and the
-- control frame. The recipient holds that history.
pub record IsServed (log : List Bytes) (w : Writer) (d : Drained) : Type 0 where
  pub frames : List Bytes
  pub tail : List Bytes
  pub sent : AreSent log w.sent_cursor frames
  pub cursor : d.writer.sent_cursor ≡ w.sent_cursor + length frames
  pub written : d.writer.written ≡ w.written ++ (frames ++ tail)
  pub ending : IsEnding log d.writer.sent_cursor tail d.outcome
  pub held : RefinesRecipient log d.recipient

-- The same for the history that the others' turns have made of `log`.
abbrev pub IsDrained : List Bytes → (ℕ → List Bytes) → ℕ → Writer → Drained → Type 0
IsDrained log appended fuel w d = IsServed (log ++ gathered appended fuel d.turns) w d

-- Nothing more is written.
pub stop-IsDrained :
    (log : List Bytes) (appended : ℕ → List Bytes) (fuel : ℕ) (w : Writer) (r : Recipient)
    (o : Outcome)
    → RefinesRecipient log r
    → IsEnding (log ++ []) w.sent_cursor [] o
    → IsDrained log appended fuel w (record { writer = w; recipient = r; outcome = o; turns = 0 })
unfolding gathered
stop-IsDrained log appended fuel w r o held e = record {
  frames = [];
  tail = [];
  sent = tt;
  cursor = omega arith;
  written = sym (append-nil w.written);
  ending = e;
  held = subst (λ l. RefinesRecipient l r) (sym (append-nil log)) held;
}

-- A control frame is written, or that fails.
pub finish-IsDrained :
    (log : List Bytes) (appended : ℕ → List Bytes) (fuel : ℕ) (socket : Socket) (w : Writer)
    (r : Recipient) (o : Outcome) (encoded : Result RelayDelivery.Error Bytes)
    → RefinesRecipient log r
    → ((f : Bytes) → encoded ≡ ok f → IsEnding (log ++ []) w.sent_cursor (f ∷ []) o)
    → IsDrained log appended fuel w (finish r o (write_message socket w encoded))
unfolding gathered
finish-IsDrained log appended fuel socket w r o (err e) held h =
    stop-IsDrained log appended fuel w r (failed (bad_frame e)) held (refl, λ n. cc)
finish-IsDrained log appended fuel socket w r o (ok f) held h =
    elim (Bool-cases (socket w.written f)) [
      | inr refused ↦
          rw refused
            (stop-IsDrained log appended fuel w r (failed write_failed) held (refl, λ n. cc))
      | inl taken ↦ rw taken (record {
        frames = [];
        tail = f ∷ [];
        sent = tt;
        cursor = omega arith;
        written = refl;
        ending = h f refl;
        held = subst (λ l. RefinesRecipient l r) (sym (append-nil log)) held;
      })
    ]

-- What is drained after deliveries were written.
pub after-IsDrained :
    (log : List Bytes) (appended : ℕ → List Bytes) (fuel : ℕ) (w v : Writer) (count : ℕ)
    (o : Option Failure) (d : Drained)
    → AreWritten log w count v o
    → IsDrained log appended fuel v d
    → IsDrained log appended fuel w d
after-IsDrained log appended fuel w v count o d a b =
    let more : List Bytes = gathered appended fuel d.turns in
    record {
      frames = a.frames ++ b.frames;
      tail = b.tail;
      sent =
          AreSent-append (log ++ more) w.sent_cursor a.frames b.frames
            (AreSent-grow log more w.sent_cursor a.frames a.sent)
            (subst (λ n. AreSent (log ++ more) n b.frames) a.cursor b.sent);
      cursor = omega (arith, b.cursor, a.cursor, length-append a.frames b.frames);
      written =
          b.written
          ∙ ap (λ l. l ++ (b.frames ++ b.tail)) a.written
          ∙ append_assoc w.written a.frames (b.frames ++ b.tail)
          ∙ ap (λ l. w.written ++ l) (sym (append_assoc a.frames b.frames b.tail));
      ending = b.ending;
      held = b.held;
    }

-- A turn of the others comes before the rounds that are left.
pub count_turn-IsDrained :
    (log : List Bytes) (appended : ℕ → List Bytes) (fuel : ℕ) (w : Writer) (d : Drained)
    → IsDrained (log ++ appended fuel) appended fuel w d
    → IsDrained log appended (suc fuel) w (count_turn d)
unfolding gathered
count_turn-IsDrained log appended fuel w d v =
    let later : List Bytes = gathered appended fuel d.turns in
    subst (λ l. IsServed l w (count_turn d)) (append_assoc log (appended fuel) later)
      (record {
        frames = v.frames;
        tail = v.tail;
        sent = v.sent;
        cursor = v.cursor;
        written = v.written;
        ending = v.ending;
        held = v.held;
      })

length-number : (k : ℕ) (xs : List Bytes) → length (number k xs) ≡ length xs
length-number k [] = refl
length-number k (x ∷ xs) = ap suc (length-number (suc k) xs)

pub length-next_entries :
    (log : List Bytes) (c limit : ℕ)
    → length (next_entries log c limit) ≡ min limit (length log - c)
length-next_entries log c limit =
    length-take limit (number c (drop c log))
    ∙ ap (min limit) (length-number c (drop c log) ∙ length-drop c log)

-- A read of a consistent mailbox is never taken for a gap.
pub answer-gap :
    (log : List Bytes) (mark c : ℕ) → is_gap c (answer log mark c delivery_batch_size) ≡ false
answer-gap log mark c = ground (arith, length-next_entries log c delivery_batch_size)
