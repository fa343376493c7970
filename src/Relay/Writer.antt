-- ===== src/Relay/Writer.antt =====
-- internal/relay/websocket.go: the writer of a connection, with `drainBatch`, which sends the
-- stored deliveries after the client's cursor. The socket is a parameter that says which frames it
-- takes after those written; a frame of a session that is no longer active counts as refused.
-- Between two reads the other goroutines act: a turn is the hub and the recipient they leave, and
-- the time of the read. The loop has no bound of its own, so it runs on fuel.
pub mod Segments
pub mod Frames
pub mod Draining
pub mod Resuming
pub mod Termination
pub mod Examples
use seven_mirror_server.Common.{
  ℕ, zero, suc, Bool, true, false, ◌&&◌, not, Option, none, some, List, [], ◌∷◌, ◌++◌, ltb, leb,
  length, ◌==◌, if◌then◌else◌,
}
use seven_mirror_server.Common.Bytes.{Bytes}
use seven_mirror_server.Common.Result.{Result, ok, err}
use seven_mirror_server.Protocol.RelayDelivery
use seven_mirror_server.Protocol.RelayDelivery.{
  encode_delivery, encode_caught_up, encode_reset_required,
}
use seven_mirror_server.Delivery.{Recipient, StoredDelivery, DeliveryBatch}
use seven_mirror_server.Relay.Hub.{Hub}
use seven_mirror_server.Relay.Service
use seven_mirror_server.Relay.Service.{resume_session, read_session}

-- The variables of the writer goroutine, and what it has written.
pub record Writer : Type 0 where
  pub cursor_initialized : Bool
  pub sent_cursor : ℕ
  pub written : List Bytes

abbrev pub Socket : Type 0
Socket = List Bytes → Bytes → Bool

pub data Failure : Type 0 where
  bad_frame : RelayDelivery.Error → Failure
  unserved : Service.Error → Failure
  write_failed unreported_gap : Failure

pub data Outcome : Type 0 where
  reset_sent caught_up ignored still_draining : Outcome
  failed : Failure → Outcome

-- What a run leaves, and how many turns the others had in it.
pub record Drained : Type 0 where
  pub writer : Writer
  pub recipient : Recipient
  pub outcome : Outcome
  pub turns : ℕ

abbrev pub count_turn : Drained → Drained
count_turn d = record d { turns = suc d.turns }

pub record Turn : Type 0 where
  pub hub : Hub
  pub recipient : Recipient
  pub now : ℕ

-- What the others do, by the rounds that are left, the cursor that is sent, and the recipient.
abbrev pub Others : Type 0
Others = ℕ → ℕ → Recipient → Turn

abbrev pub append_frame : Bytes → Writer → Writer
append_frame frame w = record w { written = w.written ++ frame ∷ [] }

-- The frame is written, or the error says why not.
abbrev pub write_message :
    Socket → Writer → Result RelayDelivery.Error Bytes → Writer × Option Failure
write_message socket w (err e) = (w, some (bad_frame e))
write_message socket w (ok frame) =
    if socket w.written frame then (append_frame frame w, none) else (w, some write_failed)

abbrev pub move_cursor : ℕ → Writer → Writer
move_cursor cursor w = record w { sent_cursor = cursor }

-- `for _, delivery := range batch.Deliveries`
unfoldable pub write_deliveries : Socket → Writer → List StoredDelivery → Writer × Option Failure
write_deliveries socket w [] = (w, none)
write_deliveries socket w (d ∷ ds) =
    let (next, failure) = write_message socket w (encode_delivery d.id d.envelope) in
    elim failure [
      | some e ↦ (next, some e)
      | none ↦ write_deliveries socket (move_cursor d.id next) ds
    ]

abbrev pub finish : Recipient → Outcome → Writer × Option Failure → Drained
finish r outcome (w, none) = record { writer = w; recipient = r; outcome = outcome; turns = 0 }
finish r outcome (w, some e) = record { writer = w; recipient = r; outcome = failed e; turns = 0 }

abbrev pub is_gap : ℕ → DeliveryBatch → Bool
is_gap sent next =
    length next.deliveries == 0 && ltb sent next.high_water && not next.reset_required

-- The read at the end of a round, and the rounds after it.
abbrev pub next_round :
    (Recipient → DeliveryBatch → Drained)
    → Writer
    → Recipient
    → Result Service.Error (DeliveryBatch × Recipient)
    → Drained
next_round again w r (err e) = finish r (failed (unserved e)) (w, none)
next_round again w r (ok (next, r')) = elim (is_gap w.sent_cursor next) [
  | true ↦ finish r' (failed unreported_gap) (w, none)
  | false ↦ again r' next
]

abbrev pub after_deliveries :
    Socket → (Writer → Drained) → Recipient → ℕ → Writer × Option Failure → Drained
after_deliveries socket read r high_water (w, some e) = finish r (failed e) (w, none)
after_deliveries socket read r high_water (w, none) = elim (leb high_water w.sent_cursor) [
  | true ↦ finish r caught_up (write_message socket w (encode_caught_up high_water))
  | false ↦ read w
]

unfoldable pub drain_batch : ℕ → Socket → Others → ℕ → Writer → Recipient → DeliveryBatch → Drained
drain_batch zero socket others s w r batch = finish r still_draining (w, none)
drain_batch (suc fuel) socket others s w r batch = elim batch.reset_required [
  | true ↦ finish r reset_sent (write_message socket w (encode_reset_required batch.high_water))
  | false ↦
      after_deliveries socket
        (λ v.
          let turn = others fuel v.sent_cursor r in
          count_turn (
            next_round (λ r' next. drain_batch fuel socket others s v r' next) v turn.recipient
              (read_session turn.hub s turn.recipient v.sent_cursor turn.now)))
        r batch.high_water (write_deliveries socket w batch.deliveries)
]

-- After a reset the cursor counts as unknown until the next resume.
abbrev pub settle : Drained → Drained
settle d = elim d.outcome [
  | reset_sent ↦ record d { writer = record (d.writer) { cursor_initialized = false } }
  | _ ↦ d
]

-- `case cursor := <-resumeRequests`
unfoldable pub serve_resume : ℕ → Socket → Others → ℕ → Writer → Turn → ℕ → Drained
serve_resume fuel socket others s w turn cursor =
    elim (resume_session turn.hub s turn.recipient cursor turn.now) [
      | err e ↦ finish turn.recipient (failed (unserved e)) (w, none)
      | ok (batch, r) ↦ settle (
          drain_batch fuel socket others s
            (record w { cursor_initialized = true; sent_cursor = cursor }) r batch)
    ]

-- `case <-session.session.durableWake`
unfoldable pub serve_wake : ℕ → Socket → Others → ℕ → Writer → Turn → Drained
serve_wake fuel socket others s w turn = elim w.cursor_initialized [
  | false ↦ finish turn.recipient ignored (w, none)
  | true ↦ elim (read_session turn.hub s turn.recipient w.sent_cursor turn.now) [
    | err e ↦ finish turn.recipient (failed (unserved e)) (w, none)
    | ok (batch, r) ↦ settle (drain_batch fuel socket others s w r batch)
  ]
]
