-- ===== src/Relay/Writer/Termination.antt =====
-- The loop ends once nothing more is appended.
use seven_mirror_server.Common.{
  ℕ, zero, suc, ◌-◌, ◌≤◌, ◌<◌, ◌≡◌, ◌≢◌, refl, true, Option, none, some, List, ltb, leb, length,
  arith, Bool-cases, inl, inr,
}
use seven_mirror_server.Common.Bytes.{Bytes}
use seven_mirror_server.Common.Result.{Result, ok, err}
use seven_mirror_server.Protocol.RoutingHeader.{max_int64}
use seven_mirror_server.Protocol.RelayDelivery
use seven_mirror_server.Protocol.RelayDelivery.{encode_caught_up, encode_reset_required}
use seven_mirror_server.Delivery.{Recipient, DeliveryBatch}
use seven_mirror_server.Delivery.Log.Reads.{answer, next_entries}
use seven_mirror_server.Relay.Service.{delivery_batch_size}
use seven_mirror_server.Relay.Writer.{
  Writer, Socket, Failure, Outcome, reset_sent, caught_up, still_draining, Drained, Turn, Others,
  finish, after_deliveries, write_message, write_deliveries, drain_batch,
}
use seven_mirror_server.Relay.Writer.Segments.{
  AreSent-bound, AreWritten, write_deliveries-AreWritten, next_entries-IsSegment,
}
use seven_mirror_server.Relay.Writer.Draining.{
  read_session-cases, drain_batch-reset, drain_batch-above, round, next_round-again,
}
use seven_mirror_server.Relay.Writer.Frames.{IsReady, length-next_entries, answer-gap}

-- The others append nothing: the history stays what it is.
abbrev pub AreQuiet : List Bytes → Others → Type 0
AreQuiet log others =
    (n cursor : ℕ) (r : Recipient)
    → IsReady log cursor r
    → IsReady log cursor (others n cursor r).recipient × (0 < (others n cursor r).now)

finish-ends :
    (socket : Socket) (w : Writer) (r : Recipient) (o : Outcome)
    (encoded : Result RelayDelivery.Error Bytes)
    → o ≢ still_draining
    → (finish r o (write_message socket w encoded)).outcome ≢ still_draining
finish-ends socket w r o (err e) h = λ n. cc
finish-ends socket w r o (ok f) h = elim (Bool-cases (socket w.written f)) [
  | inl taken ↦ rw taken h
  | inr refused ↦ rw refused (λ n. cc)
]

after_deliveries-ends :
    (socket : Socket) (read : Writer → Drained) (r : Recipient) (high : ℕ) (v : Writer)
    (o : Option Failure)
    → (o ≡ none → v.sent_cursor < high → (read v).outcome ≢ still_draining)
    → (after_deliveries socket read r high (v, o)).outcome ≢ still_draining
after_deliveries-ends socket read r high v (some e) h = λ n. cc
after_deliveries-ends socket read r high v none h = elim (Bool-cases (leb high v.sent_cursor)) [
  | inl reached ↦
      rw (after_deliveries, reached)
        (finish-ends socket v r caught_up (encode_caught_up high) (λ n. cc))
  | inr behind ↦ rw (after_deliveries, behind) (h refl (ground arith))
]

round-ends :
    (fuel : ℕ) (socket : Socket) (others : Others) (s : ℕ) (v : Writer) (r : Recipient)
    (log : List Bytes)
    → AreQuiet log others
    → v.sent_cursor ≤ max_int64
    → IsReady log v.sent_cursor r
    → ((mark : ℕ) (r' : Recipient)
        → IsReady log v.sent_cursor r'
        → (drain_batch fuel socket others s v r'
            (answer log mark v.sent_cursor delivery_batch_size)).outcome
          ≢ still_draining)
    → (round fuel socket others s r v).outcome ≢ still_draining
round-ends fuel socket others s v r log quiet range ready rest =
    let turn : Turn = others fuel v.sent_cursor r in
    let (ready', time) = quiet fuel v.sent_cursor r ready in
    elim (read_session-cases turn s log v.sent_cursor ready' range time) [
      | inl (inactive, offline) ↦ rw offline (λ n. cc)
      | inr (active, mark, r', ready'', answered) ↦
          rw
            (
              answered,
              next_round-again (λ r' next. drain_batch fuel socket others s v r' next) v
                  turn.recipient r' (answer log mark v.sent_cursor delivery_batch_size)
                  (answer-gap log mark v.sent_cursor),
            )
            (rest mark r' ready'')
    ]

-- While the others append nothing, the loop ends within one round for each delivery after the
-- cursor and one more, whatever the socket takes.
pub drain_batch-ends :
    (fuel : ℕ) (socket : Socket) (others : Others) (s : ℕ) (w : Writer) (r : Recipient)
    (log : List Bytes) (mark : ℕ)
    → AreQuiet log others
    → w.sent_cursor ≤ length log
    → w.sent_cursor ≤ max_int64
    → IsReady log w.sent_cursor r
    → length log - w.sent_cursor < fuel
    → (drain_batch fuel socket others s w r
        (answer log mark w.sent_cursor delivery_batch_size)).outcome
      ≢ still_draining
drain_batch-ends zero socket others s w r log mark quiet h range ready enough = absurd (omega arith)
drain_batch-ends (suc fuel) socket others s w r log mark quiet h range ready enough =
    let batch : DeliveryBatch = answer log mark w.sent_cursor delivery_batch_size in
    elim (Bool-cases (ltb w.sent_cursor mark)) [
      | inl below ↦
          let reset : batch.reset_required ≡ true = ground arith in
          rw (drain_batch-reset fuel socket others s w r batch reset)
            (finish-ends socket w r reset_sent (encode_reset_required batch.high_water) (λ n. cc))
      | inr above ↦
          let entries = next_entries log w.sent_cursor delivery_batch_size in
          let v : Writer = (write_deliveries socket w entries).0 in
          let o : Option Failure = (write_deliveries socket w entries).1 in
          let a : AreWritten log w (length entries) v o =
            write_deliveries-AreWritten log socket w entries
              (next_entries-IsSegment log w.sent_cursor delivery_batch_size) in
          let (within, small) = AreSent-bound log w.sent_cursor a.frames h range a.sent in
          rw (drain_batch-above fuel socket others s w r log mark above) (
            after_deliveries-ends socket (round fuel socket others s r) r (length log) v o
              (λ written behind.
                round-ends fuel socket others s v r log quiet (omega (arith, a.cursor, small))
                  (record {
                    mailbox = ready.mailbox;
                    stored = ready.stored;
                    history = ready.history;
                    acknowledged = omega (arith, ready.acknowledged, a.cursor);
                  })
                  (λ mark' r' ready'.
                    drain_batch-ends fuel socket others s v r' log mark' quiet
                      (omega (arith, a.cursor, within)) (omega (arith, a.cursor, small)) ready'
                      (omega (
                        arith,
                        a.cursor,
                        a.all written,
                        behind,
                        enough,
                        length-next_entries log w.sent_cursor delivery_batch_size,
                      )))))
    ]
