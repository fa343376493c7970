-- ===== src/Relay/Writer/Draining.antt =====
-- The rounds of the loop that drains the stored deliveries.
use seven_mirror_server.Common.{
  ℕ, zero, suc, ◌≤◌, ◌<◌, ◌≡◌, refl, sym, ap, subst, ◌∙◌, true, false, Option, none, some, List,
  ◌++◌, ltb, leb, length, length-append, arith, Bool-cases, inl, inr, ◌⊎◌, append-nil,
}
use seven_mirror_server.Common.Bytes.{Bytes}
use seven_mirror_server.Common.Result.{ok, err}
use seven_mirror_server.Protocol.RoutingHeader.{max_int64}
use seven_mirror_server.Protocol.RelayDelivery.{encode_caught_up, encode_reset_required}
use seven_mirror_server.Delivery.{
  Mailbox, Recipient, StoredDelivery, DeliveryBatch, compact_expired_deliveries, save, unix_milli,
}
use seven_mirror_server.Delivery.Log.{RefinesRecipient}
use seven_mirror_server.Delivery.Log.Operations.{compact-Refines}
use seven_mirror_server.Delivery.Log.Reads.{answer, next_entries, read_answer, acknowledged-compact}
use seven_mirror_server.Relay.Service.{
  delivery_batch_size, is_active, read_session, session_offline,
}
use seven_mirror_server.Relay.Writer.{
  Writer, Socket, Failure, unserved, reset_sent, caught_up, still_draining, failed, Drained,
  count_turn, Turn, Others, finish, is_gap, next_round, after_deliveries, write_message,
  write_deliveries, drain_batch,
}
use seven_mirror_server.Relay.Writer.Segments.{
  AreSent-bound, AreWritten, write_deliveries-AreWritten, next_entries-IsSegment,
}
use seven_mirror_server.Relay.Writer.Frames.{
  IsReady, ready-Refines, IsTurn, AreTurns, IsDrained, stop-IsDrained, finish-IsDrained,
  after-IsDrained, count_turn-IsDrained, answer-gap,
}

-- A read of the session finds the session inactive, or answers from the history.
pub read_session-cases :
    (t : Turn) (s : ℕ) (log : List Bytes) (cursor : ℕ)
    → IsReady log cursor t.recipient
    → cursor ≤ max_int64
    → 0 < t.now
    → ((is_active t.hub s ≡ false)
        × (read_session t.hub s t.recipient cursor t.now ≡ err session_offline))
      ⊎ ((is_active t.hub s ≡ true)
          × (mark : ℕ) × (r : Recipient) × IsReady log cursor r
          × (read_session t.hub s t.recipient cursor t.now
              ≡ ok (answer log mark cursor delivery_batch_size, r)))
unfolding read_session
read_session-cases t s log cursor v range time = elim (Bool-cases (is_active t.hub s)) [
  | inr inactive ↦ inl (inactive, rw (inactive, read_session) refl)
  | inl active ↦
      let compacted : Mailbox = compact_expired_deliveries (unix_milli t.now) v.mailbox in
      inr (
        active,
        compacted.unavailable_through_id,
        save t.recipient compacted,
        record {
          mailbox = compacted;
          stored = refl;
          history = compact-Refines log v.mailbox (unix_milli t.now) v.history;
          acknowledged =
              omega (arith, acknowledged-compact (unix_milli t.now) v.mailbox, v.acknowledged);
        },
        ground (
          arith,
          active,
          read_answer log t.recipient v.mailbox cursor t.now delivery_batch_size
              (ready-Refines log cursor t.recipient v) v.stored
              (record {
                cursor_range = range;
                time = time;
                lower = omega arith;
                upper = omega arith;
              })
              v.acknowledged,
        ),
      )
]

pub next_round-again :
    (again : Recipient → DeliveryBatch → Drained) (w : Writer) (r0 r : Recipient)
    (next : DeliveryBatch)
    → is_gap w.sent_cursor next ≡ false
    → next_round again w r0 (ok (next, r)) ≡ again r next
next_round-again again w r0 r next fine = rw (next_round, fine) refl

-- A round after the first: the others act, the session reads, and the loop goes on.
next_round-IsDrained :
    (log : List Bytes) (appended : ℕ → List Bytes) (fuel s : ℕ) (w : Writer) (t : Turn)
    (again : Recipient → DeliveryBatch → Drained)
    → IsReady log w.sent_cursor t.recipient
    → w.sent_cursor ≤ max_int64
    → 0 < t.now
    → ((mark : ℕ) (r : Recipient)
        → IsReady log w.sent_cursor r
        → IsDrained log appended fuel w
            (again r (answer log mark w.sent_cursor delivery_batch_size)))
    → IsDrained log appended fuel w
        (next_round again w t.recipient (read_session t.hub s t.recipient w.sent_cursor t.now))
next_round-IsDrained log appended fuel s w t again v range time rest =
    elim (read_session-cases t s log w.sent_cursor v range time) [
      | inl (inactive, offline) ↦ rw offline (
          stop-IsDrained log appended fuel w t.recipient (failed (unserved session_offline))
            (ready-Refines log w.sent_cursor t.recipient v) (refl, λ n. cc))
      | inr (active, mark, r, ready, answered) ↦
          rw
            (
              answered,
              next_round-again again w t.recipient r
                  (answer log mark w.sent_cursor delivery_batch_size)
                  (answer-gap log mark w.sent_cursor),
            )
            (rest mark r ready)
    ]

-- The rounds after the deliveries of a batch.
after_deliveries-IsDrained :
    (log : List Bytes) (appended : ℕ → List Bytes) (fuel : ℕ) (socket : Socket) (w : Writer)
    (count : ℕ) (r : Recipient) (read : Writer → Drained) (v : Writer) (o : Option Failure)
    → AreWritten log w count v o
    → RefinesRecipient log r
    → v.sent_cursor ≤ length log
    → IsDrained log appended fuel v (read v)
    → IsDrained log appended fuel w (after_deliveries socket read r (length log) (v, o))
after_deliveries-IsDrained log appended fuel socket w count r read v (some e) a held h rest =
    after-IsDrained log appended fuel w v count (some e) _ a
      (stop-IsDrained log appended fuel v r (failed e) held (refl, λ n. a.no_gap (ap some n)))
after_deliveries-IsDrained log appended fuel socket w count r read v none a held h rest =
    elim (Bool-cases (leb (length log) v.sent_cursor)) [
      | inr behind ↦
          rw (after_deliveries, behind) (after-IsDrained log appended fuel w v count none _ a rest)
      | inl reached ↦
          let all : v.sent_cursor ≡ length log = ground (arith, h) in
          rw (after_deliveries, reached)
            (after-IsDrained log appended fuel w v count none _ a (
              finish-IsDrained log appended fuel socket v r caught_up
                (encode_caught_up (length log)) held
                (λ f e.
                  (all ∙ sym (ap length (append-nil log)), f, ap encode_caught_up all ∙ e, refl))))
    ]

pub drain_batch-reset :
    (fuel : ℕ) (socket : Socket) (others : Others) (s : ℕ) (w : Writer) (r : Recipient)
    (batch : DeliveryBatch)
    → batch.reset_required ≡ true
    → drain_batch (suc fuel) socket others s w r batch
      ≡ finish r reset_sent (write_message socket w (encode_reset_required batch.high_water))
unfolding drain_batch
drain_batch-reset fuel socket others s w r batch reset = rw (reset, drain_batch) refl

-- One round, with what the others do in it.
abbrev pub round : ℕ → Socket → Others → ℕ → Recipient → Writer → Drained
round fuel socket others s r v = count_turn (
    next_round (λ r' next. drain_batch fuel socket others s v r' next) v
      (others fuel v.sent_cursor r).recipient
      (read_session (others fuel v.sent_cursor r).hub s (others fuel v.sent_cursor r).recipient
        v.sent_cursor (others fuel v.sent_cursor r).now))

drain_batch-deliver :
    (fuel : ℕ) (socket : Socket) (others : Others) (s : ℕ) (w : Writer) (r : Recipient)
    (batch : DeliveryBatch)
    → batch.reset_required ≡ false
    → drain_batch (suc fuel) socket others s w r batch
      ≡ after_deliveries socket
          (round fuel socket others s r)
          r
          batch.high_water
          (write_deliveries socket w batch.deliveries)
unfolding drain_batch
drain_batch-deliver fuel socket others s w r batch kept = rw (kept, drain_batch) refl

-- A round on the answer to a read that is above the mark.
pub drain_batch-above :
    (fuel : ℕ) (socket : Socket) (others : Others) (s : ℕ) (w : Writer) (r : Recipient)
    (log : List Bytes) (mark : ℕ)
    → ltb w.sent_cursor mark ≡ false
    → drain_batch (suc fuel) socket others s w r (answer log mark w.sent_cursor delivery_batch_size)
      ≡ after_deliveries socket
          (round fuel socket others s r)
          r
          (length log)
          (write_deliveries socket w (next_entries log w.sent_cursor delivery_batch_size))
drain_batch-above fuel socket others s w r log mark above =
    let batch : DeliveryBatch = answer log mark w.sent_cursor delivery_batch_size in
    let kept : batch.reset_required ≡ false = ground arith in
    let high : batch.high_water ≡ length log = ground arith in
    let next : batch.deliveries ≡ next_entries log w.sent_cursor delivery_batch_size =
      ground arith in
    let after : ℕ → List StoredDelivery → Drained = λ n ds.
      after_deliveries socket (round fuel socket others s r) r n (write_deliveries socket w ds) in
    drain_batch-deliver fuel socket others s w r batch kept
    ∙ ap (λ n. after n batch.deliveries) high
    ∙ ap (after (length log)) next

-- A turn of the others, and the rounds after it.
round-IsDrained :
    (fuel : ℕ) (socket : Socket) (others : Others) (appended : ℕ → List Bytes) (s : ℕ) (v : Writer)
    (r : Recipient) (log : List Bytes)
    → IsTurn (log ++ appended fuel) v.sent_cursor (others fuel v.sent_cursor r)
    → v.sent_cursor ≤ max_int64
    → ((mark : ℕ) (r' : Recipient)
        → IsReady (log ++ appended fuel) v.sent_cursor r'
        → IsDrained (log ++ appended fuel) appended fuel v (
            drain_batch fuel socket others s v r'
              (answer (log ++ appended fuel) mark v.sent_cursor delivery_batch_size)))
    → IsDrained log appended (suc fuel) v (round fuel socket others s r v)
round-IsDrained fuel socket others appended s v r log turn range rest =
    count_turn-IsDrained log appended fuel v _ (
      next_round-IsDrained (log ++ appended fuel) appended fuel s v (others fuel v.sent_cursor r)
        (λ r' next. drain_batch fuel socket others s v r' next) turn.ready range turn.time rest)

pub drain_batch-IsDrained :
    (fuel : ℕ) (socket : Socket) (others : Others) (appended : ℕ → List Bytes) (s : ℕ) (w : Writer)
    (r : Recipient) (log : List Bytes) (mark : ℕ)
    → AreTurns others appended fuel log
    → w.sent_cursor ≤ length log
    → w.sent_cursor ≤ max_int64
    → RefinesRecipient log r
    → (ltb w.sent_cursor mark ≡ false → IsReady log w.sent_cursor r)
    → IsDrained log appended fuel w
        (drain_batch fuel socket others s w r (answer log mark w.sent_cursor delivery_batch_size))
unfolding drain_batch AreTurns
drain_batch-IsDrained zero socket others appended s w r log mark turns h range held ready =
    stop-IsDrained log appended zero w r still_draining held refl
drain_batch-IsDrained (suc fuel) socket others appended s w r log mark turns h range held ready =
    let batch : DeliveryBatch = answer log mark w.sent_cursor delivery_batch_size in
    elim (Bool-cases (ltb w.sent_cursor mark)) [
      | inl below ↦
          let reset : batch.reset_required ≡ true = ground arith in
          let high : batch.high_water ≡ length log = ground arith in
          subst (IsDrained log appended (suc fuel) w)
            (sym (drain_batch-reset fuel socket others s w r batch reset))
            (finish-IsDrained log appended (suc fuel) socket w r reset_sent
              (encode_reset_required batch.high_water) held
              (λ f e.
                (f, ap encode_reset_required (ap length (append-nil log) ∙ sym high) ∙ e, refl)))
      | inr above ↦
          subst (IsDrained log appended (suc fuel) w)
            (sym (drain_batch-above fuel socket others s w r log mark above))
            (let entries = next_entries log w.sent_cursor delivery_batch_size in
              let v = (write_deliveries socket w entries).0 in
              let a : AreWritten log w (length entries) v (write_deliveries socket w entries).1 =
                write_deliveries-AreWritten log socket w entries
                  (next_entries-IsSegment log w.sent_cursor delivery_batch_size) in
              let (within, small) = AreSent-bound log w.sent_cursor a.frames h range a.sent in
              let reached : v.sent_cursor ≤ length log = omega (arith, a.cursor, within) in
              let representable : v.sent_cursor ≤ max_int64 = omega (arith, a.cursor, small) in
              let here : IsReady log w.sent_cursor r = ready above in
              let moved : IsReady log v.sent_cursor r = record {
                mailbox = here.mailbox;
                stored = here.stored;
                history = here.history;
                acknowledged = omega (arith, here.acknowledged, a.cursor);
              } in
              after_deliveries-IsDrained log appended (suc fuel) socket w (length entries) r
                (round fuel socket others s r) v (write_deliveries socket w entries).1 a held
                reached
                (round-IsDrained fuel socket others appended s v r log
                  (turns.0 v.sent_cursor r moved) representable
                  (λ mark' r' ready'.
                    drain_batch-IsDrained fuel socket others appended s v r' (log ++ appended fuel)
                      mark' turns.1 (omega (arith, length-append log (appended fuel), reached))
                      representable (ready-Refines (log ++ appended fuel) v.sent_cursor r' ready')
                      (λ e. ready'))))
    ]
