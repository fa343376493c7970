-- ===== src/Relay/Writer/Resuming.antt =====
-- What a client gets after it asked to resume, and after a wake-up.
use seven_mirror_server.Common.{
  ℕ, ◌≤◌, ◌<◌, ◌≡◌, ◌⊎◌, refl, sym, subst, true, false, List, ◌++◌, Bool-cases, ltb, length, arith,
  inl, inr,
}
use seven_mirror_server.Common.Bytes.{Bytes}
use seven_mirror_server.Common.Result.{ok}
use seven_mirror_server.Protocol.RoutingHeader.{max_int64}
use seven_mirror_server.Delivery.{
  Mailbox, Recipient, floor, acknowledge_new, acknowledge_through, compact_expired_deliveries,
  ensure_delivery_state, save, unix_milli,
}
use seven_mirror_server.Delivery.Log.{Refines, RefinesRecipient}
use seven_mirror_server.Delivery.Log.Operations.{compact-Refines, acknowledge-Refines}
use seven_mirror_server.Delivery.Log.Reads.{answer, resumed, resume_answer, ensure-Refines}
use seven_mirror_server.Relay.Service.{
  delivery_batch_size, is_active, resume_session, session_offline,
}
use seven_mirror_server.Relay.Writer.{
  Writer, Socket, Outcome, reset_sent, caught_up, ignored, still_draining, failed, unserved,
  Drained, Turn, Others, settle, serve_resume, serve_wake,
}
use seven_mirror_server.Relay.Writer.Draining.{read_session-cases, drain_batch-IsDrained}
use seven_mirror_server.Relay.Writer.Frames.{
  IsReady, ready-Refines, AreTurns, gathered, IsServed, IsDrained,
}

-- Forgetting the cursor changes nothing of what was written.
settle_outcome-IsServed :
    (log : List Bytes) (w v : Writer) (r : Recipient) (o : Outcome) (n : ℕ)
    → IsServed log w (record { writer = v; recipient = r; outcome = o; turns = n })
    → IsServed log w (settle (record { writer = v; recipient = r; outcome = o; turns = n }))
settle_outcome-IsServed log w v r reset_sent n d = record {
  frames = d.frames;
  tail = d.tail;
  sent = d.sent;
  cursor = d.cursor;
  written = d.written;
  ending = d.ending;
  held = d.held;
}
settle_outcome-IsServed log w v r caught_up n d = d
settle_outcome-IsServed log w v r ignored n d = d
settle_outcome-IsServed log w v r still_draining n d = d
settle_outcome-IsServed log w v r (failed e) n d = d

settle_turns :
    (v : Writer) (r : Recipient) (o : Outcome) (n : ℕ)
    → (settle (record { writer = v; recipient = r; outcome = o; turns = n })).turns ≡ n
settle_turns v r reset_sent n = refl
settle_turns v r caught_up n = refl
settle_turns v r ignored n = refl
settle_turns v r still_draining n = refl
settle_turns v r (failed e) n = refl

settle-IsDrained :
    (log : List Bytes) (appended : ℕ → List Bytes) (fuel : ℕ) (w : Writer) (d : Drained)
    → IsDrained log appended fuel w d
    → IsDrained log appended fuel w (settle d)
settle-IsDrained log appended fuel w d v =
    subst (λ n. IsServed (log ++ gathered appended fuel n) w (settle d))
      (sym (settle_turns d.writer d.recipient d.outcome d.turns))
      (settle_outcome-IsServed (log ++ gathered appended fuel d.turns) w d.writer d.recipient
        d.outcome d.turns v)

acknowledge_new-le :
    (cursor : ℕ) (m : Mailbox)
    → ltb cursor (floor m) ≡ false
    → (acknowledge_new cursor m).acknowledged_delivery_id ≤ cursor
unfolding acknowledge_new acknowledge_through
acknowledge_new-le cursor m h = ground arith

-- The recipient after a resume that need not start over.
resumed-IsReady :
    (log : List Bytes) (r : Recipient) (m : Mailbox) (cursor : ℕ)
    → Refines log m
    → cursor ≤ length log
    → ltb cursor (floor m) ≡ false
    → IsReady log cursor (save r (resumed cursor m))
resumed-IsReady log r m cursor v h above = record {
  mailbox = acknowledge_new cursor m;
  stored = ground (arith, above);
  history = acknowledge-Refines log m cursor v h;
  acknowledged = acknowledge_new-le cursor m above;
}

resumed-Refines :
    (log : List Bytes) (m : Mailbox) (cursor : ℕ)
    → Refines log m
    → cursor ≤ length log
    → Refines log (resumed cursor m)
resumed-Refines log m cursor v h = elim (Bool-cases (ltb cursor (floor m))) [
  | inl below ↦ rw (below) v
  | inr above ↦ rw (above) (acknowledge-Refines log m cursor v h)
]

-- The answer to a resume of an active session.
resume_session-eq :
    (t : Turn) (s : ℕ) (log : List Bytes) (m : Mailbox) (cursor : ℕ)
    → is_active t.hub s ≡ true
    → RefinesRecipient log t.recipient
    → ensure_delivery_state t.recipient ≡ ok m
    → cursor ≤ length log
    → cursor ≤ max_int64
    → 0 < t.now
    → let compacted = compact_expired_deliveries (unix_milli t.now) m in
      resume_session t.hub s t.recipient cursor t.now
      ≡ ok (
        answer log (floor compacted) cursor delivery_batch_size,
        save t.recipient (resumed cursor compacted),
      )
unfolding resume_session
resume_session-eq t s log m cursor active v e h range time = ground (
  arith,
  active,
  resume_answer log t.recipient m cursor t.now delivery_batch_size v e
      (record { cursor_range = range; time = time; lower = omega arith; upper = omega arith }),
)

-- A client that resumes from a cursor within its history, on an active session, gets on its socket
-- the deliveries after that cursor, one after the other with none missing or changed, then the
-- frame that says it has caught up or must start over. The history is the first one with all that
-- the others appended in the turns they had, it is what the recipient holds in the end, and a
-- client that has caught up got the whole of it. If a write or a read fails the client gets the
-- first of these frames; a gap is never found. In each turn the others may append, and acknowledge
-- what was sent.
pub serve_resume-IsDrained :
    (fuel : ℕ) (socket : Socket) (others : Others) (appended : ℕ → List Bytes) (s : ℕ) (w : Writer)
    (t : Turn) (cursor : ℕ) (log : List Bytes) (m : Mailbox)
    → AreTurns others appended fuel log
    → is_active t.hub s ≡ true
    → RefinesRecipient log t.recipient
    → ensure_delivery_state t.recipient ≡ ok m
    → cursor ≤ length log
    → cursor ≤ max_int64
    → 0 < t.now
    → IsDrained log appended fuel
        (record w { cursor_initialized = true; sent_cursor = cursor })
        (serve_resume fuel socket others s w t cursor)
unfolding serve_resume
serve_resume-IsDrained fuel socket others appended s w t cursor log m turns active v e h range
      time =
    let compacted : Mailbox = compact_expired_deliveries (unix_milli t.now) m in
    let kept : Refines log compacted =
      compact-Refines log m (unix_milli t.now) (ensure-Refines log t.recipient m v e) in
    rw (resume_session-eq t s log m cursor active v e h range time, serve_resume)
      (settle-IsDrained log appended fuel _ _ (
        drain_batch-IsDrained fuel socket others appended s
          (record w { cursor_initialized = true; sent_cursor = cursor })
          (save t.recipient (resumed cursor compacted)) log (floor compacted) turns h range
          (resumed-Refines log compacted cursor kept h)
          (λ above. resumed-IsReady log t.recipient compacted cursor kept h above)))

-- A client whose cursor is known, and that acknowledged only what it was sent, gets after a wake-up
-- on an active session the deliveries after that cursor in the same way; where the session is not
-- active the writer ends with its error, and nothing is written, read or changed.
pub serve_wake-IsDrained :
    (fuel : ℕ) (socket : Socket) (others : Others) (appended : ℕ → List Bytes) (s : ℕ) (w : Writer)
    (t : Turn) (log : List Bytes)
    → AreTurns others appended fuel log
    → w.cursor_initialized ≡ true
    → IsReady log w.sent_cursor t.recipient
    → w.sent_cursor ≤ length log
    → w.sent_cursor ≤ max_int64
    → 0 < t.now
    → ((is_active t.hub s ≡ true)
        × IsDrained log appended fuel w (serve_wake fuel socket others s w t))
      ⊎ ((is_active t.hub s ≡ false)
          × (serve_wake fuel socket others s w t ≡ record {
            writer = w;
            recipient = t.recipient;
            outcome = failed (unserved session_offline);
            turns = 0;
          }))
unfolding serve_wake
serve_wake-IsDrained fuel socket others appended s w t log turns known ready h range time =
    elim (read_session-cases t s log w.sent_cursor ready range time) [
      | inl (inactive, offline) ↦ inr (inactive, simp (known, offline, serve_wake) refl)
      | inr (active, mark, r, held, answered) ↦ inl (
        active,
        simp (known, answered, serve_wake)
            (settle-IsDrained log appended fuel w _ (
              drain_batch-IsDrained fuel socket others appended s w r log mark turns h range
                (ready-Refines log w.sent_cursor r held) (λ e. held))),
      )
    ]
