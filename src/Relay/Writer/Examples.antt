-- ===== src/Relay/Writer/Examples.antt =====
-- The recipient of the sample frame connects and resumes.
use seven_mirror_server.Common.{
  ℕ, zero, suc, ◌≡◌, ◌≢◌, ◌⊎◌, refl, ap, true, false, Option, none, some, List, [], ◌∷◌, ◌++◌,
  arith,
}
use seven_mirror_server.Common.Bytes.{Bytes, slice, equal, all_zero}
use seven_mirror_server.Common.Bytes.BigEndian.{get}
use seven_mirror_server.Protocol.RoutingHeader
use seven_mirror_server.Protocol.EnvelopeFrame
use seven_mirror_server.Protocol.RelayDelivery.{encode_delivery, encode_caught_up, encode_control}
use seven_mirror_server.Protocol.Examples.{sample_frame_bytes}
use seven_mirror_server.Delivery.{
  Mailbox, Row, Recipient, with_row, read_mailbox, read_deliveries, resume_deliveries,
  ensure_delivery_state, compact_expired_deliveries, resume_mailbox, acknowledge_new,
  deliveries_after, order_by_id, insert_by_id, max_id,
}
use seven_mirror_server.Delivery.Log.{Refines}
use seven_mirror_server.Delivery.Log.Reads.{answer}
use seven_mirror_server.Delivery.Log.Operations.{with_row-Refines}
use seven_mirror_server.Relay.Hub.{attempt, new_hub}
use seven_mirror_server.Relay.Service.{
  delivery_batch_size, is_active, session_offline, resume_session, read_session,
}
use seven_mirror_server.Relay.Service.Examples.{connected, stored_recipient, at_noon}
use seven_mirror_server.Relay.Writer.{
  Writer, Socket, Others, Turn, caught_up, still_draining, failed, unserved, drain_batch,
  serve_resume, serve_wake, write_deliveries,
}
use seven_mirror_server.Relay.Writer.Frames.{IsReady, IsTurn, AreTurns, IsDrained}
use seven_mirror_server.Relay.Writer.Resuming.{serve_resume-IsDrained, serve_wake-IsDrained}
use seven_mirror_server.Relay.Writer.Termination.{AreQuiet, drain_batch-ends}

abbrev fresh : Writer
fresh = record { cursor_initialized = false; sent_cursor = 0; written = [] }

abbrev following : Writer
following = record { cursor_initialized = true; sent_cursor = 0; written = [] }

abbrev turn : Turn
turn = record { hub = connected; recipient = stored_recipient; now = at_noon }

-- Nobody else does anything.
abbrev idle : Others
idle n cursor r = record { hub = connected; recipient = r; now = at_noon }

abbrev taken : Socket
taken written frame = true

abbrev history : List Bytes
history = sample_frame_bytes ∷ []

abbrev mailbox : Mailbox
mailbox = record {
  next_delivery_id = 2;
  acknowledged_delivery_id = 0;
  unavailable_through_id = 0;
  rows =
      record {
        delivery_id = 1;
        envelope = sample_frame_bytes;
        expires_at_ms = 62135596861000;
        created_at_ms = 62135596831000;
      }
      ∷ [];
}

mailbox-Refines : Refines history mailbox
mailbox-Refines = record {
  next = omega arith;
  acknowledged = omega arith;
  unavailable = omega arith;
  ids = omega arith;
  ordered = omega arith;
  held = refl;
}

stored_recipient-IsReady : IsReady history 0 stored_recipient
stored_recipient-IsReady = record {
  mailbox = mailbox;
  stored = refl;
  history = mailbox-Refines;
  acknowledged = omega arith;
}

-- A row for the sample frame.
abbrev row : ℕ → Row
row id = record {
  delivery_id = id;
  envelope = sample_frame_bytes;
  expires_at_ms = 62135596861000;
  created_at_ms = 62135596831000;
}

abbrev add : Option Mailbox → Option Mailbox
add none = none
add (some m) = some (with_row m (row m.next_delivery_id))

-- In each turn the others append one more frame.
abbrev adding : Others
adding n cursor r = record {
  hub = connected;
  recipient = record r { mailbox = add r.mailbox };
  now = at_noon;
}

abbrev one_more : ℕ → List Bytes
one_more n = sample_frame_bytes ∷ []

adding-IsTurn :
    (log : List Bytes) (n cursor : ℕ) (r : Recipient)
    → IsReady log cursor r
    → IsTurn (log ++ one_more n) cursor (adding n cursor r)
adding-IsTurn log n cursor r v = record {
  ready = record {
    mailbox = with_row v.mailbox (row v.mailbox.next_delivery_id);
    stored = ap add v.stored;
    history = with_row-Refines log v.mailbox (row v.mailbox.next_delivery_id) v.history refl;
    acknowledged = v.acknowledged;
  };
  time = omega arith;
}

adding-AreTurns : (fuel : ℕ) (log : List Bytes) → AreTurns adding one_more fuel log
unfolding AreTurns
adding-AreTurns zero log = tt
adding-AreTurns (suc n) log = (adding-IsTurn log n, adding-AreTurns n (log ++ one_more n))

-- A mailbox with more deliveries than one batch takes, so that the others have a turn.
abbrev grown_log : ℕ → List Bytes
grown_log zero = history
grown_log (suc n) = grown_log n ++ one_more n

abbrev grown : ℕ → Mailbox
grown zero = mailbox
grown (suc n) = with_row (grown n) (row (grown n).next_delivery_id)

grown-Refines : (n : ℕ) → Refines (grown_log n) (grown n)
grown-Refines zero = mailbox-Refines
grown-Refines (suc n) =
    with_row-Refines (grown_log n) (grown n) (row (grown n).next_delivery_id) (grown-Refines n) refl

abbrev busy_turn : Turn
busy_turn = record turn { recipient = record stored_recipient { mailbox = some (grown 64) } }

grown-IsReady : IsReady (grown_log 64) 0 busy_turn.recipient
grown-IsReady = record {
  mailbox = grown 64;
  stored = refl;
  history = grown-Refines 64;
  acknowledged = omega arith;
}

idle-AreQuiet : AreQuiet history idle
idle-AreQuiet n cursor r ready = (ready, omega arith)

-- The client gets its delivery and is caught up.
caught_up_at_one : (serve_resume 1 taken idle 0 fresh turn 0).outcome ≡ caught_up
unfolding serve_resume resume_session resume_deliveries ensure_delivery_state
    compact_expired_deliveries resume_mailbox acknowledge_new deliveries_after order_by_id
    insert_by_id max_id drain_batch write_deliveries encode_delivery EnvelopeFrame.decode
    EnvelopeFrame.validate EnvelopeFrame.parse RoutingHeader.decode RoutingHeader.validate
    RoutingHeader.parse slice get equal all_zero attempt new_hub encode_caught_up encode_control
caught_up_at_one = refl

-- The others have a turn before the client is caught up.
turn_of_the_others :
    ((serve_resume 2 taken adding 0 fresh busy_turn 0).turns ≡ 1)
    × ((serve_resume 2 taken adding 0 fresh busy_turn 0).outcome ≡ caught_up)
unfolding serve_resume resume_session resume_deliveries ensure_delivery_state
    compact_expired_deliveries resume_mailbox acknowledge_new deliveries_after order_by_id
    insert_by_id max_id drain_batch write_deliveries encode_delivery EnvelopeFrame.decode
    EnvelopeFrame.validate EnvelopeFrame.parse RoutingHeader.decode RoutingHeader.validate
    RoutingHeader.parse slice get equal all_zero attempt new_hub encode_caught_up encode_control
    read_session read_deliveries read_mailbox
turn_of_the_others = (refl, refl)

serve_resume-IsDrained_example :
    IsDrained (grown_log 64) one_more 2 following (serve_resume 2 taken adding 0 fresh busy_turn 0)
unfolding ensure_delivery_state attempt new_hub equal
serve_resume-IsDrained_example =
    serve_resume-IsDrained 2 taken adding one_more 0 fresh busy_turn 0 (grown_log 64) (grown 64)
      (adding-AreTurns 2 (grown_log 64)) refl (grown-Refines 64) refl (omega arith) (omega arith)
      (omega arith)

serve_wake-IsDrained_example :
    ((is_active connected 0 ≡ true)
      × IsDrained
          (grown_log 64)
          one_more
          2
          following
          (serve_wake 2 taken adding 0 following busy_turn))
    ⊎ ((is_active connected 0 ≡ false)
        × (serve_wake 2 taken adding 0 following busy_turn ≡ record {
          writer = following;
          recipient = busy_turn.recipient;
          outcome = failed (unserved session_offline);
          turns = 0;
        }))
serve_wake-IsDrained_example =
    serve_wake-IsDrained 2 taken adding one_more 0 following busy_turn (grown_log 64)
      (adding-AreTurns 2 (grown_log 64)) refl grown-IsReady (omega arith) (omega arith)
      (omega arith)

drain_batch-ends_example :
    (drain_batch 2 taken idle 0 following stored_recipient
      (answer history 0 0 delivery_batch_size)).outcome
    ≢ still_draining
drain_batch-ends_example =
    drain_batch-ends 2 taken idle 0 following stored_recipient history 0 idle-AreQuiet (omega arith)
      (omega arith) stored_recipient-IsReady (omega arith)
