-- ===== src/Delivery/Examples.antt =====
-- A recipient with two deliveries, of which the first expires.
use seven_mirror_server.Common.{◌≡◌, refl, true, false, none, some, List, [], ◌∷◌, arith}
use seven_mirror_server.Common.Result.{ok}
use seven_mirror_server.Common.Bytes.{Bytes}
use seven_mirror_server.Delivery.{
  Recipient, Mailbox, append_delivery, resume_deliveries, read_deliveries, acknowledge_delivery,
  ensure_delivery_state, insert_delivery, enforce_delivery_capacity, compact_expired_deliveries,
  mark_unavailable_through, resume_mailbox, acknowledge_new, acknowledge_through, max_id,
  total_bytes, has_id, save,
}
use seven_mirror_server.Delivery.Log.{Refines}
use seven_mirror_server.Delivery.Log.Reads.{resume_answer, read_answer}
use seven_mirror_server.Delivery.Log.Runs.{
  Request, append, resume, acknowledge, IsConsistent, serve_all, serve_all-IsConsistent,
}
use seven_mirror_server.Delivery.Log.Appends.{append_total, with_delivery}
use seven_mirror_server.Delivery.Capacity.Bounds.{Trimmed}

abbrev fresh : Recipient
fresh = record { device_row = true; mailbox = none }

-- Envelopes at 1 ms; the first lives 10 ms, the second 100 ms.
abbrev requests : List Request
requests =
    append (7 ∷ []) 11000000 1000000
    ∷ append (8 ∷ 9 ∷ []) 101000000 1000000
    ∷ resume 0 20000000 64
    ∷ acknowledge 1
    ∷ []

abbrev mailbox : Mailbox
mailbox = record {
  next_delivery_id = 3;
  acknowledged_delivery_id = 1;
  unavailable_through_id = 1;
  rows =
      record { delivery_id = 2; envelope = 8 ∷ 9 ∷ []; expires_at_ms = 101; created_at_ms = 1 }
      ∷ [];
}

abbrev history : List Bytes
history = (7 ∷ []) ∷ (8 ∷ 9 ∷ []) ∷ []

abbrev used : Recipient
used = record { device_row = true; mailbox = some mailbox }

-- The requests lead from the fresh recipient to that mailbox and history.
requests_served : serve_all ([], fresh) requests ≡ (history, used)
unfolding serve_all append_delivery resume_deliveries acknowledge_delivery ensure_delivery_state
    insert_delivery enforce_delivery_capacity compact_expired_deliveries mark_unavailable_through
    resume_mailbox acknowledge_new acknowledge_through max_id total_bytes has_id
requests_served = refl

used-Refines : Refines history mailbox
used-Refines = record {
  next = omega arith;
  acknowledged = omega arith;
  unavailable = omega arith;
  ids = omega arith;
  ordered = omega arith;
  held = refl;
}

serve_all-IsConsistent_example : IsConsistent (serve_all ([], fresh) requests)
serve_all-IsConsistent_example = serve_all-IsConsistent ([], fresh) requests refl

-- A reader that has delivery 1 gets delivery 2; the other one is told to start over.
resume_answer_example :
    resume_deliveries used 1 20000000 64
    ≡ ok (
      record {
        high_water = 2;
        reset_required = false;
        deliveries = record { id = 2; envelope = 8 ∷ 9 ∷ [] } ∷ [];
      },
      used,
    )
unfolding compact_expired_deliveries max_id acknowledge_new ensure_delivery_state
resume_answer_example =
    resume_answer history used mailbox 1 20000000 64 used-Refines refl (omega arith)

read_answer_example :
    read_deliveries used 1 20000000 64
    ≡ ok (
      record {
        high_water = 2;
        reset_required = false;
        deliveries = record { id = 2; envelope = 8 ∷ 9 ∷ [] } ∷ [];
      },
      used,
    )
unfolding compact_expired_deliveries max_id
read_answer_example =
    read_answer history used mailbox 1 20000000 64 used-Refines refl (omega arith) (omega arith)

append_total_example :
    (final : Mailbox) × (append_delivery used (5 ∷ []) 90000000 20000000 ≡ ok (3, save used final))
    × Trimmed (with_delivery mailbox (5 ∷ []) 90000000 20000000).rows final.rows
unfolding ensure_delivery_state
append_total_example =
    append_total history used mailbox (5 ∷ []) 90000000 20000000 used-Refines refl (omega arith)
      (omega arith)
