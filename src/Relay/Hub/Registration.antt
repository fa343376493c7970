-- ===== src/Relay/Hub/Registration.antt =====
-- What Register returns.
use seven_mirror_server.Common.{
  ℕ, zero, suc, ◌≤◌, ◌≡◌, refl, ap, subst, Bool, true, false, none, some, List, ==_iff, arith,
  Option-cases, inl, inr,
}
use seven_mirror_server.Common.Bytes.{equal_refl}
use seven_mirror_server.Common.Result.{Result, ok, err}
use seven_mirror_server.Relay.{PeerIdentity}
use seven_mirror_server.Relay.Hub.{
  Hub, Attempt, registered, stale_credential, wait_for, attempt, insert_session, new_device_session,
  new_hub,
}
use seven_mirror_server.Relay.Hub.Events.{Event, react_all}
use seven_mirror_server.Relay.Hub.Registering.{
  RegisterError, after_attempt, handover_timeout, register_loop, register_session,
  max_handover_attempts,
}
use seven_mirror_server.Relay.Hub.Soundness.{
  IsSound, react_all-IsSound, new_hub-IsSound, register-IsSound,
}

-- The hub when Register has returned the session: it is new, it holds the slot of its peer, and no
-- operation of another session of that peer runs.
pub record IsRegistered (p : PeerIdentity) (version queue_size s : ℕ) (h : Hub) : Type 0 where
  pub slot : h.devices p ≡ some s
  pub session : h.session s ≡ new_device_session p version queue_size
  pub alone : (t : ℕ) → (h.session t).peer ≡ p → (h.session t).running ≡ 0

abbrev Sound : Hub → Type 0
Sound h = (t : ℕ) (q : PeerIdentity) → IsSound q t h

insert-IsRegistered :
    (h : Hub) (p : PeerIdentity) (version queue_size : ℕ)
    → Sound h
    → h.devices p ≡ none
    → IsRegistered p version queue_size h.next (insert_session h p version queue_size)
insert-IsRegistered h p version queue_size sound free = record {
  slot = ground (arith, equal_refl p.workspace_id, equal_refl p.device_id);
  session = ground (arith, ==_iff h.next h.next);
  alone =
      λ t own. ground (arith, ==_iff t h.next, (sound t p).running, ap h.devices own, own, free);
}

-- What holds of Register's answer and the hub it leaves.
abbrev pub Returned : PeerIdentity → ℕ → ℕ → Result RegisterError ℕ × Hub → Type 0
Returned p version queue_size (ok s, h) = IsRegistered p version queue_size s h
Returned p version queue_size (err e, h) = Unit {0}

-- A round keeps the promise if the rounds after it do.
after_attempt-Returned :
    (again : Hub → Result RegisterError ℕ × Hub) (others : Hub → ℕ → List Event × Bool)
    (p : PeerIdentity) (version queue_size : ℕ) (a : Attempt) (h : Hub)
    → Sound h
    → ((w : Hub) → Sound w → Returned p version queue_size (again w))
    → ((s : ℕ) → a ≡ registered s → IsRegistered p version queue_size s h)
    → Returned p version queue_size (after_attempt again others (a, h))
after_attempt-Returned again others p version queue_size (registered s) h sound keep new =
    new s refl
after_attempt-Returned again others p version queue_size stale_credential h sound keep new = tt
after_attempt-Returned again others p version queue_size (wait_for s) h sound keep new =
    elim (others h s).1
      as (λ b. Returned p version queue_size (elim b [
        | true ↦ again (react_all h (others h s).0)
        | false ↦ (err handover_timeout, react_all h (others h s).0)
      ])) [
        | true ↦
            keep (react_all h (others h s).0)
              (λ t q. react_all-IsSound h (others h s).0 t q (sound t q))
        | false ↦ tt
      ]

attempt-IsRegistered :
    (h : Hub) (p : PeerIdentity) (version queue_size s : ℕ)
    → Sound h
    → (attempt h p version queue_size).0 ≡ registered s
    → IsRegistered p version queue_size s (attempt h p version queue_size).1
unfolding attempt
attempt-IsRegistered h p version queue_size s sound e = elim (Option-cases (h.devices p)) [
  | inl free ↦
      let new : h.next ≡ s = ground (arith, rw (free, attempt) at e) in
      rw (free, attempt, ← new) (insert-IsRegistered h p version queue_size sound free)
  | inr (t, taken) ↦ ground (arith, rw (taken, attempt) at e)
]

register_loop-Returned :
    (rounds : ℕ) (others : Hub → ℕ → List Event × Bool) (h : Hub) (p : PeerIdentity)
    (version queue_size : ℕ)
    → Sound h
    → Returned p version queue_size (register_loop rounds others h p version queue_size)
unfolding register_loop
register_loop-Returned zero others h p version queue_size sound = tt
register_loop-Returned (suc n) others h p version queue_size sound =
    after_attempt-Returned (λ w. register_loop n others w p version queue_size) others p version
      queue_size (attempt h p version queue_size).0 (attempt h p version queue_size).1
      (λ t q. register-IsSound h p version queue_size t q (sound t q))
      (λ w v. register_loop-Returned n others w p version queue_size v)
      (λ s e. attempt-IsRegistered h p version queue_size s sound e)

-- However the others act while it waits, when Register returns a session in a hub reached from the
-- start, the session is new with the given version and queue size, it holds the slot of its peer,
-- and no operation of any session of that peer runs.
pub register_session-IsRegistered :
    (es : List Event) (others : Hub → ℕ → List Event × Bool) (p : PeerIdentity)
    (version queue_size s : ℕ) (next : Hub)
    → register_session others (react_all new_hub es) p version queue_size ≡ (ok s, next)
    → IsRegistered p version queue_size s next × (1 ≤ version) × (1 ≤ queue_size)
unfolding register_session
register_session-IsRegistered es others p version queue_size s next e =
    let h = react_all new_hub es in
    let sound : Sound h = λ t q. react_all-IsSound new_hub es t q (new_hub-IsSound t q) in
    let tested : (1 ≤ version)
        × (1 ≤ queue_size)
        × (register_loop max_handover_attempts others h p version queue_size ≡ (ok s, next)) =
      ground arith in
    (
      subst (Returned p version queue_size) tested.2
          (register_loop-Returned max_handover_attempts others h p version queue_size sound),
      tested.0,
      tested.1,
    )
