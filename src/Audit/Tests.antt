-- ===== src/Audit/Tests.antt =====
-- Runs of the hash chain on a small digest, and the cases at which its theorems apply.
use mrp_django.Audit.Append.{append_audit_event-verify}
use mrp_django.Audit.Chain.{
  AuditEvent, Body, append_audit_event, body_of, genesis, head_from, new_event, next_sequence,
  problems, verify_audit_chain, zeros,
}
use mrp_django.Audit.Tamper.{Collision, content, is_blank, verify_audit_chain-content}
use mrp_django.Inventory.Model.{type_eq}
use mrp_django.Prelude.{List, Text, [], codes, false, length, refl, true, ◌++◌, ◌+◌, ◌∷◌, ◌≡◌, ◌⊎◌}

-- A digest that keeps what it is given.
unfoldable toy_digest : Body → Text
toy_digest b =
    b'#' ∷ b.event_type ++ b.occurred_at ++ b.actor_username ++ b.payload ++ b.previous_hash

toy_digest-is_blank : (b : Body) → is_blank (toy_digest b) ≡ false
unfolding toy_digest
toy_digest-is_blank b = refl

abbrev one_event : List AuditEvent
one_event = append_audit_event toy_digest 4 (codes "CREATED") (codes "t1") (codes "ana") [] []

abbrev two_events : List AuditEvent
two_events =
    append_audit_event toy_digest 4 (codes "APPROVED") (codes "t2") (codes "rui") (codes "{1}")
      one_event

one_event-ok : (verify_audit_chain toy_digest one_event).ok ≡ true
unfolding toy_digest append_audit_event new_event verify_audit_chain body_of problems head_from
    next_sequence genesis zeros type_eq
one_event-ok = refl

two_events-ok : (verify_audit_chain toy_digest two_events).ok ≡ true
two_events-ok =
    (append_audit_event-verify toy_digest 4 (codes "APPROVED") (codes "t2") (codes "rui")
      (codes "{1}") one_event one_event-ok).0

append_audit_event-verify_example :
    let after = verify_audit_chain toy_digest two_events in
    let e =
      new_event toy_digest 4
        (codes "APPROVED")
        (codes "t2")
        (codes "rui")
        (codes "{1}")
        one_event in
    (after.ok ≡ true)
    × (after.event_count ≡ length one_event + 1)
    × (e.sequence ≡ length one_event + 1)
    × (after.head_hash ≡ e.event_hash)
append_audit_event-verify_example =
    append_audit_event-verify toy_digest 4 (codes "APPROVED") (codes "t2") (codes "rui")
      (codes "{1}") one_event one_event-ok

verify_audit_chain-content_example :
    Collision toy_digest ⊎ (content two_events ≡ content two_events)
verify_audit_chain-content_example =
    verify_audit_chain-content toy_digest toy_digest-is_blank two_events two_events refl
      two_events-ok two_events-ok refl
