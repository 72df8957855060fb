-- ===== src/Audit/Append.antt =====
-- An event that is appended to a chain that verifies makes a chain that verifies.
use mrp_django.Audit.Chain.{
  AuditEvent, Body, append_audit_event, body_of, genesis, head_from, is_none, new_event,
  next_sequence, problems, verify_audit_chain,
}
use mrp_django.Inventory.Model.{type_eq}
use mrp_django.Prelude.{
  ==_iff, List, Text, [], arith, length, length-append, nat_eq, option_eq, pair_eq, refl, text_eq,
  true, ℕ, ◌++◌, ◌+◌, ◌∷◌, ◌≡◌,
}

module _ (digest : Body → Text) where
  problems-snoc :
      (e : AuditEvent) (previous : Text) (n : ℕ) (es : List AuditEvent)
      → is_none (problems digest previous n es) ≡ true
      → e.sequence ≡ next_sequence n es
      → e.previous_hash ≡ head_from previous es
      → digest (body_of e) ≡ e.event_hash
      → is_none (problems digest previous n (es ++ e ∷ [])) ≡ true
  unfolding problems next_sequence head_from
  problems-snoc e previous n [] v s p d = ground (
    arith,
    (==_iff e.sequence n).1 s,
    (==_iff e.previous_hash previous).1 p,
    (==_iff (digest (body_of e)) e.event_hash).1 d,
  )
  problems-snoc e previous n (f ∷ es) v s p d =
      let same : f.sequence ≡ n = ground (arith, ==_iff f.sequence n) in
      ground (arith, problems-snoc e f.event_hash (n + 1) es (ground arith) (rw same at s) p d)

  next_sequence-verified :
      (previous : Text) (n : ℕ) (es : List AuditEvent)
      → is_none (problems digest previous n es) ≡ true
      → next_sequence n es ≡ n + length es
  unfolding problems next_sequence
  next_sequence-verified previous n [] v = omega arith
  next_sequence-verified previous n (e ∷ es) v =
      ground
        (arith, ==_iff e.sequence n, next_sequence-verified e.event_hash (n + 1) es (ground arith))

  head_from-snoc :
      (e : AuditEvent) (previous : Text) (es : List AuditEvent)
      → head_from previous (es ++ e ∷ []) ≡ e.event_hash
  unfolding head_from
  head_from-snoc e previous [] = refl
  head_from-snoc e previous (f ∷ es) = head_from-snoc e f.event_hash es

  -- A chain that verifies still does after an event is appended to it; the new event has the number
  -- of events as its sequence, and its hash is the new head.
  pub append_audit_event-verify :
      (cockpit : ℕ) (ty now username payload : Text) (es : List AuditEvent)
      → (verify_audit_chain digest es).ok ≡ true
      → let after =
          verify_audit_chain digest
            (append_audit_event digest cockpit ty now username payload es) in
        let e = new_event digest cockpit ty now username payload es in
        (after.ok ≡ true)
        × (after.event_count ≡ length es + 1)
        × (e.sequence ≡ length es + 1)
        × (after.head_hash ≡ e.event_hash)
  unfolding verify_audit_chain append_audit_event new_event body_of
  append_audit_event-verify cockpit ty now username payload es v =
      let e = new_event digest cockpit ty now username payload es in
      (
        problems-snoc e genesis 1 es v refl refl refl,
        length-append es (e ∷ []),
        omega (arith, next_sequence-verified genesis 1 es v),
        head_from-snoc e genesis es,
      )
