-- ===== src/Audit/Tamper.antt =====
-- Two histories with one head are the same history, or two bodies with one hash are at hand.
use mrp_django.Audit.Chain.{
  AuditEvent, Body, body_of, genesis, head_from, is_none, or_empty, or_genesis, problems,
  verify_audit_chain, zeros,
}
use mrp_django.Inventory.Model.{type_eq}
use mrp_django.Prelude.{
  ==_iff, Bool, Bool-cases, List, Text, [], ap, arith, false, inl, inr, length, nat_eq, option_eq,
  pair_eq, refl, sym, text_eq, true, ℕ, ◌&&◌, ◌+◌, ◌==◌, ◌∙◌, ◌∷◌, ◌≡◌, ◌≢◌, ◌⊎◌,
}

-- Two bodies that hash alike.
pub record Collision (digest : Body → Text) : Type 0 where
  pub one : Body
  pub two : Body
  pub apart : one ≢ two
  pub same : digest one ≡ digest two

abbrev pub is_blank : Text → Bool
is_blank [] = true
is_blank (c ∷ t) = false

-- What is stored of an event, but its hash; the stored payload is not empty.
record Alike (e f : AuditEvent) : Type 0 where
  cockpit_id : e.cockpit_id ≡ f.cockpit_id
  sequence : e.sequence ≡ f.sequence
  event_type : e.event_type ≡ f.event_type
  occurred_at : e.occurred_at ≡ f.occurred_at
  actor_username : e.actor_username ≡ f.actor_username
  payload : or_empty e.payload ≡ or_empty f.payload
  previous_hash : or_genesis e.previous_hash ≡ or_genesis f.previous_hash

unfoldable alike : AuditEvent → AuditEvent → Bool
alike e f =
    e.cockpit_id == f.cockpit_id
    && e.sequence == f.sequence
    && e.event_type == f.event_type
    && e.occurred_at == f.occurred_at
    && e.actor_username == f.actor_username
    && or_empty e.payload == or_empty f.payload
    && or_genesis e.previous_hash == or_genesis f.previous_hash

alike-Alike : (e f : AuditEvent) → alike e f ≡ true → Alike e f
unfolding alike
alike-Alike e f t = record {
  cockpit_id = ground (arith, t, ==_iff e.cockpit_id f.cockpit_id);
  sequence = ground (arith, t, ==_iff e.sequence f.sequence);
  event_type = ground (arith, t, ==_iff e.event_type f.event_type);
  occurred_at = ground (arith, t, ==_iff e.occurred_at f.occurred_at);
  actor_username = ground (arith, t, ==_iff e.actor_username f.actor_username);
  payload = ground (arith, t, ==_iff (or_empty e.payload) (or_empty f.payload));
  previous_hash =
      ground (arith, t, ==_iff (or_genesis e.previous_hash) (or_genesis f.previous_hash));
}

body_of-alike : (e f : AuditEvent) → body_of e ≡ body_of f → alike e f ≡ true
unfolding alike body_of
body_of-alike e f q = ground (
  arith,
  (==_iff e.cockpit_id f.cockpit_id).1 (ap (λ (b : Body). b.cockpit_id) q),
  (==_iff e.sequence f.sequence).1 (ap (λ (b : Body). b.sequence) q),
  (==_iff e.event_type f.event_type).1 (ap (λ (b : Body). b.event_type) q),
  (==_iff e.occurred_at f.occurred_at).1 (ap (λ (b : Body). b.occurred_at) q),
  (==_iff e.actor_username f.actor_username).1 (ap (λ (b : Body). b.actor_username) q),
  (==_iff (or_empty e.payload) (or_empty f.payload)).1 (ap (λ (b : Body). b.payload) q),
  (==_iff (or_genesis e.previous_hash) (or_genesis f.previous_hash)).1
      (ap (λ (b : Body). b.previous_hash) q),
)

or_genesis_injective :
    (a b : Text) → is_blank a ≡ false → is_blank b ≡ false → or_genesis a ≡ or_genesis b → a ≡ b
or_genesis_injective [] b x y e = cc
or_genesis_injective (c ∷ a) [] x y e = cc
or_genesis_injective (c ∷ a) (d ∷ b) x y e = e

-- The same events, the payload by what is hashed of it.
unfoldable pub content : List AuditEvent → List AuditEvent
content [] = []
content (e ∷ es) = record e { payload = or_empty e.payload } ∷ content es

event_content :
    (e f : AuditEvent)
    → Alike e f
    → e.previous_hash ≡ f.previous_hash
    → e.event_hash ≡ f.event_hash
    → Path AuditEvent
        (record e { payload = or_empty e.payload })
        (record f { payload = or_empty f.payload })
event_content e f a p h = λ i. record {
  cockpit_id = a.cockpit_id i;
  sequence = a.sequence i;
  event_type = a.event_type i;
  occurred_at = a.occurred_at i;
  actor_username = a.actor_username i;
  payload = a.payload i;
  previous_hash = p i;
  event_hash = h i;
}

module _ (digest : Body → Text) where
  -- What the head of a verified list tells of the events.
  verified :
      (previous : Text) (n : ℕ) (e : AuditEvent) (es : List AuditEvent)
      → is_none (problems digest previous n (e ∷ es)) ≡ true
      → (e.previous_hash ≡ previous)
        × (digest (body_of e) ≡ e.event_hash)
        × (is_none (problems digest e.event_hash (n + 1) es) ≡ true)
  unfolding problems
  verified previous n e es v = (
    ground (arith, ==_iff e.previous_hash previous),
    ground (arith, ==_iff (digest (body_of e)) e.event_hash),
    ground arith,
  )

  module _ (never_blank : (b : Body) → is_blank (digest b) ≡ false) where
    same_history :
        (p q : Text) (n : ℕ) (es fs : List AuditEvent)
        → is_blank p ≡ false
        → is_blank q ≡ false
        → length es ≡ length fs
        → is_none (problems digest p n es) ≡ true
        → is_none (problems digest q n fs) ≡ true
        → head_from p es ≡ head_from q fs
        → Collision digest ⊎ ((p ≡ q) × (content es ≡ content fs))
    unfolding head_from content
    same_history p q n [] [] bp bq len vs ws head = inr (head, refl)
    same_history p q n [] (f ∷ fs) bp bq len vs ws head = absurd (omega (arith, len))
    same_history p q n (e ∷ es) [] bp bq len vs ws head = absurd (omega (arith, len))
    same_history p q n (e ∷ es) (f ∷ fs) bp bq len vs ws head =
        let (ep, eh, erest) = verified p n e es vs in
        let (fp, fh, frest) = verified q n f fs ws in
        let be : is_blank e.event_hash ≡ false = ap is_blank (sym eh) ∙ never_blank (body_of e) in
        let bf : is_blank f.event_hash ≡ false = ap is_blank (sym fh) ∙ never_blank (body_of f) in
        elim (same_history e.event_hash f.event_hash (n + 1) es fs be bf (omega (arith, len)) erest
          frest head) [
            | inl c ↦ inl c
            | inr (hash, rest) ↦ elim (Bool-cases (alike e f)) [
              | inl t ↦
                  let a = alike-Alike e f t in
                  let same : p ≡ q =
                    or_genesis_injective p q bp bq
                      (ap or_genesis (sym ep) ∙ a.previous_hash ∙ ap or_genesis fp) in
                  inr (same, λ i. event_content e f a (ep ∙ same ∙ sym fp) hash i ∷ rest i)
              | inr x ↦ inl (record {
                one = body_of e;
                two = body_of f;
                apart = λ s. cc (x, body_of-alike e f s);
                same = eh ∙ hash ∙ sym fh;
              })
            ]
          ]

    -- When two histories of one length verify and have one head hash, their events are the same (a
    -- payload that is stored empty counts as the object without keys), or two bodies that differ and
    -- hash alike are at hand. No digest is blank.
    pub verify_audit_chain-content :
        (es fs : List AuditEvent)
        → length es ≡ length fs
        → (verify_audit_chain digest es).ok ≡ true
        → (verify_audit_chain digest fs).ok ≡ true
        → (verify_audit_chain digest es).head_hash ≡ (verify_audit_chain digest fs).head_hash
        → Collision digest ⊎ (content es ≡ content fs)
    unfolding verify_audit_chain genesis zeros
    verify_audit_chain-content es fs len vs ws head =
        elim (same_history genesis genesis 1 es fs refl refl len vs ws head) [
          | inl c ↦ inl c
          | inr (p, same) ↦ inr same
        ]
