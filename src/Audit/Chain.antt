-- ===== src/Audit/Chain.antt =====
-- `append_audit_event` and `verify_audit_chain`. `digest` is the SHA-256 of the canonical JSON of a
-- body. The events are the rows of one cockpit as `order_by("sequence")` returns them, a payload
-- stands by its canonical JSON and a time by its ISO text.
use mrp_django.Inventory.Model.{type_eq}
use mrp_django.Prelude.{
  Bool, List, Text, [], codes, false, length, nat_eq, option_eq, pair_eq, suc, text_eq, true, zero,
  ℕ, ◌++◌, ◌+◌, ◌==◌, ◌∷◌,
}

-- The body that is hashed; its hash_algorithm is constant.
pub record Body : Type 0 where
  pub cockpit_id : ℕ
  pub sequence : ℕ
  pub event_type : Text
  pub occurred_at : Text
  pub actor_username : Text
  pub payload : Text
  pub previous_hash : Text

pub record AuditEvent : Type 0 where
  pub cockpit_id : ℕ
  pub sequence : ℕ
  pub event_type : Text
  pub occurred_at : Text
  pub actor_username : Text
  pub payload : Text
  pub previous_hash : Text
  pub event_hash : Text

-- GENESIS: sixty-four zeros.
unfoldable pub zeros : ℕ → Text
zeros zero = []
zeros (suc n) = b'0' ∷ zeros n

unfoldable pub genesis : Text
genesis = zeros 64

-- `previous_hash or GENESIS`
abbrev pub or_genesis : Text → Text
or_genesis [] = genesis
or_genesis (c ∷ t) = c ∷ t

-- `payload or {}`
abbrev pub or_empty : Text → Text
or_empty [] = codes "{}"
or_empty (c ∷ t) = c ∷ t

unfoldable pub body_of : AuditEvent → Body
body_of e = record {
  cockpit_id = e.cockpit_id;
  sequence = e.sequence;
  event_type = e.event_type;
  occurred_at = e.occurred_at;
  actor_username = e.actor_username;
  payload = or_empty e.payload;
  previous_hash = or_genesis e.previous_hash;
}

pub data Problem : Type 0 where
  sequence_gap_expected : ℕ → Problem
  previous_hash_mismatch event_hash_mismatch : Problem

pub record Report : Type 0 where
  pub ok : Bool
  pub event_count : ℕ
  pub head_hash : Text
  pub errors : List (ℕ × Problem)

abbrev pub if_wrong : Bool → ℕ × Problem → List (ℕ × Problem) → List (ℕ × Problem)
if_wrong true p ps = ps
if_wrong false p ps = p ∷ ps

abbrev pub is_none : List (ℕ × Problem) → Bool
is_none [] = true
is_none (p ∷ ps) = false

-- `previous`, after the loop
unfoldable pub head_from : Text → List AuditEvent → Text
head_from previous [] = previous
head_from previous (e ∷ es) = head_from e.event_hash es

-- What the next event goes on from.
unfoldable pub next_sequence : ℕ → List AuditEvent → ℕ
next_sequence n [] = n
next_sequence n (e ∷ es) = next_sequence (e.sequence + 1) es

module _ (digest : Body → Text) where
  -- The loop of `verify_audit_chain`.
  unfoldable pub problems : Text → ℕ → List AuditEvent → List (ℕ × Problem)
  problems previous expected [] = []
  problems previous expected (e ∷ es) =
      if_wrong (e.sequence == expected) (e.sequence, sequence_gap_expected expected)
        (if_wrong (e.previous_hash == previous) (e.sequence, previous_hash_mismatch)
          (if_wrong (digest (body_of e) == e.event_hash) (e.sequence, event_hash_mismatch)
            (problems e.event_hash (expected + 1) es)))

  unfoldable pub verify_audit_chain : List AuditEvent → Report
  verify_audit_chain es =
      let errors = problems genesis 1 es in
      record {
        ok = is_none errors;
        event_count = length es;
        head_hash = head_from genesis es;
        errors = errors;
      }

  -- The event that `append_audit_event` creates.
  unfoldable pub new_event : ℕ → Text → Text → Text → Text → List AuditEvent → AuditEvent
  new_event cockpit ty now username payload es =
      let plain : AuditEvent = record {
        cockpit_id = cockpit;
        sequence = next_sequence 1 es;
        event_type = ty;
        occurred_at = now;
        actor_username = username;
        payload = or_empty payload;
        previous_hash = head_from genesis es;
        event_hash = [];
      } in
      record plain { event_hash = digest (body_of plain) }

  unfoldable pub append_audit_event :
      ℕ → Text → Text → Text → Text → List AuditEvent → List AuditEvent
  append_audit_event cockpit ty now username payload es =
      es ++ new_event cockpit ty now username payload es ∷ []
