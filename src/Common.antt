-- ===== src/Common.antt =====
-- apps/common: the append-only event table and `append_domain_event`. The payload, the actor and the
-- time of an event are left out: they are stored and never read by the services.
mod Tests
use mrp_django.Inventory.Model.{type_eq}
use mrp_django.Prelude.{
  ==_iff, Bool, List, Option, Option-cases, Text, [], ap, arith, false, if◌then◌else◌, inl, inr,
  ltb, nat_eq, none, option_eq, pair_eq, refl, some, suc, sym, text_eq, true, zero, ℕ, ◌%◌, ◌+◌,
  ◌/◌, ◌==◌, ◌∙◌, ◌∷◌, ◌≡◌,
}

-- `str(pk)`: the decimal digits of a row id, most significant first.
digits_onto : ℕ → ℕ → Text → Text
digits_onto zero n t = t
digits_onto (suc fuel) n t =
    let rest = digits_onto fuel (n / 10) ((b'0' + n % 10) ∷ t) in
    if ltb n 10 then (b'0' + n) ∷ t else rest

unfoldable pub show : ℕ → Text
unfolding digits_onto
show n = digits_onto (suc n) n []

pub record DomainEvent : Type 0 where
  pub idempotency_key : Text
  pub event_type : Text
  pub aggregate_type : Text
  pub aggregate_id : Text

unfoldable pub find_event : Text → List DomainEvent → Option DomainEvent
find_event k [] = none
find_event k (e ∷ es) = if e.idempotency_key == k then some e else find_event k es

-- `append_domain_event`: `get_or_create` by the key; the event and the table.
unfoldable pub append_domain_event :
    DomainEvent → List DomainEvent → (DomainEvent × Bool) × List DomainEvent
append_domain_event e es = elim (find_event e.idempotency_key es) [
  | none ↦ ((e, true), e ∷ es)
  | some old ↦ ((old, false), es)
]

-- No two events of the table share a key.
abbrev pub EventsUnique : List DomainEvent → Type 0
EventsUnique [] = Unit
EventsUnique (e ∷ es) = (find_event e.idempotency_key es ≡ none) × EventsUnique es

pub append-new :
    (e : DomainEvent) (es : List DomainEvent)
    → find_event e.idempotency_key es ≡ none
    → append_domain_event e es ≡ ((e, true), e ∷ es)
unfolding append_domain_event
append-new e es n = ground (arith, n)

pub append-old :
    (e : DomainEvent) (es : List DomainEvent) {old : DomainEvent}
    → find_event e.idempotency_key es ≡ some old
    → append_domain_event e es ≡ ((old, false), es)
unfolding append_domain_event
append-old e es f = ground (arith, f)

-- Appending keeps the keys unique, leaves every earlier event in place, and makes the key findable;
-- a second append with the key changes nothing and returns the event that is there.
pub append_domain_event_lem :
    (e e' : DomainEvent) (es : List DomainEvent)
    → e'.idempotency_key ≡ e.idempotency_key
    → EventsUnique es
    → let ((stored, created), after) = append_domain_event e es in
      EventsUnique after
      × (find_event e.idempotency_key after ≡ some stored)
      × ((k : Text) (old : DomainEvent)
          → find_event k es ≡ some old
          → find_event k after ≡ some old)
      × (append_domain_event e' after ≡ ((stored, false), after))
unfolding append_domain_event find_event
append_domain_event_lem e e' es same u = elim (Option-cases (find_event e.idempotency_key es)) [
  | inl n ↦ rw (append-new e es n) (
    (n, u),
    ground (arith, self),
    λ k old found. ground (arith, n, found, ==_iff e.idempotency_key k),
    ground (arith, same, (==_iff e.idempotency_key e'.idempotency_key).1 (sym same)),
  )
  | inr (old, f) ↦
      rw (append-old e es f)
        (u, f, λ k o h. h, append-old e' es (ap (λ k. find_event k es) same ∙ f))
]
  where
    self : (e.idempotency_key == e.idempotency_key) ≡ true
    self = (==_iff e.idempotency_key e.idempotency_key).1 refl
