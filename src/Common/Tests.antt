-- ===== src/Common/Tests.antt =====
-- The event table at two concrete events.
use mrp_django.Common.{
  DomainEvent, EventsUnique, append_domain_event, append_domain_event_lem, find_event, show,
}
use mrp_django.Prelude.{Text, [], codes, false, refl, some, ◌≡◌}

abbrev event : DomainEvent
event = record {
  idempotency_key = codes "e-1";
  event_type = codes "A";
  aggregate_type = codes "B";
  aggregate_id = show 10;
}

show-runs : show 1203 ≡ codes "1203"
unfolding show
show-runs = refl

append_domain_event_lem_example :
    let ((stored, created), after) = append_domain_event event [] in
    EventsUnique after
    × (find_event (codes "e-1") after ≡ some stored)
    × ((k : Text) (old : DomainEvent) → find_event k [] ≡ some old → find_event k after ≡ some old)
    × (append_domain_event event after ≡ ((stored, false), after))
append_domain_event_lem_example = append_domain_event_lem event event [] refl tt
