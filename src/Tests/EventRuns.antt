-- ===== src/Tests/EventRuns.antt =====
-- Runs of the theorems on the outbox of events.
use crm_multi_tenant_saas_ar.Prelude.{
  ◌≡◌, refl, Bool, true, false, String, Option, none, some, [], ◌∷◌, arith,
}
use crm_multi_tenant_saas_ar.Prelude.Dict.{Dict, lookup}
use crm_multi_tenant_saas_ar.Events.{
  EventDefinition, pending, queued, EventRow, EventJob, Outbox, poll, process, finished,
}
use crm_multi_tenant_saas_ar.Events.Delivery.{
  inserts, polls, runs, Reach, start, then_step, Delivered, Reach-Delivered,
}
use crm_multi_tenant_saas_ar.Tests.Samples.{id_a}

abbrev created : EventRow
created = record {
  id = "e1";
  tenant_id = id_a;
  event_name = "customer.created";
  plugin = "customer-data";
  payload = "{}";
  status = pending;
  queued_at = none;
  expires_at = 604800000;
}

abbrev empty : Outbox
empty = record { rows = []; jobs = []; fired = [] }

abbrev with_row : Outbox
with_row = record { rows = created ∷ []; jobs = []; fired = [] }

abbrev tier_of : String → Option String
tier_of _ = some "premium"

abbrev unlocked : String → Bool
unlocked _ = false

abbrev up : EventJob → Bool
up _ = true

abbrev job : EventJob
job = record {
  event_id = "e1";
  event_name = "customer.created";
  tenant_id = id_a;
  tenant_tier = "premium";
  payload = "{}";
}

abbrev done : Outbox
done = process finished "e1" (poll tier_of unlocked up 5000 with_row)

-- The event is inserted, polled, and run.
life : Reach 10000 empty done
life =
    then_step 6000 (omega arith)
      (then_step 5000 (omega arith) (then_step 0 (omega arith) start (inserts created refl))
        (polls tier_of unlocked up))
      (runs finished job)

Reach-Delivered_example : Delivered done.fired done.rows
Reach-Delivered_example = Reach-Delivered life

abbrev created_definition : EventDefinition String
created_definition = record { name = "customer.created"; plugin = "customer-data"; parse = some }

abbrev definitions : Dict (EventDefinition String)
definitions = ("customer.created", created_definition) ∷ []

known : lookup "customer.created" definitions ≡ some created_definition
unfolding lookup
known = refl

later : Reach 10000 with_row done
later =
    then_step 6000 (omega arith) (then_step 5000 (omega arith) start (polls tier_of unlocked up))
      (runs finished job)

-- A job that BullMQ has lost.
abbrev lost : Outbox
lost = record {
  rows = record created { status = queued; queued_at = some 5000 } ∷ [];
  jobs = [];
  fired = [];
}
