-- ===== src/Tests/Startup.antt =====
-- The settings and the start of a process, at concrete tenants.
use distributed_document_sea.Prelude.{◌≡◌, inl, refl, Text, text, true, [], ◌∷◌, arith}
use distributed_document_sea.Errors.{ok}
use distributed_document_sea.Keys.{is_space, lstrip, rstrip}
use distributed_document_sea.Config.{seeded_tenants}
use distributed_document_sea.Config.RoundTrip.{IsPlain, written, seeded_tenants-written}
use distributed_document_sea.Tenants.{Registry}
use distributed_document_sea.Startup.{seed_tenants, seed_all, seed_one, find_tenant, hash_taken}
use distributed_document_sea.Startup.Seeding.{AllHashed, seeding_again}
use distributed_document_sea.Events.{event_index}
use distributed_document_sea.Events.Topology.{
  QueueSettings, declare_topology, bound, main_queue, retry_queue, dlq, dlq_exchange,
}
use distributed_document_sea.Events.Rounds.{dead_lettered_to, topology_rounds}

abbrev first : Text × Text
first = (text "a", text "k:1")

abbrev second : Text × Text
second = (text "b", text "k2")

first-IsPlain : IsPlain first
unfolding lstrip rstrip is_space
first-IsPlain = ground arith

second-IsPlain : IsPlain second
unfolding lstrip rstrip is_space
second-IsPlain = ground arith

seeded_tenants-written_example :
    seeded_tenants (written (first ∷ second ∷ [])) ≡ first ∷ second ∷ []
seeded_tenants-written_example =
    seeded_tenants-written first (second ∷ []) (first-IsPlain, (second-IsPlain, tt))

abbrev empty : Registry
empty = record { tenants = []; reachable = true }

abbrev id : Text → Text
id s = s

abbrev seeded : Registry
seeded = (seed_tenants id id 120 (first ∷ []) empty).1

seeds : (seed_tenants id id 120 (first ∷ []) empty).0 ≡ ok tt
unfolding seed_tenants seed_all seed_one find_tenant hash_taken
seeds = refl

seeding_again_example :
    AllHashed id id 120 (first ∷ []) seeded.tenants
    × (seed_tenants id id 120 (first ∷ []) seeded ≡ (ok tt, seeded))
seeding_again_example = seeding_again id id 120 (first ∷ []) empty (tt, tt) seeds

abbrev settings : QueueSettings
settings = record {
  queue_exchange = text "documents";
  queue_name = text "documents.index";
  queue_retry_name = text "documents.index.retry";
  queue_dlq_name = text "documents.index.dlq";
  queue_retry_delay_ms = 5000;
}

topology_rounds_example :
    let bindings = (declare_topology settings).bindings in
    (bound settings.queue_exchange event_index bindings ≡ settings.queue_name ∷ [])
    × (dead_lettered_to (main_queue settings).dead_letter_exchange event_index bindings
        ≡ settings.queue_retry_name ∷ [])
    × (dead_lettered_to (retry_queue settings).dead_letter_exchange event_index bindings
        ≡ settings.queue_name ∷ [])
    × (bound (dlq_exchange settings) event_index bindings ≡ settings.queue_dlq_name ∷ [])
    × (dead_lettered_to (dlq settings).dead_letter_exchange event_index bindings ≡ [])
topology_rounds_example = topology_rounds settings event_index (inl refl)
