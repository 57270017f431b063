-- ===== src/Lib.antt =====
-- Distributed document search: a multi-tenant service that stores documents in a database, indexes
-- them through a queue and a batch worker, and serves searches through a cache.
--
-- The parts, under doc-search/app, and the files that model them:
--   core/errors.py, api/exception_handlers.py          Errors, Errors/Handlers
--   core/resilience.py                                  Resilience
--   clients/cache.py                                    Cache
--   services/cache_keys.py                              Keys
--   models/document.py, repositories/                   Documents
--   clients/queue.py                                    Events (its children Topology, RabbitMq)
--   services/document_service.py, schemas/document.py   DocumentService, Schemas
--   services/search_service.py, schemas/search.py       Generation, Search, Search/SingleFlight
--   clients/search_engine.py, inmemory_engine.py        Engine, Engine/InMemory and its children
--                                                       Tokens, Snippets, Scores and Search
--   clients/opensearch_engine.py                        Engine/OpenSearch, Engine/OpenSearch/Adapter
--   workers/processor.py, reconciler.py, consumer.py    Processor, Reconciler, Consumer
--   services/rate_limiter.py                            RateLimiter
--   services/health_service.py, api/routes/health.py    Health
--   api/deps.py, api/routes/, middleware/               Tenants, Api and its children Protected,
--                                                       Replies and Routes
--   core/config.py, db/database.py, container.py        Config, Startup
-- Pipeline follows a document from its creation, and from its deletion, through the worker to a
-- search.
-- Prelude has the shared helpers; Tests has concrete data and runs of the theorems on it. A function
-- keeps its name in the source, without a leading underscore; a method is a function of its object's
-- record. The child modules of a part state and prove its properties.
--
-- How the parts interact: the document service commits a row, then tells the cache and the queue,
-- either of which may fail without failing the request. The consumer cuts deliveries into batches;
-- the processor reduces a batch to one operation for each document, taken from its current row, and
-- marks what the engine confirms; the reconciler queues again what stays pending. The search service
-- names its cached results by a counter of the tenant, which writes and the processor increment, and
-- lets equal searches that are in flight at once share one engine query. A request to a route goes
-- through the reading of its body, authentication, the limiter, the validation of its parameters, the
-- handler and the handlers of errors, in that order.
--
-- Conventions. An awaited method is a function from the state it changes to a result and the new
-- state, and an exception is a value of `Exn`. Text is a list of code points, of which those below
-- 128 are folded and stripped. A uuid is its canonical text. Times are microseconds on a natural
-- clock, read once in a call. The database is its rows, the ids of the tenants that the foreign key
-- refers to, and a flag that says whether a session reaches it; the cache, the queue and the
-- in-memory engine have the flag of the source. The limiter computes in exact sixty-millionths of a
-- token where the source has floats. The only fuel is the number of attempts of the retry loop,
-- which the source counts down too; every other loop is structural.
--
-- Parameters stand for code that is not in the repository: the JSON codec and the pydantic models
-- with their round trips (`Codec`, `Model`, `SearchModel`), the framework's reading and validation
-- of a request, sha256, `str.title`, `fromisoformat`, the acceptance and the canonical form of
-- uuids, random draws, the order of a set, the operations on floats of a score (`Floats`), the
-- calls of the clients of OpenSearch and RabbitMQ, the creation of the schema, the publication to
-- the dead-letter exchange, and the header that the broker documents for a message that went round
-- the retry queue.
--
-- Not modelled: the Redis backend and the connection pool, which only call their libraries, the
-- constant mapping of the search index, the construction and the closing of the adapters, the
-- scripts, logging and metrics (but for the breaker's gauge). In the modelled parts, log lines,
-- counters and latencies are left out.
pub mod Prelude
pub mod Errors
pub mod Resilience
pub mod Cache
pub mod Keys
pub mod Generation
pub mod Documents
pub mod Events
pub mod Engine
pub mod DocumentService
pub mod Processor
pub mod Reconciler
pub mod Config
pub mod Pipeline
pub mod Consumer
pub mod Health
pub mod RateLimiter
pub mod Search
pub mod Tests
pub mod Schemas
pub mod Tenants
pub mod Startup
pub mod Api
