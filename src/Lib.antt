-- ===== src/Lib.antt =====
-- The analytics service: it consumes the order events of the platform, keeps daily aggregates of them
-- in MongoDB, and answers queries on the aggregates over HTTP.
--
-- How the parts work together. lib/coreevents takes a message from the broker, records its event id
-- through EventDeduper, and hands its payload to the handler of its type; a failed handler has its
-- record removed and the message goes to the dead-letter queue. app/analytics/eventhandlers parses a
-- payload and calls app/analytics/service, which updates the five collections of
-- app/analytics/repository one after the other. The queries of the same service read those
-- collections; lib/auth checks the token of a request and lib/rbac guards the routes with a cache of
-- permissions, which pkg/httpclient fetches from core-service. lib/boot starts all of it, and
-- cmd/backfill-aggs replays the orders of the past through the same service.
--
-- Which file models which part:
--   Prelude, Go        the shared names; errors as values, int64 division, time.Time
--   Errors             lib/errors/apperror.go
--   Mongo              the driver, a parameter: `Mongo` has its operations and `MongoLaws` what the
--                      service relies on; a write that returns no error has been applied, one that
--                      fails may or may not have been. `Finds` and `Groups` are what a
--                      query with a sort and a pipeline with a group answer
--   CoreEvents         lib/coreevents: `handle_message` is handleMessage, in the parts `on_envelope`,
--                      `on_marked`, `dispatch` and `finish`; `handle_all` takes a queue in order.
--                      CoreEvents/Workers is the same code in several processes that share the
--                      store of event ids, as a step relation; a process may die between steps
--   Analytics/Types, Entity, Decode
--                      app/analytics/types.go, errors.go, enums.go and entity/*.go
--   Analytics/Repository
--                      app/analytics/repository: one module for each collection, and the indexes
--                      of indexes.go
--   Analytics/Service  app/analytics/service/analytics.service.go: Writes and Reads; Reads/Reports,
--                      BranchReports and Summary say what the reports hold. A
--                      division needs the fact that its divisor is positive, since Go panics on 0
--   Analytics/EventHandlers
--                      app/analytics/eventhandlers/handlers.go
--   Analytics/Ledger   the abstract state: the totals of every row as functions of their keys, and
--                      `view`, the ledger that the documents hold
--   Analytics/Ingest   lib/boot's wiring of the order-events consumer, and what a queue comes to,
--                      in its order and in another
--   Analytics/Dto, Analytics/Controller, Http
--                      app/analytics/dto, app/analytics/controller/analytics.controller.go,
--                      lib/http/response.go and lib/errors/handler.go
--   Auth, Analytics/Routes
--                      lib/auth, and app/analytics/controller/routes.go: `handle` is what a request
--                      to the analytics routes comes to
--   AppContext, Middleware, Server
--                      lib/appcontext, lib/middleware/correlation.go, and the root router of
--                      lib/boot/boot.go with /health; `serve` is what a request comes to, as the
--                      calls on its ResponseWriter
--   Messaging          pkg/messaging: the connection to the broker and the topology of a consumer
--   Boot, MongoClient  lib/boot/boot.go: `run` is Run, over pkg/messaging and pkg/mongo/client.go
--   Config             lib/config/env.go, with Go/Strings for what it uses of Go's strings package
--   Rbac               lib/rbac/cache.go, eventhandler.go and middleware.go; Rbac/Interleaving is
--                      the cache under several goroutines, as a step relation
--   HttpClient, CoreClient
--                      pkg/httpclient/client.go: `do_request` is Do, `round` one round of its loop,
--                      and HttpClient/Rounds says what a round comes to without reference to it;
--                      lib/coreclient, the client of core-service
--   Backfill           cmd/backfill-aggs/main.go: `backfill` is the loop over the pages,
--                      `process_order` what is done with one order, and `command` is main
--   Tests              a store in memory that satisfies `MongoLaws`, and the examples
--
-- A counter is an integer: the database adds it as an int64, and a sum beyond 2^63 is not modelled.
-- float64 is a type with a division. A stored time is what `stored_time` gives back, since a BSON date
-- has milliseconds. The retry loops of Do and of boot count the rounds that are left, maxRetries + 1
-- on an int64, which wraps at the greatest one, and five. Only the loop over the pages of the history runs on fuel: for a server whose cursors end
-- after n pages, n rounds are enough, and more give the same outcome. Every other loop goes over a list
-- or a text.
--
-- Everything but Rbac/Interleaving and CoreEvents/Workers runs one message or request at a time. Not
-- modelled: the expiry of event ids and order contexts by their TTL indexes, the HTTP server
-- of net/http, and the log lines but for the one of each request.
pub mod Prelude
pub mod Errors
pub mod Go
pub mod Mongo
pub mod CoreEvents
pub mod Analytics
pub mod Http
pub mod HttpClient
pub mod CoreClient
pub mod Backfill
pub mod Rbac
pub mod Tests
pub mod Config
pub mod Auth
pub mod AppContext
pub mod Middleware
pub mod Server
pub mod Messaging
pub mod MongoClient
pub mod Boot
