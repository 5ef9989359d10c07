-- ===== src/Lib.antt =====
-- A backend for property enquiries, in TypeScript on Express: clients send enquiries about
-- properties, which are stored in MySQL and handed to job queues; a CRM reports back by webhook;
-- property data of a CMS is read through a cache in Redis.
--
-- The files and the code:
--   * Prelude: the library names that the others share, Boolean tests on native numbers, lists
--     measured by them, and JavaScript strings as lists of their code units (`Text`).
--   * Json: JSON values, of which numbers are natural numbers.
--   * Errors: src/middleware/errorHandler.ts. `Thrown` is what a handler can throw, `error_handler`
--     is `errorHandler`.
--   * Effects: an asynchronous function that may throw is a function from a state to a result and
--     a state. What was written before a throw stays written.
--   * Database: the tables of migrations/001_init.sql, the shared state (`World`), and one function
--     for each SQL statement of the services.
--   * Transaction: `withTransaction` of src/config/db.ts.
--   * Hash: src/utils/hash.ts, `fingerprintEnquiry` and `verifyHmacSignature`.
--   * Enquiries: src/services/enquiry.service.ts, but for its list, with `enqueueCrmSync` and
--     `enqueueEmail` of src/queues.
--   * Concurrent: `createEnquiry` of src/services/enquiry.service.ts again, for any number of
--     requests whose calls follow each other in any order.
--   * Listing: `listEnquiries` of src/services/enquiry.service.ts.
--   * EnquiryApi: src/controllers/enquiry.controller.ts and `asyncHandler`.
--   * Crm: src/services/crm.service.ts and src/controllers/webhook.controller.ts.
--   * Redis: the Redis commands that the program sends, as an interface with laws, and a store in
--     memory that obeys them.
--   * Cache: src/services/cache.service.ts.
--   * Idempotency: src/middleware/idempotency.ts.
--   * Security: `requestId`, `sanitizeBody` and `corsOriginValidator` of
--     src/middleware/security.ts.
--   * Cms: src/services/wpGraphQL.service.ts and src/controllers/property.controller.ts.
--   * Validators: src/validators/enquiry.validator.ts, its four schemas and `validate`.
--   * RateLimiter: src/middleware/rateLimiter.ts, over the counters of express-rate-limit as an
--     interface with laws, and counters in memory that obey them.
--   * Workers: src/queues/queue.config.ts, crmSync.worker.ts and email.worker.ts beside it. A job
--     goes on by turns: an attempt, the end of a delay, or its event of failure.
--   * Health: the readiness check of src/routes/health.routes.ts and `verifyDbConnection` of
--     src/config/db.ts.
--   * Env: src/config/env.ts, the schema of the environment.
--   * Server: src/server.ts, the start and the shutdown of the process as a run of its events.
--   * WorkerProcess: src/worker.ts, the start and the shutdown of the process of the workers.
--   * App: src/app.ts and src/routes: the chain of middleware of every route, over the state that
--     the requests share, and the steps of the system beside them.
--   * Migrate: scripts/migrate.ts, and the seed rows of migrations/001_init.sql.
--   * Samples: the data of the instances, which stand in the modules named Tests.
-- A definition has the name of the function it models, in snake case.
--
-- How the parts interact: the handlers of EnquiryApi and Crm call the services, which call MySQL
-- through Database, within a transaction where the code opens one, and then the queues. In App a
-- request passes the list of origins, the parsing and cleaning of its body, the limiters, for POST
-- /api/enquiry the idempotency middleware, the validation and at last its handler. App.Reach adds
-- the refreshes of the cache, the attempts of the workers and the passing of time; App.Timed is the
-- listener that observes each response. Workers.Journey follows one enquiry from its creation
-- through its CRM job, and Concurrent.Alone relates the interleaved requests to `create_enquiry`.
--
-- Choices of the model:
--   * `World` holds the tables, the snapshot of an open transaction, the number of connections on
--     loan, the queued jobs, the counters, the clock, and a list that says for each coming call to
--     MySQL or a queue whether it is answered, is refused, or takes effect while its answer is
--     lost. A theorem about any `World` is about any such failures. Past the end of the list every
--     call is answered.
--   * A session that ends with its transaction open is rolled back by the server, so a ROLLBACK
--     whose answer is lost restores the tables too. A refused INSERT uses up its id, and a rollback
--     gives none back.
--   * One request runs at a time, but for the requests with a key in Idempotency, which come before
--     or after a response, and in Concurrent, where each call of `createEnquiry` is a step of
--     its own: the INSERT with the SELECT of the own row behind it, and the opening of the
--     transaction with its first SELECT. An INSERT waits while another transaction holds its value
--     of the unique index. A call that waits for too long or is chosen to end a deadlock counts as
--     one that fails. App takes the route that Express matches, and what it makes of a body, from
--     the request.
--   * `sha256`, `hmac`, `toLowerCase`, `sanitizeHtml`, `JSON.stringify`, the CMS client, MySQL's
--     test of a JSON text, and what zod makes of a number, an email or a URL are parameters, most of
--     them in `Platform`, `Setup` and `Zod`, and so are the connection and the files of the
--     migration script, in `Deployment`.
--   * Times of Redis and of the cache are in milliseconds; a bound on an age in seconds is written
--     as a bound on the time. A command of Redis is answered, but for those of the queues, the
--     PING of the readiness check, the reads of Cache.Failing and Cms.Unreachable, and
--     Idempotency.Faulty.
--   * A VARCHAR column measures the characters of a text, and `message` its bytes in UTF-8. Slugs
--     and fingerprints are compared unit by unit, where MySQL's default collation also takes
--     letters for equal that differ in case or accent.
--   * `decimal n` has fuel `n + 1`, more than the number of its digits, as each digit divides by
--     ten. The walk through the list has fuel for its requests, and its theorem says how much is
--     enough.
--
-- Not modelled: the middleware that libraries make, the matching of paths and the answers to
-- OPTIONS, the registry of the metrics, the GraphQL client, page sizes below 0, a slug in the body
-- of a webhook that is no text, the connection to Redis, logging, and the settings of PM2, Docker
-- and Nginx. Most are calls of a library, or input and output.
pub mod Prelude
pub mod Json
pub mod Errors
pub mod Effects
pub mod Database
pub mod Transaction
pub mod Hash
pub mod Enquiries
pub mod Listing
pub mod EnquiryApi
pub mod Crm
pub mod Redis
pub mod Cache
pub mod Idempotency
pub mod Cms
pub mod Security
pub mod Validators
pub mod RateLimiter
pub mod Workers
pub mod Health
pub mod Env
pub mod Server
pub mod WorkerProcess
pub mod Concurrent
pub mod App
pub mod Migrate
pub mod Samples
