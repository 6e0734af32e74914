-- ===== src/Lib.antt =====
-- CH-Api-Authenticator: the accounts, sessions and roles of CustHome, as an HTTP service over MongoDB.
--
-- The program and its model. A request reaches a handler (src/handlers/), which takes its payload and
-- the claims of its access token (src/middleware/auth.rs), checks them (src/validation.rs), and calls
-- the repositories (src/repository/) and the services (src/services/). What the program reads and
-- changes is `World` of State.antt: the six collections and their indexes, the three rate limiters, the
-- emails and the events sent. What is fixed at the start is `AppState`. A handler is a function from a
-- world to a result and a world (Exec.antt), in the order of the calls in the source; what was written
-- before an error stays written. Service.antt puts the parts together: each request with its handler,
-- a policy of what one request may write, given what it brings and what it finds, and histories of
-- requests that are served one after another, beside the server's deletion of expired tokens. The
-- calls of two requests interleave only in Repository/RefreshTokens/Rotation.antt, where each call is a
-- step.
--
-- Files:
--   Base: shared names, lists over the native numbers, and the text functions of Rust's `str`.
--   Error: src/error.rs. Exec: results, and code with state that may fail.
--   Domain: src/domain/ (accounts, roles, the three stored formats of roles, events).
--   Mongo: the MongoDB driver, as a record of calls and of laws that state their documented
--     behaviour, failures included; each repository takes one for its collection.
--   Repository: src/repository/, a module for each file; `Calls` modules say what a call that
--     succeeds found and wrote. Repository/Indexes: the indexes that they ask for, which say when two
--     accounts conflict. Repository/Dates: the expiry dates of both kinds of tokens.
--   Services: src/services/jwt.rs, client_ip.rs, whitelist.rs, rate_limit.rs; Net and Crypto are the
--     interfaces of what they, password.rs and secure_token.rs call, and Crypto/Crates the code of the
--     last two. Missive and Relay: the clients of
--     src/services/missive.rs and relay.rs, with the request and the options that they send.
--   Middleware: src/middleware/. Validation: src/validation.rs. Config: src/config.rs; Defaults
--     holds the values of absent keys, and how the secrets are printed.
--   State: src/state.rs, the email of src/services/missive.rs and the event of src/services/relay.rs.
--   Handlers: src/handlers/, a module for each file. Cookies is the part of session.rs that writes and
--     reads cookies, Request what a handler takes from its request, Health both health.rs and ping.rs.
--   Service: src/routes.rs. Requests is the dispatch to the handlers, Routes the table of paths, Policy
--     and Runs the steps that a request may take, History what every history of requests keeps;
--     the `Steps` modules of the handlers show that each takes steps of the policy only.
--   Startup: src/main.rs; Launch is the start as a whole, with `AppState::new` of src/state.rs,
--     Launch/Indexes the indexes that it leaves, Launch/Lifetime what starts and histories keep.
--   Examples: concrete instances of all parameters, and each theorem applied to them.
--
-- Parameters. The other crates are records of functions with named hypotheses: the driver's laws, a
-- token reads back under its key until it expires, a password verifies against its own hash, an
-- address and an id read back from their texts. The tables of Unicode, the `validator` crate's test
-- of an email, the order of its errors, the keyed state of the `governor` crate and the aggregation
-- that the server runs have no hypothesis. `Ambient` gives a request its readings of the clock, its
-- peer, its headers and what is drawn at random.
--
-- Numbers. Times are milliseconds, and durations of limits nanoseconds, as natural numbers; products
-- and sums in 64 bits wrap (`wrap64`), also where a build that checks overflow would stop. A date is
-- not before 1970. All recursion is on lists and texts, so no fuel is used.
--
-- Not modelled: axum's choice among routes, HTTP framing and JSON, logs, the HTTP and MQTT exchanges
-- with the mail and relay services, the connection to MongoDB and the socket that the service
-- listens on. A panic of `expect` on an account with no id is kept as an internal
-- error.
pub mod Base
pub mod Error
pub mod Examples
pub mod Exec
pub mod Domain
pub mod Mongo
pub mod Repository
pub mod Service
pub mod Services
pub mod Handlers
pub mod Middleware
pub mod Validation
pub mod Config
pub mod State
pub mod Startup
