-- ===== src/Lib.antt =====
-- Verification of captchapi, a service that issues CAPTCHA sessions, serves their pictures and
-- validates solutions, with API keys, an administration and a layered configuration.
--
-- How the program is modelled. A handler or service method of the repository is a function by
-- clauses in the state and error monad `Exec` of World: it reads and changes a `World`, which holds
-- the database tables, the metric counters and the number of interactions with the outside so far,
-- and returns a `Result`. The outside (clock, randomness, the database's readiness to run a
-- statement) is a record of functions of that number, about which nothing is assumed: every
-- statement may fail, and the clock may jump. An error keeps what was written before it, except in a
-- transaction. Machine integers are integers that wrap where the source computes; timestamps and
-- counts are such integers.
--
--   Prelude         shared names, lists and Boolean tests over the native numbers, integers, text
--   Table           a database table, its statements, and what a SELECT returns after each
--   Error           src/error.rs: errors, their responses and counters
--   Models          src/models/: rows, sessions, API keys, expiry
--   World           the state, the outside and the monad; counters of src/metrics.rs; rows of
--                   migrations/
--   Validation      src/validation.rs
--   Storage         src/services/storage.rs: Sessions and ApiKeys, one function per method
--   Crypto          src/services/hmac.rs, solution_hash.rs, image_cipher.rs and auth.rs; the crates
--                   sha2, hex, subtle and chacha20poly1305 are the parameter `Primitives`
--   Captcha         src/services/captcha/: Captcha.Generator and Captcha.Render are generator.rs,
--                   Captcha.Mask is drawing.rs as far as it is about the masks of letters,
--                   Captcha.Service is mod.rs; Captcha.Floats is what is taken of f32, f64 and the
--                   crate rand, Captcha.Draw the monad of random draws that may panic
--   Sessions        src/services/session_ops.rs: `*_orchestrated`, for any renderer;
--                   Sessions.Routes is src/routes/sessions.rs, Sessions.Cleanup is
--                   `cleanup_expired_sessions` of src/tasks/cleanup.rs, Sessions.Race runs requests
--                   that overlap
--   ApiKeys         src/services/api_key_ops.rs and src/routes/api_keys.rs
--   Auth            src/middleware/auth.rs, both middlewares
--   Config          Config.Params is the table of src/config/params.rs; Config.Layers and Config.Files
--                   are src/config/sources.rs; Config.Text is how the standard library reads and
--                   writes numbers; Config.Values is `Config` of src/config/mod.rs; Config.Handle is
--                   src/config/handle.rs; Config.Boot is src/config/boot.rs and the second phase of
--                   the start in src/main.rs
--   Cli             src/cli.rs: the layers that the command line names, resolving, the actions;
--                   Cli.Parse is `parse`, with pico-args the parameter `Arguments`
--   ConfigStore     src/services/config_store.rs; ConfigStore.Boot has `prepare_boot` and `confirm`,
--                   ConfigStore.Written and Removed are on writes, Numbering on generations;
--                   serde_json is the parameter `Codec`
--   Restart         src/restart.rs: the restart handle and the check of the address
--   Admin           src/routes/admin.rs, one function per handler, and the reload on SIGHUP of
--                   src/main.rs; Admin.Context is the state of a request, Admin.Describe what the
--                   endpoints tell
--   Tasks           Tasks.Cleanup is the loop of src/tasks/cleanup.rs, Tasks.LogFilter that of
--                   src/tasks/log_filter.rs with `apply` of src/telemetry.rs
--   Middleware      src/middleware/request_id.rs and metrics.rs, src/routes/health.rs
--   App             src/app.rs, up to the router, and src/services/rate_limiter.rs; tower_governor is
--                   the parameter `Governor`
--   Tests           concrete inputs
--
-- The parts interact as in the source: Sessions.Routes checks a request by Validation, calls
-- Sessions, which uses Crypto and Storage on the tables; Auth looks keys up that ApiKeys stores;
-- ConfigStore consults the table of Config.Params on what may be stored, and its settings are one
-- layer of Config.Layers.
--
-- Resolving a configuration reads files: the file system, the environment and the parsers dotenvy,
-- toml and tracing-subscriber are the record `System`, and a request reads a new one each time, since
-- the files may have changed. An operation of the handle runs under its lock, so it is one step, and
-- Config.Handle.History is the relation of the handles that sequences of steps reach. Errors of
-- resolving are the texts of the source. Admin works on the state of World and a handle; the
-- background tasks are state machines that take one event of their `select!` at a time.
--
-- Loops are structural recursion on lists; the digits of a number are written in 20 rounds, which the
-- 64 bits of the source never exceed.
--
-- The renderer computes in floats: they are the record `Floats`, with the laws that are relied on
-- in `FloatLaws`; the font, the canvas and the routines that draw on it are the record `Drawing`,
-- which return: that those on masks do not leave their buffers is proved apart, in Captcha.Mask. A
-- subtraction of unsigned numbers below zero, a division by zero, an index or a random range out of
-- bounds ends a draw, as the panic does.
--
-- Not modelled: the routines of src/services/captcha/drawing.rs that are copied from the crate
-- imageproc (lines, curves, circles, noise, mixing two colours), the blur of the canvas and the
-- rasterizing there, the sockets, the pool and the router of src/main.rs and src/app.rs, the set-up
-- of OpenTelemetry, the replacing of the process image, what the command line prints, the counting
-- of the rate limiter and the bindings: they are I/O and calls of libraries, or lie outside the
-- core that is modelled. Log lines are left out everywhere.
pub mod Prelude
pub mod Table
pub mod Error
pub mod Models
pub mod World
pub mod Validation
pub mod Storage
pub mod Crypto
pub mod Captcha
pub mod Sessions
pub mod ApiKeys
pub mod Auth
pub mod Middleware
pub mod Cli
pub mod Config
pub mod ConfigStore
pub mod Restart
pub mod Admin
pub mod App
pub mod Tasks
pub mod Tests
