-- ===== src/Lib.antt =====
-- Gaty: gates that open by permission, by schedule and by access code.
--
-- A gate is opened or closed through one of three doors. A member's session or API token calls
-- Trigger of internal/service/gate.go, which asks the permissions and schedule links
-- (internal/repository/postgres/policy.go and credential_policy.go) and the schedules
-- (internal/service/schedule.go). A visitor with an access code calls Unlock or Open of
-- internal/service/gate_pin.go, which counts attempts and uses in Redis. Devices report a status, which
-- internal/service/gate_status.go passes through the gate's rules and stores. The routes are guarded by
-- internal/middleware.
--
-- Who a member is, internal/service/auth.go decides by a password, and internal/service/sso.go by the
-- token of a provider; both answer with a pair of tokens, of which the refresh token is kept in Redis
-- and redeemed once. Members, credentials, schedules, codes and custom domains are administered by the
-- handlers of internal/handler, which call services or repositories. A host name that a look-up in DNS
-- verified leads to a gate (internal/handler/custom_domain.go, internal/middleware/tenant.go).
--
-- Files:
--   Prelude, Prelude/*   shared names, Boolean tests and list lemmas
--   Errors               internal/model/errors.go; errors and results as values
--   Json                 the values that encoding/json fills into Go's `any`
--   Schedule, Schedule/* internal/model/access_schedule.go and internal/service/schedule.go: Clock
--                        (parseHHMM, dates), Rule (validateRule and the matchers), Expr (evalExpr,
--                        validateExpr), Check, Store (the table access_schedules), Handlers
--                        (internal/handler/access_schedule.go); Windows, Dates, Meaning, Truth, Parse
--                        and Stored hold theorems
--   Policy, Policy/*     the tables access_policies and schedule_links; Member and Credential are the
--                        two repositories; Laws, Links, Integrity, Reach and Refinement hold
--                        theorems; Handlers is internal/handler/policy.go
--   Gate, Gate/*         internal/model/gate.go; Status (rules and payload mappings), Validation
--                        (internal/handler/gate_validation.go), Service (Get, List, Update and the
--                        tokens of internal/service/gate.go and gate_token.go), Table
--                        (internal/repository/postgres/gate.go, internal/service/gate_status.go and
--                        markExpired of gate_ttl.go), Transitions (checkTransitions of gate_ttl.go),
--                        Creation (Create), Handlers (internal/handler/gate.go); Accepted, Updates,
--                        Tokens, Ticks, Keys, Armed and Configured hold theorems
--   Trigger, Trigger/*   Trigger of internal/service/gate.go; Allowed and Store hold theorems
--   Pagination           internal/model/pagination.go
--   Redis, Redis/*       the interface to Redis; InMemory is a store for tests
--   Http                 what a handler of package huma answers
--   Pin, Pin/*           internal/service/gate_pin.go: validatePIN in Pin, Unlock and Open in Session,
--                        the rest in Admin; Handlers is internal/handler/gate_pin.go; Counters, Counted,
--                        Granted, Attempts, Uses and Created hold theorems
--   Access, Access/*     internal/middleware/auth.go and rbac.go, RateLimit ratelimit.go; Guards
--                        and RateLimit hold theorems
--   Accounts, Accounts/* the tables members and credentials (internal/repository/postgres/member.go and
--                        credential.go), Service (internal/service/member.go and credential.go),
--                        Handlers and Administration (internal/handler/credential.go and member.go)
--   Auth, Auth/*         internal/service/auth.go: Register and Login in Auth, the tokens in Tokens,
--                        Refresh in Refresh; Handlers is internal/handler/auth.go and setup.go;
--                        Passwords, Sessions, Rounds, Redeemed, Logins and Setup hold theorems
--   Domains, Domains/*   internal/repository/postgres/custom_domain.go; Handlers is
--                        internal/handler/custom_domain.go, Tenant internal/middleware/tenant.go;
--                        Verified and Served hold theorems
--   Sso, Sso/*           internal/service/sso.go and sso_oidc.go; Handlers is internal/handler/sso.go;
--                        Provisioned and Exchanged hold theorems
--   */Tests              runs on concrete values
--
-- How the code is read. A UUID is a number, 0 the nil UUID. A Go error is a value of Err, and a pair of
-- a value and an error a Result. `int` and `int64` are ℤ; only a duration in seconds, which the code
-- multiplies, wraps around at 64 bits. A float64 is its bit pattern. The clock, Redis, bcrypt, JWT
-- signing, random bytes, SHA-256, encoding/json, strconv.ParseFloat and fmt's %v are parameters. A Redis
-- command may be lost before or after it is carried out (Fate). Tables are lists of rows. Every
-- definition is structurally recursive, so that no fuel is needed.
--
-- A list that the database orders is ordered by a parameter, or stands newest first. An identifier, a
-- random token and the time of a new row are arguments. The prefix of a subject that makes a username
-- unique is taken in characters, which are bytes for ASCII. What the OpenID library does (discovery, the
-- exchange of a code, the verification of a token) is a parameter, as is the look-up in DNS.
--
-- Not modelled: the streams and inbound messages, the settings of single sign-on, MQTT, the webhook
-- poller, and the set-up of the process. The expiry of Redis keys is left to the environment, as are
-- lost connections to the database; commands of the TTL worker are not lost. Two requests do not
-- interleave: a handler is one step.
pub mod Prelude
pub mod Errors
pub mod Schedule
pub mod Policy
pub mod Json
pub mod Gate
pub mod Trigger
pub mod Redis
pub mod Pagination
pub mod Pin
pub mod Access
pub mod Http
pub mod Accounts
pub mod Auth
pub mod Domains
pub mod Sso
