-- ===== src/Lib.antt =====
-- kamu-llm-gateway: the control plane of an LLM gateway. The api (api/src) keeps teams, gateway keys,
-- prices and a usage ledger in Postgres; kamuhub and its users reach it over HTTP, services hold
-- gateway keys, and the proxy machines, which serve the LLM traffic, are polled for the usage that the
-- api prices and charges.
--
-- The parts, and the files that model them:
--   Prelude     texts as lists of code points, JavaScript maps, hexadecimal, sorting, and lists
--   Types       shared/types.ts
--   Pricing     shared/pricing.ts: computeCostUsd, pickPrice
--   Catalog     shared/catalog.ts
--   PriceCache  api/src/lib/pricing.ts: loadPrices, priceTable, priceUsage
--   Prices      shared/prices.ts: effectivePrice, parsePriceForm
--   Internal    api/src/routes/internal.ts: GET and POST /internal/prices
--   UsageId     cursorOf and usageIdAtLeast of api/src/routes/usage.ts, withOverlap of
--               api/src/lib/usage-poller.ts
--   Database    the llm schema (database/migrations) as lists of rows, and the updates of llm.keys
--   Credentials api/src/lib/keys.ts: secrets, extractCredential, verifyGatewayCredential
--   Http        replies, and the errors that app.onError of api/src/main.ts turns into replies
--   Keys        api/src/routes/keys.ts: Keys/Create, Keys/Revoke and Keys/Derive hold POST /keys,
--               POST /keys/:id/revoke and POST /keys/derive; Keys/Read holds GET /keys, GET /keys/:id
--               and GET /teams (api/src/routes/teams.ts)
--   Poller      api/src/lib/usage-poller.ts: one page in Poller, pollOnce and pollAll in Poller/Pages,
--               satellites in Poller/Satellites, start, ingestNow and the interval in Poller/Passes
--   Usage       api/src/routes/usage.ts: GET /usage, /usage/totals and /usage/facets (Usage/Facets) of
--               a user, the key holder's page, and the key holder's GET /usage in Usage/Read
--   Teams       api/src/lib/kamuid-sync.ts: parseOrgs, ensureTeams, reconcileTeams, and decodeJwtPayload
--               in Teams/Decode
--   Platform    api/src/lib/platform-context.ts: verifyPlatformContext
--   Auth        api/src/middleware/auth.ts and api/src/middleware/grants.ts
--   Access      the routes of api/src/routes/keys.ts behind authMiddleware and requireGrant
--   Ed25519     api/src/lib/ed25519.ts: the signing key pair
--   DevToken    scripts/dev-token.ts
--   Migrate     database/migrate.ts: up, down, seed and reset
--   NewMigration
--               database/new-migration.ts: the files of a new migration
--   Logging     api/src/lib/logger.ts and api/src/middleware/request-logger.ts
--   Admin       admin/src, the operators' console: its session gate, and admin/src/routes/keys.tsx,
--               prices.tsx, settings.tsx and usage.tsx in Admin/Keys, Admin/Prices, Admin/Settings and
--               Admin/Usage
--   System      the writes to llm.keys as steps that interleave
--   Tests       each result at an example
--
-- A handler is a function from the request and the tables to a reply and the tables; an
-- HTTPException is an error reply. A statement of SQL is a function on a list of rows. Requests that
-- run at the same time are steps of System.Step: a derive is checked in one step and inserted in a
-- later one, which its advisory lock makes a single step; everything else that a handler of the api or
-- of the console does to the keys is one step. The passes of the poller on one api machine are another
-- system of steps, Poller.Passes.Step: a pass ends in one step, its finally callback, and the
-- callbacks on its promise run in a later one.
--
-- Ids are numbers, since the code only compares them; a usage id is the text of a UUID. Times are
-- milliseconds, a requested lifetime is in thousandths of a second, and money is a fixed-point
-- number with twelve decimals; amounts and budgets are not negative and fit their columns. A
-- cursor of a usage id stamped before 2026 is negative in the source and cut off at zero here. A
-- poll takes the number of pages that it may read as fuel: one page more than the rows fill is
-- enough, and the poll's result says when the fuel has run out.
--
-- Code that is not in the repository is a parameter: SHA-256 and the text encoder, the signing and
-- verification of tokens, JSON.parse, Number and Date, the identity provider, the answers of the proxy
-- machines and of the DNS, the parsing of a URL, base64, the order of equal rows in an answer of the
-- database and the ids that it makes.
--
-- A lookup in the catalog finds its own entries; the names that a JavaScript object inherits are not
-- modelled as models.
--
-- Not modelled: the proxy (Go), the markup of the console's pages, the sessions of better-auth, the
-- constraints and triggers of the schema (a raised budget reactivates a key by a trigger), the
-- validation of the environment by zod, the text of a log line, the routing of requests to the handlers
-- and start-up.
pub mod Prelude
pub mod Types
pub mod Pricing
pub mod Catalog
pub mod UsageId
pub mod Database
pub mod Credentials
pub mod Http
pub mod Keys
pub mod Logging
pub mod Poller
pub mod Teams
pub mod Auth
pub mod Access
pub mod DevToken
pub mod Platform
pub mod Ed25519
pub mod Usage
pub mod Prices
pub mod Internal
pub mod Migrate
pub mod NewMigration
pub mod Admin
pub mod System
pub mod Tests
pub mod PriceCache
