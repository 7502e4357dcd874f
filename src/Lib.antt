-- ===== src/Lib.antt =====
-- A model of the back end of a multi-tenant CRM, and what holds of it.
--
-- A request passes the gateway (backend/src/gateway), which resolves its tenant, limits its rate,
-- grants its origin and checks its token; the application then runs in the context of the tenant
-- (backend/src/dal), which scopes sessions, counts queries and keys the cache. Users log in at
-- backend/src/api/v1/auth. Administrators create, change and close tenants and switch their
-- plugins at backend/src/api/v1/admin/tenants; plugins and their hooks are in backend/src/plugins.
--
-- Which file models what:
--   Dal/Context       TenantContext.ts and QueryCounter.ts: the store of a request, its query count.
--   Dal/Uuid          the UUID test of QueryInterceptor.ts, PoolRegistry.ts and the resolver.
--   Dal/Quota         TenantQuotaEnforcer.ts: slots per tenant, in a map of places of objects; acquire
--                     waits in a polling loop on the object that it has captured.
--   Dal/Interceptor   QueryInterceptor.ts: acquireConnection and releaseConnection of Knex.
--   Dal/Pool          PoolRegistry.ts: shared and dedicated pools.
--   Dal/Cache         CacheManager.ts: keys per tenant, the tenant lookup, flushes by SCAN.
--   Gateway/Host, Gateway/Resolver   tenant-resolver.middleware.ts.
--   Gateway/RateLimit tenant-rate-limit.middleware.ts.
--   Gateway/Cors      tenant-cors.middleware.ts.
--   Gateway/Jwt       jwt.strategy.ts and jwt-auth.guard.ts.
--   Auth              auth.service.ts: login, refresh, logout. Auth/Platform: admin-auth.service.ts
--                     and super-admin.guard.ts of backend/src/api/v1/admin.
--   Plugins/Manifest, Plugins/Dependency   the manifests and plugin-dependency.service.ts.
--   Plugins/Hooks     hook-registry.service.ts.
--   Admin/Tables      the SQL of admin-tenants.service.ts on its three tables.
--   Admin/World       what its calls change beside the tables, and the messages they send.
--   Admin/Tenants     list, findOne, create, update, offboard (children Register, Change, Close).
--   Admin/Toggle      getPlugins, togglePlugin, and plugin-init.processor.ts.
--   Admin/Downgrade   previewDowngrade, confirmDowngrade.
--   Events            the outbox of plugin events: event-registry.service.ts, event-poller.service.ts,
--                     automation-event.processor.ts, and the two jobs of cron.service.ts on it.
--   Workers/VipMigration   vip-migration.processor.ts: a tenant moves to its own database.
--   Workers/VipDecommission   vip-decommission.processor.ts and vip-shared-cleanup.processor.ts.
--   Dal/Rls           the policies of 20260303000004_plugin_tables.ts: what a session sees and may write.
--   Dal/Reload        tenant-config-reload.service.ts: messages from the other instances.
--   Gateway/Problems  the classes in backend/src/common/errors, and http-exception.filter.ts.
--   Plugins/Sandbox   sandbox.service.ts: the limit of time for a plugin's call.
--   Plugins/Registry  plugin-registry.service.ts: the cores, and the cached list of enabled plugins.
--   Cores             customer-data.core.ts, customer-care.core.ts, marketing.core.ts and
--                     analytics.core.ts of backend/src/plugins/cores, on the tables in Cores/Store.
--   Automation        backend/src/plugins/cores/automation: triggers and conditions
--                     (automation.core.ts), templates, the action catalogue, the handlers, and the
--                     outbox of actions with its poller and its processor.
--   Admin/Users       admin-users.service.ts: the users of a tenant and their roles.
--   Workers/Columns   createPluginSchema against the shared tables of the migration above.
--   Workers/HardDelete   the hard delete of cron.service.ts.
--   Security          encryption.service.ts.
--   Prelude           shared tests, lists, texts, and association lists for the source's Maps.
--   Tests             samples, and runs of the theorems at concrete inputs.
--
-- State is passed explicitly: a handler is a function from the state before to the state after
-- and its outcome, with exceptions as values. PostgreSQL's tables are lists of rows; a statement is
-- a function on them. Redis, its counters, bcrypt, SHA-256, the signature of tokens, the tenant
-- table of the resolver and the brokers are parameters: records of operations, with the laws that
-- the code relies on where there are any. A broker may refuse any message.
--
-- Loops: the polling loop of the quota is over the rounds that it runs, and ends within 101 of them
-- if timers keep their time. The SCAN loop is over the replies of Redis. The depth-first
-- search of the plugin graph is on fuel, one for each plugin on a path. The copy of a table is on
-- fuel as well; more rounds than the tenant has rows are enough.
--
-- A SELECT with LIMIT and OFFSET sees the rows of its table in an order that may be another one for
-- each batch; a row of a plugin's table is its tenant and its key, and an INSERT of it throws where the
-- columns of the table do not fit. Each stage of the migration and of the decommission may throw. A poller
-- of the outbox may find rows locked, BullMQ may refuse, lose or repeat a job, and a run of a job may
-- stop half way.
--
-- Not modelled: the front ends, controllers and modules, metrics and health, migrations of the
-- schema but for the tables that are named above, the message consumers, the isolated sandbox, and the
-- other jobs in backend/src/workers. Foreign keys, length limits and other failures of single
-- statements are left out where nothing above names them. Keys are texts and are drawn from
-- outside. ILIKE, zod, fetch and what JavaScript finds beside the own fields of a value are
-- parameters.
pub mod Prelude
pub mod Dal
pub mod Gateway
pub mod Auth
pub mod Plugins
pub mod Cores
pub mod Automation
pub mod Admin
pub mod Events
pub mod Workers
pub mod Security
pub mod Tests
