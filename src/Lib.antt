-- ===== src/Lib.antt =====
-- Access control of the tai skeleton server: who may reach a route over HTTP, and who may dispatch
-- the same operation as a tool.
--
-- The program has two edges over one set of rules. At the HTTP edge, an authentication backend
-- verifies a credential, reads the caller's policy (and its owner's), enforces their conditions and
-- a per-tag level; then a guard compares the scopes with the resource ids that the path resolves
-- to. At the tool edge, a call is turned into the path of its operation's route, pinned to that
-- route, and put through the same terms; a background fire is also held to the key that it is bound
-- to, and its conditions must be ones that can be decided without a token. Both edges read the route
-- registry through an index of canonical paths. Roles, their audit trail, policies and presets are kept
-- in a store of versioned documents.
--
-- Modules, by source file (paths from the root of the repository, under src/tai42_skeleton/):
--   Base                       lists, texts, equality tests, raising code
--   App.RouteRegistry          app/route_registry.py: record_route is RouteRegistry.record
--   AccessControl.PathCanon    access_control/path_canon.py
--   AccessControl.RoleGate     access_control/role_gate.py: levels, templates, the route index
--   AccessControl.Policy       access_control/policy.py, is_admin_policy of user.py,
--                              effective_scopes of backend.py
--   AccessControl.RoleGrants   access_control/role_grants.py
--   AccessControl.Verifier     access_control/verifier.py, the fields of settings.py
--   AccessControl.Backend      access_control/backend.py and verify_token of verifier.py; the
--                              stages of authenticate are standing, enforce_conditions, level_pass
--   AccessControl.Guard        access_control/middleware.py; http_edge puts it behind authenticate
--   AccessControl.Startup      access_control/startup.py: the audits of the routes; the one of the
--                              action-classes is check_route_actions of App.RouteRegistry
--   Authz.Path                 authz/check.py: synthesize_path, _own_route
--   Authz.Check                authz/check.py: check, _authorize_pinned_route; the flag `fire` is
--                              whether an execution identity is bound
--   AccessControl.Validation   access_control/settings.py: what model_post_init demands
--   Authz.Resolver             authz/resolver.py, base_of of tools/registry.py and settled of
--                              operations/registry.py
--   Authz.Execution            authz/execution.py: identities, doors, ExecutionKeyScan
--   Authz.TokenFree            authz/token_free.py: Characters, Lexer, Parser, Grammar (the rules that nest),
--                              Taint; the gate is assert_token_free_evaluable of Grammar, which
--                              Authz.Check and Authz.Execution ask of the conditions of a fire
--   AccessControl.Isolation    access_control/user.py: whom an owned key may address
--   Channels.Notifications     channels/notify.py, channels/notifications_sink.py and
--                              list_notifications of operations/notifications.py; `_queue_push_bounded`
--                              is push_bounded, NotificationSink.record is record_notification
--   Middleware.RateLimit       middleware/rate_limit.py, the fields of settings/rate_limit.py
--   Versioning.Tables          the document tables of sql/resources/tai42_skeleton.init.sql and the
--                              statements on them
--   Versioning.Store           versioning/store.py, with the triggers of that schema; Write names a
--                              write of the store, run_writes is a transaction
--   Examples                   a small site on which the theorems are applied
--
-- State: the process settles on a Site (settings, route index, reserved paths), and a decision reads
-- the outside world through Services: the rows of the store through their versioned caches, the live
-- counters, the template and jq engines. Services is a parameter, so each theorem holds for any
-- answers, also for failing ones; its reads do not change during one decision. Python exceptions are
-- the constructors of Exc, the messages of PermissionDenied those of Denial. Texts that the code
-- walks through are lists of code points, identifiers are strings. A set is a list in the order of
-- insertion. A regular expression of the settings is the predicate of its full matches; the templates
-- of routes are compiled to tokens and matched. The loop over presets and branches takes fuel,
-- one round more than there are names to follow, of which each round uses up one; the loops of the
-- token-free scan take one round more than there are characters or tokens left, and each round moves
-- on by one at least (the nesting is bounded by the code, at 32 levels); all other recursion is
-- structural.
-- What jq does with a condition is the parameter Jq: the laws of its constructs, as its manual says; a
-- node holds where a literal stands and not its value, so each condition has its own.
-- The rate limiter and the notifications keep their state in Redis, as a store that is passed on:
-- Counters states what INCR and EXPIRE do to a counter at an instant of the server, its end at the
-- expiry included, FeedStore what LPUSH, LTRIM and LRANGE do to a list. A limiter's counter lives for
-- twice the width of its window: the window that it counts, and half of it for a process clock that is
-- off, on both sides.
-- The document store is a function of two tables, which a raise leaves as they were. The bodies are
-- opaque, and the row locks make a transaction one step.
--
-- Not modelled: logging, the sending of answers and the context variables of a request, the caches
-- themselves, the OpenAPI fields of a route, and the rest of the server (see each module for what
-- it leaves out of its file).
pub mod Base
pub mod App
pub mod AccessControl
pub mod Authz
pub mod Middleware
pub mod Channels
pub mod Versioning
pub mod Examples
