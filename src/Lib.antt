-- ===== src/Lib.antt =====
-- masterfabric_backend: the identity, inference and permission core of the backend.
--
-- The service answers requests from the state of a Postgres database and a Redis server.
-- internal/infrastructure/http/router routes a request through middleware to a use case of
-- internal/application, which calls repositories (internal/infrastructure/postgres), the token
-- blacklist (internal/infrastructure/redis) and the event bus (internal/shared/events). The
-- parts, and where they are modelled:
--
--   Errors, Response   internal/shared/errors/errors.go, internal/shared/response/response.go
--   Permissions        internal/shared/middleware/rbac.go
--   Permissions/RoleModel
--                      internal/domain/iam/model/role.go, with its own `isPrefixWildcard`
--   Permissions/Resolver
--                      internal/infrastructure/postgres/iam/permission_resolver.go
--   Iam/Model          internal/domain/iam/model/{user,refresh_token}.go
--   Iam/Users, Iam/RoleStore, Iam/Tokens
--                      internal/infrastructure/postgres/iam/{user,role,refresh_token}_repository.go
--   Iam/Blacklist      internal/infrastructure/redis/token_blacklist.go
--   Iam/Access         internal/application/iam/usecase/token_helpers.go and `GenerateAccess` of
--                      internal/infrastructure/auth/jwt_service.go
--   Iam/Email          the normalisation of emails in register.go, login.go and update_me.go
--   Iam/Register, Iam/Login, Iam/Refresh, Iam/Logout, Iam/Account
--                      internal/application/iam/usecase/*.go, one function per `Execute`
--   Llm/Model, Llm/Store
--                      internal/domain/llm/model/session.go,
--                      internal/infrastructure/postgres/llm/{session,event,score}_repository.go
--   Llm/Sessions, Llm/Recording
--                      internal/application/llm/usecase/*.go, one function per `Execute`
--   Http/Pagination    internal/shared/pagination/pagination.go
--   Http/Cors, Http/Authentication, Http/RequestId
--                      internal/shared/middleware/{cors,auth,requestid}.go
--   Llm/Models         internal/application/llm/usecase/list_models.go
--   Config             internal/domain/config/model/config.go, the use cases of
--                      internal/application/config/usecase and
--                      internal/infrastructure/postgres/config/config_repository.go
--   Http/RateLimit     internal/shared/middleware/rate_limit.go
--   Http/Request, Http/Reply
--                      internal/shared/validator/validator.go and the replies of response.go
--   Http/RateKeys, Http/Routes
--                      the key functions and the routes of router.go, with their guards
--   Http/Handlers      internal/infrastructure/http/handler, one function per handler
--   Monitoring         internal/infrastructure/postgres/llm/monitoring_cache.go and, in
--                      Monitoring/Report, monitoring_repository.go; Monitoring/Endpoint has the
--                      use case, the handler and the route over both
--   Bus                internal/shared/events/bus.go
--   Settings           internal/shared/config/config.go
--   Service/Race       refresh.go, cut into stages between which other requests run
--   Service            the use cases as cmd/server and the router offer them, in any order
--
-- `Exec` is a Go function that may return an error: it gives the state back beside the error,
-- since what was written stays written. `World` is the state: the tables, Redis, the events that
-- were published and the counters that were increased; `World.Env` is all that the repository
-- does not implement, as parameters: clocks, uuids, random bytes, SHA-256, bcrypt, the signing of
-- tokens, case mapping above ASCII, floats and the Redis server. The n-th call is answered by a
-- function of n, so that nothing is assumed of time or chance, and each statement sent to a
-- server may be refused, or may act and lose its answer (`World.Fault`). A SQL statement is a
-- function on the tables with the keys, the unique columns and the foreign keys of the
-- migrations. `Table` has the few operations on rows that statements are made of, `Reads` and
-- `Service.Keeps` carry a property of the tables through every action.
--
-- Uuids and instants are natural numbers, texts are lists of runes (of bytes in `Permissions`,
-- which slices by bytes). No fuel is used: every loop is a recursion on the list it runs over.
-- `Service.run` takes one request after another. `Service.Race` lets any number of refreshes of
-- one token and the operations of the service interleave, between the statements of the
-- refreshes; other use cases are not cut into stages. `Bus.publish` takes the order in which its
-- goroutines end as an argument, and each answers at its own place in that order.
--
-- The HTTP layer has what the JSON decoder, the validator, chi, uuid.Parse, strings.EqualFold and
-- the verification of access tokens answer as parameters (`Http.Request.Web`), a body as its
-- bytes, and a reply as a status with the value whose JSON is sent.
--
-- Not modelled: the route /metrics, logging, recovery, the limit on bodies, the JSON texts,
-- start-up, wiring and shutdown, which are I/O or calls of libraries.
pub mod Prelude
pub mod Permissions
pub mod Errors
pub mod Response
pub mod Exec
pub mod Table
pub mod World
pub mod Config
pub mod Iam
pub mod Llm
pub mod Reads
pub mod Http
pub mod Bus
pub mod Settings
pub mod Monitoring
pub mod Service
pub mod Tests
