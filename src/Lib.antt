-- ===== src/Lib.antt =====
-- A verification library for aeus, a Go scaffold for microservices with an optional admin back end.
--
-- Parts and files:
-- pkg/errs (the business error codes and their HTTP and gRPC statuses) is Errs: Errs/Codes has the
-- constants of const.go under their names in snake case and the two switches of error.go, as tables
-- that one function `switch` reads; Errs/Status has their laws.
-- middleware/auth/jwt.go's `isAllowed` and its copy `matchPattern` in admin/permission.go are
-- Auth/Allow; Auth/Matching relates both to a pattern language. The middleware `JWT` of the same file
-- is Auth/Jwt, as a function from the metadata and the state of the validator to the call of the next
-- handler or an error; Auth/Pipeline says which requests pass and Auth/Header what token is read.
-- middleware/auth/rate_limit.go is Auth/RateLimit, with the limiter as a parameter. The token buckets of
-- middleware/auth/rate_limit_memory.go are Auth/Limiter: Defs has Allow and the janitor's sweep, Burst
-- the calls that a full bucket grants at one instant.
-- transport/cli/frame.go (the framing of the command protocol) is Cli: Cli/Frame has readFrame and
-- writeFrame, Cli/Wire, Cli/Decode and Cli/Writer what they promise of each other. The command tree of
-- transport/cli/router.go is Cli/Router: Tree has Handle and Lookup, Handle and Registered
-- their laws, and Complete what Completer offers. transport/cli/serialize.go is Cli/Serialize: Value has the
-- kinds of values and the rows of a list, Table the table, Text what a value becomes.
-- transport/cli/context.go is Cli/Context/Reply (send and writeChunked) and Cli/Server/Context (the state of
-- a connection). transport/cli/server.go is Cli/Server: Execute has execute and Process the loop of a
-- connection, Fields the words of a line; Ends, Turns, Answer and Refusal follow a connection to its end and to
-- what the client prints. transport/cli/client.go is Cli/Client: Defs has ioLoop and waitResponse, Stream,
-- Chunks and Replies how a reply of several frames comes together.
-- metadata/metadata.go is Metadata: Defs has the methods and MergeContext, Access and Merge what they
-- give. Chain of middleware/middleware.go is Middleware; the server of transport/cli uses both.
-- admin/permission.go (which role may call which route) is Admin/Permission: Checker has the function
-- that NewPermissionChecker returns, Decision the reasons for which a request passes, Closed what that
-- means for the tables.
-- admin/service/memory_token_store.go (the denylist of revoked token ids) is Tokens: Tokens/Store has
-- the methods, Tokens/Capacity the cap and the eviction, Tokens/Revocation what a revocation holds.
-- admin/service/auth.go and revocation_validator.go (login, refresh, logout and the check of a request's
-- token) are Admin/Session: Model has the rows, the claims and what golang-jwt and bcrypt do, Login and
-- Renew the methods, Gates, TenantStatus and Audit what a login establishes and logs, Admission, Rotation and Logout
-- what refresh and logout promise; Guard puts the middleware and the validator together. They reach
-- the denylist through the interface Tokens/Interface, a record of operations with laws that the memory
-- store of Tokens fills.
-- admin/tenant_scope.go is Admin/TenantScope, the filters of rows that its callbacks add to a query.
-- admin/security_guards.go and the create hooks of admin/server.go are Admin/Guards: Defs has the
-- guards, Identity and Logins what they keep of the login namespace that uid and username share,
-- Privilege what only a super user may do.
-- admin/service/user.go and admin/models/user.go (a user's own row, and the password policy) are
-- Admin/Users: Defs has the policy and the hook on updates, Methods the methods of the service, Policy,
-- Written, Own and Reset what they establish.
-- admin/models/role.go, admin/models/role_permission.go and admin/service/role.go (the grants of a role)
-- are Admin/Roles: Defs has the writes, Reads RolePermissions, Replace, Outcome and ReadBack what a replacement
-- leaves to the permission checker and to the reads, Missing and Converged what the add-only write
-- leaves, Cascade the hooks after a rename and a delete, Moves and Detached what they leave.
-- admin/models/menu.go is Admin/Menus: Walk has PathTo, Ancestry what it gives.
-- admin/endpoint_permissions.go, admin/policy/policy.go and the part of admin/derive.go that fills the catalog of
-- permissions are Admin/Catalog: Defs and Derive have the functions, Ensures, Registered, Edits and Kept what they leave
-- of the table, Enforced what the permission checker makes of it.
-- infra/cache/memory and admin/dbcache are Cache: Memory has the methods of the map with expiry, Reader
-- has Try, as a function of the instants and the versions of the database that its parts see, Coherent
-- and Calls what it promises of the values that it serves.
-- app.go (the life of a service) is App: Inject has injectVars, Wiring what preStart does before it starts
-- a goroutine, Stop has preStop.
-- Common holds the shared tests, lists, byte texts and maps.
--
-- How the code is read: a Go string or byte slice is the list of its bytes. A Go map is an
-- association list whose keys are distinct, in one order of iteration. A method under a mutex is one
-- step. The clock is an argument. A value of a machine type is a natural number with its range as a
-- hypothesis; the 64-bit fields of a frame are bit patterns. Loops are structural recursions; Handle
-- of the router takes fuel, one unit for a name of the path, and the length of the path and one is
-- enough; writeChunked takes a unit of fuel for a byte, and the loops of the server and of the client take
-- one for a frame, and the length of the stream and one is enough; PathTo of a menu takes fuel, one unit for a turn, and the number of menus and one is enough.
-- A database is the list of the live rows of each table.
--
-- Outside the library: io.Reader is the list of the bytes that are still to come; io.Writer is a
-- parameter, and its documented behaviour (it takes all bytes when it reports no error) is the record
-- TakesAll. bcrypt is a parameter with the record HashesSoundly. The parsers of golang-jwt are
-- parameters, and what they promise is the record ParsesSoundly. The arithmetic of tokens is a
-- parameter, and what float64 promises of whole numbers the record WholeExact. A transport behind the
-- metadata is a tee reader and a tee writer over any state, with the predicate KeepsOthers. The keys of
-- metadata are in lower case as strings.ToLower has it for ASCII text, the predicate IsAscii.
-- The JSON, the numbers and the widths of the replies of transport/cli are parameters, the record Printer.
-- Not modelled: the goroutines of app.go, the listener and the shell of transport/cli, the other services
-- of admin, and the HTTP and gRPC transports. Generated protobuf code, the web front end and the drivers
-- of foreign services are left out.
mod Common
pub mod Errs
pub mod Auth
pub mod Cli
pub mod Admin
pub mod Tokens
pub mod Cache
pub mod App
pub mod Metadata
pub mod Middleware
