-- ===== src/Lib.antt =====
-- The Terraform provider for PostgreSQL: the handlers of its resources, the helpers they share, and
-- its connections.
--
-- A handler of the provider receives the attributes of a resource, sends statements to a server in
-- one or more transactions, and stores what it reads back in the attributes. Each handler is a
-- program of the monad `M D` of Effect: it takes an environment and a session, and returns a result
-- (a value, an error, or a panic of the Go program) and the session after it. The session is the
-- attributes `D` of the resource and the log of all that was sent, the newest event first. The
-- environment holds what is not in the repository's own code: the answers of the server, each of
-- which may depend on the whole log, `pq.QuoteIdentifier`, the sets of the Terraform SDK, the ACL
-- library, the order in which Go ranges over a map, the features of the server's version, and the
-- provider's configuration. Nothing is assumed of them but what a theorem names.
--
-- The parts and their files:
--   Base, Text, Map                 texts, numbers and maps as Go's library has them; Text/Escape is
--                                   `url.QueryEscape` and Text/Format `strconv.Quote`
--   Effect                          events, results and the monad; Effect/Emits, Effect/OnOk and
--                                   Effect/Preserves are the rules for programs
--   Helpers/Transactions            postgresql/helpers.go: startTransaction, deferredRollback and
--                                   PGResourceFunc. Commits, Closing and Sending below it are the
--                                   rules on commits, open transactions and statements
--   Helpers/Catalog                 postgresql/helpers.go: the queries of the catalog and the lock
--   Helpers/Membership              postgresql/helpers.go: grantRoleMembership,
--                                   revokeRoleMembership and withRolesGranted
--   Helpers/Privileges, Quote       postgresql/helpers.go: validatePrivileges and pqQuoteLiteral
--   Grant                           postgresql/resource_postgresql_grant.go
--   GrantRole                       postgresql/resource_postgresql_grant_role.go
--   DefaultPrivileges               postgresql/resource_postgresql_default_privileges.go
--   Schema                          postgresql/resource_postgresql_schema.go
--   Extension                       postgresql/resource_postgresql_extension.go
--   ReplicationSlot                 postgresql/resource_postgresql_replication_slot.go
--   Role                            postgresql/resource_postgresql_role.go
--   Database                        postgresql/resource_postgresql_database.go. Owner is the lock and
--                                   the temporary membership that create, delete and a change of
--                                   the owner have in common
--   Connection                      postgresql/config.go, the configuration in provider.go, and
--                                   command.go: Params is the connection string and the password,
--                                   Open the attempts and the version, Connect the registry and the
--                                   fallback, Configure the provider's configuration
--   Connection/Tunnel               postgresql/jumphost.go
--   Contexts/Merge                  postgresql/contexts/merge.go
--   Endings                         how the handlers end their transactions, all together
--   Tests                           witnesses at concrete inputs
--
-- A function keeps its Go name in snake case, without `PostgreSQL`: resourcePostgreSQLGrantCreate is
-- resource_grant_create. A part of a Go function that stands alone here, such as the body of a loop,
-- has a name of its own. A transaction is known by its number in the log. `defer` runs its cleanup
-- on each of the three ends of the body. Every loop over a list is structural recursion on it. The
-- attempts to open a connection and to reach the tunnel are recursion on the number of rounds left,
-- ten at first as in the code.
--
-- Connecting is a program of the same monad, with the state of the provider's process for its
-- attributes: the configuration, the registry of connections, the caches of passwords and ports, the
-- tunnels that run, and the list of what was done. The record Outside holds the operating system and
-- the libraries there, and the order of each range over a map, which may be another one each time. A
-- handler takes the outcome of connecting, a panic included, from its environment. The goroutine of
-- a merged context is a function from one turn to the next, and a history is a list of turns and of
-- ends of its parents, in any order.
--
-- Not modelled: the declarations of attributes for the SDK (postgresql/provider.go and the
-- `schema.Resource` values), which hold no logic, the start of the plugin (main.go), and
-- WaitForRunningCommands, which waits on channels at the end of the process. Two clients at work at
-- the same time are not modelled: each operation of a client is taken as a whole, as its lock makes
-- it. Log messages, and the text inside an error of the driver, are left out.
pub mod Base
pub mod Text
pub mod Effect
pub mod Helpers
pub mod Map
pub mod Grant
pub mod GrantRole
pub mod DefaultPrivileges
pub mod Schema
pub mod Extension
pub mod ReplicationSlot
pub mod Role
pub mod Database
pub mod Contexts
pub mod Endings
pub mod Connection
pub mod Tests
