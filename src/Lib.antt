-- ===== src/Lib.antt =====
-- countinghouse serves the devices of its modules to callers with API keys, over HTTP, MCP and
-- direct channels between the modules' workers, and meters what they use. This library models the
-- parts that decide: who may call, what a module may touch, what a call costs, when a module
-- restarts, and how work is queued. Nothing of it runs the program: every definition is read off the
-- source, and every statement is about those definitions.
--
-- The parts, and the files that model them:
--   Auth/FileProvider    lib/auth/file-provider.js, lib/auth/safe-equal.js: keys, devices, identities
--   Auth/UserAuth        lib/user-auth.js: `doUserAuth` over any provider
--   Permissions          lib/module-permissions.js: a module's declaration (Parse), the policy that
--                        narrows it (Narrow, Hosts, Limits)
--   Metering             lib/metering/redis-provider.js: free calls, charges and the legacy tool keys
--   CallAddress          lib/call-address.js: `<module>/<service>.<action>` and what it resolves to
--   JobControl           lib/job-control.js: who may add, see and remove a scheduled job
--   Peer/Broker          lib/peer-channel-broker.js: which workers are connected under which grants
--   Peer/Channel         lib/peer-channel.js: calls, replies, timeouts and back pressure on a channel
--   Supervisor           lib/module-supervisor.js: restarts, backoff and suspension of modules
--   Broker               lib/fs-broker: RwLock (rwlock.js), Quota (quota.js), Scheduler (scheduler.js),
--                        Namespace (namespace.js); of broker.js, Place: where a path lands, what is
--                        reported and the cache of real paths; Growth: writes and truncations with
--                        the quota; Names: rename, link and symlink; Open: opening, the check
--                        after it and the table of descriptors; an opening is two steps, between
--                        which others may run
--   WorkerLimits         lib/worker-limits.js: the watch that terminates a worker
--   Lifecycle            lib/module-lifecycle.js: one task at a time for a module's name, and its worker
--   Session              lib/session.js, lib/timer.js: one answer to a call, its timeout, its metering
--   Tools                lib/mcp/tool-name.js, lib/mcp/tool-registry.js: names of tools, and who sees which
--   Plan                 lib/plan-validator.js: the check of a planned module
--   HandlerMap           lib/handler-map.js: a module's handlers against its specification
--   Prelude              the names, lists, integers, dictionaries and texts that these share
--   Examples             concrete runs
--
-- How they interact: a call passes `doUserAuth`, which asks the auth provider; a peer channel is
-- opened by the broker only after that check (a parameter of Peer/Broker), and is then an object of
-- Peer/Channel at both of its ends. A module's worker is restarted as Supervisor says, within the
-- permissions that Permissions leaves it, and its file operations go through Broker's pool and lock:
-- Place finds by Namespace where a path lands, for Open and Names too, and Growth counts by Quota
-- what a write adds. WorkerLimits terminates a worker, whose exit Supervisor then sees. A call
-- over HTTP is answered and metered by a Session, a caller over MCP is shown the Tools of the devices
-- that the auth provider lists, and Plan predicts those names and reads addresses with CallAddress.
--
-- Conventions. A method of an object is a function from the object's state to the new state, with
-- what it does outside (messages, callbacks, reports) in a list beside it. An asynchronous object
-- has a relation `Step` of its events, in any order, and `Reach` of the states they lead to, or a
-- function that runs a list of events, the last first. A value
-- that the code tests for null or for a type is an `Option`. A JavaScript object or Map is the list
-- of its entries in insertion order; what a plain object inherits is a parameter where a lookup by a
-- name of the caller's finds it (HandlerMap, and the errors of Supervisor). Texts that the code takes apart are lists of code points.
-- Integers that can be negative are ℤ, and money counts the least unit of a balance.
--
-- Fuel. `rounds` of Broker/Scheduler has `globalCap + 1` rounds of the outer loop of `pump`: a round
-- that starts nothing ends the loop, and one that starts something fills a slot. `first_free` of
-- Tools tries one number more than there are names in use, and `write_all` of Broker/Growth has as
-- many rounds as there are bytes to write, of which each round writes one at least or is the last.
--
-- Not modelled: the threads and messages around the parts, databases, Redis and its failures, the
-- file system, the log, the sandbox of Node's own objects, the MCP and HTTP servers, and packages of
-- others. `toLowerCase` and `path.posix.normalize` are parameters of Permissions, and the
-- real path and the type of a file are parameters of Broker/Namespace. The answers of the operating
-- system and the time are parameters of Broker's Place, Growth, Names and Open. JobControl has the hash as a
-- parameter, and the job queue as what it answers and what it is asked for.
pub mod Prelude
pub mod Broker
pub mod Supervisor
pub mod Auth
pub mod Peer
pub mod Permissions
pub mod CallAddress
pub mod Metering
pub mod JobControl
pub mod Tools
pub mod Plan
pub mod Session
pub mod WorkerLimits
pub mod Lifecycle
pub mod HandlerMap
pub mod Examples
