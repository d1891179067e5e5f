-- ===== src/Lib.antt =====
-- A verification library of nxPanel, a web panel for nginx: the Go server under internal/.
--
-- Login (internal/api/middleware/login_protection.go) is the budget of failed logins by address, by
-- account and for the whole panel. A store is an association list whose order is that of a Go
-- `range`, which Go leaves open. Login/Eviction, Login/Budget, Login/Bounds and Login/Lockout hold
-- the proofs. The loop of `enforceCardinalityLocked` runs on fuel, the length of the store, which
-- is enough since each eviction removes a record. The mutex is not modelled: an operation is what
-- runs while it is held, and the cleanup goroutine is an operation at any time.
--
-- Tasks (internal/scheduledtask/repo.go, types.go) is the protocol that claims, ends and recovers
-- runs of scheduled tasks, on two tables that are lists of rows. Tasks/Repo has one function for
-- each transaction, Tasks/Stamp the order of the texts that times are stored as. Tasks/Locks,
-- Tasks/Due and Tasks/Finish hold the laws of single operations, Tasks/Exclusion the invariant of
-- the transition system that they make together. The database driver, row scanning and columns
-- that no decision reads are left out; a new id or token is an argument, with its freshness as a
-- hypothesis.
--
-- Markers (internal/nginx/marker.go) reads and writes the blocks of a configuration between
-- `#NXPANEL-<name>-START` and `#NXPANEL-<name>-END`, over lists of bytes. Markers/Search,
-- Markers/Index and Markers/Lines are about searching texts, Markers/Names about the tokens,
-- Markers/Frame and Markers/Locate about the text around a block, Markers/Blocks and Markers/Lens
-- about reading and replacing, Markers/Inject about adding a block, Markers/Required about the
-- report on required blocks.
--
-- Stream (internal/sse/hub.go) is a stream of server-sent events with its subscribers' channels, and
-- the hub of streams. What the Go runtime answers with a panic is an error there. Stream/Visits is
-- about the loop over the subscribers, Stream/Sound about panics, Stream/Delivery about what a
-- subscriber gets, Stream/Hubs about the hub. The number of a subscription wraps at 2 ^ 64, as
-- uint64 does.
--
-- Domains (internal/security/domain.go, text.go) is the check of domain names and of lists of them,
-- with an independent description of the names that are accepted in Domains/Accepted and of the list
-- that is returned in Domains/Listed.
--
-- Archive (internal/agent/archive_budget.go) holds the budgets of packing and unpacking. What the
-- reader, the writer and the context do is a list of turns, on which `copyBudgeted` recurs; that a
-- writer takes no more than it is given is a hypothesis, the contract of io.Writer. Archive/Spent
-- is about the limits.
--
-- Upstream (internal/upstream/validate.go, types.go, render.go, requestToModel of service.go)
-- checks, normalises and renders upstream definitions. Upstream/Statements is the parser of
-- statements and the tokenizer, Upstream/Address the check of addresses with the functions of net
-- and strconv that it calls, Upstream/Save the check of a request, Upstream/Render and
-- Upstream/Model the rows and their text. Upstream/Scan follows the parser's state through a text,
-- Upstream/Trim and Upstream/Ends are about outer space, Upstream/Plain about the bytes of
-- addresses, and Upstream/RoundTrip, Upstream/Servers, Upstream/Saved, Upstream/Again,
-- Upstream/Directives and Upstream/Injection about what is accepted and rendered. The digits of a
-- number are made on fuel, the number's successor, which has at least as many digits.
--
-- Engine (internal/scheduledtask/engine.go, NextRunAt of schedule.go) is the queue of due tasks over
-- the tables of Tasks. Engine/Heap holds the methods of `taskHeap`, which write `index`, and the calls
-- of them by container/heap: which swaps it makes is a parameter with the contract of a heap, GoHeap,
-- of which Engine/FirstLeast is an instance. Engine/Indexed is the queue that uses the stored indexes,
-- Engine/Represented that it represents a map. What these calls do to the array alone is HeapOps, over
-- which the engine is defined: there the index of an item is its place. Engine/SortedHeap is another
-- instance of it; the compiled schedules are a parameter. In Engine/Loop a round of
-- dispatching runs at one time while nothing else writes the database; the clock, the calls of the
-- database that fail and what the rest of the panel writes between two rounds are a parameter. The
-- loop of `dispatchDue` runs on fuel: if nobody else writes, two rounds for each item of the queue and
-- one more are enough. Engine/Counts and Engine/Abstract are about the queue as a map, Engine/Weights,
-- Engine/Loads and Engine/Termination about the end of the loop. Timers, goroutines and the full
-- reconciliation are not modelled.
--
-- Files (internal/agent/transaction.go, from the backups in `Apply` on, and the handler of a
-- transaction in internal/agent/handlers.go, from `Apply` on) is a transaction over a disk: a map from
-- clean paths to files and links, the directories, and the owners of what does not belong to the
-- agent. Which calls of the system fail, what nginx answers, the name of a backup and the user of the
-- web are parameters. Links are followed up to the limit of the system, 40. The permissions of
-- directories are not modelled. Files/Rollback is about single changes and the rollback, Files/Saved
-- about the backups, Files/Undone about requests that fail. The checks in front of the backups and the
-- cleanup of old backups are not modelled.
--
-- The rest of internal/ is not modelled: the HTTP handlers, the database, the nginx parser and
-- renderer, certificates, sessions and the web interface.
mod Base
pub mod Login
pub mod Tasks
pub mod Markers
pub mod Stream
pub mod Domains
pub mod Archive
pub mod Upstream
pub mod Engine
pub mod Files
