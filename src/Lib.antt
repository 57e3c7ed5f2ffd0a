-- ===== src/Lib.antt =====
-- A model of aiotruenas, an asynchronous client library for the TrueNAS JSON-RPC API, and proofs
-- of what makes its parts correct.
--
-- The library has three layers. A client (src/aiotruenas/client.py) keeps one WebSocket
-- connection, matches replies to calls by id and puts notifications into the queues of
-- subscriptions. A domain layer (src/aiotruenas/domain) turns raw responses into cached dicts
-- with a declarative engine, parse_api. The errors of both are the exception classes of
-- src/aiotruenas/exceptions.py.
--
-- Value is Python's data: Value/Data has the values of JSON with floats and datetimes, and the
-- dict keys as values up to equality; Value/Equality has truth, `==` and hashing; Value/Dict has
-- insertion-ordered dicts; Value/Text has the string operations that the library uses.
--
-- Normalize is src/aiotruenas/domain/_normalize.py, with the source's function names (a leading
-- underscore is left out): Spec has the tables, Read the readers of one field, Fill the writers
-- of one dict, Uid the resolution of uids and the filters, Parse the loop of parse_api. A
-- ValueError of val_proc is an error value. The run-time operations on floats, dates and texts
-- that are not the library's code are the record Runtime.
--
-- Errors is src/aiotruenas/_errors.py and src/aiotruenas/exceptions.py. An exception of a failed
-- connection is what the rules test of it: its type, its errno, its text. The platform's errno
-- constants are parameters.
--
-- Client is src/aiotruenas/client.py. State is the record of a TrueNASClient's attributes
-- together with the futures and queues that it shares with its callers; a connection, a future
-- and a queue are numbers. Connection, Calls, Messages, Subscriptions and Job have the methods,
-- cut where they suspend: one function is one part of a method that runs without interruption.
-- Handshake is `connect` with what other tasks do at each of its suspensions as a function on the
-- state, Reader is the read loop and Requests a whole call, with the polls of its job, in the
-- same form; Options is enable_private_methods on top of it. Steps puts the parts together as a
-- transition relation, in which the tasks of an event loop take turns in any order. Invariant is
-- the consistency of the tables. Job polling reads a list of answers, one per poll: the answers
-- of a finished wait end with the one that decides, so no fuel is needed.
--
-- Helpers is a part of src/aiotruenas/domain/_helpers.py: Topology sums the errors of a pool's
-- vdevs, Netdata reads the graphs of the reporting service, System reads versions, cpusets,
-- addresses and products, Names compares the names of graphs. Python's arithmetic on floats is
-- the record Arithmetic; an overflow of a sum of large ints is not modelled.
--
-- System is src/aiotruenas/system.py and src/aiotruenas/models.py. Models has the records that
-- are returned, Fields the readers of single values, Info the identifier and the system info,
-- Interfaces the network interfaces, Series the means of a graph item with their fallback to raw
-- points, Graphs what each reply to a graph call becomes and which error is raised when several
-- calls fail, and Stats puts these together to get_system_stats. The replies of a query are a
-- function of the graph, or a list of what `gather` returns. A finite float is the pair of an
-- integer and a power of two; Python's rounding arithmetic on floats is the record Floats, while
-- comparison and rounding to an integer are computed.
--
-- Rpc has what a call comes to: a result, an error of the library, or another exception.
--
-- Specs is src/aiotruenas/domain/_specs.py: every table, by its name without the underscore.
-- Shape has the forms of specs that the tables use.
--
-- State is src/aiotruenas/domain/state.py. Cache is the record of a TrueNASState's attributes; a
-- refresh is a function from the cache and the replies of a Server to how it ends and the cache
-- it leaves, since the lock lets one refresh run at a time. Fallback is the tracking of failing
-- paths and stale_endpoints, Endpoints has the refreshes that normalize a response and derive
-- fields from it with the loops of Entries, Pool the datasets and pools with their capacity and
-- the boot pool, Alerts, Smb, Update, Directory, Ups (with ARC), Disks, Info, Stats and
-- Containers the others, Initial the cache of a new object. An exception that the library does
-- not raise itself ends a refresh as `propagated`, one of its own code as `crashed`; the cache is
-- then what the code had changed before it. Python's numbers are the record Platform. Replies are
-- what the server answers to each call of one refresh; the times of the graph queries are left
-- out.
--
-- Not modelled: sockets, TLS contexts, JSON coding, timers and locks beyond the atomicity of a
-- step; logging, but for the lines of _note_fallback_outcome and _alert_level and the skipped
-- interfaces; the re-exports of the packages and the example script.
--
-- Tests has runs of the code at concrete inputs, and each theorem with hypotheses at one.
pub mod Base
pub mod Value
pub mod Normalize
pub mod Helpers
pub mod Errors
pub mod Specs
pub mod Client
pub mod Rpc
pub mod State
pub mod System
pub mod Tests
