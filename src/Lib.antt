-- ===== src/Lib.antt =====
-- Eyle is a runtime for one software agent. A web process and a worker share a persistent job queue
-- (eyle/runtime/queue.py); the worker runs a job as one execution, in which the model chooses moves
-- and the runtime carries them out, limits concurrent calls of the provider
-- (eyle/runtime/limiter.py) and detects fixed points (eyle/runtime/execution_progress.py).
--
-- The modules, and the code that each is about:
--
-- - Base: tests on numbers, lists, texts, dictionaries, and the SQL statements on a table of rows.
-- - Value: JSON values, as the program reads and writes them. A float that is neither negative nor
--   infinite is its multiple of 2^-1074; other floats are left out.
-- - Queue: eyle/runtime/queue.py. A database is its two tables, the AUTOINCREMENT counter and the
--   event flag. `Statements` has each UPDATE (its WHERE as `guard`, its SET as `assign`); `Reserve`,
--   `Control`, `Recovery`, `Messages` and `Statistics` have the operations under the source's names.
--   `Step` is the relation of one statement, for any interleaving of processes.
-- - Limiter: eyle/runtime/limiter.py. A table of leases; a round of `acquire` is one transaction.
-- - Progress: eyle/runtime/execution_progress.py. The state is the class's fields; the digest of a
--   JSON value is a parameter.
-- - Snapshot: eyle/contracts/observation.py. The ledger is its two dictionaries, of handles and of
--   snapshots; the digest of a JSON value is a parameter.
-- - Context: eyle/runtime/context_materializer.py and token_budget.py. The length of a JSON text is
--   a parameter, and so are the budget and the characters per token, which the configuration gives.
-- - Evidence: eyle/core/evidence.py. The state is the dict of records, in the order of insertion.
-- - Ecc: eyle/core/ecc.py. The registry of capabilities is an argument.
-- - Continuation: eyle/runtime/continuation.py. The check of the execution state, the case-folded
--   form of a text, `str` of a value that is no text, `isdigit` and `int` are parameters.
-- - Epistemic: eyle/contracts/memory.py.
-- - Workspace: eyle/providers/standard. `Newlines` and `Ranges` are text_hash.py and the line ranges of
--   editing.py and workspace_io.py; `Paths` and `Policy` are security.py and workspace_policy.py;
--   `Patch`, `DryRun`, `Apply` and `Confirm` are transactions.py, workspace_transaction.py and
--   post_write.py. A disk is a dictionary from absolute paths to the texts that the files' bytes spell.
--   Which writes fail, the links of the disk, the SHA-256 and the Python parser are parameters, and so
--   are the answers of the compilation and of the tests.
-- - Memory: eyle/runtime/memory_graph.py, its tables and apply_graph_operations. A database is the list of
--   rows of each table, and a statement that fails for a UNIQUE constraint is MEMORY_GRAPH_ID_CONFLICT.
--   `NodeOps`, `CloseOps`, `TaskOps` and `LinkOps` have the branches of its loop under the names of the
--   operations; `Changes` is the loop and the transaction. The identifiers that are drawn are a
--   function of how many were drawn before. An error is its code, without the id that may follow it.
-- - Binding: eyle/core/memory.py, apply_task_binding, over the graph of Memory. The session is its
--   `active_task_id`; the aliases are those of the delta that was applied before.
--
-- Instants are numbers of microseconds, and the clock, the process table, message texts of
-- exceptions and digests are arguments. The loop of `_reservar_proximo` runs on its own ceiling of
-- cycles, which is proved never to be what ends it; a client that walks the pages of a snapshot needs as many
-- exchanges as items are left, or one more.
--
-- Not modelled: the HTTP and provider transport (web/, server/, llm/), process start-up and the
-- operating system's files, locks and sandboxes, which are input and output; and, of the core logic,
-- recall and the records of the memory graph, the agent's decision loop, the history, the capability
-- registry and, of the standard provider, the directories around the files, the search for symbols and
-- the capabilities themselves.
pub mod Base
pub mod Value
pub mod Queue
pub mod Limiter
pub mod Progress
pub mod Snapshot
pub mod Context
pub mod Evidence
pub mod Ecc
pub mod Continuation
pub mod Epistemic
pub mod Workspace
pub mod Memory
pub mod Binding
