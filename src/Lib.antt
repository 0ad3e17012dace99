-- ===== src/Lib.antt =====
-- qtask_list, a task queue on Redis: producers describe tasks, workers claim, run and settle them,
-- administrators move, purge and replay them. All that changes a task is a Lua script of
-- qtask_list/state.py, or a shorter script in qtask_list/queue.py; Redis runs each without
-- interruption. qtask_list/queue.py builds the scripts' keys and arguments.
--
-- Parts:
--   Base: lists, maps, tests on the native numbers.
--   Store: the keys of one queue as a record `Store`, with the Redis commands on them (LREM, ZADD,
--     RPOPLPUSH) as functions; Store/Messages: envelopes (qtask_list/envelope.py), version 1
--     envelopes and junk; Store/Tasks: the record `qtask:task:<id>`, identity owners and leases.
--   State: one function per script of qtask_list/state.py, from arguments and store to reply and
--     store: State/Begin BEGIN_ATTEMPT_LUA, State/Settle COMPLETE_TASK_LUA, RETRY_TASK_LUA and
--     FAIL_TASK_LUA, State/Delay MOVE_DUE_DELAY_LUA, State/Claims the lease scripts and
--     RETURN_UNSTARTED_CLAIM_LUA, State/Purge CANCEL_OR_PURGE_LUA and ADMIN_MOVE_LUA,
--     State/Enqueue ENQUEUE_V2_LUA, State/Replay REPLAY_TASK_LUA, State/Supersede the comparison
--     of versions. The other files of State hold what is proved of them.
--   Queue: the methods of qtask_list/queue.py: Queue/Config `__init__`, Queue/Identity
--     `_migrate_identity` and `_dedup_preflight`, Queue/Submit `enqueue` and `enqueue_many`,
--     Queue/Claim the start of an attempt in `_claim_popped`, Queue/Legacy `_migrate_v1_message`,
--     Queue/Pop the rest of a claim and the loop of `pop_claim_no_wait`, Queue/Settling `ack` and
--     `fail`, Queue/Recover `recover_processing_key`, Queue/Abandoned `recover_abandoned_claims`,
--     Queue/Stale `recover_stale_processing` and a claim's lease, Queue/Clear `_cancel_or_purge` and
--     `clear`, Queue/Places the scans of the containers, Queue/Consistency `check_consistency`,
--     Queue/Replay `replay_task`.
--   Models: `TaskSpec` of qtask_list/models.py.
--   System: any number of producers, workers and administrators as a step relation; a step is one
--     script with the arguments that the calling method builds from a message, from tokens it draws
--     and from what it read before, and between two scripts of a method any steps may stand. No step
--     are the manual move, the recovery of abandoned claims, the repairs of `check_consistency` and
--     what deletes records (`delete_task`, `clear_terminal`, `clean_expired`).
--   Worker: qtask_list/worker.py: Worker/Process `_process_task` and `_settle_claim` over the queue's
--     `ack` and `fail`; Worker/Pool the threads of `run`, `stop` and `_poll_once` as a step relation.
--   Remote: the object server of qtask_list/remote_storage/server.py: Remote/Scores its sorted sets,
--     Remote/Disk its files and metadata, Remote/Requests the handlers, Remote/Cleanup the cleanup
--     rounds, Remote/Client the client of qtask_list/storage.py and what the queue makes of its
--     errors. The queue's scripts put references to the server's objects into its log.
--   Dashboard: Dashboard/Auth the sessions of qtask_list/dashboard/auth.py.
--   History: History/Page READ_HISTORY_PAGE_LUA of qtask_list/history.py, and reading page by
--     page; History/Clear `clear_terminal`, with the messages that the containers hold as a test.
--   Admin: qtask_list/admin.py: Admin/Search the scan of several histories in `search_tasks_page`,
--     for any filter of the records; Admin/Deleting `delete_task`, over the queue's
--     `_cancel_or_purge`.
--   Examples: the theorems at concrete queues, servers, sessions and workers.
--
-- How the model reads the source:
--   Times are microseconds on ℕ, as Redis' TIME gives them. A text in a list or set is identified
--   with the envelope that it encodes, and a hashed key with what is hashed: JSON and SHA-256 are
--   third-party. Members of a sorted set that have one score stand in the order of insertion. The
--   outcome `live` stands for a missing outcome, '' and 'none'. The random factor of a backoff is
--   an argument, 1000 times what random.uniform gives. Records, owners and leases that Redis drops
--   at the end of their time to live are dropped by a step of their own, `expires`. The step of a
--   replay says what `replay_task` has read before: it names the source's dead letter if there is
--   one. The recovery loop has the length of the processing lists as fuel, since each round takes an
--   entry; the delay loop has its limit. The binary search has the length of the index as fuel, since
--   each round makes its interval shorter; the batches of `clear_terminal` have the number of members
--   and one, since each round passes or removes one. The loop of `pop_claim_no_wait` has the length of
--   the ready list, since no call of it adds to that list. The methods of an administrator read and
--   write in turn with no other call between; what a scan over keys answers is an argument.
--   A handler, a result queue and a lost call enter a worker's model as what they return, raise or
--   leave behind in Redis. What the thread steps leave out (logging, the heartbeat's own calls) does
--   not change the state that they share; the main thread is not interrupted in `run`. The server's metadata are read and written whole, a key of
--   the server is the text that `_key_path` accepts, and HMAC, JSON and base64 are the parameter
--   `Crypto` of the sessions, with what is relied on of them in `IsSound`.
--
-- Not modelled: the guards on key types, counters and namespaces, which stop a script before its
-- first write; the free texts `reason` of an update; records that are String values, except in
-- History/Clear; the retry list of the first release; Redis errors outside a worker's settlement; the
-- worker's maintenance and alerts; archives, the other operations of administrators, the dashboard's
-- handlers, the command line.
pub mod Base
pub mod Store
pub mod State
pub mod Queue
pub mod Models
pub mod System
pub mod Remote
pub mod Dashboard
pub mod Worker
pub mod History
pub mod Admin
mod Examples
