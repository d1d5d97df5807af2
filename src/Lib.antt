-- ===== src/Lib.antt =====
-- The StudyOS agent gateway: a Discord bot and a GitHub webhook receiver in front of a coding
-- agent. Discord requests become tasks in a durable store; GitHub events become passive mirror
-- cards with a durable store of their own.
--
-- Common holds what the parts share: Boolean tests, equality as an interface (Common/Equality),
-- Python's sequences and dictionaries (Common/Seq, Common/Dict), the results of code that may raise
-- (Common/Outcome), methods of an object that may raise and that await (Common/Method), JSON values
-- (Common/Json) and the standard library as an interface (Common/Python): UUIDs and timestamps
-- are texts whose reading is a parameter.
--
-- Task is src/study_discord_agent/discord_task_*.py.
--   Task/State, Task/Failure, Task/Record, Task/Transition: discord_task_model.py and
--     discord_task_failures.py. `checked` is the constructor of `DiscordTaskRecord`, which
--     `dataclasses.replace` calls again.
--   Task/Ids, Task/Graph, Task/Retention: discord_task_ids.py and discord_task_store_policy.py.
--   Task/Store, Task/Forget, Task/Reconcile: discord_task_store.py, discord_task_store_mutations.py
--     and discord_task_persistence.py. An operation takes the store and an `Env` (the clock's
--     readings and what the file system does) and returns its result or exception with the store
--     that it left.
--   Task/History: any sequence of these operations and restarts.
--   Task/Access: discord_task_auth.py.
--   Task/Claims: `BoundedClaims` of discord_task_service_state.py.
--   Task/Document: discord_task_serialization.py, the JSON of a document; `json` itself is a parameter.
--   Task/Request: discord_task_request.py, `new_record` of discord_task_service_state.py and
--     `AgentRunSpec` of discord_task_execution.py.
--   Task/Queries: discord_task_queries.py.
--   Task/Service, Task/Facade: discord_task_service.py and discord_task_runners.py. The state is the
--     store, the claimed events and interactions, the tasks with a runner and the effects so far. A
--     method runs in one step up to an `await`; an `Await` says what it gives and what others have
--     done to the state when it gives it.
--   Task/Actions, Task/Ending: discord_task_actions.py; discord_task_reconciliation.py.
--   Task/Runtime, Task/RuntimeFailures: discord_task_runtime.py, discord_task_runtime_failures.py.
--     The agent, Discord and the delivery cache answer from outside.
--
-- Mirror is src/study_discord_agent/github_mirror_*.py.
--   Mirror/Record: github_mirror_model.py; `checked_mirror` is the constructor of
--     `GitHubMirrorRecord`.
--   Mirror/Updates: github_mirror_store_updates.py, the next record of a mirror.
--   Mirror/Store, Mirror/Cards: github_mirror_store.py, with the checks of
--     github_mirror_serialization.py on a document. Every operation loads the document first. A
--     callback of compare-and-set is an action on the store: others may write while it runs.
--   Mirror/Document: the JSON of github_mirror_serialization.py, both versions. The store keeps the
--     records that this document encodes.
--   Mirror/Actions: github_mirror_action_store.py. Its loops run over a list of attempts, cut to
--     the eight of the code; an attempt says what others write in it.
--   Mirror/History: any sequence of the operations of the store of mirrors.
--   Mirror/Publisher, Mirror/Publication: github_mirror_publisher.py. A world is what one await or
--     one call of the store meets: Discord's answer, and what others have done to the store. Creating
--     and finishing a card call each other without a bound in Python, and on fuel here.
--
-- Session is src/study_discord_agent/session_store.py: Session/Binding the record, Session/Document what
-- `_read` and `_write` make of the file, Session/Store the methods. `json`, `pathlib` and the text of
-- a number are a parameter, `SessionLib`.
--
-- Not modelled are the adapters around these parts: discord.py handlers, webhooks and HTTP, the
-- agent's processes, files and worktrees, settings and prompts. Of a request the attachments' files
-- are left out, but not when they are cleaned up.
--
-- Exceptions are known by their class; messages and log lines are left out. Identifiers and counters
-- are natural numbers: a negative integer fails the same checks as zero and is not represented.
-- Locks are not modelled: an operation of a store is one step. The document on disk is kept as the
-- records that it encodes, and a file that is there can be read. The loops over task links run on
-- fuel: one more than the number of tasks for one chain or component, which holds each task once;
-- Task/Graph/Ends and Task/Retention/Total are about that fuel.
pub mod Common
pub mod Task
pub mod Mirror
pub mod Session
