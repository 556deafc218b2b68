-- ===== src/Lib.antt =====
-- A model of the assistant daemon (src/assistant): a chat bot that runs scheduled prompts and
-- background agents of a language model, and the theorems about it.
--
-- The parts, and how they meet:
-- - Sql: the statements that the stores issue, over a table as the list of its rows in rowid order.
-- - Subagent: the jobs of background agents. `Job` and `Ledger` are the tables of the fourth
--   migration in src/assistant/state/db.py; `Store` and its children are the class SubagentStore
--   (src/assistant/subagent/store.py), a definition for each method, under the method's name;
--   `Operations` are histories of its calls. `Hooks` are the callbacks of the SDK
--   (src/assistant/subagent/hooks.py) and `Transcript` the reader of transcripts in that file,
--   `Throttle` its spacing of notices. `Picker` is the task that starts requested jobs
--   (src/assistant/subagent/picker.py). The picker claims rows of the ledger, the hooks start and
--   finish them, the owner's tools cancel them, and a restart closes what was left.
--   `Tools` are the four tools with which the model queues and cancels jobs
--   (src/assistant/tools_sdk/subagent.py).
-- - Cron: src/assistant/scheduler/cron.py. `Field` and `Parse` are _expand_field and parse_cron,
--   `Matching` the tests of a minute, `Search` next_fire and is_due.
-- - Scheduler: the rest of src/assistant/scheduler. `Rows` are the tables of the third migration,
--   `Schedules` and `Triggers` the class SchedulerStore (store.py), `Loop` the tick that fills the
--   queue (loop.py), `Dispatcher` the consumer (dispatcher.py), and `Histories` runs of both with
--   changes of the schedules and restarts; `Marker` is the file of a clean exit by which a start
--   is classified. The loop asks Cron whether a schedule is due.
--   `Prompts` and `Envelope` are the checks of a prompt and wrap_scheduler_prompt, which the
--   dispatcher puts around it (src/assistant/tools_sdk/_scheduler_core.py); `Tools` are the six
--   tools with which the model changes the schedules (src/assistant/tools_sdk/scheduler.py).
-- - Conversations: the turns of a chat and their blocks, the class ConversationStore
--   (src/assistant/state/conversations.py). What is read of the past is `load_recent`, and
--   `Envelope` is the message that it becomes (src/assistant/bridge/history.py).
-- - Patterns: Python's regular expressions, as far as the patterns of the program use them.
-- - Guards: the hooks that decide on the tool calls of the model (src/assistant/bridge/hooks.py).
--   `Paths` is make_file_hook, `Argv` the validators of gh, git clone and uv sync, `Bash`
--   make_bash_hook, `Web` make_webfetch_hook, `Audit` _truncate_strings.
-- - Memory: the vault of notes and its index (src/assistant/tools_sdk/_memory_core.py). `Paths` is
--   validate_path, `Frontmatter` the YAML block, `Untrusted` sanitize_body and wrap_untrusted,
--   `Index` the row of a note, `Vault` the transactions on files and index, and `Tools` the tools
--   on them (src/assistant/tools_sdk/memory.py).
-- - Albums: the aggregator of photo albums (src/assistant/adapters/media_group.py).
-- - Chunks: how a long message is cut for the chat (src/assistant/adapters/telegram.py).
-- - Tables: the parser of pipe tables (src/assistant/render_doc/markdown_tables.py); `Grammar` says
--   which texts it reads and which it refuses.
--
-- How it is modelled. A method of a store takes the time and the tables, and returns its answer
-- with the tables after it; what raises returns `raise`. The methods run under the store's lock, so
-- a call is one step, and what other tasks do between two calls is an argument (a history) or a
-- move of a run. In Scheduler.Histories a tick and a round of the dispatcher are one move each. In
-- the program they interleave: a tick runs while the dispatcher awaits a turn, and can put the very
-- trigger in process back to pending (sweep_expired_sent). That is the subject of Scheduler.Guards
-- only; what is said of runs is said of those where no round is cut in two. Times are seconds since
-- the epoch, in Cron also minutes, as natural numbers; timestamps in the tables are those that the
-- program writes, in whole seconds, and so is julianday('now') in recover_orphans. Ids of chats,
-- integers of either sign that the code keeps and compares, stand as natural numbers. The text of a
-- note is what the file has, and is read with universal newlines as read_text does. A cost is kept
-- as the number that stands for its float. Sets are lists of which only membership is asked. Texts
-- that the code looks into are lists of code points.
--
-- Parameters. Unicode tables (Cron.Split.Unicode), the zone database (Cron.Calendar.Zone, with
-- offsets of whole minutes), the text of an instant and of a number (Scheduler.Process.System),
-- what a turn of the model and a send of the chat came to (Scheduler.Dispatcher, Subagent.Picker),
-- the letters that re.IGNORECASE takes for the same (Scheduler.Envelope), what `re` takes for
-- letters and white space (Patterns.Charset), where a path leads (Guards.Files, Memory.Paths.Disk),
-- shlex and str.lower (Guards.Bash.Shell), ipaddress, urlparse and getaddrinfo (Guards.Web.Net),
-- yaml with the loader that the program derives from it, IsoDateLoader (Memory.Frontmatter.Yaml),
-- str.title (Memory.Index.Reader), and NFKC (Scheduler.Prompts.Letters). Whether the lock is got,
-- what becomes of a file and whether a COMMIT succeeds are arguments of the transactions of
-- Memory.Vault; whether a callback raises is one of the flushes of Albums.
--
-- Bounds. The loops of next_fire and is_due recur on the number of minutes to their end, and
-- range(start, stop, step) on stop - start, which is enough since the step is positive.
-- Chunks.split_for_telegram has the length of the text as fuel: each chunk takes a character. No
-- other definition has fuel. Python's limit of 4300 digits in int() is left out.
--
-- Not modelled: the chat and model clients, the rendering of documents but for the tables, the
-- vault's git, the skill installer, audio and images, and the wiring of the daemon
-- (src/assistant/main.py, handlers, the rest of bridge, adapters and render_doc, vault_sync,
-- services, files). They are I/O and calls of third-party libraries for the most part. Of the
-- memory the search (queries, memory_search, memory_list, wikilinks) is left out, as is the
-- once-only configuration of the tools' modules and the text of their replies. Errors of the
-- database other than a constraint or a COMMIT that fails are left out as well.
mod Prelude
pub mod Sql
pub mod Cron
pub mod Scheduler
pub mod Subagent
pub mod Conversations
pub mod Patterns
pub mod Guards
pub mod Memory
pub mod Albums
pub mod Tables
pub mod Chunks
