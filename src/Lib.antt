-- ===== src/Lib.antt =====
-- paperboy collects Telegram channels into one SQLite database. This library models the core of
-- it, from src/paperboy, and states what makes that core correct.
--
-- The parts, and how they interact. Every call of the API goes through the budget gate
-- (budget.py), which paces, retries and classifies errors (errors.py). A collector asks the
-- gateway for objects, appends each to the raw log (store/db.py) and projects it into tables
-- (store/messages.py, peers.py, edges.py) under the entity ids of ids.py. The history collector
-- (collectors/history.py) pages from the newest message to the oldest, saves its cursor, asks for
-- the ids that the pages skipped, and records the span as verified (store/sync.py). The media phase
-- (collectors/media.py) streams files through a sink into a store, where it creates objects, and keeps
-- a custody log. `fetch-from-list` reads a list of messages (media_list.py), classifies its rows offline, plans
-- segments, and runs the posts and then the media of each (fetch_from_list.py).
--
-- Which file models which part:
--   Base          lists, dictionaries, texts (lists of code points) and decimal numbers.
--   Ids           ids.py: Ids/Uri the id constructors and `parse_uri`, Ids/Peer peer references,
--                 stubs, handles and `namespaced_kind`, Ids/Utf16 `utf16_slice`.
--   Errors        errors.py: `classify`, with a constructor for each class that it names.
--   Budget        budget.py: `Settings` and `State` are the fields of `Budget`; `call` is composed
--                 of `prepare` (`_take_rpc`, `_pace`), `handle_error` and its branches as the code
--                 composes them. Budget/Heartbeat is `_sleep_with_heartbeat`.
--   Sync          store/sync.py: `add_range` and `missing_ids` over the rows of `sync_ranges`.
--   Store         Store/Json `_without_volatile`; Store/Tables the rows of the message tables;
--                 Store/Messages `upsert_message_revised`, `mark_deleted`, `clear_deleted`;
--                 Store/Peers `upsert_peer`, with `observe` for what a stored row becomes;
--                 Store/Edges `add_edge`, `edge_exists`, `add_edge_once`; Store/Db `add_raw`.
--   Collectors    Collectors/Observe `observe_message`; Collectors/Sweep what `collect` saves in
--                 `sync_state` (`Saved`) and its variables (`Locals`, `Tally`); Collectors/History
--                 `collect`, with one turn of `while True` in `round`; Collectors/Gaps `_probe_gaps`.
--                 Collectors/CatchUp is `catch_up`, with one page in `turn`.
--                 Collectors/Posts is `PostsCollector._fetch`.
--   Recipes       recipes.py: `collect_channel` is `collect_channel_with_context`, over a list of
--                 collectors, each a function of the store and the established channel.
--   Inputs        Inputs/Targets `parse_target`; Inputs/Entry `_parse_uri`, `_row` and
--                 `_mark_duplicates`; Inputs/ListFile `parse_media_list`; Inputs/Classify
--                 `held_file` and `classify_rows`; Inputs/Segments `plan_segments`. Inputs/Scan has
--                 the pieces of their patterns, Inputs/Csv what the standard library reads.
--   Media         Media/Keys media_keys.py; Media/Content `content_key`, `load_content_index`,
--                 `recorded_size`, `_guess_ext`; Media/Sink media_sink.py, gateway.py's
--                 `download_media` and `_stream_one`; Media/Store media_store.py; Media/Phase one
--                 turn of the loop of `collect`, with the tables in Media/Phase/State, `_held` and
--                 `_place` in Media/Phase/Place and the rows it selects in Media/Phase/Select.
--   Fetch         `_run_segments`: Fetch/OneSegment from the claims to the media of a segment, Fetch
--                 the rest of a turn; Fetch/Rows `_settle` and the marks of rows, Fetch/Refresh
--                 `_refresh_rows` and what the report names, Fetch/Exclusion `_excludes`,
--                 `linked_discussion_groups` and `excluded_channel_ids`, Fetch/Loop `_stop_check`
--                 and the state.
--   Tests         runs on small inputs, and the theorems at concrete inputs.
-- Their child files hold the proofs and are named for what they prove.
--
-- Conventions. Numbers are natural numbers. The budget's clock counts microseconds, and its factors
-- are written out in integers as in the source; stamps are numbers in the order of the ISO texts.
-- A text is a list of code points and `lower` is that of ASCII. A table is the list of its rows in
-- insertion order, and a rowid is a position, or a column where rows are deleted. A key that is
-- missing from an API object and one that is `None` are both `none`. An exception is a value
-- (`none`, `key_error`, `raised`, `failed`), with the state at the point where it is raised, since
-- the database commits each statement. Ids, sizes and dates are natural numbers, and input texts are
-- ASCII and of at most 4300 digits, the limit of Python's `int`. The two writes of `sync_state` that
-- follow a page, of the cursor and of the sweep's progress, are one step. A Python dict is an association list with the test of equality of its keys (Base/Assoc). A
-- row that several lists share is in one list of results, and the others hold its place there.
--
-- Parameters. The sleep of the budget is a function that advances the clock at least as far as
-- asked. The gateway is a record of functions from a request to its reply, which may be any exception;
-- `IsServer` states what the documentation of the history method promises. `sha256` and the
-- canonical JSON printer are functions, of which nothing is assumed. The clock of a collector is a
-- function of the payload and of the number of records in the log. `crc32c` and the guess of an
-- extension from a MIME type are functions too; a hash is that of all bytes that the hasher was given.
-- What a disk, the network, another writer and the API library do to one download is an input of the
-- media phase (`Transfer`, `Network`), of which nothing is assumed: another writer may create the
-- object before the store looks for it, and in the profile folder between that look and the rename. The loop of `fetch-from-list`
-- takes the runs of the collectors as a record of functions on any state (`Driver`), of which nothing
-- is assumed.
--
-- Fuel. `call` runs on seven attempts, which the retry limits of the code make enough; the
-- heartbeat runs on the length of the wait; `collect` runs on any number above the highest id that
-- the gateway answers; `catch_up` runs on its page budget, or on one page; the chunks of the probe
-- run on the number of ids.
--
-- Not modelled: the command line, the API library and its session, HTTP, files, secrets and log
-- texts, which are input and output; the other collectors, replay and reprojection, and so the replay
-- path of the media phase; its sweep of stale part files and `attributes_json`; the client library of
-- the bucket and its retries; the audit of the media store; the parsers of config.py. The reason that
-- `fetch-from-list` gives for an unreachable store is without the text of the exception.
-- `collect`, `catch_up` and `fetch` start after their check that the channel is resolved.
pub mod Base
pub mod Sync
pub mod Errors
pub mod Ids
pub mod Inputs
pub mod Media
pub mod Fetch
pub mod Store
pub mod Budget
pub mod Collectors
pub mod Recipes
mod Tests
