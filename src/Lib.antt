-- ===== src/Lib.antt =====
-- A model of wks, a Python program that watches a user's files: its daemon keeps a database of the
-- monitored files up to date, transforms them to text with a cache, indexes the text in chunks,
-- and searches the chunks.
--
-- How the parts interact: the rules of `Monitor` (explain_path) decide which paths the daemon's
-- loop (`Daemon`) syncs; the priorities of `Monitor` rank what is monitored; `Transform` picks the
-- engine for a file and makes room for its output; `Index` cuts the output in chunks and stores them,
-- which the results of `Search` name; `Similar` matches the chunks of documents; `Move` moves a
-- document and syncs it; `Log` reads and prunes the file in which the parts write what they do. The
-- records of nodes, edges and chunks are collections of `Database`, an interface with laws.
--
-- Files, with the code that each is about:
--   Common: `str`, `list` and `dict` as the program uses them, a stable sort, and floats;
--   FilePath: pathlib's pure paths and wks/api/config/normalize_path.py;
--   Uri: wks/api/config/URI.py;
--   Monitor/Glob, Roots, Explain: wks/api/monitor/matches_glob.py, _evaluate_roots.py and
--     explain_path.py;
--   Monitor/Priority: find_priority_dir.py, calculate_priority.py and
--     _calculate_underscore_multiplier.py of the same directory;
--   Monitor/Filter, Monitor/Commands: validate_value.py and the commands on rules and priorities
--     there, with wks/api/config/find_matching_path_key.py;
--   Monitor/Remote: resolve_remote_uri.py there;
--   Database: what wks/api/database/Database.py offers, as an interface; Database/Listed fills it;
--   Monitor/Sync: _sync_uri.py and _enforce_monitor_db_limit.py there;
--   Monitor/Prune, Link/Prune: prune.py there, and wks/api/link/prune.py;
--   Move, Move/Filename: wks/services/mv.py and wks/api/mv/MvConfig.py;
--   Daemon/Control: Daemon.py, process_identity.py and cmd_clear.py of wks/api/daemon;
--   Daemon/Events: wks/api/daemon/_EventHandler.py, and process_events of _child_main.py;
--   Transform/Prune: prune.py of wks/api/transform;
--   Transform/Cache, Transform/Engines: _CacheManager.py, _resolve_engine_selection.py and
--     _supports_file.py of wks/api/transform;
--   Index/Chunker: wks/api/index/_SlidingWindowChunker.py;
--   Index/Stores, Index/Commands: _ChunkStore.py, _EmbeddingStore.py, _build_embedding_docs.py, cmd.py
--     and cmd_auto.py there;
--   Search/Dedupe, Search/Merge: _dedupe_hits.py and _rrf.py of wks/api/search;
--   Search/Service: wks/services/search.py, its data in the parent, the rankings and the searches of
--     one index in Ranking, and the strategies in Strategy;
--   Similar/Candidates, Similar/Matching, Similar/Labels, Similar/Metrics:
--     wks/api/similar/_similar_helpers.py;
--   Log: LOG_PATTERN.py, cmd_prune.py, cmd_status.py, read_log_entries.py and
--     summarize_status_log_messages.py of wks/api/log;
--   Tests: runs of the definitions, and the theorems at concrete input.
--
-- State and errors: a command takes the state that the code reads (a section of the configuration,
-- a log file, a cache) and returns its output with the state that it leaves. What the code raises is
-- a value: `none`, or a constructor of the result's type.
--
-- Parameters: floats, dates, hashes, `str.lower`, `str.upper`, `repr`, `unquote`, the decimal digits of
-- patterns, the host name, the collections of the database, the file system, git, the vault, requests,
-- what a transform and the models answer, and what detectors say of a file's type. The hypotheses on
-- them stand with the theorems that need them.
--
-- Fuel: only the outer loop of the chunker runs on it. It is given a round for each line and one
-- more; every round passes a line, so it does not run out.
--
-- Not modelled: the command line, the servers, platform services, the daemon in the foreground, the
-- backends of the database and the exceptions that they raise, configuration files, status files,
-- language and embedding models, the vault and its links, diffs, the caches of the search, and the
-- progress steps that commands yield. Paths of drives and symbolic links have no model.
pub mod Common
pub mod FilePath
pub mod Monitor
pub mod Move
pub mod Index
pub mod Search
pub mod Log
pub mod Link
pub mod Uri
pub mod Transform
pub mod Daemon
pub mod Database
pub mod Similar
mod Tests
