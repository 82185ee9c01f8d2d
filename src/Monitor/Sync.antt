-- ===== src/Monitor/Sync.antt =====
-- The sync of a path with the database of nodes: wks/api/monitor/_sync_uri.py and
-- _enforce_monitor_db_limit.py. The database is a collection; it raises nothing. The status file and
-- the progress steps are left out.
pub mod Laws
use wks.Common.{
  ℕ, zero, suc, ◌+◌, ◌-◌, String, ◌<>◌, Bool, true, false, not, ◌&&◌, ◌||◌, Option, none, some,
  List, [], ◌∷◌, ◌++◌, ◌==◌, string_eq, nat_eq, if◌then◌else◌, length, leb, count_if, Answer,
  answer, raised,
}
use wks.Common.Dict.{Dict}
use wks.Common.Float.{Float}
use wks.Database.{Collection}
use wks.FilePath.{FilePath, Process, name, to_string}
use wks.Uri.{uri_path, from_path}
use wks.Monitor.Explain.{FilterConfig, explain_path}
use wks.Monitor.Priority.{PriorityWeights, calculate_priority}
use wks.Monitor.Remote.{RemoteMapping, resolve_remote_uri}

-- What `stat` and `file_checksum` tell of a file.
pub record FileStat : Type 0 where
  pub checksum : String
  pub size : ℕ
  pub timestamp : String

-- The file system: `files` are those of `expand_paths`, the one that was changed last first.
pub record FileSystem : Type 0 where
  pub exists : FilePath → Bool
  pub files : FilePath → Bool → List FilePath
  pub read_stat : FilePath → Answer FileStat

-- `MonitorSyncOutput`
pub record SyncOutput : Type 0 where
  pub success : Bool
  pub message : String
  pub errors : List String
  pub files_synced : ℕ
  pub files_skipped : ℕ

-- The counters of the loop.
pub record SyncCounts : Type 0 where
  pub files_synced : ℕ
  pub files_skipped : ℕ
  pub errors : List String

abbrev pub skip_file : SyncCounts → SyncCounts
skip_file c = record c { files_skipped = suc c.files_skipped }

abbrev pub no_counts : SyncCounts
no_counts = record { files_synced = 0; files_skipped = 0; errors = [] }

module _ (F : Float) where
  open F use {Number}

  -- The record of a monitored file.
  pub record Node : Type 0 where
    pub local_uri : String
    pub remote_uri : Option String
    pub checksum : String
    pub bytes : ℕ
    pub priority : Number
    pub timestamp : String

  -- A document of the collection "nodes": a monitored file, a vertex that a transform writes, or the
  -- time of the last sync.
  pub data NodeDoc : Type 0 where
    node : Node → NodeDoc
    vertex : String → NodeDoc
    meta : String → NodeDoc

  -- `{"local_uri": uri}`
  abbrev pub has_uri : String → NodeDoc → Bool
  has_uri uri (node n) = uri == n.local_uri
  has_uri uri (vertex v) = false
  has_uri uri (meta t) = false

  -- `{"priority": {"$lt": min_priority}}`
  abbrev pub is_below : Number → NodeDoc → Bool
  is_below min_priority (node n) = F.lt n.priority min_priority
  is_below min_priority (vertex v) = false
  is_below min_priority (meta t) = false

  -- `{"_id": "__meta__"}`
  abbrev pub is_meta : NodeDoc → Bool
  is_meta (node n) = false
  is_meta (vertex v) = false
  is_meta (meta t) = true

  -- `{"doc_type": {"$ne": "meta"}}`
  abbrev pub is_counted : NodeDoc → Bool
  is_counted doc = not (is_meta doc)

  -- The section of the configuration.
  pub record SyncConfig : Type 0 where
    pub filter : FilterConfig
    pub dirs : Dict String Number
    pub weights : PriorityWeights F
    pub min_priority : Number
    pub max_documents : ℕ
    pub mappings : List RemoteMapping

  module _ (C : Collection NodeDoc) where
    open C use {State}

    -- From the count on.
    unfoldable pub drop_extras : ℕ → State → State
    drop_extras max_docs s =
        let count = count_if is_counted (C.all s) in
        if max_docs == 0 || leb count max_docs
        then s
        else C.delete_ids s (C.find_first s is_counted (count - max_docs))

    -- `_enforce_monitor_db_limit`
    unfoldable pub enforce_limit : ℕ → Number → State → State
    enforce_limit max_docs min_priority s =
        drop_extras max_docs
          (if F.lt F.zero min_priority then C.delete_many s (is_below min_priority) else s)

    module _ (env : Process) (wks_home : FilePath) (hostname : String)
        (lower unquote : String → String) (text_of : ℕ → String) (fs : FileSystem)
        (cfg : SyncConfig) where
      -- `str(URI.from_path(path))`
      abbrev pub local : FilePath → String
      local path = from_path env hostname (to_string path)

      -- What the body of the loop decides of a file.
      pub data Decision : Type 0 where
        excluded low_priority : Decision
        failed : String → Decision
        to_store : Node → Decision

      abbrev pub node_of : FilePath → FileStat → Node
      node_of path stat = record {
        local_uri = local path;
        remote_uri = resolve_remote_uri env unquote (local path) cfg.mappings;
        checksum = stat.checksum;
        bytes = stat.size;
        priority = calculate_priority F lower env path cfg.dirs cfg.weights;
        timestamp = stat.timestamp;
      }

      abbrev pub decide_stat : FilePath → Answer FileStat → Decision
      decide_stat path (raised e) = failed (to_string path <> (": " <> e))
      decide_stat path (answer stat) =
          if F.lt (calculate_priority F lower env path cfg.dirs cfg.weights) cfg.min_priority
          then low_priority
          else to_store (node_of path stat)

      unfoldable pub decide : FilePath → Decision
      decide path =
          if (explain_path env wks_home cfg.filter path).0
          then decide_stat path (fs.read_stat path)
          else excluded

      -- What is done for the decision.
      abbrev pub carry_out : String → Decision → State × SyncCounts → State × SyncCounts
      carry_out uri excluded (s, c) = (C.delete_many s (has_uri uri), skip_file c)
      carry_out uri low_priority (s, c) = (s, skip_file c)
      carry_out uri (failed e) (s, c) =
          (s, record c { files_skipped = suc c.files_skipped; errors = c.errors ++ e ∷ [] })
      carry_out uri (to_store n) (s, c) = (
        C.upsert s (has_uri uri) (λ d. node n) (node n),
        record c { files_synced = suc c.files_synced },
      )

      unfoldable pub sync_files : List FilePath → State × SyncCounts → State × SyncCounts
      sync_files [] p = p
      sync_files (path ∷ paths) p = sync_files paths (carry_out (local path) (decide path) p)

      abbrev pub is_nil : List String → Bool
      is_nil [] = true
      is_nil (_ ∷ _) = false

      abbrev pub sync_message : SyncCounts → String
      sync_message c =
          let start =
            "Synced "
            <> (text_of c.files_synced <> (" file(s), skipped " <> text_of c.files_skipped)) in
          if is_nil c.errors
          then start
          else start <> (", " <> (text_of (length c.errors) <> " error(s)"))

      -- The output, from the counters.
      abbrev pub sync_output : SyncCounts → SyncOutput
      sync_output c = record {
        success = is_nil c.errors;
        message = sync_message c;
        errors = c.errors;
        files_synced = c.files_synced;
        files_skipped = c.files_skipped;
      }

      -- `now` is the time that is stored as `last_sync`.
      unfoldable pub sync_existing : String → List FilePath → State → SyncOutput × State
      sync_existing now paths s =
          let (s', c) = sync_files paths (s, no_counts) in
          (
            sync_output c,
            C.upsert (enforce_limit cfg.max_documents cfg.min_priority s') is_meta (λ d. meta now)
                (meta now),
          )

      abbrev pub sync_path : String → Bool → Option FilePath → String → State → SyncOutput × State
      sync_path now recursive none uri s =
          let message = "Only file URIs are supported. Got " <> uri in
          (
            record {
              success = false;
              message = message;
              errors = message ∷ [];
              files_synced = 0;
              files_skipped = 0;
            },
            s,
          )
      sync_path now recursive (some path) uri s =
          if fs.exists path then sync_existing now (fs.files path recursive) s else (
            record {
              success = true;
              message = "Removed " <> (name path <> " from monitor DB");
              errors = [];
              files_synced = 0;
              files_skipped = 0;
            },
            C.delete_many s (has_uri (local path)),
          )

      -- `sync_uri`
      unfoldable pub sync_uri : String → Bool → String → State → SyncOutput × State
      sync_uri now recursive uri s = sync_path now recursive (uri_path env unquote uri) uri s
