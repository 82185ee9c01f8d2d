-- ===== src/Transform/Engines.antt =====
-- The choice of an engine: wks/api/transform/_resolve_engine_selection.py, _supports_file.py and
-- `normalize_extension` of mime.py. `lower` is `str.lower`. What other code says of the file (its
-- type, its text, its kind, its language) is a record of answers.
pub mod Laws
use wks.Common.{
  String, ◌<>◌, Bool, true, false, not, ◌&&◌, ◌||◌, Option, none, some, List, [], ◌∷◌, map, ◌==◌,
  string_eq, nat_eq, if◌then◌else◌, contains, drop_if,
}
use wks.Common.Dict.{Dict, lookup, insert, has_key}
use wks.Common.Text.{strip, is_empty, starts_with, has_char, drop_chars, ends_with, drop_last}
use mathlib.Core.List.{foldl}

-- The values of the options, which the choice passes on; `auto` is the text "auto" and `message` the
-- text of `_ROUTE_REJECT_BINARY_MESSAGE`.
pub record Options : Type 1 where
  pub Value : Type 0
  pub auto : Value
  pub message : Value

-- `_RouteEngineData`
pub record RouteData : Type 0 where
  pub order : List String
  pub passthrough_text : Bool
  pub reject_binary : Bool

module _ (O : Options) (lower : String → String) where
  open O use {Value}

  -- What the choice reads of the file: `file_path.suffix`, `guess_mime_type`, `is_utf8_text`,
  -- `classify_input_kind`, and whether `resolve_language` finds a language.
  pub record FileFacts : Type 0 where
    pub suffix : String
    pub mime_type : String
    pub is_utf8_text : Bool
    pub kind : String
    pub has_language : Dict String Value → Bool

  -- `_EngineConfig`
  pub record EngineConfig : Type 0 where
    pub engine_type : String
    pub data_options : Dict String Value
    pub supported_types : Option (List String)

  pub data Engine : Type 0 where
    plain : EngineConfig → Engine
    route : RouteData → Engine

  -- `ResolvedEngineSelection`; the engine itself is the one of `selected_type`.
  pub record Selection : Type 0 where
    pub configured_name : String
    pub selected_type : String
    pub cache_engine_name : String
    pub options : Dict String Value
    pub kind : Option String

  -- The errors: five are a `ValueError`, and `missing_target` is the `KeyError` of an engine that the
  -- order names and the configuration lacks.
  pub data Choice : Type 0 where
    auto_refused unknown_engine unsupported no_fallback missing_target : Choice
    route_to_route : String → Choice
    unknown_type : String → Choice
    selected : Selection → Choice

  unfoldable pub normalize_extension : String → String
  normalize_extension extension =
      let ext = lower (strip extension) in
      if is_empty ext then "" else if starts_with ext "." then ext else "." <> ext

  -- The body of the loop of `supports_file`: does this value name the file's type?
  unfoldable pub names_type : FileFacts → String → Bool
  unfolding normalize_extension
  names_type file value =
      if starts_with value "."
      then normalize_extension file.suffix == normalize_extension value
      else if has_char b'/' value
      then (if ends_with value "/*"
          then starts_with (lower file.mime_type) (drop_last value)
          else lower file.mime_type == value)
      else normalize_extension file.suffix == normalize_extension value

  abbrev pub some_names_type : FileFacts → List String → Bool
  some_names_type file [] = false
  some_names_type file (value ∷ values) = names_type file value || some_names_type file values

  -- `supports_file` of a list that is there
  unfoldable pub supports_file : List String → FileFacts → Bool
  supports_file supported_types file =
      let normalized =
        map (λ v. lower (strip v)) (drop_if (λ v. is_empty (strip v)) supported_types) in
      elim normalized [
        | [] ↦ true
        | v ∷ vs ↦ contains (v ∷ vs) "*" || some_names_type file (v ∷ vs)
      ]

  abbrev image_types : List String
  image_types = ".png" ∷ ".jpg" ∷ ".jpeg" ∷ ".gif" ∷ ".bmp" ∷ ".tif" ∷ ".tiff" ∷ ".webp" ∷ []

  -- The tests by the type of the engine.
  unfoldable pub type_supports : String → FileFacts → Dict String Value → Bool
  type_supports engine_type file options =
      if engine_type == "docling"
      then file.kind == "document"
      else if engine_type == "pdftext"
      then normalize_extension file.suffix == ".pdf"
      else if engine_type == "treesitter"
      then file.has_language options
      else if engine_type == "textpass"
      then file.is_utf8_text
      else if engine_type == "binarypass"
      then not file.is_utf8_text
      else if engine_type == "imagetext"
      then supports_file image_types file
      else true

  unfoldable pub engine_supports_file : EngineConfig → FileFacts → Dict String Value → Bool
  engine_supports_file config file options = elim config.supported_types [
    | some types ↦ supports_file types file
    | none ↦ type_supports config.engine_type file options
  ]

  -- `{**data, **overrides}`, with the language that a parser needs
  unfoldable pub merged_options : EngineConfig → Dict String Value → Dict String Value
  merged_options config overrides =
      let merged = foldl (λ d e. insert e.0 e.1 d) config.data_options overrides in
      if config.engine_type == "treesitter" && not (has_key merged "language")
      then insert "language" O.auto merged
      else merged

  -- `known_type` says for which types `_get_engine_by_type` does not raise.
  module _ (known_type : String → Bool) where
    abbrev pub select : Selection → Choice
    select s = if known_type s.selected_type then selected s else unknown_type s.selected_type

    abbrev pub target_selection :
        String → String → EngineConfig → FileFacts → Dict String Value → Selection
    target_selection engine_name target_name target file overrides = record {
      configured_name = engine_name;
      selected_type = target.engine_type;
      cache_engine_name = engine_name <> (":" <> target_name);
      options = merged_options target overrides;
      kind = some file.kind;
    }

    -- What follows the loop: the two fallbacks.
    unfoldable pub fallback : String → RouteData → FileFacts → Choice
    fallback engine_name config file =
        if config.passthrough_text && file.is_utf8_text
        then select (record {
          configured_name = engine_name;
          selected_type = "textpass";
          cache_engine_name = engine_name <> ":passthrough_text";
          options = [];
          kind = some "text";
        })
        else if config.reject_binary && not file.is_utf8_text
        then select (record {
          configured_name = engine_name;
          selected_type = "null";
          cache_engine_name = engine_name <> ":reject_binary";
          options = ("message", O.message) ∷ [];
          kind = some "binary";
        })
        else no_fallback

    -- The body of the loop; `next` is the choice of the rounds that follow.
    abbrev pub try_target :
        String → String → Option Engine → FileFacts → Dict String Value → Choice → Choice
    try_target engine_name target_name none file overrides next = missing_target
    try_target engine_name target_name (some (route nested)) file overrides next =
        route_to_route target_name
    try_target engine_name target_name (some (plain target)) file overrides next =
        if engine_supports_file target file (merged_options target overrides)
        then select (target_selection engine_name target_name target file overrides)
        else next

    unfoldable pub resolve_route :
        Dict String Engine
        → String
        → RouteData
        → FileFacts
        → Dict String Value
        → List String
        → Choice
    resolve_route engines engine_name config file overrides [] = fallback engine_name config file
    resolve_route engines engine_name config file overrides (target_name ∷ rest) =
        try_target engine_name target_name (lookup target_name engines) file overrides
          (resolve_route engines engine_name config file overrides rest)

    -- The branches for the engine that was asked for.
    unfoldable pub resolve_engine :
        Dict String Engine → String → Option Engine → FileFacts → Dict String Value → Choice
    resolve_engine engines engine_name none file overrides = unknown_engine
    resolve_engine engines engine_name (some (route config)) file overrides =
        resolve_route engines engine_name config file overrides config.order
    resolve_engine engines engine_name (some (plain config)) file overrides =
        if engine_supports_file config file (merged_options config overrides)
        then select (record {
          configured_name = engine_name;
          selected_type = config.engine_type;
          cache_engine_name = engine_name;
          options = merged_options config overrides;
          kind = none;
        })
        else unsupported

    unfoldable pub resolve_engine_selection :
        Dict String Engine → String → FileFacts → Dict String Value → Choice
    resolve_engine_selection engines engine_name file overrides =
        if engine_name == "auto"
        then auto_refused
        else resolve_engine engines engine_name (lookup engine_name engines) file overrides
