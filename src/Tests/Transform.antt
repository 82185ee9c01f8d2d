-- ===== src/Tests/Transform.antt =====
-- Runs of wks/api/transform, and its theorems at concrete input.
use wks.Common.{
  String, ◌≡◌, refl, Bool, true, false, none, some, List, [], ◌∷◌, string_eq, list_eq, insert_by,
  sort_by,
}
use wks.Common.Text
use wks.Common.Dict.{Dict}
use wks.FilePath.{FilePath, suffix}
use wks.Transform.Cache.{
  pos, CacheEntry, CacheState, total_size, ensure_space, add_size, subtract_size, get_lru_entries,
  lru_order, until_freed, evict_entries, evict_all,
}
use wks.Transform.Cache.Laws.{ensure_space_lem, Outcome}
use wks.Transform.Engines.{Options, RouteData, FileFacts, Engine, plain, resolve_route}
use wks.Transform.Engines.Laws.{resolve_route_lem, RouteOutcome}

abbrev path_of : String → FilePath
path_of uri = uri ∷ []

abbrev same : List CacheEntry → List CacheEntry
same entries = entries

abbrev entry : String → String → String → CacheEntry
entry checksum uri last = record {
  checksum = checksum;
  size_bytes = 5;
  cache_uri = uri;
  last_accessed = last;
}

abbrev state : CacheState
state = record {
  cache_json = total_size (pos 15);
  db = entry "1" "a.md" "1" ∷ entry "2" "b.bin" "3" ∷ entry "3" "c.bin" "2" ∷ [];
  existing = ("a.md" ∷ []) ∷ ("b.bin" ∷ []) ∷ [];
}

-- The older binary output goes first.
eviction_runs : (ensure_space path_of same 16 4 state).0 ≡ some ("c.bin" ∷ [])
unfolding ensure_space add_size subtract_size get_lru_entries lru_order until_freed evict_entries
    evict_all suffix Text.text_before string_eq list_eq sort_by insert_by
eviction_runs = refl

ensure_space_lem_example : Outcome path_of same 16 4 state (ensure_space path_of same 16 4 state)
ensure_space_lem_example = ensure_space_lem path_of same 16 4 state

abbrev options : Options
options = record { Value = String; auto = "auto"; message = "binary" }

abbrev lower : String → String
lower text = text

abbrev file : FileFacts options lower
file = record {
  suffix = ".md";
  mime_type = "text/markdown";
  is_utf8_text = true;
  kind = "text";
  has_language = λ o. false;
}

abbrev engines : Dict String (Engine options lower)
engines =
    ("pdf", plain (record { engine_type = "pdftext"; data_options = []; supported_types = none }))
    ∷ (
      "text",
      plain (record { engine_type = "textpass"; data_options = []; supported_types = none }),
    )
    ∷ []

abbrev config : RouteData
config = record { order = "pdf" ∷ "text" ∷ []; passthrough_text = false; reject_binary = true }

abbrev known : String → Bool
known engine_type = true

resolve_route_lem_example :
    RouteOutcome options lower known engines "auto_route" file [] config config.order
      (resolve_route options lower known engines "auto_route" config file [] config.order)
resolve_route_lem_example =
    resolve_route_lem options lower known engines "auto_route" file [] config config.order
