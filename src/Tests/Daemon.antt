-- ===== src/Tests/Daemon.antt =====
-- A run of the event loop of wks/api/daemon, and its theorem at concrete input.
use wks.Common.{◌≡◌, ◌&&◌, ◌||◌, false, some, [], ◌∷◌, contains, string_eq, list_eq}
use wks.FilePath.{FilePath}
use wks.Tests.Monitor.{process, rules, note}
use wks.Daemon.Events.{Pending, modified_event, moved_event, handle, no_events, process_events}
use wks.Daemon.Events.Laws.{
  process_events_lem, syncs, deletes, normalized, normalized_moves, targets, sources,
  is_of_interest,
}

abbrev wks_home : FilePath
wks_home = ".wks" ∷ "u" ∷ "home" ∷ []

abbrev pending : Pending
pending =
    handle (moved_event false "/home/u/docs/b.md" "/home/u/docs/a.md")
      (handle (modified_event false "/home/u/docs/a.md") no_events)

process_events_lem_example :
    (syncs process wks_home []
        (some rules)
        (process_events process wks_home [] (some rules) pending).0
        note
      ≡ ((contains (normalized process wks_home [] (some rules) pending.modified) note
            || contains (normalized process wks_home [] (some rules) pending.created) note
            || contains
                (targets process wks_home []
                  (some rules)
                  (normalized_moves process wks_home [] (some rules) pending.moved))
                note)
          && is_of_interest process wks_home [] (some rules) note))
    × (deletes process wks_home []
          (some rules)
          (process_events process wks_home [] (some rules) pending).0
          note
        ≡ ((contains (normalized process wks_home [] (some rules) pending.deleted) note
              || contains
                  (sources process wks_home []
                    (some rules)
                    (normalized_moves process wks_home [] (some rules) pending.moved))
                  note)
            && is_of_interest process wks_home [] (some rules) note))
    × ((process_events process wks_home [] (some rules) pending).1 ≡ no_events)
process_events_lem_example = process_events_lem process wks_home [] (some rules) pending note
