-- ===== src/Daemon/Control.antt =====
-- The control of the daemon: `start` and `stop` of wks/api/daemon/Daemon.py, process_identity.py and
-- cmd_clear.py, on the processes, the lock file and the status file. Files that can not be written or
-- removed, `ps` where it fails, and the log are left out.
pub mod Laws
use wks.Common.{
  ℕ, zero, suc, ◌<◌, String, ◌≡◌, Bool, true, false, not, ◌&&◌, ◌||◌, Option, none, some, List, [],
  ◌∷◌, ◌==◌, nat_eq, if◌then◌else◌, leb, ltb, is_some,
}
use wks.Common.Text.{has_part, is_empty}

-- A process: its command line, and whether it was told to end.
pub record DaemonProcess : Type 0 where
  pub command : String
  pub stopping : Bool

-- daemon.json, with the seconds since `last_sync`, if this is a time.
pub record StatusFile : Type 0 where
  pub pid : Option ℕ
  pub running : Bool
  pub age : Option ℕ

-- The processes by their ids, the text of daemon.lock, and daemon.json.
pub record World : Type 0 where
  pub process_at : ℕ → Option DaemonProcess
  pub lock : Option String
  pub status : Option StatusFile

-- `any(marker in command for marker in WKS_DAEMON_COMMAND_MARKERS)`
unfoldable pub is_daemon_command : String → Bool
is_daemon_command command =
    has_part command "wks.api.daemon._child_runner"
    || has_part command "wksc daemon start --blocking"
    || has_part command "wks.api.daemon.cmd_start"

abbrev pub pid_exists : World → ℕ → Bool
pid_exists w pid = ltb 0 pid && is_some (w.process_at pid)

-- `process_command`
abbrev pub process_command : World → ℕ → String
process_command w pid =
    if pid_exists w pid then elim (w.process_at pid) [ none ↦ "" | some p ↦ p.command ] else ""

unfoldable pub is_wks_daemon_process : World → ℕ → Bool
is_wks_daemon_process w pid =
    let command = process_command w pid in
    if is_empty command then false else is_daemon_command command

abbrev pub is_recent : ℕ → Option ℕ → Bool
is_recent max_age none = false
is_recent max_age (some age) = leb age max_age

abbrev pub is_pid : ℕ → Option ℕ → Bool
is_pid pid none = false
is_pid pid (some found) = found == pid

-- `_status_file_matches_live_daemon`
abbrev pub status_matches : ℕ → ℕ → Option StatusFile → Bool
status_matches max_age pid none = false
status_matches max_age pid (some status) =
    is_pid pid status.pid && status.running && is_recent max_age status.age

-- `read_line` is `int` of the first line of the stripped text, `read_all` is `int` of all of it, where
-- `none` is the `ValueError`; ids are no negative numbers. `text_of` is `str`.
module _ (read_line read_all : String → Option ℕ) (text_of : ℕ → String) (max_age : ℕ)
    (child_command : String) where
  abbrev pub active_pid : World → Option ℕ → Option ℕ
  active_pid w none = none
  active_pid w (some pid) =
      if pid_exists w pid && (is_wks_daemon_process w pid || status_matches max_age pid w.status)
      then some pid
      else none

  abbrev pub active_at : World → Option String → Option ℕ
  active_at w none = none
  active_at w (some text) = active_pid w (read_line text)

  -- `active_wks_daemon_lock`
  unfoldable pub active_lock : World → Option ℕ
  active_lock w = active_at w w.lock

  -- The processes with another one in the place of `pid`.
  abbrev pub put : ℕ → Option DaemonProcess → World → ℕ → Option DaemonProcess
  put pid p w = λ n. if n == pid then p else w.process_at n

  -- The child with the id `pid` is there, and the lock and the status name it.
  abbrev pub spawn : ℕ → World → World
  spawn pid w = record {
    process_at = put pid (some (record { command = child_command; stopping = false })) w;
    lock = some (text_of pid);
    status = some (record { pid = some pid; running = true; age = some 0 });
  }

  abbrev pub start_unless : Option ℕ → ℕ → World → Option World
  start_unless (some existing_pid) pid w = none
  start_unless none pid w = some (spawn pid w)

  -- `Daemon.start`, where the system gives the child the id `pid`; `none` is the `RuntimeError`.
  unfoldable pub start : ℕ → World → Option World
  start pid w = start_unless (active_lock w) pid w

  abbrev pub stop_process : Option DaemonProcess → Option DaemonProcess
  stop_process none = none
  stop_process (some p) = some (record p { stopping = true })

  -- `os.kill(pid_to_stop, signal.SIGTERM)`, if there is an id and it is not 0
  abbrev pub terminate : Option ℕ → World → ℕ → Option DaemonProcess
  terminate none w = w.process_at
  terminate (some pid) w =
      if pid == 0 then w.process_at else put pid (stop_process (w.process_at pid)) w

  abbrev pub locked_pid : Option String → Option ℕ
  locked_pid none = none
  locked_pid (some text) = read_all text

  -- `Daemon.stop`
  unfoldable pub stop : World → World
  stop w = record {
    process_at = terminate (locked_pid w.lock) w;
    lock = none;
    status = some (record { pid = none; running = false; age = some 0 });
  }

  -- Whether `os.kill(pid, 0)` passes; the id 0 stands for the caller's own group.
  abbrev pub takes_signal : World → Option ℕ → Bool
  takes_signal w none = false
  takes_signal w (some pid) = pid == 0 || is_some (w.process_at pid)

  -- `cmd_clear` without `errors_only`; `none` is the refusal while a process has the id in the lock.
  unfoldable pub clear : World → Option World
  clear w =
      if takes_signal w (locked_pid w.lock)
      then none
      else some (record {
        process_at = w.process_at;
        lock = none;
        status = some (record { pid = none; running = false; age = none });
      })

  -- A daemon that was not told to end.
  abbrev pub runs : Option DaemonProcess → Bool
  runs none = false
  runs (some p) = is_daemon_command p.command && not p.stopping

  abbrev pub is_running : World → ℕ → Bool
  is_running w pid = runs (w.process_at pid)

  -- What may happen: a start that is not refused, a stop, a clearing that is not refused, the end of a
  -- process, the begin of one that is no daemon, and a write of the status file by a child.
  pub data Step : World → World → Type 0 where
    starts :
        {w w' : World} (pid : ℕ)
        → 0 < pid
        → w.process_at pid ≡ none
        → start pid w ≡ some w'
        → Step w w'
    stops : {w : World} → Step w (stop w)
    clears : {w w' : World} → clear w ≡ some w' → Step w w'
    ends : {w : World} (pid : ℕ) → Step w (record w { process_at = put pid none w })
    begins :
        {w : World} (pid : ℕ) (p : DaemonProcess)
        → w.process_at pid ≡ none
        → is_daemon_command p.command ≡ false
        → Step w (record w { process_at = put pid (some p) w })
    reports : {w : World} (status : Option StatusFile) → Step w (record w { status = status })

  -- The worlds that steps lead to from one without a process.
  pub data Reachable : World → Type 0 where
    booted :
        (lock : Option String) (status : Option StatusFile)
        → Reachable (record { process_at = λ n. none; lock = lock; status = status })
    after : {w w' : World} → Reachable w → Step w w' → Reachable w'
