-- ===== src/Tests/Control.antt =====
-- Runs of the control of the daemon, and its theorems at concrete input. A number is written in strokes.
use wks.Common.{
  ℕ, zero, suc, String, ◌≡◌, refl, true, false, Option, none, some, arith, nat_eq, ap, ◌==◌,
  if◌then◌else◌,
}
use wks.Common.Text.{text_length, has_part}
use wks.Daemon.Control.{
  World, is_daemon_command, active_lock, start, stop, Reachable, booted, after, starts,
}
use wks.Daemon.Control.Laws.{Reachable-single, start-stop}

abbrev strokes : ℕ → String
strokes zero = String.[]
strokes (suc n) = String.◌∷◌ "x" (strokes n)

abbrev read : String → Option ℕ
read text = some (text_length text)

read-strokes : (n : ℕ) → read (strokes n) ≡ some n
unfolding text_length
read-strokes zero = refl
read-strokes (suc n) = ap (λ k. some (suc k)) (length-strokes n)
  where
    length-strokes : (n : ℕ) → text_length (strokes n) ≡ n
    length-strokes zero = refl
    length-strokes (suc n) = ap suc (length-strokes n)

abbrev child_command : String
child_command = "python -m wks.api.daemon._child_runner"

child : is_daemon_command child_command ≡ true
unfolding is_daemon_command has_part
child = refl

abbrev started : World
started = record {
  process_at =
      λ n. if n == 7 then some (record { command = child_command; stopping = false }) else none;
  lock = some (strokes 7);
  status = some (record { pid = some 7; running = true; age = some 0 });
}

started-Reachable : Reachable read read strokes 300 child_command started
unfolding start active_lock
started-Reachable = after (booted none none) (starts 7 (omega arith) refl refl)

abbrev child_pid : ℕ
child_pid = 7

Reachable-single_example : child_pid ≡ child_pid
unfolding is_daemon_command has_part nat_eq
Reachable-single_example =
    Reachable-single read read strokes 300 child_command read-strokes read-strokes child started
      child_pid child_pid started-Reachable refl refl

start-stop_example :
    (w' : World) × (start read read strokes 300 child_command 8
        (stop read read strokes 300 child_command started)
      ≡ some w')
    × (active_lock read read strokes 300 child_command w' ≡ some 8)
    × (start read read strokes 300 child_command 9 w' ≡ none)
start-stop_example =
    start-stop read read strokes 300 child_command read-strokes read-strokes child started 8 9
      (omega arith)
