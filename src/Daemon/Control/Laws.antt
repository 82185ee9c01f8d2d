-- ===== src/Daemon/Control/Laws.antt =====
-- The daemons that run after sequences of starts, stops and clears (wks/api/daemon).
use wks.Common.{
  ℕ, ◌<◌, String, ◌≡◌, refl, Bool, true, false, ◌||◌, Option, none, some, ◌==◌, nat_eq, arith, ltb,
  is_some, Bool-cases, inl, inr, ==_refl, ap, sym, ◌∙◌, subst,
}
use mathlib.Core.Bool.{false≢true}
use wks.Common.Text.{is_empty, has_part}
use wks.Daemon.Control.{
  DaemonProcess, World, is_daemon_command, pid_exists, is_wks_daemon_process, active_pid, active_at,
  active_lock, put, spawn, start_unless, start, stop_process, terminate, locked_pid, stop,
  takes_signal, clear, runs, is_running, Step, starts, stops, clears, ends, begins, reports,
  Reachable, booted, after,
}

command-is_empty : (command : String) → is_daemon_command command ≡ true → is_empty command ≡ false
unfolding is_daemon_command has_part
command-is_empty String.[] h = absurd (false≢true h)
command-is_empty (String.◌∷◌ c s) h = refl

module _ (read_line read_all : String → Option ℕ) (text_of : ℕ → String) (max_age : ℕ)
    (child_command : String) (read_line-text_of : (n : ℕ) → read_line (text_of n) ≡ some n)
    (read_all-text_of : (n : ℕ) → read_all (text_of n) ≡ some n)
    (child : is_daemon_command child_command ≡ true) where
  abbrev running : World → ℕ → Bool
  running = is_running read_line read_all text_of max_age child_command

  -- The lock names every daemon that runs.
  abbrev IsOrderly : World → Type 0
  IsOrderly w = (pid : ℕ) → running w pid ≡ true → (w.lock ≡ some (text_of pid)) × (0 < pid)

  daemon-active :
      (w : World) (pid : ℕ) (p : Option DaemonProcess)
      → w.process_at pid ≡ p
      → runs read_line read_all text_of max_age child_command p ≡ true
      → 0 < pid
      → (pid_exists w pid ≡ true) × (is_wks_daemon_process w pid ≡ true)
  unfolding is_wks_daemon_process
  daemon-active w pid none e h k = absurd (ground arith)
  daemon-active w pid (some p) e h k =
      let daemon : is_daemon_command p.command ≡ true = ground (arith, h) in
      let positive : ltb 0 pid ≡ true = ground (arith, k) in
      rw e (rw positive (rw (command-is_empty p.command daemon) (refl, daemon)))

  active_lock-running :
      (w : World) (pid : ℕ)
      → IsOrderly w
      → running w pid ≡ true
      → active_lock read_line read_all text_of max_age child_command w ≡ some pid
  unfolding active_lock
  active_lock-running w pid o h =
      let (locked, positive) = o pid h in
      let (there, daemon) = daemon-active w pid (w.process_at pid) refl h positive in
      let found : active_pid read_line read_all text_of max_age child_command w (some pid)
          ≡ some pid =
        rw there (rw daemon refl) in
      ap (active_at read_line read_all text_of max_age child_command w) locked
      ∙ ap (active_pid read_line read_all text_of max_age child_command w) (read_line-text_of pid)
      ∙ found

  is_some-runs :
      (p : Option DaemonProcess)
      → runs read_line read_all text_of max_age child_command p ≡ true
      → is_some p ≡ true
  is_some-runs none h = absurd (ground arith)
  is_some-runs (some p) h = refl

  abbrev or_same : World → Option World → World
  or_same w none = w
  or_same w (some w') = w'

  spawn-IsOrderly :
      (w : World) (pid : ℕ)
      → active_lock read_line read_all text_of max_age child_command w ≡ none
      → 0 < pid
      → IsOrderly w
      → IsOrderly (spawn read_line read_all text_of max_age child_command pid w)
  spawn-IsOrderly w pid a k o n h = elim (Bool-cases (n == pid)) [
    | inl q ↦
        let same : pid ≡ n = ground (arith, q) in
        (ap (λ m. some (text_of m)) same, subst (λ m. 0 < m) same k)
    | inr q ↦ absurd (idle n (active_lock-running w n o (rw q at h)) a)
  ]
    where
      idle :
          (n : ℕ)
          → active_lock read_line read_all text_of max_age child_command w ≡ some n
          → active_lock read_line read_all text_of max_age child_command w ≡ none
          → ⊥
      idle n x y = ground (arith, x, y)

  start-IsOrderly :
      (w w' : World) (pid : ℕ) (found : Option ℕ)
      → active_lock read_line read_all text_of max_age child_command w ≡ found
      → start_unless read_line read_all text_of max_age child_command found pid w ≡ some w'
      → 0 < pid
      → IsOrderly w
      → IsOrderly w'
  start-IsOrderly w w' pid (some existing) a e k o = absurd (ground arith)
  start-IsOrderly w w' pid none a e k o =
      subst IsOrderly (ap (or_same w) e) (spawn-IsOrderly w pid a k o)

  stop-runs :
      (p : Option DaemonProcess)
      → runs read_line read_all text_of max_age child_command
          (stop_process read_line read_all text_of max_age child_command p)
        ≡ false
  stop-runs none = refl
  stop-runs (some p) = ground arith

  terminate-runs :
      (w : World) (found : Option ℕ) (n : ℕ)
      → runs read_line read_all text_of max_age child_command
          (terminate read_line read_all text_of max_age child_command found w n)
        ≡ true
      → running w n ≡ true
  terminate-runs w none n h = h
  terminate-runs w (some pid) n h = elim (Bool-cases (pid == 0)) [
    | inl z ↦ rw z at h
    | inr z ↦ elim (Bool-cases (n == pid)) [
      | inl q ↦ absurd (false≢true (sym (stop-runs (w.process_at pid)) ∙ rw (z, q) at h))
      | inr q ↦ rw (z, q) at h
    ]
  ]

  terminate_self :
      (w : World) (n : ℕ)
      → 0 < n
      → runs read_line read_all text_of max_age child_command
          (terminate read_line read_all text_of max_age child_command (some n) w n)
        ≡ false
  terminate_self w n k =
      let z : (n == 0) ≡ false = ground (arith, k) in
      let q : (n == n) ≡ true = ==_refl n in rw z (rw q (stop-runs (w.process_at n)))

  stop-IsOrderly :
      (w : World)
      → IsOrderly w
      → IsOrderly (stop read_line read_all text_of max_age child_command w)
  unfolding stop
  stop-IsOrderly w o n h =
      let before =
        terminate-runs w (locked_pid read_line read_all text_of max_age child_command w.lock) n h in
      let (locked, positive) = o n before in
      let found =
        ap (locked_pid read_line read_all text_of max_age child_command) locked
        ∙ read_all-text_of n in
      absurd (
        false≢true (
          sym (terminate_self w n positive)
          ∙ subst
              (λ f.
                runs read_line read_all text_of max_age child_command
                  (terminate read_line read_all text_of max_age child_command f w n)
                ≡ true)
              found h))

  clear-IsOrderly :
      (w w' : World)
      → clear read_line read_all text_of max_age child_command w ≡ some w'
      → IsOrderly w
      → IsOrderly w'
  unfolding clear
  clear-IsOrderly w w' e o =
      elim (Bool-cases (
        takes_signal read_line read_all text_of max_age child_command w
          (locked_pid read_line read_all text_of max_age child_command w.lock))) [
            | inl t ↦
                let refusal : ◌≡◌ {A = Option World} none (some w') = rw t at e in
                absurd (ground arith)
            | inr t ↦ subst IsOrderly (ap (or_same w) (rw t at e)) (λ n h. absurd (answered n h t))
          ]
    where
      answered :
          (n : ℕ)
          → running w n ≡ true
          → takes_signal read_line read_all text_of max_age child_command w
              (locked_pid read_line read_all text_of max_age child_command w.lock)
            ≡ false
          → ⊥
      answered n h t =
          let (locked, positive) = o n h in
          let found =
            ap (locked_pid read_line read_all text_of max_age child_command) locked
            ∙ read_all-text_of n in
          let there = is_some-runs (w.process_at n) h in
          let unanswered : (n == 0 || is_some (w.process_at n)) ≡ false =
            subst (λ f. takes_signal read_line read_all text_of max_age child_command w f ≡ false)
              found t in
          ground (arith, there, unanswered)

  ends-IsOrderly :
      (w : World) (pid : ℕ) (p : Option DaemonProcess)
      → runs read_line read_all text_of max_age child_command p ≡ false
      → IsOrderly w
      → IsOrderly
          (record w { process_at = put read_line read_all text_of max_age child_command pid p w })
  ends-IsOrderly w pid p idle o n h = elim (Bool-cases (n == pid)) [
    | inl q ↦ absurd (false≢true (sym idle ∙ rw q at h))
    | inr q ↦ o n (rw q at h)
  ]

  Step-IsOrderly :
      {w w' : World}
      → Step read_line read_all text_of max_age child_command w w'
      → IsOrderly w
      → IsOrderly w'
  unfolding start
  Step-IsOrderly {w} {w'} (starts pid k free e) o = start-IsOrderly w w' pid _ refl e k o
  Step-IsOrderly {w} {w'} stops o = stop-IsOrderly w o
  Step-IsOrderly {w} {w'} (clears e) o = clear-IsOrderly w w' e o
  Step-IsOrderly {w} {w'} (ends pid) o = ends-IsOrderly w pid none refl o
  Step-IsOrderly {w} {w'} (begins pid p free idle) o =
      ends-IsOrderly w pid (some p) (ground (arith, idle)) o
  Step-IsOrderly {w} {w'} (reports status) o = o

  Reachable-IsOrderly :
      {w : World} → Reachable read_line read_all text_of max_age child_command w → IsOrderly w
  Reachable-IsOrderly (booted lock status) = λ n h. absurd (false≢true h)
  Reachable-IsOrderly (after r step) = Step-IsOrderly step (Reachable-IsOrderly r)

  -- In every world that starts, stops, clearings, and begins and ends of processes lead to, two daemons that
  -- were not told to end are the same process, if `int` reads what `str` writes.
  pub Reachable-single :
      (w : World) (a b : ℕ)
      → Reachable read_line read_all text_of max_age child_command w
      → is_running read_line read_all text_of max_age child_command w a ≡ true
      → is_running read_line read_all text_of max_age child_command w b ≡ true
      → a ≡ b
  Reachable-single w a b r ha hb =
      let o = Reachable-IsOrderly r in
      let same : some a ≡ some b =
        sym (active_lock-running w a o ha) ∙ active_lock-running w b o hb in
      ground (arith, same)

  active_lock-stop :
      (w : World)
      → active_lock read_line read_all text_of max_age child_command
          (stop read_line read_all text_of max_age child_command w)
        ≡ none
  unfolding active_lock stop
  active_lock-stop w = refl

  active_lock-spawn :
      (w : World) (pid : ℕ)
      → 0 < pid
      → active_lock read_line read_all text_of max_age child_command
          (spawn read_line read_all text_of max_age child_command pid w)
        ≡ some pid
  unfolding active_lock
  active_lock-spawn w pid k =
      let w' = spawn read_line read_all text_of max_age child_command pid w in
      let here : w'.process_at pid ≡ some (record { command = child_command; stopping = false }) =
        rw (==_refl pid) refl in
      let (there, daemon) = daemon-active w' pid _ here (ground (arith, child)) k in
      let found : active_pid read_line read_all text_of max_age child_command w' (some pid)
          ≡ some pid =
        rw there (rw daemon refl) in
      ap (active_pid read_line read_all text_of max_age child_command w') (read_line-text_of pid)
      ∙ found

  -- After a stop a start succeeds, whatever the files and processes were before, and then the new child is the
  -- active daemon; a second start is refused.
  pub start-stop :
      (w : World) (pid next : ℕ)
      → 0 < pid
      → (w' : World) × (start read_line read_all text_of max_age child_command pid
            (stop read_line read_all text_of max_age child_command w)
          ≡ some w')
        × (active_lock read_line read_all text_of max_age child_command w' ≡ some pid)
        × (start read_line read_all text_of max_age child_command next w' ≡ none)
  unfolding start
  start-stop w pid next k =
      let w' =
        spawn read_line read_all text_of max_age child_command pid
          (stop read_line read_all text_of max_age child_command w) in
      let active =
        active_lock-spawn (stop read_line read_all text_of max_age child_command w) pid k in
      (
        w',
        ap
            (λ f.
              start_unless read_line read_all text_of max_age child_command f pid
                (stop read_line read_all text_of max_age child_command w))
            (active_lock-stop w),
        active,
        ap (λ f. start_unless read_line read_all text_of max_age child_command f next w') active,
      )
