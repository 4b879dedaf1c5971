-- ===== src/Quick/Tests.antt =====
-- A command's process on concrete events.
use dashboard_rpi.Common.{ℕ, ◌≡◌, ◌↔◌, refl, false, Option, some, none, List, [], ◌∷◌, arith, codes}
use dashboard_rpi.Quick.Command.{sanitize_output, host_uptime}
use dashboard_rpi.Quick.Child.{
  step, CommandResult, success, resolved, out, err, started, Event, data_on, aborts, fires, closes,
  run, sigterm, sigkill,
}
use dashboard_rpi.Quick.Child.Invariant.{IsSafe}
use dashboard_rpi.Quick.Child.Kept.{IsComplete}
use dashboard_rpi.Quick.Child.Safe.{run-IsSafe}
use dashboard_rpi.Quick.Child.Captured
use dashboard_rpi.Quick.Child.Captured.{Output, stdout_of, stderr_of, writes, Allowed, run-resolves}

-- An abort in the middle of the output, which the process outlives until SIGKILL.
abbrev aborted_events : List Event
aborted_events = data_on out (codes "up") ∷ aborts ∷ fires ∷ closes none 900 ∷ []

aborted-kills :
    (run (λ t. t) aborted_events (started host_uptime 100 false)).kills ≡ sigkill ∷ sigterm ∷ []
unfolding run step started
aborted-kills = refl

run-IsSafe_example :
    let s = run (λ t. t) aborted_events (started host_uptime 100 false) in
    IsSafe s × IsComplete aborted_events s
run-IsSafe_example = run-IsSafe (λ t. t) aborted_events host_uptime 100 false

abbrev output : Output
output = (out, codes "up ") ∷ (err, codes "!") ∷ (out, codes "2 days\n") ∷ []

abbrev exit_code : Option ℕ
exit_code = some 0

run-resolves_example :
    (r : CommandResult) × ((run
        (λ t. t)
        (writes output exit_code 140)
        (started host_uptime 100 false)).settlements
      ≡ resolved r ∷ [])
    × (r.stdout ≡ sanitize_output (λ t. t) (stdout_of output))
    × (r.stderr ≡ sanitize_output (λ t. t) (stderr_of output))
    × ((r.status ≡ success) ↔ (exit_code ≡ some 0))
    × Allowed r.stdout
    × Allowed r.stderr
unfolding Captured.size_of
run-resolves_example = run-resolves (λ t. t) host_uptime 100 output exit_code 140 (omega arith)
