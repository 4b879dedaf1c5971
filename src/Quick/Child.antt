-- ===== src/Quick/Child.antt =====
-- `runQuickCommand`: what happens to the process is an event, and what the code does about it a
-- change of its variables. Signals and settlements are kept in lists, the newest first.
pub mod Invariant
pub mod Frame
pub mod Kept
pub mod Safe
pub mod Captured
use dashboard_rpi.Common.{
  ℕ, zero, suc, ◌+◌, ◌-◌, Bool, true, false, not, ◌||◌, Option, none, some, List, [], ◌∷◌, ◌++◌,
  ltb, if◌then◌else◌, length, Text,
}
use dashboard_rpi.Terminal.Platform.{Bytes}
use dashboard_rpi.Quick.Command.{
  max_output_bytes, CommandId, CommandSpec, command_spec, sanitize_output,
}

pub data Signal : Type 0 where
  sigterm sigkill : Signal

pub data CommandError : Type 0 where
  source_unavailable output_limit : CommandError

pub data Status : Type 0 where
  success failed : Status

-- The exit code is null, `none`, for a process that a signal ended.
pub record CommandResult : Type 0 where
  pub command_id : CommandId
  pub status : Status
  pub started_at : ℕ
  pub finished_at : ℕ
  pub duration_ms : ℕ
  pub exit_code : Option ℕ
  pub stdout : Text
  pub stderr : Text

pub data Settlement : Type 0 where
  resolved : CommandResult → Settlement
  rejected : CommandError → Settlement

pub record Child : Type 0 where
  pub command_id : CommandId
  pub started_ms : ℕ
  pub stdout : List Bytes
  pub stderr : List Bytes
  pub total_bytes : ℕ
  pub closed : Bool
  pub terminal_error : Option CommandError
  pub termination_timer : Bool
  pub abort_listener : Bool
  pub kills : List Signal
  pub settlements : List Settlement

unfoldable pub kill : Signal → Child → Child
kill signal s = record s { kills = signal ∷ s.kills }

unfoldable pub clear_termination_timer : Child → Child
clear_termination_timer s = record s { termination_timer = false }

-- `requestTermination`.
unfoldable pub request_termination : Child → Child
unfolding kill
request_termination s =
    if s.closed
    then s
    else if s.termination_timer
    then kill sigterm s
    else record (kill sigterm s) { termination_timer = true }

-- The callback of the timer, where one is armed.
unfoldable pub on_timer : Child → Child
unfolding kill
on_timer s =
    if not s.termination_timer
    then s
    else if s.closed
    then record s { termination_timer = false }
    else kill sigkill (record s { termination_timer = false })

-- The abort of the signal, which calls a listener once.
unfoldable pub on_abort : Child → Child
unfolding request_termination
on_abort s =
    if s.abort_listener then request_termination (record s { abort_listener = false }) else s

pub data Stream : Type 0 where
  out err : Stream

unfoldable pub push : Stream → Bytes → Child → Child
push out chunk s = record s { stdout = s.stdout ++ chunk ∷ [] }
push err chunk s = record s { stderr = s.stderr ++ chunk ∷ [] }

unfoldable pub is_some : Option CommandError → Bool
is_some none = false
is_some (some _) = true

-- `capture`.
unfoldable pub capture : Stream → Bytes → Child → Child
unfolding push is_some kill clear_termination_timer
capture stream chunk s =
    if s.closed || is_some s.terminal_error
    then s
    else if ltb max_output_bytes (s.total_bytes + length chunk)
    then kill sigkill (
        clear_termination_timer (record s {
          total_bytes = s.total_bytes + length chunk;
          terminal_error = some output_limit;
        }))
    else push stream chunk (record s { total_bytes = s.total_bytes + length chunk })

-- `??=` keeps the first error.
unfoldable pub or_source_unavailable : Option CommandError → Option CommandError
or_source_unavailable none = some source_unavailable
or_source_unavailable (some error) = some error

unfoldable pub on_error : Child → Child
unfolding or_source_unavailable
on_error s = record s { terminal_error = or_source_unavailable s.terminal_error }

unfoldable pub status_of : Option ℕ → Status
status_of none = failed
status_of (some zero) = success
status_of (some (suc n)) = failed

-- `Math.min(30_000, Math.max(0, finished - started))`.
unfoldable pub duration : (started finished : ℕ) → ℕ
duration started finished = if ltb 30000 (finished - started) then 30000 else finished - started

unfoldable pub result_of : (Bytes → Text) → Option ℕ → ℕ → Child → CommandResult
unfolding status_of duration
result_of utf8_text code finished_ms s = record {
  command_id = s.command_id;
  status = status_of code;
  started_at = s.started_ms;
  finished_at = finished_ms;
  duration_ms = duration s.started_ms finished_ms;
  exit_code = code;
  stdout = sanitize_output utf8_text s.stdout;
  stderr = sanitize_output utf8_text s.stderr;
}

unfoldable pub settlement_of : (Bytes → Text) → Option ℕ → ℕ → Child → Settlement
unfolding result_of
settlement_of utf8_text code finished_ms s = elim s.terminal_error [
  | some error ↦ rejected error
  | none ↦ resolved (result_of utf8_text code finished_ms s)
]

-- The listener of "close", which the process emits once.
unfoldable pub on_close : (Bytes → Text) → Option ℕ → ℕ → Child → Child
unfolding settlement_of
on_close utf8_text code finished_ms s = if s.closed then s else record s {
  closed = true;
  termination_timer = false;
  abort_listener = false;
  settlements = settlement_of utf8_text code finished_ms s ∷ s.settlements;
}

-- The state after the listeners are set; `aborted` is `signal.aborted`.
unfoldable pub started : CommandId → ℕ → (aborted : Bool) → Child
unfolding request_termination
started id started_ms aborted =
    let s : Child = record {
      command_id = id;
      started_ms = started_ms;
      stdout = [];
      stderr = [];
      total_bytes = 0;
      closed = false;
      terminal_error = none;
      termination_timer = false;
      abort_listener = not aborted;
      kills = [];
      settlements = [];
    } in
    if aborted then request_termination s else s

pub data Event : Type 0 where
  data_on : Stream → Bytes → Event
  errs aborts fires : Event
  closes : Option ℕ → ℕ → Event

unfoldable pub step : (Bytes → Text) → Event → Child → Child
unfolding capture on_error on_abort on_timer on_close
step utf8_text (data_on stream chunk) s = capture stream chunk s
step utf8_text errs s = on_error s
step utf8_text aborts s = on_abort s
step utf8_text fires s = on_timer s
step utf8_text (closes code finished_ms) s = on_close utf8_text code finished_ms s

unfoldable pub run : (Bytes → Text) → List Event → Child → Child
run utf8_text [] s = s
run utf8_text (e ∷ es) s = run utf8_text es (step utf8_text e s)
