-- ===== src/Terminal/Heartbeat/Beating.antt =====
-- A heartbeat whose timers fire in time.
use dashboard_rpi.Common.{
  ℕ, ◌+◌, ◌≤◌, ◌<◌, leb, ◌≡◌, ◌⊎◌, inl, inr, refl, true, false, none, some, List, [], ◌∷◌, arith,
  Bool-cases,
}
use dashboard_rpi.Terminal.Heartbeat.{
  interval_ms, pong_timeout_ms, Heartbeat, Event, heartbeat_due, pong_due, pong, gone, beat, is_due,
  step, run, attach,
}

-- No timer that is armed should have fired before.
abbrev pub InTime : ℕ → Heartbeat → Type 0
InTime now h =
    ((d : ℕ) → h.heartbeat_timer ≡ some d → now ≤ d) × ((d : ℕ) → h.pong_timer ≡ some d → now ≤ d)

-- Every event comes before the timers that are armed then, or with them.
abbrev pub Timely : List (ℕ × Event) → Heartbeat → Type 0
Timely [] h = Unit
Timely ((now, e) ∷ es) h = InTime now h × Timely es (step now e h)

-- Either the heartbeat is over, with no timer left and at most one termination, or its next ping
-- is due, and an unanswered ping is 15 seconds ahead of it.
pub data IsBeating (h : Heartbeat) : Type 0 where
  over :
      h.closed ≡ true
      → h.heartbeat_timer ≡ none
      → h.pong_timer ≡ none
      → h.terminations ≤ 1
      → IsBeating h
  waits :
      h.closed ≡ false
      → (d : ℕ) → h.heartbeat_timer ≡ some d
      → (h.pong_timer ≡ none) ⊎ ((e : ℕ) × (h.pong_timer ≡ some e) × (e + 15000 ≡ d))
      → h.terminations ≡ 0
      → IsBeating h

step-IsBeating :
    (now : ℕ) (e : Event) (h : Heartbeat) → InTime now h → IsBeating h → IsBeating (step now e h)
unfolding step beat is_due
step-IsBeating now (heartbeat_due throws) h t (over c hb p n) =
    over (ground arith) (ground arith) (ground arith) (ground arith)
step-IsBeating now pong_due h t (over c hb p n) =
    over (ground arith) (ground arith) (ground arith) (ground arith)
step-IsBeating now pong h t (over c hb p n) =
    over (ground arith) (ground arith) (ground arith) (ground arith)
step-IsBeating now gone h t (over c hb p n) =
    over (ground arith) (ground arith) (ground arith) (ground arith)
step-IsBeating now pong h t (waits c d hb p n) =
    waits (ground arith) d (ground arith) (ground arith) (ground arith)
step-IsBeating now gone h t (waits c d hb p n) =
    over (ground arith) (ground arith) (ground arith) (ground arith)
step-IsBeating now (heartbeat_due throws) h t (waits c d hb p n) = elim (Bool-cases (leb d now)) [
  | inr early ↦ waits (ground arith) d (ground arith) (ground arith) (ground arith)
  | inl due ↦ elim (Bool-cases throws) [
    | inl fails ↦ over (ground arith) (ground arith) (ground arith) (ground arith)
    | inr works ↦
        waits (ground arith) (now + interval_ms) (ground arith)
          (inr (now + pong_timeout_ms, ground arith, omega arith)) (ground arith)
  ]
]
step-IsBeating now pong_due h t (waits c d hb (inl p) n) =
    waits (ground arith) d (ground arith) (ground arith) (ground arith)
step-IsBeating now pong_due h t (waits c d hb (inr (e, p, q)) n) = elim (Bool-cases (leb e now)) [
  | inl due ↦ over (ground arith) (ground arith) (ground arith) (ground arith)
  | inr early ↦ waits (ground arith) d (ground arith) (inr (e, ground arith, q)) (ground arith)
]

run-keeps :
    (es : List (ℕ × Event)) (h : Heartbeat) → Timely es h → IsBeating h → IsBeating (run es h)
unfolding run
run-keeps [] h t b = b
run-keeps ((now, e) ∷ es) h t b = run-keeps es (step now e h) t.1 (step-IsBeating now e h t.0 b)

attach-IsBeating : (now : ℕ) → IsBeating (attach now)
unfolding attach
attach-IsBeating now = waits refl (now + interval_ms) refl (inl refl) refl

-- From its start on, and as long as no event overtakes a timer that should have fired before it,
-- the heartbeat is either stopped, with no timer left and the socket terminated at most once, or
-- has not terminated the socket, its next ping is scheduled, and if a ping is unanswered its
-- timeout comes 15 seconds before the next ping.
pub run-IsBeating :
    (start : ℕ) (es : List (ℕ × Event))
    → Timely es (attach start)
    → IsBeating (run es (attach start))
run-IsBeating start es t = run-keeps es (attach start) t (attach-IsBeating start)

abbrev IsNoPong : Event → Type 0
IsNoPong (heartbeat_due _) = Unit
IsNoPong pong_due = Unit
IsNoPong pong = ⊥
IsNoPong gone = Unit

abbrev pub NoPong : List (ℕ × Event) → Type 0
NoPong [] = Unit
NoPong ((now, e) ∷ es) = IsNoPong e × NoPong es

-- Stopped, or waiting for a pong until `e`.
Unanswered : ℕ → Heartbeat → Type 0
Unanswered e h = (h.closed ≡ true) ⊎ (h.closed ≡ false) × (h.pong_timer ≡ some e)

step-Unanswered :
    (e now : ℕ) (ev : Event) (h : Heartbeat)
    → InTime now h
    → IsNoPong ev
    → IsBeating h
    → Unanswered e h
    → Unanswered e (step now ev h)
unfolding step is_due Unanswered
step-Unanswered e now (heartbeat_due throws) h t a (over c hb p n) u = ground arith
step-Unanswered e now (heartbeat_due throws) h t a (waits c d hb p n) u = ground (arith, t.1 e)
step-Unanswered e now pong_due h t a b u = ground arith
step-Unanswered e now pong h t a b u = absurd a
step-Unanswered e now gone h t a b u = ground arith

run-Unanswered :
    (e : ℕ) (es : List (ℕ × Event)) (h : Heartbeat)
    → Timely es h
    → NoPong es
    → IsBeating h
    → Unanswered e h
    → Unanswered e (run es h)
unfolding run
run-Unanswered e [] h t a b u = u
run-Unanswered e ((now, ev) ∷ es) h t a b u =
    run-Unanswered e es (step now ev h) t.1 a.1 (step-IsBeating now ev h t.0 b)
      (step-Unanswered e now ev h t.0 a.0 b u)

-- If a running heartbeat waits for a pong until `e`, no pong comes, and no event overtakes a timer,
-- then at any time after `e` the heartbeat is stopped.
pub run-silent_peer :
    (e now : ℕ) (es : List (ℕ × Event)) (h : Heartbeat)
    → IsBeating h
    → h.pong_timer ≡ some e
    → Timely es h
    → NoPong es
    → InTime now (run es h)
    → e < now
    → (run es h).closed ≡ true
unfolding Unanswered
run-silent_peer e now es h b p t a late after =
    let started : Unanswered e h = elim (Bool-cases h.closed) [
      | inl c ↦ inl c
      | inr c ↦ inr (c, p)
    ] in
    elim (run-Unanswered e es h t a b started) [
      | inl c ↦ c
      | inr (c, q) ↦ let early = late.1 e q in absurd (omega arith)
    ]
