-- ===== src/Profiler/Session/Machine/Orderly.antt =====
-- What stays true of the profiler of rthas/src/profiler.rs while its stops are left alone.
use rthas.Prelude.{
  ℕ, zero, suc, ◌≤◌, ◌≡◌, refl, sym, ap, subst, ◌∙◌, Bool, true, false, Option, none, some, List,
  [], ◌∷◌, ◌++◌, arith, Text,
}
use rthas.Profiler.Session.{
  EventKind, cpu, wall, Rate, clamp_hz, Handler, on_alarm, Running, Profiler, wall_start, silence,
  restore_sigalrm, start_kind, on_sigalrm,
}
use rthas.Profiler.Session.Machine.{
  StopStage, taken, silenced, Stopping, World, proceed, advance, Op, start_op, take_op, proceed_op,
  signal_op, take_session, step, run,
}

-- No start falls into a stop that is under way.
abbrev pub Timely : Op → World → Type 0
Timely (start_op hz kind now built timer_set) w = w.stopping ≡ []
Timely take_op w = Unit
Timely (proceed_op i) w = Unit
Timely (signal_op frames) w = Unit

abbrev pub Orderly : List Op → World → Type 0
Orderly [] w = Unit
Orderly (op ∷ ops) w = Timely op w × Orderly ops (step op w)

abbrev is_wall_kind : EventKind → Bool
is_wall_kind cpu = false
is_wall_kind wall = true

abbrev pub is_wall : Option Running → Bool
is_wall none = false
is_wall (some r) = is_wall_kind r.kind

-- The handler of SIGALRM while the wall clock samples, and otherwise.
abbrev pub handler_while : Bool → Handler → Handler
handler_while true h = on_alarm
handler_while false h = h

-- What a session of a kind holds: only one of the wall clock has a handler to restore.
abbrev held_by : EventKind → Handler → Option Handler
held_by cpu h = none
held_by wall h = some h

abbrev pub Fit : Handler → Running → Type 0
Fit h r = (1 ≤ r.hz) × (r.hz ≤ 1000) × (r.wall_prev ≡ held_by r.kind h)

abbrev pub AllFit : Handler → Option Running → Type 0
AllFit h none = Unit
AllFit h (some r) = Fit h r

-- No stop is under way.
abbrev pub Settled : Handler → Profiler → Type 0
Settled h p =
    (p.wall_on ≡ is_wall p.session)
    × (p.handler ≡ handler_while (is_wall p.session) h)
    × AllFit h p.session

-- A stop is under way, and the session is not in its place.
abbrev pub Leaving : Handler → StopStage → Running → Profiler → Type 0
Leaving h taken r p =
    (p.wall_on ≡ is_wall_kind r.kind)
    × (p.handler ≡ handler_while (is_wall_kind r.kind) h)
    × Fit h r
Leaving h silenced r p =
    (is_wall_kind r.kind ≡ true)
    × (p.wall_on ≡ false)
    × (p.handler ≡ on_alarm)
    × (r.wall_prev ≡ some h)

abbrev pub SoundAt : Handler → List Stopping → Profiler → Type 0
SoundAt h [] p = Settled h p
SoundAt h (s ∷ []) p = (p.session ≡ none) × Leaving h s.stage s.running p
SoundAt h (s ∷ t ∷ rest) p = ⊥

abbrev pub Sound : Handler → World → Type 0
Sound h w = SoundAt h w.stopping w.profiler

clamp_hz-bounds : (hz : Rate) → (1 ≤ clamp_hz hz) × (clamp_hz hz ≤ 1000)
unfolding clamp_hz
clamp_hz-bounds (Rate.pos n) = (omega arith, omega arith)
clamp_hz-bounds (Rate.negsuc n) = (omega arith, omega arith)

abbrev with_session : Option Running → Profiler → Profiler
with_session session p = record p { session = session }

start_kind-Settled :
    (h : Handler) (hz : Rate) (kind : EventKind) (now : ℕ) (built : Option Text) (timer_set : Bool)
    (p : Profiler)
    → Settled h p
    → Settled h (start_kind hz kind now built timer_set p).1
unfolding start_kind wall_start
start_kind-Settled h hz kind now built timer_set p ok = at p.session kind built timer_set ok
  where
    at :
        (session : Option Running) (kind : EventKind) (built : Option Text) (timer_set : Bool)
        → Settled h (with_session session p)
        → Settled h (start_kind hz kind now built timer_set (with_session session p)).1
    at (some r) kind built timer_set ok = ok
    at none cpu (some e) timer_set ok = ok
    at none cpu none timer_set (on, handler, fit) =
        (on, handler, ((clamp_hz-bounds hz).0, (clamp_hz-bounds hz).1, refl))
    at none wall built true (on, handler, fit) =
        (refl, refl, ((clamp_hz-bounds hz).0, (clamp_hz-bounds hz).1, ap some handler))
    at none wall built false (on, handler, fit) = (refl, handler, tt)

take_session-Sound : (h : Handler) (w : World) → Sound h w → Sound h (take_session w)
unfolding take_session
take_session-Sound h w ok = at w.stopping w.profiler w.profiler.session ok
  where
    at :
        (stopping : List Stopping) (p : Profiler) (session : Option Running)
        → SoundAt h stopping (with_session session p)
        → Sound h (take_session (record { profiler = with_session session p; stopping = stopping }))
    at [] p none ok = ok
    at [] p (some r) (on, handler, fit) = (refl, (on, handler, fit))
    at (s ∷ []) p none ok = ok
    at (s ∷ []) p (some r) (gone, leaving) = cc
    at (s ∷ t ∷ rest) p session ok = absurd ok

settle :
    (h : Handler) (p : Profiler)
    → p.session ≡ none
    → p.wall_on ≡ false
    → p.handler ≡ h
    → Settled h p
settle h p gone on handler = (
  on ∙ sym (ap is_wall gone),
  handler ∙ sym (ap (λ s. handler_while (is_wall s) h) gone),
  subst (AllFit h) (sym gone) tt,
)

some_injective : (a b : Handler) → ◌≡◌ {A = Option Handler} (some a) (some b) → a ≡ b
some_injective a b e = cc

proceed-Sound :
    (h : Handler) (s : Stopping) (p : Profiler)
    → SoundAt h (s ∷ []) p
    → SoundAt h ((proceed s p).0 ++ []) (proceed s p).1
unfolding proceed silence restore_sigalrm
proceed-Sound h s p (gone, leaving) = at s.stage s.running.kind s.running.wall_prev leaving
  where
    at :
        (stage : StopStage) (kind : EventKind) (prev : Option Handler)
        → (let r : Running = record s.running { kind = kind; wall_prev = prev } in
            let t : Stopping = record { stage = stage; running = r } in
            Leaving h stage r p → SoundAt h ((proceed t p).0 ++ []) (proceed t p).1)
    at taken cpu prev (on, handler, fit) = settle h p gone on handler
    at silenced cpu prev (kind, on, handler, held) = cc
    at taken wall none (on, handler, (low, high, held)) = cc
    at silenced wall none (kind, on, handler, held) = cc
    at taken wall (some old) (on, handler, (low, high, held)) = (gone, (refl, refl, handler, held))
    at silenced wall (some old) (kind, on, handler, held) =
        settle h (restore_sigalrm old p) gone on (some_injective old h held)

advance-Sound :
    (h : Handler) (i : ℕ) (stopping : List Stopping) (p : Profiler)
    → SoundAt h stopping p
    → SoundAt h (advance i stopping p).0 (advance i stopping p).1
unfolding advance
advance-Sound h i [] p ok = ok
advance-Sound h zero (s ∷ []) p ok = proceed-Sound h s p ok
advance-Sound h (suc i) (s ∷ []) p ok = ok
advance-Sound h i (s ∷ t ∷ rest) p ok = absurd ok

on_sigalrm-Sound :
    (h : Handler) (frames : List ℕ) (stopping : List Stopping) (p : Profiler)
    → SoundAt h stopping p
    → SoundAt h stopping (on_sigalrm frames p)
unfolding on_sigalrm
on_sigalrm-Sound h frames stopping p ok = at stopping p.wall_on ok
  where
    staged :
        (stage : StopStage) (r : Running)
        → (let q : Profiler = record p { wall_on = true } in
            Leaving h stage r q → Leaving h stage r (on_sigalrm frames q))
    staged taken r ok = ok
    staged silenced r ok = ok

    at :
        (stopping : List Stopping) (on : Bool)
        → (let q : Profiler = record p { wall_on = on } in
            SoundAt h stopping q → SoundAt h stopping (on_sigalrm frames q))
    at [] true ok = ok
    at (s ∷ []) true (gone, leaving) = (gone, staged s.stage s.running leaving)
    at (s ∷ t ∷ rest) true ok = absurd ok
    at stopping false ok = ok

-- Whatever is started, stopped and sampled, however the steps of the stops fall between all this and
-- however pprof and the system answer, as long as nothing is started while a stop is under way:
-- when none is, the samples of the wall clock are on exactly while one of its sessions runs, the
-- handler of the signal is the profiler's then, and otherwise the one that the program had in the
-- beginning, and the rate of a session is between 1 and 1000. No more than one stop is under way.
pub run-Sound :
    (h : Handler) (ops : List Op) (w : World) → Sound h w → Orderly ops w → Sound h (run ops w)
unfolding step
run-Sound h [] w ok orderly = ok
run-Sound h (start_op hz kind now built timer_set ∷ ops) w ok (alone, orderly) =
    run-Sound h ops (step (start_op hz kind now built timer_set) w)
      (subst (λ l. SoundAt h l (start_kind hz kind now built timer_set w.profiler).1) (sym alone)
        (start_kind-Settled h hz kind now built timer_set w.profiler
          (subst (λ l. SoundAt h l w.profiler) alone ok)))
      orderly
run-Sound h (take_op ∷ ops) w ok (timely, orderly) =
    run-Sound h ops (step take_op w) (take_session-Sound h w ok) orderly
run-Sound h (proceed_op i ∷ ops) w ok (timely, orderly) =
    run-Sound h ops (step (proceed_op i) w) (advance-Sound h i w.stopping w.profiler ok) orderly
run-Sound h (signal_op frames ∷ ops) w ok (timely, orderly) =
    run-Sound h ops (step (signal_op frames) w) (on_sigalrm-Sound h frames w.stopping w.profiler ok)
      orderly
