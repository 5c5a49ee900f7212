-- ===== src/Profiler/Session/Outcome.antt =====
-- What a start and the stop behind it leave, of rthas/src/profiler.rs.
use rthas.Prelude.{
  ℕ, ◌≡◌, refl, sym, subst, ◌∙◌, inl, inr, Bool, true, false, not, Option, none, some, List, [],
  ◌∷◌, ◌++◌, arith, Text, if◌then◌else◌, is_some, ltb, ◌⊎◌, codes,
}
use rthas.Profiler.Session.{
  EventKind, cpu, wall, Rate, clamp_hz, on_alarm, Running, Profiler, wall_start, wall_stop,
  start_kind, running_cpu, running_wall, already, Left, stop, stop_taken, on_sigalrm,
}
use rthas.Profiler.Session.Ring.{signals}

signals-keep :
    (found : List (List ℕ)) (p : Profiler)
    → ((signals found p).session ≡ p.session)
      × ((signals found p).wall_on ≡ p.wall_on)
      × ((signals found p).handler ≡ p.handler)
unfolding on_sigalrm
signals-keep [] p = (refl, refl, refl)
signals-keep (frames ∷ later) p =
    let (s, on, handler) = signals-keep later (on_sigalrm frames p) in
    let (s1, on1, handler1) = at p.wall_on in (s ∙ s1, on ∙ on1, handler ∙ handler1)
  where
    at :
        (on : Bool)
        → (let q : Profiler = record p { wall_on = on } in
            ((on_sigalrm frames q).session ≡ q.session)
            × ((on_sigalrm frames q).wall_on ≡ q.wall_on)
            × ((on_sigalrm frames q).handler ≡ q.handler))
    at true = (refl, refl, refl)
    at false = (refl, refl, refl)

-- What makes a start fail where no session runs.
abbrev pub fails : EventKind → Option Text → Bool → Bool
fails cpu built timer_set = is_some built
fails wall built timer_set = not timer_set

-- The nearest rate from 1 to 1000.
abbrev pub nearest : Rate → ℕ
nearest (Rate.pos n) = if ltb n 1 then 1 else if ltb 1000 n then 1000 else n
nearest (Rate.negsuc n) = 1

-- No session, no samples, and the handler of the signal is as before.
abbrev pub AtRest : Profiler → Profiler → Type 0
AtRest before p = (p.session ≡ none) × (p.wall_on ≡ false) × (p.handler ≡ before.handler)

abbrev pub samples_on : EventKind → Bool
samples_on cpu = false
samples_on wall = true

-- What a stop answers.
abbrev pub Answer : EventKind → ℕ → ℕ → Option Text → Text ⊎ Left → Type 0
Answer cpu hz elapsed (some e) answer = answer ≡ inl (codes "profiler report: " ++ e)
Answer cpu hz elapsed none answer =
    answer ≡ inr (record { event = cpu; elapsed = elapsed; hz = hz; wall_raw = [] })
Answer wall hz elapsed report (inl e) = ⊥
Answer wall hz elapsed report (inr left) =
    (left.event ≡ wall) × (left.elapsed ≡ elapsed) × (left.hz ≡ hz)

abbrev pub Outcome :
    Bool
    → EventKind
    → ℕ
    → List (List ℕ)
    → ℕ
    → Option Text
    → Profiler
    → Option Text × Profiler
    → Type 0
Outcome true kind hz found elapsed report before (failed, p) =
    (is_some failed ≡ true) × AtRest before p
Outcome false kind hz found elapsed report before (failed, p) =
    (failed ≡ none)
    × (p.wall_on ≡ samples_on kind)
    × ((hz' : Rate) (kind' : EventKind) (now : ℕ) (built : Option Text) (timer_set : Bool)
        → start_kind hz' kind' now built timer_set p ≡ (some already, p))
    × Answer kind hz elapsed report (stop elapsed report (signals found p)).0
    × AtRest before (stop elapsed report (signals found p)).1

clamp_hz-nearest : (hz : Rate) → clamp_hz hz ≡ nearest hz
unfolding clamp_hz
clamp_hz-nearest (Rate.pos n) = ground arith
clamp_hz-nearest (Rate.negsuc n) = refl

stop-session :
    (elapsed : ℕ) (report : Option Text) (r : Running) (p : Profiler)
    → p.session ≡ some r
    → stop elapsed report p ≡ stop_taken elapsed report r (record p { session = none })
unfolding stop
stop-session elapsed report r p e = rw e refl

-- What a stop leaves behind a start and some signals.
stop-Outcome :
    (kind : EventKind) (hz elapsed : ℕ) (report : Option Text) (r : Running) (before p : Profiler)
    → p.session ≡ some r
    → (let stopped = stop_taken elapsed report r (record p { session = none }) in
        Answer kind hz elapsed report stopped.0 × AtRest before stopped.1)
    → Answer kind hz elapsed report (stop elapsed report p).0
      × AtRest before (stop elapsed report p).1
stop-Outcome kind hz elapsed report r before p e h =
    subst (λ k. Answer kind hz elapsed report k.0 × AtRest before k.1)
      (sym (stop-session elapsed report r p e)) h

-- Where no session runs and no samples are on, a start fails exactly when pprof fails, for the
-- processor, or the timer, for the wall clock. A start that fails leaves no session, no samples
-- and the handler of the signal as before. Behind one that succeeds the samples are on exactly for
-- the wall clock and every other start is refused and changes nothing; and however many signals
-- come then, a stop that runs by itself answers with a snapshot of the kind, of the rate nearest
-- to the one asked for from 1 to 1000 and of the time that it is given, or with the error of
-- pprof, and leaves no session, no samples and the handler as it was in front of the start.
pub start_stop :
    (hz : Rate) (kind : EventKind) (now : ℕ) (built : Option Text) (timer_set : Bool)
    (found : List (List ℕ)) (elapsed : ℕ) (report : Option Text) (p : Profiler)
    → p.session ≡ none
    → p.wall_on ≡ false
    → Outcome
        (fails kind built timer_set)
        kind
        (nearest hz)
        found
        elapsed
        report
        p
        (start_kind hz kind now built timer_set p)
unfolding start_kind wall_start
start_stop hz kind now built timer_set found elapsed report p idle off =
    subst
      (λ q.
        Outcome (fails kind built timer_set) kind (nearest hz) found elapsed report q
          (start_kind hz kind now built timer_set q))
      (sym (λ i. record p { session = idle i })) (at kind built timer_set report)
  where
    q : Profiler
    q = record p { session = none }

    answered :
        ◌≡◌ {A = Text ⊎ Left}
          (inr (record { event = cpu; elapsed = elapsed; hz = clamp_hz hz; wall_raw = [] }))
          (inr (record { event = cpu; elapsed = elapsed; hz = nearest hz; wall_raw = [] }))
    answered = λ i.
        inr (record { event = cpu; elapsed = elapsed; hz = clamp_hz-nearest hz i; wall_raw = [] })

    at :
        (kind : EventKind) (built : Option Text) (timer_set : Bool) (report : Option Text)
        → Outcome
            (fails kind built timer_set)
            kind
            (nearest hz)
            found
            elapsed
            report
            q
            (start_kind hz kind now built timer_set q)
    at cpu (some e) timer_set report = (refl, (refl, off, refl))
    at wall built false report = (refl, (refl, refl, refl))
    at cpu none timer_set none =
        let p' : Profiler = record q { session = some (running_cpu hz now) } in
        let (session, on, handler) = signals-keep found p' in
        let (answer, rest) =
          stop-Outcome cpu (nearest hz) elapsed none (running_cpu hz now) q (signals found p')
            session (unfold stop_taken in (answered, (refl, on ∙ off, handler))) in
        (refl, off, λ hz' kind' now' built' set'. refl, answer, rest)
    at cpu none timer_set (some e) =
        let p' : Profiler = record q { session = some (running_cpu hz now) } in
        let (session, on, handler) = signals-keep found p' in
        let (answer, rest) =
          stop-Outcome cpu (nearest hz) elapsed (some e) (running_cpu hz now) q (signals found p')
            session (unfold stop_taken in (refl, (refl, on ∙ off, handler))) in
        (refl, off, λ hz' kind' now' built' set'. refl, answer, rest)
    at wall built true report =
        let p' : Profiler = record q {
          session = some (running_wall hz p.handler now);
          wall_next = 0;
          wall_on = true;
          handler = on_alarm;
        } in
        let (session, on, handler) = signals-keep found p' in
        let (answer, rest) =
          stop-Outcome wall (nearest hz) elapsed report (running_wall hz p.handler now) q
            (signals found p') session
            (unfold stop_taken wall_stop in
              ((refl, refl, clamp_hz-nearest hz), (refl, refl, refl))) in
        (refl, refl, λ hz' kind' now' built' set'. refl, answer, rest)
