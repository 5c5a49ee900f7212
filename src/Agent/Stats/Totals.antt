-- ===== src/Agent/Stats/Totals.antt =====
-- What the aggregates of rthas/src/agent.rs sum up.
use rthas.Prelude.{
  ℕ, false≢true, ◌≡◌, refl, ap, ◌∙◌, sym, inl, inr, Option, none, some, List, [], ◌∷◌, arith, ◌==◌,
  ==_iff, ==_refl, subst, Bool-cases, if◌then◌else◌, filter, lookup, upsert, Lacks, Lacks-upsert,
  lookup-upsert_ne, Text,
}
use rthas.Event.{Event}
use rthas.Glob.{glob_match}
use rthas.Probe.{Probe}
use rthas.Probe.Registry.{path_of}
use rthas.Agent.Stats.{Agg, empty_agg, tally, count_event, aggregate_into, aggregate_events}
use rthas.Agent.Stats.Sums.{sums, tally_all, agg_eq, tally_all-raised}

-- The events of a probe, where the pattern matches its path.
abbrev pub chosen : Text → List Probe → ℕ → List Event → List Event
chosen pattern probes id events =
    if glob_match pattern (path_of id probes)
    then filter (λ (e : Event). e.probe == id) events
    else []

abbrev pub row_of : List Event → Option Agg
row_of [] = none
row_of (e ∷ events) = some (sums (e ∷ events))

-- No two rows have the same probe.
abbrev pub Once : List (ℕ × Agg) → Type 0
Once [] = Unit
Once ((k, a) ∷ m) = Lacks k m × Once m

-- Where the events of a probe are counted on top of the row that it has, if any.
abbrev onto : List Event → Option Agg → Option Agg
onto [] row = row
onto (e ∷ events) none = some (tally_all events (tally e empty_agg))
onto (e ∷ events) (some a) = some (tally_all events (tally e a))

upsert-Once :
    (k : ℕ) (change : Agg → Agg) (fresh : Agg) (m : List (ℕ × Agg))
    → Once m
    → Once (upsert k change fresh m)
upsert-Once k change fresh [] h = (tt, tt)
upsert-Once k change fresh ((j, a) ∷ m) h =
    let rest = upsert-Once k change fresh m h.1 in
    elim (Bool-cases (j == k)) [
      | inl same ↦ rw same h
      | inr other ↦ rw other (
        Lacks-upsert j k change fresh m (λ e. false≢true (sym other ∙ (==_iff j k).1 (sym e))) h.0,
        rest,
      )
    ]

aggregate_into-Once :
    (pattern : Text) (probes : List Probe) (events : List Event) (m : List (ℕ × Agg))
    → Once m
    → Once (aggregate_into pattern probes events m)
unfolding aggregate_into count_event
aggregate_into-Once pattern probes [] m h = h
aggregate_into-Once pattern probes (e ∷ events) m h =
    aggregate_into-Once pattern probes events (count_event pattern probes e m)
      (elim (Bool-cases (glob_match pattern (path_of e.probe probes))) [
        | inl there ↦ rw there (upsert-Once e.probe (tally e) (tally e empty_agg) m h)
        | inr missed ↦ rw missed h
      ])

lookup-upsert_self :
    (e : Event) (m : List (ℕ × Agg))
    → lookup e.probe (upsert e.probe (tally e) (tally e empty_agg) m)
      ≡ onto (e ∷ []) (lookup e.probe m)
lookup-upsert_self e [] = ground arith
lookup-upsert_self e ((j, a) ∷ m) = ground (arith, lookup-upsert_self e m)

onto-step :
    (e : Event) (row : Option Agg) (events : List Event)
    → onto events (onto (e ∷ []) row) ≡ onto (e ∷ events) row
onto-step e none [] = refl
onto-step e none (x ∷ events) = refl
onto-step e (some a) [] = refl
onto-step e (some a) (x ∷ events) = refl

lookup-count_event_self :
    (pattern : Text) (probes : List Probe) (e : Event) (events : List Event) (m : List (ℕ × Agg))
    → onto (chosen pattern probes e.probe events) (lookup e.probe (count_event pattern probes e m))
      ≡ onto (chosen pattern probes e.probe (e ∷ events)) (lookup e.probe m)
unfolding count_event
lookup-count_event_self pattern probes e events m =
    let rest = filter (λ (x : Event). x.probe == e.probe) events in
    elim (Bool-cases (glob_match pattern (path_of e.probe probes))) [
      | inl there ↦
          rw (there, ==_refl e.probe)
            (ap (onto rest) (lookup-upsert_self e m) ∙ onto-step e (lookup e.probe m) rest)
      | inr missed ↦ rw missed refl
    ]

lookup-count_event :
    (pattern : Text) (probes : List Probe) (id : ℕ) (e : Event) (events : List Event)
    (m : List (ℕ × Agg))
    → onto (chosen pattern probes id events) (lookup id (count_event pattern probes e m))
      ≡ onto (chosen pattern probes id (e ∷ events)) (lookup id m)
unfolding count_event
lookup-count_event pattern probes id e events m = elim (Bool-cases (e.probe == id)) [
  | inl same ↦
      let at_id : e.probe ≡ id = (==_iff e.probe id).0 same in
      subst
        (λ k.
          onto (chosen pattern probes k events) (lookup k (count_event pattern probes e m))
          ≡ onto (chosen pattern probes k (e ∷ events)) (lookup k m))
        at_id (lookup-count_event_self pattern probes e events m)
  | inr other ↦
      let ne = λ (q : e.probe ≡ id). false≢true (sym other ∙ (==_iff e.probe id).1 q) in
      elim (Bool-cases (glob_match pattern (path_of e.probe probes))) [
        | inl there ↦
            rw (there, other, lookup-upsert_ne id e.probe (tally e) (tally e empty_agg) m ne) refl
        | inr missed ↦ rw (missed, other) refl
      ]
]

chosen-nil :
    (pattern : Text) (probes : List Probe) (id : ℕ) (row : Option Agg)
    → row ≡ onto (chosen pattern probes id []) row
chosen-nil pattern probes id row = elim (Bool-cases (glob_match pattern (path_of id probes))) [
  | inl there ↦ rw there refl
  | inr missed ↦ rw missed refl
]

-- The row of a probe behind the loop, from the one that stands there first.
lookup-aggregate_into :
    (pattern : Text) (probes : List Probe) (id : ℕ) (events : List Event) (m : List (ℕ × Agg))
    → lookup id (aggregate_into pattern probes events m)
      ≡ onto (chosen pattern probes id events) (lookup id m)
unfolding aggregate_into count_event
lookup-aggregate_into pattern probes id [] m = chosen-nil pattern probes id (lookup id m)
lookup-aggregate_into pattern probes id (e ∷ events) m =
    lookup-aggregate_into pattern probes id events (count_event pattern probes e m)
    ∙ lookup-count_event pattern probes id e events m

onto-row_of : (events : List Event) → onto events none ≡ row_of events
onto-row_of [] = refl
onto-row_of (e ∷ events) = ap some (
    tally_all-raised events e empty_agg (omega arith)
    ∙ agg_eq _ _ _ _ _ _ _ _ _ _ (omega arith) (omega arith) (omega arith) (omega arith) refl)

-- Whatever the events, no probe has two rows. The row of a probe that the pattern matches and that
-- has an event sums up all the events of the probe, in their order: how many, how many failed and
-- their time, each modulo 2^64, the longest of them and the list of their times. No other probe has
-- a row.
pub aggregate_events-sums :
    (events : List Event) (pattern : Text) (probes : List Probe) (id : ℕ)
    → Once (aggregate_events events pattern probes)
      × (lookup id (aggregate_events events pattern probes)
          ≡ row_of (chosen pattern probes id events))
unfolding aggregate_events
aggregate_events-sums events pattern probes id = (
  aggregate_into-Once pattern probes events [] tt,
  lookup-aggregate_into pattern probes id events [] ∙ onto-row_of (chosen pattern probes id events),
)
