-- ===== src/Agent/Stats/Sums.antt =====
-- One row of the aggregates of rthas/src/agent.rs: what its events come to.
use rthas.Prelude.{
  ℕ, ◌+◌, ◌%◌, ◌<◌, max, ◌≡◌, refl, ◌∙◌, inl, inr, Bool, not, List, [], ◌∷◌, ◌++◌, map,
  append_assoc, arith, Bool-cases, length, filter, u64_mod, succ_u64,
}
use rthas.Event.{Event}
use rthas.Agent.Stats.{Agg, add_err, tally}

abbrev failed : Event → Bool
failed e = not e.ok

abbrev time_of : List Event → ℕ
time_of [] = 0
time_of (e ∷ events) = e.dur_ns + time_of events

abbrev longest : List Event → ℕ
longest [] = 0
longest (e ∷ events) = max e.dur_ns (longest events)

abbrev duration : Event → ℕ
duration e = e.dur_ns

-- The sums of some events, as 64-bit counters show them.
abbrev pub sums : List Event → Agg
sums events = record {
  count = length events % u64_mod;
  errs = length (filter failed events) % u64_mod;
  total_ns = time_of events % u64_mod;
  max_ns = longest events;
  durs = map duration events;
}

abbrev pub tally_all : List Event → Agg → Agg
tally_all [] a = a
tally_all (e ∷ events) a = tally_all events (tally e a)

-- `sums`, on top of an aggregate.
abbrev pub raised : Agg → List Event → Agg
raised a events = record {
  count = (a.count + length events) % u64_mod;
  errs = (a.errs + length (filter failed events)) % u64_mod;
  total_ns = (a.total_ns + time_of events) % u64_mod;
  max_ns = max a.max_ns (longest events);
  durs = a.durs ++ map duration events;
}

pub agg_eq :
    (c c' r r' t t' x x' : ℕ) (d d' : List ℕ)
    → c ≡ c'
    → r ≡ r'
    → t ≡ t'
    → x ≡ x'
    → d ≡ d'
    → ◌≡◌ {A = Agg}
        (record { count = c; errs = r; total_ns = t; max_ns = x; durs = d })
        (record { count = c'; errs = r'; total_ns = t'; max_ns = x'; durs = d' })
agg_eq c c' r r' t t' x x' d d' ec er et ex ed =
    λ i. record { count = ec i; errs = er i; total_ns = et i; max_ns = ex i; durs = ed i }

errs-tally :
    (e : Event) (a : Agg) (events : List Event)
    → (add_err e.ok a.errs + length (filter failed events)) % u64_mod
      ≡ (a.errs + length (filter failed (e ∷ events))) % u64_mod
errs-tally e a events = elim (Bool-cases e.ok) [
  | inl fine ↦ rw fine refl
  | inr bad ↦ rw bad (omega arith)
]

errs-one :
    (e : Event) (a : Agg)
    → a.errs < u64_mod
    → add_err e.ok a.errs ≡ (a.errs + length (filter failed (e ∷ []))) % u64_mod
errs-one e a h = elim (Bool-cases e.ok) [
  | inl fine ↦ rw fine (omega arith)
  | inr bad ↦ rw bad (omega arith)
]

-- A counter that a `u64` holds.
abbrev Fits : Agg → Type 0
Fits a = a.errs < u64_mod

tally-Fits : (e : Event) (a : Agg) → Fits a → Fits (tally e a)
unfolding tally
tally-Fits e a h = elim (Bool-cases e.ok) [ inl fine ↦ rw fine h | inr bad ↦ rw bad (omega arith) ]

raised-tally :
    (e : Event) (a : Agg) (events : List Event) → raised (tally e a) events ≡ raised a (e ∷ events)
unfolding tally succ_u64
raised-tally e a events =
    agg_eq _ _ _ _ _ _ _ _ _ _ (omega arith) (errs-tally e a events) (omega arith) (omega arith)
      (append_assoc a.durs (e.dur_ns ∷ []) (map duration events))

pub tally_all-raised :
    (events : List Event) (e : Event) (a : Agg)
    → Fits a
    → tally_all events (tally e a) ≡ raised a (e ∷ events)
unfolding tally succ_u64
tally_all-raised [] e a h =
    agg_eq _ _ _ _ _ _ _ _ _ _ refl (errs-one e a h) (omega arith) (omega arith) refl
tally_all-raised (next ∷ events) e a h =
    tally_all-raised events next (tally e a) (tally-Fits e a h) ∙ raised-tally e a (next ∷ events)
