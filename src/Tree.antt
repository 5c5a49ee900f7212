-- ===== src/Tree.antt =====
-- rthas/src/tree.rs: rebuilding call trees from events that arrive child first.
pub mod Take
pub mod Adopt
pub mod Rebuild
pub mod Collect
use rthas.Prelude.{
  ℕ, ◌+◌, ◌-◌, Bool, not, ◌||◌, ◌&&◌, Option, none, some, List, [], ◌∷◌, ◌++◌, map, leb, ◌==◌,
  if◌then◌else◌, filter, is_some, is_empty, lookup, remove, upsert, update,
}
use rthas.Event.{Event}

-- Milliseconds.
abbrev pub default_grace : ℕ
default_grace = 250

pub record Node : Type 0 where
  pub event : Option Event
  pub children : List ℕ

pub record Waiting : Type 0 where
  pub span : ℕ
  pub since : ℕ

-- Times are in one unit throughout, that of `grace`.
pub record Forest : Type 0 where
  pub nodes : List (ℕ × Node)
  pub waiting : List (ℕ × List Waiting)
  pub ready : List ℕ
  pub grace : ℕ

unfoldable pub with_grace : ℕ → Forest
with_grace grace = record { nodes = []; waiting = []; ready = []; grace = grace }

abbrev pub is_fresh : ℕ → ℕ → Waiting → Bool
is_fresh now grace w = not (leb grace (now - w.since))

-- The `retain` of `promote_expired`: what stays, and the spans that have waited too long.
unfoldable pub still_waiting : ℕ → ℕ → List (ℕ × List Waiting) → List (ℕ × List Waiting)
still_waiting now grace [] = []
still_waiting now grace ((p, ws) ∷ m) =
    let rest = still_waiting now grace m in
    let kept = filter (is_fresh now grace) ws in if is_empty kept then rest else (p, kept) ∷ rest

unfoldable pub expired : ℕ → ℕ → List (ℕ × List Waiting) → List ℕ
expired now grace [] = []
expired now grace ((p, ws) ∷ m) =
    map (λ (w : Waiting). w.span) (filter (λ w. not (is_fresh now grace w)) ws)
    ++ expired now grace m

-- `if self.nodes.contains_key(&span) { ready.push_back(span) }`, for each span.
unfoldable pub release : List ℕ → Forest → Forest
release spans f = record f { ready = f.ready ++ filter (λ s. is_some (lookup s f.nodes)) spans }

unfoldable pub promote_expired : ℕ → Forest → Forest
unfolding still_waiting expired release
promote_expired now f =
    release (expired now f.grace f.waiting)
      (record f { waiting = still_waiting now f.grace f.waiting })

-- A node's children grow at the end.
abbrev pub with_children : List ℕ → Node → Node
with_children cs n = record n { children = n.children ++ cs }

unfoldable pub adopt : ℕ → Forest → Forest
adopt span f =
    let f' = record f { waiting = remove span f.waiting } in
    elim (lookup span f.waiting) [
      | none ↦ f
      | some ws ↦ record f' {
        nodes = update span (with_children (map (λ (w : Waiting). w.span) ws)) f.nodes;
      }
    ]

-- Where the span goes: to the ready queue, under its parent, or to wait for it.
unfoldable pub place : Event → ℕ → Forest → Forest
place event now f =
    if event.parent == 0 || leb event.span event.parent
    then record f { ready = f.ready ++ event.span ∷ [] }
    else if is_some (lookup event.parent f.nodes)
    then record f { nodes = update event.parent (with_children (event.span ∷ [])) f.nodes }
    else (let w : Waiting = record { span = event.span; since = now } in
        record f { waiting = upsert event.parent (λ ws. ws ++ w ∷ []) (w ∷ []) f.waiting })

unfoldable pub ingest : Event → ℕ → Forest → Forest
ingest event now f = adopt event.span (
    place event now (record f {
      nodes =
          upsert event.span (λ n. record n { event = some event })
            (record { event = some event; children = [] }) f.nodes;
    }))

abbrev pub front : List ℕ → Option ℕ
front [] = none
front (x ∷ xs) = some x

-- `now` and `later` are the two readings of `Instant::now()`.
unfoldable pub add : Event → ℕ → ℕ → Forest → Forest × Option ℕ
add event now later f = let f' = ingest event later (promote_expired now f) in (f', front f'.ready)

unfoldable pub is_empty_forest : Forest → Bool
is_empty_forest f = is_empty f.nodes && is_empty f.waiting && is_empty f.ready
