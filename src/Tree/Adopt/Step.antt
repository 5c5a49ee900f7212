-- ===== src/Tree/Adopt/Step.antt =====
-- One event of rthas/src/tree.rs `add`, when the subtrees under it have all arrived.
use rthas.Prelude.{
  ℕ, zero, suc, ◌<◌, ◌≡◌, refl, ap, ◌∙◌, ◌≢◌, false, ◌||◌, none, some, List, [], ◌∷◌, ◌++◌, map,
  arith, leb, ◌==◌, lookup, remove, update, Lacks, lookup-Lacks, upsert-Lacks, update-append_Lacks,
  Lacks-append, lookup-upsert_ne, remove-upsert_ne, lookup-append_self, remove-append_self,
}
use rthas.Event.{Event}
use rthas.Tree.{Node, Waiting, Forest, with_children, adopt, place, ingest}
use rthas.Tree.Take.{Trees, nil, cons}
use rthas.Tree.Adopt.{roots, wait, wait_all, waits_all, spans-waits_all, wait_all-cons, settle}

abbrev pub complete : Event → Trees → Node
complete e kids = record { event = some e; children = roots kids }

update_last :
    (k : ℕ) (cs : List ℕ) (n : Node) (m : List (ℕ × Node))
    → Lacks k m
    → update k (with_children cs) (m ++ (k, n) ∷ []) ≡ m ++ (k, with_children cs n) ∷ []
update_last k cs n m h =
    rw (update-append_Lacks k (with_children cs) m ((k, n) ∷ []) h) (ground arith)

adopt-none : (k : ℕ) (f : Forest) → lookup k f.waiting ≡ none → adopt k f ≡ f
unfolding adopt
adopt-none k f h = rw (h, adopt)

adopt-some :
    (k : ℕ) (f : Forest) (ws : List Waiting)
    → lookup k f.waiting ≡ some ws
    → adopt k f ≡ record f {
      nodes = update k (with_children (map (λ (w : Waiting). w.span) ws)) f.nodes;
      waiting = remove k f.waiting;
    }
unfolding adopt
adopt-some k f ws h = rw (h, adopt)

module _ (clock : Event → ℕ × ℕ) (k : ℕ) where
  -- The roots `kids` wait for `k` in `m`, and once they are removed `rest` is left.
  abbrev Pending : Trees → List (ℕ × List Waiting) → List (ℕ × List Waiting) → Type 0
  Pending nil m rest = (lookup k m ≡ none) × (m ≡ rest)
  Pending (cons t ts) m rest =
      (lookup k m ≡ some (waits_all clock (cons t ts))) × (remove k m ≡ rest)

  Pending-wait_all :
      (kids : Trees) (m : List (ℕ × List Waiting))
      → Lacks k m
      → Pending kids (wait_all clock k kids m) m
  Pending-wait_all nil m h = (lookup-Lacks k m h, refl)
  Pending-wait_all (cons t ts) m h =
      rw (wait_all-cons clock k t ts m h) (lookup-append_self k _ m h, remove-append_self k _ m h)

  Pending-wait :
      (p : ℕ) (e : Event) (kids : Trees) (m rest : List (ℕ × List Waiting))
      → p ≢ k
      → Pending kids m rest
      → Pending kids (wait clock p e m) (wait clock p e rest)
  Pending-wait p e nil m rest ne h = (lookup-upsert_ne k p _ _ m ne ∙ h.0, ap (wait clock p e) h.1)
  Pending-wait p e (cons t ts) m rest ne h =
      (lookup-upsert_ne k p _ _ m ne ∙ h.0, remove-upsert_ne k p _ _ m ne ∙ ap (wait clock p e) h.1)

-- The adoption of `kids` by a node that has just been put at the end.
adopt-Pending :
    (clock : Event → ℕ × ℕ) (e : Event) (n : List (ℕ × Node)) (kids : Trees)
    (m rest : List (ℕ × List Waiting)) (ready : List ℕ) (grace : ℕ)
    → Lacks e.span n
    → Pending clock e.span kids m rest
    → adopt e.span (record {
      nodes = n ++ (e.span, record { event = some e; children = [] }) ∷ [];
      waiting = m;
      ready = ready;
      grace = grace;
    })
      ≡ record {
        nodes = n ++ (e.span, complete e kids) ∷ [];
        waiting = rest;
        ready = ready;
        grace = grace;
      }
adopt-Pending clock e n nil m rest ready grace h g = adopt-none e.span _ g.0 ∙ rw g.1
adopt-Pending clock e n (cons t ts) m rest ready grace h g =
    adopt-some e.span _ (waits_all clock (cons t ts)) g.0
    ∙ rw (
      spans-waits_all clock (cons t ts),
      g.1,
      update_last e.span (roots (cons t ts)) (record { event = some e; children = [] }) n h,
    )

place-root :
    (clock : Event → ℕ × ℕ) (e : Event) (f : Forest)
    → e.parent ≡ 0
    → place e (clock e).1 f ≡ settle clock 0 e f
unfolding place
place-root clock e f h = rw (h, place)

place-waiting :
    (clock : Event → ℕ × ℕ) (e : Event) (p : ℕ) (f : Forest)
    → e.parent ≡ suc p
    → suc p < e.span
    → Lacks (suc p) f.nodes
    → place e (clock e).1 f ≡ settle clock (suc p) e f
unfolding place
place-waiting clock e p f h lt g =
    let here : (e.parent == 0 || leb e.span e.parent) ≡ false = ground arith in
    let unseen : lookup e.parent f.nodes ≡ none =
      ap (λ q. lookup q f.nodes) h ∙ lookup-Lacks (suc p) f.nodes g in
    rw (here, unseen) (ap (λ q. record f { waiting = wait clock q e f.waiting }) h)

-- The event of a span whose children have all arrived.
module _ (clock : Event → ℕ × ℕ) (e : Event) (kids : Trees) where
  pub ingest-complete :
      (p : ℕ) (n : List (ℕ × Node)) (m : List (ℕ × List Waiting)) (ready : List ℕ) (grace : ℕ)
      → e.parent ≡ p
      → p < e.span
      → Lacks p n
      → Lacks e.span n
      → Lacks e.span m
      → ingest e (clock e).1 (record {
        nodes = n;
        waiting = wait_all clock e.span kids m;
        ready = ready;
        grace = grace;
      })
        ≡ settle clock p e (record {
          nodes = n ++ (e.span, complete e kids) ∷ [];
          waiting = m;
          ready = ready;
          grace = grace;
        })
  unfolding ingest
  ingest-complete zero n m ready grace is_p older no_p fresh clear =
      let new : Node = record { event = some e; children = [] } in
      rw (upsert-Lacks e.span (λ r. record r { event = some e }) new n fresh) (
        ap (adopt e.span) (
          place-root clock e
            (record {
              nodes = n ++ (e.span, new) ∷ [];
              waiting = wait_all clock e.span kids m;
              ready = ready;
              grace = grace;
            })
            is_p)
        ∙ adopt-Pending clock e n kids _ m (ready ++ e.span ∷ []) grace fresh
            (Pending-wait_all clock e.span kids m clear))
  ingest-complete (suc p) n m ready grace is_p older no_p fresh clear =
      let new : Node = record { event = some e; children = [] } in
      rw (upsert-Lacks e.span (λ r. record r { event = some e }) new n fresh) (
        ap (adopt e.span) (
          place-waiting clock e p
            (record {
              nodes = n ++ (e.span, new) ∷ [];
              waiting = wait_all clock e.span kids m;
              ready = ready;
              grace = grace;
            })
            is_p older (Lacks-append (suc p) n ((e.span, new) ∷ []) no_p (omega arith, tt)))
        ∙ adopt-Pending clock e n kids _ (wait clock (suc p) e m) ready grace fresh (
            Pending-wait clock e.span (suc p) e kids _ m (omega arith)
              (Pending-wait_all clock e.span kids m clear)))
