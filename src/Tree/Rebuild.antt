-- ===== src/Tree/Rebuild.antt =====
-- A forest that is fed whole calls holds them as complete subtrees.
use rthas.Prelude.{
  ℕ, zero, suc, ◌+◌, ◌≤◌, ◌<◌, ◌≡◌, refl, sym, ap, ◌∙◌, ◌⊎◌, List, [], ◌∷◌, ◌++◌, append-nil,
  append_assoc, arith, Lacks, Lacks-append, Lacks-upsert,
}
use rthas.Event.{Event}
use rthas.Tree.{Node, Waiting, Forest, ingest, add}
use rthas.Tree.Take.{Trees, tree, nil, cons}
use rthas.Tree.Adopt.{
  count, postorder, flat, Numbered, feed, feed-append, Free, flat-Lacks, Fresh,
  promote_expired-Fresh, wait_all, Fresh-wait, Fresh-wait_all, settle, settle_all, settle_all-wait,
}
use rthas.Tree.Adopt.Step.{complete, ingest-complete}

regroup {ℓ} :
    {A : Type ℓ} (xs ys zs : List A) (a : A) → (xs ++ (ys ++ a ∷ [])) ++ zs ≡ xs ++ (ys ++ a ∷ zs)
regroup xs ys zs a = append_assoc xs (ys ++ a ∷ []) zs ∙ ap (◌++◌ xs) (append_assoc ys (a ∷ []) zs)

-- All readings of the clock fall into one grace window from `t0` on.
module _ (clock : Event → ℕ × ℕ) (t0 grace : ℕ) (some_grace : 0 < grace)
    (late : (e : Event) → t0 ≤ (clock e).1) (soon : (e : Event) → (clock e).0 < t0 + grace) where
  add-complete :
      (e : Event) (kids : Trees) (p : ℕ) (n : List (ℕ × Node)) (m : List (ℕ × List Waiting))
      (ready : List ℕ) (g : ℕ)
      → g ≡ grace
      → e.parent ≡ p
      → p < e.span
      → Lacks p n
      → Lacks e.span n
      → Lacks e.span m
      → Fresh t0 m
      → (add e (clock e).0 (clock e).1 (record {
        nodes = n;
        waiting = wait_all clock e.span kids m;
        ready = ready;
        grace = g;
      })).0
        ≡ settle clock p e (record {
          nodes = n ++ (e.span, complete e kids) ∷ [];
          waiting = m;
          ready = ready;
          grace = g;
        })
  unfolding add
  add-complete e kids p n m ready g same is_p older no_p fresh clear late_m =
      ap (ingest e (clock e).1) (
        promote_expired-Fresh t0 grace (clock e).0 some_grace (soon e)
          (record { nodes = n; waiting = wait_all clock e.span kids m; ready = ready; grace = g })
          same (Fresh-wait_all clock t0 late e.span kids m late_m))
      ∙ ingest-complete clock e kids p n m ready g is_p older no_p fresh clear

  -- What a forest must be for the siblings `ts` under `p`, numbered from `lo`, to settle in it.
  pub record Open (p lo : ℕ) (ts : Trees) (f : Forest) : Type 0 where
    pub numbered : Numbered p lo ts
    pub older : p < lo
    pub no_parent : Lacks p f.nodes
    pub fresh_nodes : Free lo (count ts) f.nodes
    pub fresh_waiting : Free lo (count ts) f.waiting
    pub late_waiting : Fresh t0 f.waiting
    pub same_grace : f.grace ≡ grace

  abbrev with_nodes : List (ℕ × Node) → Forest → Forest
  with_nodes n f = record f { nodes = f.nodes ++ n }

  settle-with_nodes :
      (p : ℕ) (e : Event) (n : List (ℕ × Node)) (f : Forest)
      → with_nodes n (settle clock p e f) ≡ settle clock p e (with_nodes n f)
  settle-with_nodes zero e n f = refl
  settle-with_nodes (suc p) e n f = refl

  -- The forest when the first of the siblings has arrived.
  abbrev after_first : ℕ → Event → Trees → Forest → Forest
  after_first p e kids f =
      settle clock p e (with_nodes (flat kids ++ (e.span, complete e kids) ∷ []) f)

  module _ (lo : ℕ) (e : Event) (kids ts : Trees) (f : Forest) where
    Open-kids : {p : ℕ} → Open p lo (cons (tree e kids) ts) f → Open e.span (lo + 1) kids f
    Open-kids o = record {
      numbered = o.numbered.2;
      older = omega (arith, o.numbered.0);
      no_parent = o.fresh_nodes e.span (omega (arith, o.numbered.0)) (omega (arith, o.numbered.0));
      fresh_nodes = λ k a b. o.fresh_nodes k (omega arith) (omega arith);
      fresh_waiting = λ k a b. o.fresh_waiting k (omega arith) (omega arith);
      late_waiting = o.late_waiting;
      same_grace = o.same_grace;
    }

    Lacks-first :
        {p : ℕ} (k : ℕ)
        → Open p lo (cons (tree e kids) ts) f
        → (k < lo) ⊎ (lo + 1 + count kids ≤ k)
        → Lacks k f.nodes
        → Lacks k (f.nodes ++ (flat kids ++ (e.span, complete e kids) ∷ []))
    Lacks-first k o out h = Lacks-append k f.nodes _ h (
        Lacks-append k (flat kids) ((e.span, complete e kids) ∷ [])
          (flat-Lacks k e.span (lo + 1) kids o.numbered.2 (omega arith))
          (omega (arith, o.numbered.0), tt))

    Open-next :
        (p : ℕ)
        → Open p lo (cons (tree e kids) ts) f
        → Open p (lo + 1 + count kids) ts (after_first p e kids f)
    Open-next zero o = record {
      numbered = o.numbered.3;
      older = omega arith;
      no_parent = Lacks-first 0 o (omega (arith, o.older)) o.no_parent;
      fresh_nodes =
          λ k a b. Lacks-first k o (omega arith) (o.fresh_nodes k (omega arith) (omega arith));
      fresh_waiting = λ k a b. o.fresh_waiting k (omega arith) (omega arith);
      late_waiting = o.late_waiting;
      same_grace = o.same_grace;
    }
    Open-next (suc p) o = record {
      numbered = o.numbered.3;
      older = omega (arith, o.older);
      no_parent = Lacks-first (suc p) o (omega (arith, o.older)) o.no_parent;
      fresh_nodes =
          λ k a b. Lacks-first k o (omega arith) (o.fresh_nodes k (omega arith) (omega arith));
      fresh_waiting = λ k a b.
          Lacks-upsert k (suc p) _ _ f.waiting (omega (arith, o.older))
            (o.fresh_waiting k (omega arith) (omega arith));
      late_waiting = Fresh-wait clock t0 late (suc p) e f.waiting o.late_waiting;
      same_grace = o.same_grace;
    }

  pub feed-Numbered :
      (p lo : ℕ) (ts : Trees) (f : Forest)
      → Open p lo ts f
      → feed clock (postorder ts) f ≡ settle_all clock p ts (with_nodes (flat ts) f)
  unfolding feed
  feed-Numbered p lo nil f o = λ i. record f { nodes = sym (append-nil f.nodes) i }
  feed-Numbered p lo (cons (tree e kids) ts) f o =
      feed-append clock (postorder kids) (e ∷ postorder ts) f
      ∙ ap (feed clock (e ∷ postorder ts)) (
          feed-Numbered e.span (lo + 1) kids f (Open-kids lo e kids ts f o)
          ∙ settle_all-wait clock e.span kids (with_nodes (flat kids) f)
              (omega (arith, o.numbered.0, o.older)))
      ∙ ap (feed clock (postorder ts)) (
          add-complete e kids p (f.nodes ++ flat kids) f.waiting f.ready f.grace o.same_grace
            o.numbered.1 (omega (arith, o.numbered.0, o.older))
            (Lacks-append p f.nodes (flat kids) o.no_parent
              (flat-Lacks p e.span (lo + 1) kids o.numbered.2 (omega (arith, o.older))))
            (Lacks-append e.span f.nodes (flat kids)
              (o.fresh_nodes e.span (omega (arith, o.numbered.0)) (omega (arith, o.numbered.0)))
              (flat-Lacks e.span e.span (lo + 1) kids o.numbered.2 (omega (arith, o.numbered.0))))
            (o.fresh_waiting e.span (omega (arith, o.numbered.0)) (omega (arith, o.numbered.0)))
            o.late_waiting
          ∙ ap (settle clock p e) (λ i. record f {
            nodes = append_assoc f.nodes (flat kids) ((e.span, complete e kids) ∷ []) i;
          }))
      ∙ feed-Numbered p (lo + 1 + count kids) ts (after_first p e kids f)
          (Open-next lo e kids ts f p o)
      ∙ ap (settle_all clock p ts) (
          settle-with_nodes p e (flat ts)
            (with_nodes (flat kids ++ (e.span, complete e kids) ∷ []) f)
          ∙ ap (settle clock p e) (λ i. record f {
            nodes = regroup f.nodes (flat kids) (flat ts) (e.span, complete e kids) i;
          }))
