-- ===== src/Prelude/Maps.antt =====
-- Hash maps with numbers as keys, as association lists in the order of insertion.
use Prim.Native.Nat.{ℕ}
use mathlib.Core.Path.{◌≡◌, refl}
use mathlib.Core.Logic.{◌≢◌, inl, inr}
use mathlib.Core.Option.{Option, none, some}
use mathlib.Core.List.{List, [], ◌∷◌, ◌++◌, append-nil}
use native.Mathlib.Omega.{arith}
use rthas.Prelude.Tests.{◌==◌, Bool-cases, if◌then◌else◌}

module _ {ℓ} {V : Type ℓ} where
  abbrev pub lookup : ℕ → List (ℕ × V) → Option V
  lookup k [] = none
  lookup k ((j, v) ∷ m) = if j == k then some v else lookup k m

  abbrev pub remove : ℕ → List (ℕ × V) → List (ℕ × V)
  remove k [] = []
  remove k ((j, v) ∷ m) = if j == k then m else (j, v) ∷ remove k m

  -- `entry(k)`: `change` of what is there, or `fresh` put at the end.
  abbrev pub upsert : ℕ → (V → V) → V → List (ℕ × V) → List (ℕ × V)
  upsert k change fresh [] = (k, fresh) ∷ []
  upsert k change fresh ((j, v) ∷ m) =
      if j == k then (j, change v) ∷ m else (j, v) ∷ upsert k change fresh m

  -- `get_mut(k)`.
  abbrev pub update : ℕ → (V → V) → List (ℕ × V) → List (ℕ × V)
  update k change [] = []
  update k change ((j, v) ∷ m) = if j == k then (j, change v) ∷ m else (j, v) ∷ update k change m

  -- No entry has the key.
  abbrev pub Lacks : ℕ → List (ℕ × V) → Type 0
  Lacks k [] = Unit
  Lacks k ((j, v) ∷ m) = (j ≢ k) × Lacks k m

module _ {ℓ} {V : Type ℓ} where
  pub lookup-Lacks : (k : ℕ) (m : List (ℕ × V)) → Lacks k m → lookup k m ≡ none
  lookup-Lacks k [] h = refl
  lookup-Lacks k ((j, v) ∷ m) h = ground (arith, lookup-Lacks k m h.1)

  pub remove-Lacks : (k : ℕ) (m : List (ℕ × V)) → Lacks k m → remove k m ≡ m
  remove-Lacks k [] h = refl
  remove-Lacks k ((j, v) ∷ m) h = ground (arith, remove-Lacks k m h.1)

  pub lookup-append_Lacks :
      (k : ℕ) (m n : List (ℕ × V)) → Lacks k m → lookup k (m ++ n) ≡ lookup k n
  lookup-append_Lacks k [] n h = refl
  lookup-append_Lacks k ((j, v) ∷ m) n h = ground (arith, lookup-append_Lacks k m n h.1)

  pub remove-append_Lacks :
      (k : ℕ) (m n : List (ℕ × V)) → Lacks k m → remove k (m ++ n) ≡ m ++ remove k n
  remove-append_Lacks k [] n h = refl
  remove-append_Lacks k ((j, v) ∷ m) n h = ground (arith, remove-append_Lacks k m n h.1)

  pub upsert-Lacks :
      (k : ℕ) (change : V → V) (fresh : V) (m : List (ℕ × V))
      → Lacks k m
      → upsert k change fresh m ≡ m ++ (k, fresh) ∷ []
  upsert-Lacks k change fresh [] h = refl
  upsert-Lacks k change fresh ((j, v) ∷ m) h = ground (arith, upsert-Lacks k change fresh m h.1)

  pub update-append_Lacks :
      (k : ℕ) (change : V → V) (m n : List (ℕ × V))
      → Lacks k m
      → update k change (m ++ n) ≡ m ++ update k change n
  update-append_Lacks k change [] n h = refl
  update-append_Lacks k change ((j, v) ∷ m) n h =
      ground (arith, update-append_Lacks k change m n h.1)

  pub Lacks-append : (k : ℕ) (m n : List (ℕ × V)) → Lacks k m → Lacks k n → Lacks k (m ++ n)
  Lacks-append k [] n h g = g
  Lacks-append k ((j, v) ∷ m) n h g = (h.0, Lacks-append k m n h.1 g)

  pub Lacks-upsert :
      (k p : ℕ) (change : V → V) (fresh : V) (m : List (ℕ × V))
      → p ≢ k
      → Lacks k m
      → Lacks k (upsert p change fresh m)
  Lacks-upsert k p change fresh [] ne h = (ne, tt)
  Lacks-upsert k p change fresh ((j, v) ∷ m) ne h =
      let rest = Lacks-upsert k p change fresh m ne h.1 in
      elim (Bool-cases (j == p)) [
        | inl same ↦ rw same (h.0, h.1)
        | inr other ↦ rw other (h.0, rest)
      ]

  pub lookup-upsert_ne :
      (k p : ℕ) (change : V → V) (fresh : V) (m : List (ℕ × V))
      → p ≢ k
      → lookup k (upsert p change fresh m) ≡ lookup k m
  lookup-upsert_ne k p change fresh [] ne = ground arith
  lookup-upsert_ne k p change fresh ((j, v) ∷ m) ne =
      ground (arith, lookup-upsert_ne k p change fresh m ne)

  pub remove-upsert_ne :
      (k p : ℕ) (change : V → V) (fresh : V) (m : List (ℕ × V))
      → p ≢ k
      → remove k (upsert p change fresh m) ≡ upsert p change fresh (remove k m)
  remove-upsert_ne k p change fresh [] ne = ground arith
  remove-upsert_ne k p change fresh ((j, v) ∷ m) ne =
      ground (arith, remove-upsert_ne k p change fresh m ne)

  pub upsert-append_Lacks :
      (k : ℕ) (change : V → V) (fresh v : V) (m : List (ℕ × V))
      → Lacks k m
      → upsert k change fresh (m ++ (k, v) ∷ []) ≡ m ++ (k, change v) ∷ []
  upsert-append_Lacks k change fresh v [] h = ground arith
  upsert-append_Lacks k change fresh v ((j, w) ∷ m) h =
      ground (arith, upsert-append_Lacks k change fresh v m h.1)

  pub lookup-append_self :
      (k : ℕ) (v : V) (m : List (ℕ × V)) → Lacks k m → lookup k (m ++ (k, v) ∷ []) ≡ some v
  lookup-append_self k v m h = rw (lookup-append_Lacks k m ((k, v) ∷ []) h) (ground arith)

  pub remove-append_self :
      (k : ℕ) (v : V) (m : List (ℕ × V)) → Lacks k m → remove k (m ++ (k, v) ∷ []) ≡ m
  remove-append_self k v m h =
      rw (remove-append_Lacks k m ((k, v) ∷ []) h) (ground (arith, append-nil m))

  -- A key in the middle.
  pub lookup-append_at :
      (k : ℕ) (v : V) (m n : List (ℕ × V)) → Lacks k m → lookup k (m ++ (k, v) ∷ n) ≡ some v
  lookup-append_at k v m n h = rw (lookup-append_Lacks k m ((k, v) ∷ n) h) (ground arith)

  pub remove-append_at :
      (k : ℕ) (v : V) (m n : List (ℕ × V)) → Lacks k m → remove k (m ++ (k, v) ∷ n) ≡ m ++ n
  remove-append_at k v m n h = rw (remove-append_Lacks k m ((k, v) ∷ n) h) (ground arith)
