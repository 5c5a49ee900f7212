-- ===== src/Pipe/Stage/Passing.antt =====
-- Lines that go through the stages of a pipeline of rthas/src/pipe.rs one by one, and stage by stage.
use rthas.Prelude.{
  ◌≡◌, refl, sym, ap, inl, inr, Option, none, some, List, [], ◌∷◌, ◌++◌, append_assoc, Option-cases,
  Text,
}
use rthas.Pipe.Stage.{
  Io, Stage, Pipeline, and_then, feed, finish, through, pass, pass_last, write_lines, emit_line,
  close,
}

and_then-none {ℓ κ} :
    {A : Type ℓ} {B : Type κ} (x : Option A) → and_then {B = B} x (λ a. none) ≡ none
and_then-none none = refl
and_then-none (some a) = refl

and_then-some {ℓ} : {A : Type ℓ} (x : Option A) → and_then x (λ a. some a) ≡ x
and_then-some none = refl
and_then-some (some a) = refl

module _ {File Sink : Type 0} (io : Io File Sink) where
  pub through-append :
      (s : Stage File) (a b : List Text)
      → through io s (a ++ b)
        ≡ and_then
            (through io s a)
            (λ (s1, out1). and_then (through io s1 b) (λ (s2, out2). some (s2, out1 ++ out2)))
  unfolding through
  through-append s [] b = sym (and_then-some (through io s b))
  through-append s (l ∷ a) b = elim (Option-cases (feed io s l)) [
    | inl e ↦ rw e
    | inr (fed, e) ↦
        rw (e, through-append fed.0 a b)
          (elim (Option-cases (through io fed.0 a)) [
            | inl d ↦ rw d
            | inr (rest, d) ↦ rw d (elim (Option-cases (through io rest.0 b)) [
              | inl c ↦ rw c
              | inr (last, c) ↦
                  rw c (ap (λ out. some (last.0, out)) (sym (append_assoc fed.1 rest.1 last.1)))
            ])
          ])
  ]

  pub pass-append :
      (ss : List (Stage File)) (a b : List Text)
      → pass io ss (a ++ b)
        ≡ and_then
            (pass io ss a)
            (λ (ss1, out1). and_then (pass io ss1 b) (λ (ss2, out2). some (ss2, out1 ++ out2)))
  unfolding pass
  pass-append [] a b = refl
  pass-append (s ∷ ss) a b = rw (through-append s a b) (elim (Option-cases (through io s a)) [
    | inl e ↦ rw e
    | inr (first, e) ↦ rw e (elim (Option-cases (through io first.0 b)) [
      | inl d ↦
          rw d
            (elim (Option-cases (pass io ss first.1)) [ inl c ↦ rw c | inr (next, c) ↦ rw (c, d) ])
      | inr (second, d) ↦
          rw (d, pass-append ss first.1 second.1)
            (elim (Option-cases (pass io ss first.1)) [
              | inl c ↦ rw c
              | inr (next, c) ↦
                  rw (c, d)
                    (elim (Option-cases (pass io next.0 second.1)) [
                      | inl f ↦ rw f
                      | inr (last, f) ↦ rw f
                    ])
            ])
    ])
  ])

  pub pass_last-append :
      (ss : List (Stage File)) (a b : List Text)
      → pass_last io ss (a ++ b)
        ≡ and_then
            (pass io ss a)
            (λ (ss1, out1). and_then (pass_last io ss1 b) (λ (ss2, out2). some (ss2, out1 ++ out2)))
  unfolding pass pass_last
  pass_last-append [] a b = refl
  pass_last-append (s ∷ ss) a b = rw (through-append s a b) (elim (Option-cases (through io s a)) [
    | inl e ↦ rw e
    | inr (first, e) ↦ rw e (elim (Option-cases (through io first.0 b)) [
      | inl d ↦
          rw d
            (elim (Option-cases (pass io ss first.1)) [ inl c ↦ rw c | inr (next, c) ↦ rw (c, d) ])
      | inr (second, d) ↦ rw d (elim (Option-cases (finish io second.0)) [
        | inl k ↦ rw k (elim (Option-cases (pass io ss first.1)) [
          | inl c ↦ rw c
          | inr (next, c) ↦ rw (c, d, k)
        ])
        | inr (end, k) ↦
            rw
              (
                k,
                append_assoc first.1 second.1 end.1,
                pass_last-append ss first.1 (second.1 ++ end.1),
              )
              (elim (Option-cases (pass io ss first.1)) [
                | inl c ↦ rw c
                | inr (next, c) ↦
                    rw (c, d, k)
                      (elim (Option-cases (pass_last io next.0 (second.1 ++ end.1))) [
                        | inl f ↦ rw f
                        | inr (last, f) ↦ rw f
                      ])
              ])
      ])
    ])
  ])

  write_lines-append :
      (sink : Sink) (a b : List Text)
      → write_lines io sink (a ++ b)
        ≡ and_then (write_lines io sink a) (λ sink'. write_lines io sink' b)
  unfolding write_lines
  write_lines-append sink [] b = refl
  write_lines-append sink (l ∷ a) b = elim (Option-cases (io.write_sink sink l)) [
    | inl e ↦ rw e
    | inr (sink', e) ↦ rw e (write_lines-append sink' a b)
  ]

  -- The lines of a run through `emit_line`, one after the other.
  unfoldable pub emit_lines : List Text → Pipeline File Sink → Option (Pipeline File Sink)
  unfolding emit_line
  emit_lines [] p = some p
  emit_lines (l ∷ lines) p = and_then (emit_line io l p) (emit_lines lines)

  -- What the stages promise: each of them gets all lines that the one in front of it lets through,
  -- and finishes, before the next one begins; what comes out last is written, and flushed.
  abbrev pub stage_by_stage : List Text → Pipeline File Sink → Option (Pipeline File Sink)
  stage_by_stage lines p = and_then (pass_last io p.stages lines) (λ (stages', out).
      and_then (write_lines io p.inner out) (λ inner'.
        and_then (io.flush_sink inner')
          (λ inner''. some (record p { inner = inner''; stages = stages' }))))

  pub close-emit_lines :
      (lines : List Text) (p : Pipeline File Sink)
      → and_then (emit_lines lines p) (close io) ≡ stage_by_stage lines p
  unfolding emit_lines emit_line close
  close-emit_lines [] p = refl
  close-emit_lines (l ∷ lines) p =
      rw (pass_last-append p.stages (l ∷ []) lines)
        (elim (Option-cases (pass io p.stages (l ∷ []))) [
          | inl e ↦ rw e
          | inr (first, e) ↦ rw e (elim (Option-cases (write_lines io p.inner first.1)) [
            | inl d ↦ rw d (elim (Option-cases (pass_last io first.0 lines)) [
              | inl c ↦ rw c
              | inr (last, c) ↦ rw (c, write_lines-append p.inner first.1 last.1, d)
            ])
            | inr (inner1, d) ↦
                rw (d, close-emit_lines lines (record p { inner = inner1; stages = first.0 }))
                  (elim (Option-cases (pass_last io first.0 lines)) [
                    | inl c ↦ rw c
                    | inr (last, c) ↦ rw (c, write_lines-append p.inner first.1 last.1, d)
                  ])
          ])
        ])
