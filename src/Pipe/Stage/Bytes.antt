-- ===== src/Pipe/Stage/Bytes.antt =====
-- The bytes that `write` of rthas/src/pipe.rs is given, in whatever pieces, and the lines that they are.
use rthas.Prelude.{
  ℕ, zero, suc, ◌≤◌, ◌<◌, ◌≡◌, refl, sym, ap, ◌∙◌, inl, inr, false, Option, none, some, List, [],
  ◌∷◌, ◌++◌, map, append_assoc, arith, ◌==◌, if◌then◌else◌, Bool-cases, Option-cases, length, Text,
}
use rthas.Prelude.{trim_end_matches}
use rthas.Pipe.Stage.{
  Io, Pipeline, and_then, pass, write_lines, emit_line, close, finish_all, cut_line, drop_cr,
  write_fuel, write,
}
use rthas.Pipe.Stage.Passing.{emit_lines, stage_by_stage, close-emit_lines}

-- A byte in front of the lines and the open end.
abbrev pub cons_line : ℕ → List (List ℕ) × List ℕ → List (List ℕ) × List ℕ
cons_line b ([], rest) = ([], b ∷ rest)
cons_line b (l ∷ ls, rest) = ((b ∷ l) ∷ ls, rest)

-- The lines of some bytes, each up to its line feed, and what follows the last of them.
abbrev pub lines_of : List ℕ → List (List ℕ) × List ℕ
lines_of [] = ([], [])
lines_of (b ∷ bytes) =
    let (ls, rest) = lines_of bytes in
    if b == b'\n' then ([] ∷ ls, rest) else cons_line b (ls, rest)

cut_line-none : (bytes : List ℕ) → cut_line bytes ≡ none → lines_of bytes ≡ ([], bytes)
unfolding cut_line
cut_line-none [] h = refl
cut_line-none (b ∷ bytes) h = elim (Bool-cases (b == b'\n')) [
  | inl feed ↦
      let no : ◌≡◌ {A = Option (List ℕ × List ℕ)} (some ([], bytes)) (none) = (rw feed at h) in cc
  | inr other ↦ elim (Option-cases (cut_line bytes)) [
    | inl e ↦ rw (other, cut_line-none bytes e)
    | inr (r, e) ↦
        let no : ◌≡◌ {A = Option (List ℕ × List ℕ)} (some (b ∷ r.0, r.1)) (none) =
          (rw (other, e) at h) in
        cc
  ]
]

cut_line-some :
    (bytes : List ℕ) {line rest : List ℕ}
    → cut_line bytes ≡ some (line, rest)
    → (lines_of bytes ≡ (line ∷ (lines_of rest).0, (lines_of rest).1))
      × (length rest < length bytes)
unfolding cut_line
cut_line-some [] h = cc
cut_line-some (b ∷ bytes) {line} {rest} h = elim (Bool-cases (b == b'\n')) [
  | inl feed ↦
      let here : ◌≡◌ {A = Option (List ℕ × List ℕ)} (some ([], bytes)) (some (line, rest)) =
        (rw feed at h) in
      let e1 : [] ≡ line = cc in
      let e2 : bytes ≡ rest = cc in rw (feed, ← e1, ← e2) (refl, omega arith)
  | inr other ↦ elim (Option-cases (cut_line bytes)) [
    | inl e ↦
        let no : ◌≡◌ {A = Option (List ℕ × List ℕ)} (none) (some (line, rest)) =
          (rw (other, e) at h) in
        cc
    | inr (r, e) ↦
        let here : ◌≡◌ {A = Option (List ℕ × List ℕ)} (some (b ∷ r.0, r.1)) (some (line, rest)) =
          (rw (other, e) at h) in
        let e1 : b ∷ r.0 ≡ line = cc in
        let e2 : r.1 ≡ rest = cc in
        let (same, less) = cut_line-some bytes e in rw (other, same, ← e1, ← e2) (refl, omega arith)
  ]
]

cons_line-append :
    (b : ℕ) (ls : List (List ℕ)) (rest y : List ℕ)
    → (b == b'\n') ≡ false
    → cons_line b (ls ++ (lines_of (rest ++ y)).0, (lines_of (rest ++ y)).1) ≡ (
      (cons_line b (ls, rest)).0 ++ (lines_of ((cons_line b (ls, rest)).1 ++ y)).0,
      (lines_of ((cons_line b (ls, rest)).1 ++ y)).1,
    )
cons_line-append b [] rest y other = rw other
cons_line-append b (l ∷ ls) rest y other = refl

lines_of-append :
    (x y : List ℕ)
    → lines_of (x ++ y)
      ≡ ((lines_of x).0 ++ (lines_of ((lines_of x).1 ++ y)).0, (lines_of ((lines_of x).1 ++ y)).1)
lines_of-append [] y = refl
lines_of-append (b ∷ x) y = elim (Bool-cases (b == b'\n')) [
  | inl feed ↦ rw (feed, lines_of-append x y)
  | inr other ↦
      rw (other, lines_of-append x y) (cons_line-append b (lines_of x).0 (lines_of x).1 y other)
]

module _ {File Sink : Type 0} (io : Io File Sink) where
  -- A line as the stages get it.
  abbrev pub line_text : List ℕ → Text
  line_text line = io.decode (drop_cr line)

  -- The open end, which `finish` takes for a line where there is one.
  abbrev pub last_text : List ℕ → List Text
  last_text [] = []
  last_text (b ∷ rest) = trim_end_matches (λ c. c == b'\r') (io.decode (b ∷ rest)) ∷ []

  -- All bytes as lines.
  abbrev pub text_lines : List ℕ → List Text
  text_lines bytes = map line_text (lines_of bytes).0 ++ last_text (lines_of bytes).1

  abbrev with_buf : List ℕ → Pipeline File Sink → Option (Pipeline File Sink)
  with_buf buf p = some (record p { buf = buf })

  emit_lines-buf :
      (lines : List Text) (p : Pipeline File Sink) (before end : List ℕ)
      → and_then (emit_lines io lines (record p { buf = before })) (with_buf end)
        ≡ and_then (emit_lines io lines p) (with_buf end)
  unfolding emit_lines emit_line
  emit_lines-buf [] p before end = refl
  emit_lines-buf (l ∷ lines) p before end = elim (Option-cases (pass io p.stages (l ∷ []))) [
    | inl e ↦ rw e
    | inr (first, e) ↦ rw e (elim (Option-cases (write_lines io p.inner first.1)) [
      | inl d ↦ rw d
      | inr (inner', d) ↦
          rw d (emit_lines-buf lines (record p { inner = inner'; stages = first.0 }) before end)
    ])
  ]

  emit_lines-append :
      (a b : List Text) (p : Pipeline File Sink)
      → emit_lines io (a ++ b) p ≡ and_then (emit_lines io a p) (emit_lines io b)
  unfolding emit_lines
  emit_lines-append [] b p = refl
  emit_lines-append (l ∷ a) b p = elim (Option-cases (emit_line io l p)) [
    | inl e ↦ rw e
    | inr (p', e) ↦ rw e (emit_lines-append a b p')
  ]

  write_fuel-lines_of :
      (fuel : ℕ) (p : Pipeline File Sink)
      → length p.buf ≤ fuel
      → write_fuel io fuel p
        ≡ and_then
            (emit_lines io (map line_text (lines_of p.buf).0) p)
            (with_buf (lines_of p.buf).1)
  unfolding write_fuel emit_lines
  write_fuel-lines_of zero p le = let empty : p.buf ≡ [] = length-none p.buf le in rw empty
    where
      length-none : (bytes : List ℕ) → length bytes ≤ 0 → bytes ≡ []
      length-none [] le = refl
      length-none (b ∷ bytes) le = absurd (omega arith)
  write_fuel-lines_of (suc fuel) p le = elim (Option-cases (cut_line p.buf)) [
    | inl none_left ↦ rw (cut_line-none p.buf none_left) (rw (none_left, write_fuel))
    | inr (cut, found) ↦
        let (same, less) = cut_line-some p.buf found in
        rw (found, same, write_fuel)
          (elim (Option-cases (pass io p.stages (line_text cut.0 ∷ []))) [
            | inl e ↦ rw e
            | inr (first, e) ↦ rw e (elim (Option-cases (write_lines io p.inner first.1)) [
              | inl d ↦ rw d
              | inr (inner', d) ↦ rw d (
                  write_fuel-lines_of fuel
                    (record { inner = inner'; stages = first.0; buf = cut.1 }) (omega arith)
                  ∙ emit_lines-buf (map line_text (lines_of cut.1).0)
                      (record p { inner = inner'; stages = first.0 }) cut.1 (lines_of cut.1).1)
            ])
          ])
  ]

  write-lines_of :
      (bytes : List ℕ) (p : Pipeline File Sink)
      → write io bytes p
        ≡ and_then
            (emit_lines io (map line_text (lines_of (p.buf ++ bytes)).0) p)
            (with_buf (lines_of (p.buf ++ bytes)).1)
  unfolding write
  write-lines_of bytes p =
      write_fuel-lines_of (length (p.buf ++ bytes)) (record p { buf = p.buf ++ bytes })
        (omega arith)
      ∙ emit_lines-buf (map line_text (lines_of (p.buf ++ bytes)).0) p (p.buf ++ bytes)
          (lines_of (p.buf ++ bytes)).1

  map-append {ℓ κ} :
      {A : Type ℓ} {B : Type κ} (f : A → B) (xs ys : List A)
      → map f (xs ++ ys) ≡ map f xs ++ map f ys
  map-append f [] ys = refl
  map-append f (x ∷ xs) ys = ap (◌∷◌ (f x)) (map-append f xs ys)

  -- However the output of a command is cut into pieces, writing one piece and then the next does
  -- what writing both at once does, errors included: no piece ends a line or starts one.
  pub write-append :
      (a b : List ℕ) (p : Pipeline File Sink)
      → and_then (write io a p) (write io b) ≡ write io (a ++ b) p
  write-append a b p =
      let done = p.buf ++ a in
      let now = lines_of done in
      let later = lines_of (now.1 ++ b) in
      let all : lines_of (p.buf ++ (a ++ b)) ≡ (now.0 ++ later.0, later.1) =
        ap lines_of (sym (append_assoc p.buf a b)) ∙ lines_of-append done b in
      rw
        (
          write-lines_of a p,
          write-lines_of (a ++ b) p,
          all,
          map-append line_text now.0 later.0,
          emit_lines-append (map line_text now.0) (map line_text later.0) p,
        )
        (elim (Option-cases (emit_lines io (map line_text now.0) p)) [
          | inl e ↦ rw e
          | inr (p', e) ↦
              rw (e, write-lines_of b (record p' { buf = now.1 }))
                (emit_lines-buf (map line_text later.0) p' now.1 later.1)
        ])

  emit_lines-keeps :
      (lines : List Text) (p : Pipeline File Sink) {p' : Pipeline File Sink}
      → emit_lines io lines p ≡ some p'
      → p'.buf ≡ p.buf
  unfolding emit_lines emit_line
  emit_lines-keeps [] p {p'} h = let same : p ≡ p' = cc in sym (ap (λ q. q.buf) same)
  emit_lines-keeps (l ∷ lines) p {p'} h = elim (Option-cases (pass io p.stages (l ∷ []))) [
    | inl e ↦ let no : ◌≡◌ {A = Option (Pipeline File Sink)} none (some p') = (rw e at h) in cc
    | inr (first, e) ↦ elim (Option-cases (write_lines io p.inner first.1)) [
      | inl d ↦
          let no : ◌≡◌ {A = Option (Pipeline File Sink)} none (some p') = (rw (e, d) at h) in cc
      | inr (inner', d) ↦
          let rest : emit_lines io lines (record p { inner = inner'; stages = first.0 }) ≡ some p' =
            (rw (e, d) at h) in
          emit_lines-keeps lines (record p { inner = inner'; stages = first.0 }) rest
    ]
  ]

  finish_all-last :
      (rest : List ℕ) (p : Pipeline File Sink)
      → finish_all io (record p { buf = rest })
        ≡ and_then (emit_lines io (last_text rest) (record p { buf = [] })) (close io)
  unfolding finish_all emit_lines
  finish_all-last [] p = refl
  finish_all-last (b ∷ rest) p =
      elim (Option-cases (
        emit_line io (trim_end_matches (λ c. c == b'\r') (io.decode (b ∷ rest)))
          (record p { buf = [] }))) [ inl e ↦ rw e | inr (p', e) ↦ rw e ]

  finish_all-lines :
      (ls : List Text) (rest : List ℕ) (p : Pipeline File Sink)
      → p.buf ≡ []
      → and_then (and_then (emit_lines io ls p) (with_buf rest)) (finish_all io)
        ≡ and_then (emit_lines io (ls ++ last_text rest) p) (close io)
  finish_all-lines ls rest p empty =
      rw (emit_lines-append ls (last_text rest) p) (elim (Option-cases (emit_lines io ls p)) [
        | inl e ↦ rw e
        | inr (p', e) ↦
            let none_left : p'.buf ≡ [] = emit_lines-keeps ls p e ∙ empty in
            rw e (
              finish_all-last rest p'
              ∙ ap
                  (λ b.
                    and_then (emit_lines io (last_text rest) (record p' { buf = b })) (close io))
                  (sym none_left))
      ])

  -- A pipeline with nothing in its buffer that is given the output of a command, in one piece, and
  -- finished, does to its stages and its writer what the stages do one after the other on the lines
  -- of that output, an unfinished last line included: each stage sees all that the one in front of
  -- it lets through, then finishes, and what comes out last is written and flushed; it fails where
  -- they do.
  pub finish_all-write :
      (bytes : List ℕ) (p : Pipeline File Sink)
      → p.buf ≡ []
      → and_then (write io bytes p) (finish_all io) ≡ stage_by_stage io (text_lines bytes) p
  finish_all-write bytes p empty =
      let ls = map line_text (lines_of bytes).0 in
      let rest = (lines_of bytes).1 in
      ap (λ x. and_then x (finish_all io)) (write-lines_of bytes p)
      ∙ ap
          (λ b.
            and_then
              (and_then (emit_lines io (map line_text (lines_of (b ++ bytes)).0) p)
                (with_buf (lines_of (b ++ bytes)).1))
              (finish_all io))
          empty
      ∙ finish_all-lines ls rest p empty
      ∙ close-emit_lines io (ls ++ last_text rest) p
