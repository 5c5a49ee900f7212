-- ===== src/Attached/Sampling/Newest.antt =====
-- What a command of rthas-ebpf/src/server.rs collects, and when it ends.
use rthas.Prelude.{
  ℕ, ◌+◌, ◌-◌, ◌≤◌, ◌<◌, min, ◌≡◌, refl, sym, ap, ◌∙◌, Bool, true, false, ◌&&◌, Option, none, some,
  List, [], ◌∷◌, ◌++◌, append-nil, arith, ltb, leb, if◌then◌else◌, length, drop, All, length-append,
  length-drop, drop-append, drop-drop, pop_front_if_full, drop-newest_step,
}
use rthas.Uprobes.{Forest}
use rthas.Attached.Sampling.{
  RawEvent, Sample, sample_cap, ingest, push_sample, push_samples, collect_from, new_forest,
  collect_samples,
}

-- The newest of all samples.
abbrev pub newest : List Sample → List Sample
newest xs = drop (length xs - sample_cap) xs

push_samples-drop :
    (buf samples : List Sample)
    → length buf ≤ sample_cap
    → push_samples buf samples ≡ drop (length buf + length samples - sample_cap) (buf ++ samples)
unfolding push_samples push_sample
push_samples-drop buf [] fits =
    let e : length buf + 0 - sample_cap ≡ 0 = omega arith in rw (e, append-nil buf) refl
push_samples-drop buf (s ∷ samples) fits =
    let zs = push_sample buf s in
    let e : zs ≡ drop (length buf + 1 - sample_cap) (buf ++ s ∷ []) =
      pop_front_if_full sample_cap buf s fits (omega arith) in
    let small : length zs ≤ sample_cap = omega (
      arith,
      ap length e,
      length-drop (length buf + 1 - sample_cap) (buf ++ s ∷ []),
      length-append buf (s ∷ []),
    ) in
    push_samples-drop zs samples small
    ∙ drop-newest_step sample_cap buf samples zs s fits (omega arith) e

length-newest : (xs : List Sample) → length (newest xs) ≡ min (length xs) sample_cap
length-newest xs = omega (arith, length-drop (length xs - sample_cap) xs)

push_samples-newest : (xs ys : List Sample) → push_samples (newest xs) ys ≡ newest (xs ++ ys)
push_samples-newest xs ys =
    let d = length xs - sample_cap in
    let size = length-newest xs in
    let k = length (newest xs) + length ys - sample_cap in
    let sum : d + k ≡ length (xs ++ ys) - sample_cap = omega (arith, size, length-append xs ys) in
    push_samples-drop (newest xs) ys (omega arith)
    ∙ ap (drop k) (sym (drop-append d xs ys (omega arith)))
    ∙ drop-drop k d (xs ++ ys)
    ∙ ap (λ n. drop n (xs ++ ys)) sum

-- The collecting with all samples kept: it ends after the first poll after which the newest 16384
-- are as many as asked for, if a number was given, or the time is up.
abbrev pub collect_all :
    (ℕ → Option ℕ) → ℕ → List (List RawEvent × Bool) → Forest → List Sample → Option (List Sample)
collect_all lookup_ip max_count [] forest seen = none
collect_all lookup_ip max_count ((events, late) ∷ polls) forest seen =
    let polled = ingest lookup_ip events forest in
    let seen' = seen ++ polled.1 in
    let rest = collect_all lookup_ip max_count polls polled.0 seen' in
    if ltb 0 max_count && leb max_count (min (length seen') sample_cap)
    then some (newest seen')
    else if late
    then some (newest seen')
    else rest

collect_from-all :
    (lookup_ip : ℕ → Option ℕ) (max_count : ℕ) (polls : List (List RawEvent × Bool))
    (forest : Forest) (seen : List Sample)
    → collect_from lookup_ip max_count polls forest (newest seen)
      ≡ collect_all lookup_ip max_count polls forest seen
unfolding collect_from
collect_from-all lookup_ip max_count [] forest seen = refl
collect_from-all lookup_ip max_count ((events, late) ∷ polls) forest seen =
    let polled = ingest lookup_ip events forest in
    let seen' = seen ++ polled.1 in
    rw
      (
        push_samples-newest seen polled.1,
        length-newest seen',
        collect_from-all lookup_ip max_count polls polled.0 seen',
      )
      refl

-- `collect_samples` answers the newest 16384 of all the samples that the polls gave, in order, and
-- ends after the first poll after which these are as many as asked for, if a number was given, or
-- the time is up.
pub collect_samples-newest :
    (lookup_ip : ℕ → Option ℕ) (max_count : ℕ) (polls : List (List RawEvent × Bool))
    → collect_samples lookup_ip max_count polls
      ≡ collect_all lookup_ip max_count polls new_forest []
unfolding collect_samples
collect_samples-newest lookup_ip max_count polls =
    collect_from-all lookup_ip max_count polls new_forest []

abbrev pub InTime : List RawEvent × Bool → Type 0
InTime (events, late) = late ≡ false

collect_all-endless :
    (lookup_ip : ℕ → Option ℕ) (max_count : ℕ) (polls : List (List RawEvent × Bool))
    (forest : Forest) (seen : List Sample)
    → sample_cap < max_count
    → All InTime polls
    → collect_all lookup_ip max_count polls forest seen ≡ none
collect_all-endless lookup_ip max_count [] forest seen over all = refl
collect_all-endless lookup_ip max_count ((events, late) ∷ polls) forest seen over (now, all) =
    let polled = ingest lookup_ip events forest in
    let seen' = seen ++ polled.1 in
    let ih = collect_all-endless lookup_ip max_count polls polled.0 seen' over all in
    let short : leb max_count (min (length seen') sample_cap) ≡ false = short_of (length seen') in
    rw (short, now, ih) (both (ltb 0 max_count) (some (newest seen')))
  where
    short_of : (n : ℕ) → leb max_count (min n sample_cap) ≡ false
    short_of n = ground (arith)

    both : (b : Bool) (o : Option (List Sample)) → (if b && false then o else none) ≡ none
    both true o = refl
    both false o = refl

-- Where more samples are asked for than the buffer holds, 16384, and no time is set, the command
-- never ends, however many events come.
pub collect_samples-endless :
    (lookup_ip : ℕ → Option ℕ) (max_count : ℕ) (polls : List (List RawEvent × Bool))
    → sample_cap < max_count
    → All InTime polls
    → collect_samples lookup_ip max_count polls ≡ none
collect_samples-endless lookup_ip max_count polls over all =
    collect_samples-newest lookup_ip max_count polls
    ∙ collect_all-endless lookup_ip max_count polls new_forest [] over all
