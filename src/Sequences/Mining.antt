-- ===== src/Sequences/Mining.antt =====
-- What `_mine_sequence_in_file` of src/pkgsentinel/stages/sequence_patterns.py reports, and what it cannot miss.
use pkg_sentinel.Prelude.{
  ℕ, suc, ◌+◌, ◌-◌, ◌≤◌, ◌<◌, true, List, [], ◌∷◌, ◌++◌, some, ◌≡◌, ◌↔◌, inl, inr, refl, ap, ◌∙◌,
  subst, arith, leb, All, Some, All-at, length, length-append, take, Bool-cases, Option-cases,
}
use pkg_sentinel.Sequences.{
  ApiCall, CallSequence, SeqSlot, SequencePattern, SequenceMatch, slot_matches_dim, match_slots,
  match_pattern_at, sum_min, first_span, drop, slice, mine_with,
}
use pkg_sentinel.Sequences.Catalogue.{patterns, mine_sequence_in_file}
use pkg_sentinel.Sequences.Greedy.{IsChain, apart, match_slots-IsChain, IsChain-match}

-- A chain of the pattern stands somewhere among the calls.
abbrev pub HasChain : SequencePattern → List ApiCall → Type 0
HasChain p calls =
    (before : List ApiCall) × (segment : List ApiCall) × (after : List ApiCall) × (calls
      ≡ before ++ (segment ++ after))
    × IsChain p.slots segment

-- A span of the calls from position `i` on.
abbrev Spans : SequencePattern → ℕ → List ApiCall → ℕ × ℕ → Type 0
Spans p i calls span =
    (before : List ApiCall) × (segment : List ApiCall) × (after : List ApiCall) × (calls
      ≡ before ++ (segment ++ after))
    × IsChain p.slots segment
    × (span.0 ≡ i + length before)
    × (span.1 ≡ span.0 + length segment)

tail_eq : (x y : ApiCall) (xs ys : List ApiCall) → x ∷ xs ≡ y ∷ ys → xs ≡ ys
tail_eq x y xs ys e = ground (arith, e)

IsChain-sum_min :
    (ss : List SeqSlot) (calls : List ApiCall) → IsChain ss calls → sum_min ss ≤ length calls
IsChain-sum_min [] calls e = omega arith
IsChain-sum_min (s ∷ ss) calls (block, rest, e, h, lo, hi, k) =
    omega (arith, IsChain-sum_min ss rest k, lo, ap length e, length-append block rest)

-- A later start.
Spans-later :
    (p : SequencePattern) (i : ℕ) (c : ApiCall) (cs : List ApiCall) (span : ℕ × ℕ)
    → Spans p (suc i) cs span
    → Spans p i (c ∷ cs) span
Spans-later p i c cs span (before, segment, after, e, k, x, y) =
    (c ∷ before, segment, after, ap (λ z. c ∷ z) e, k, omega (arith, x), y)

module _ (p : SequencePattern) where
  first_span-Spans :
      (i : ℕ) (calls : List ApiCall) (span : ℕ × ℕ)
      → first_span p i calls ≡ some span
      → Spans p i calls span
  unfolding first_span match_pattern_at
  first_span-Spans i [] span h = absurd (ground (arith, h))
  first_span-Spans i (c ∷ cs) span h = elim (Option-cases (match_slots p.slots i (c ∷ cs))) [
    | inl n ↦ Spans-later p i c cs span (first_span-Spans (suc i) cs span (ground (arith, h, n)))
    | inr (end, e) ↦ elim (Bool-cases (leb (sum_min p.slots) (end - i))) [
      | inr y ↦
          Spans-later p i c cs span (first_span-Spans (suc i) cs span (ground (arith, h, e, y)))
      | inl y ↦
          let (segment, after, e', k, x) = match_slots-IsChain p.slots i end (c ∷ cs) e in
          let same : span ≡ (i, end) = ground (arith, h, e, y) in
          ([], segment, after, e', k, rw same (omega arith), rw same x)
    ]
  ]

  first_span-found :
      (i : ℕ) (calls before segment after : List ApiCall)
      → apart p.slots ≡ true
      → 0 < sum_min p.slots
      → calls ≡ before ++ (segment ++ after)
      → IsChain p.slots segment
      → (span : ℕ × ℕ) × (first_span p i calls ≡ some span)
  unfolding first_span match_pattern_at
  first_span-found i [] before segment after a l e k = absurd (
      omega (
        arith,
        l,
        IsChain-sum_min p.slots segment k,
        ap length e,
        length-append before (segment ++ after),
        length-append segment after,
      ))
  first_span-found i (c ∷ cs) [] segment after a l e k =
      let (end, m) = IsChain-match p.slots i segment after a k in
      let here : match_slots p.slots i (c ∷ cs) ≡ some end = ap (match_slots p.slots i) e ∙ m in
      let (segment', after', e', k', x) = match_slots-IsChain p.slots i end (c ∷ cs) here in
      let y : leb (sum_min p.slots) (end - i) ≡ true =
        ground (arith, x, IsChain-sum_min p.slots segment' k') in
      ((i, end), rw here (rw y refl))
  first_span-found i (c ∷ cs) (b ∷ before) segment after a l e k =
      let tail : cs ≡ before ++ (segment ++ after) =
        tail_eq c b cs (before ++ (segment ++ after)) e in
      let (span, r) = first_span-found (suc i) cs before segment after a l tail k in
      elim (Option-cases (match_slots p.slots i (c ∷ cs))) [
        | inl n ↦ (span, rw n r)
        | inr (end, m) ↦ elim (Bool-cases (leb (sum_min p.slots) (end - i))) [
          | inl y ↦ ((i, end), rw m (rw y refl))
          | inr y ↦ (span, rw m (rw y r))
        ]
      ]

take-append : (xs ys : List ApiCall) → take (length xs) (xs ++ ys) ≡ xs
take-append [] ys = refl
take-append (x ∷ xs) ys = ap (λ z. x ∷ z) (take-append xs ys)

drop-append : (xs ys : List ApiCall) → drop (length xs) (xs ++ ys) ≡ ys
drop-append [] ys = refl
drop-append (x ∷ xs) ys = drop-append xs ys

-- A match tells the truth of the file: where its calls stand, that they are those of its span, and that they
-- are a chain of its pattern.
abbrev pub IsGenuine : CallSequence → SequenceMatch → Type 0
IsGenuine file m =
    (before : List ApiCall) × (after : List ApiCall) × (file.calls
      ≡ before ++ (m.matched_calls ++ after))
    × IsChain m.pattern_of.slots m.matched_calls
    × (m.file_path ≡ file.path)
    × (m.span ≡ (length before, length before + length m.matched_calls))

slice-segment :
    (before segment after calls : List ApiCall) (span : ℕ × ℕ)
    → calls ≡ before ++ (segment ++ after)
    → span.0 ≡ length before
    → span.1 ≡ span.0 + length segment
    → slice calls span ≡ segment
slice-segment before segment after calls span e x y =
    let d : drop span.0 calls ≡ segment ++ after =
      rw x (rw e (drop-append before (segment ++ after))) in
    let t : span.1 - span.0 ≡ length segment = omega (arith, y) in
    rw t (rw d (take-append segment after))

mine_with-IsGenuine :
    (file : CallSequence) (ps : List SequencePattern) → All (IsGenuine file) (mine_with file ps)
unfolding mine_with
mine_with-IsGenuine file [] = tt
mine_with-IsGenuine file (p ∷ ps) = elim (Option-cases (first_span p 0 file.calls)) [
  | inl n ↦ rw n (mine_with-IsGenuine file ps)
  | inr (span, h) ↦
      let (before, segment, after, e, k, x, y) = first_span-Spans p 0 file.calls span h in
      let same = slice-segment before segment after file.calls span e (omega (arith, x)) y in
      let at_start : span.0 ≡ length before = omega (arith, x) in
      let at_end : span.1 ≡ length before + length (slice file.calls span) =
        omega (arith, x, y, ap length same) in
      rw h (
        (before, after, rw same e, rw same k, refl, λ j. (at_start j, at_end j)),
        mine_with-IsGenuine file ps,
      )
]

-- Every match that is reported is genuine: its calls stand one after another in the file, at the
-- positions of its span, and they are a chain of its pattern: for each slot a block of calls of that
-- dimension, as many as the slot allows.
pub mine_sequence_in_file-IsGenuine :
    (file : CallSequence) → All (IsGenuine file) (mine_sequence_in_file file)
mine_sequence_in_file-IsGenuine file = mine_with-IsGenuine file patterns

mine_with-finds :
    (file : CallSequence) (ps : List SequencePattern) (p : SequencePattern)
    → Some (λ q. q ≡ p) ps
    → apart p.slots ≡ true
    → 0 < sum_min p.slots
    → HasChain p file.calls
    → Some (λ (m : SequenceMatch). m.pattern_of ≡ p) (mine_with file ps)
unfolding mine_with
mine_with-finds file [] p h a l c = absurd h
mine_with-finds file (q ∷ qs) p (inl e) a l (before, segment, after, f, k) =
    let (span, r) = first_span-found p 0 file.calls before segment after a l f k in
    rw (ap (λ z. first_span z 0 file.calls) e ∙ r) (inl e)
mine_with-finds file (q ∷ qs) p (inr h) a l c =
    let ih = mine_with-finds file qs p h a l c in
    elim (Option-cases (first_span q 0 file.calls)) [
      | inl n ↦ rw n ih
      | inr (span, r) ↦ rw r (inr ih)
    ]

patterns-apart :
    All (λ (p : SequencePattern). (apart p.slots ≡ true) × (0 < sum_min p.slots)) patterns
unfolding slot_matches_dim
patterns-apart = (
  (refl, omega arith),
  (
    (refl, omega arith),
    ((refl, omega arith), ((refl, omega arith), ((refl, omega arith), ((refl, omega arith), tt)))),
  ),
)

genuine-HasChain :
    (file : CallSequence) (p : SequencePattern) (ms : List SequenceMatch)
    → All (IsGenuine file) ms
    → Some (λ (m : SequenceMatch). m.pattern_of ≡ p) ms
    → HasChain p file.calls
genuine-HasChain file p [] h k = absurd k
genuine-HasChain file p (m ∷ ms) ((before, after, e, c, f, g), hs) (inl q) = (
  before,
  m.matched_calls,
  after,
  e,
  subst (λ (z : SequencePattern). IsChain z.slots m.matched_calls) q c,
)
genuine-HasChain file p (m ∷ ms) h (inr k) = genuine-HasChain file p ms h.1 k

-- A pattern of the catalogue is reported for a file exactly when a chain of it stands somewhere among the
-- file's calls: the greedy match, which never gives back a call that a slot took, misses nothing.
pub mine_sequence_in_file_iff :
    (file : CallSequence) (p : SequencePattern)
    → Some (λ q. q ≡ p) patterns
    → Some (λ (m : SequenceMatch). m.pattern_of ≡ p) (mine_sequence_in_file file)
      ↔ HasChain p file.calls
mine_sequence_in_file_iff file p h =
    let (a, l) =
      All-at (λ (q : SequencePattern). (apart q.slots ≡ true) × (0 < sum_min q.slots)) patterns
        patterns-apart h in
    (
      genuine-HasChain file p (mine_sequence_in_file file) (mine_sequence_in_file-IsGenuine file),
      mine_with-finds file patterns p h a l,
    )
