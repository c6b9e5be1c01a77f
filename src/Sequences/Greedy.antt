-- ===== src/Sequences/Greedy.antt =====
-- The greedy match of src/pkgsentinel/stages/sequence_patterns.py against chains of blocks, one for each slot.
use mathlib.Core.List.{append_assoc}
use pkg_sentinel.Prelude.{
  ℕ, zero, suc, ◌+◌, ◌≤◌, Bool, true, false, not, ◌&&◌, List, [], ◌∷◌, ◌++◌, some, ◌≡◌, inl, inr,
  refl, sym, ap, ◌∙◌, subst, arith, ltb, All, any, length, length-append, Bool-cases,
}
use pkg_sentinel.Schema.{AttackDimension}
use pkg_sentinel.Sequences.{ApiCall, SeqSlot, slot_matches_dim, fill, match_slots}

head_eq : (x y : ApiCall) (xs ys : List ApiCall) → x ∷ xs ≡ y ∷ ys → x ≡ y
head_eq x y xs ys e = ground (arith, e)

abbrev pub fits : SeqSlot → ApiCall → Bool
fits s c = slot_matches_dim s c.dimension

-- The calls are blocks, one after another, each of calls that fit its slot and as many as the slot allows.
abbrev pub IsChain : List SeqSlot → List ApiCall → Type 0
IsChain [] calls = calls ≡ []
IsChain (s ∷ ss) calls =
    (block : List ApiCall) × (rest : List ApiCall) × (calls ≡ block ++ rest)
    × All (λ c. fits s c ≡ true) block
    × (s.min_count ≤ length block)
    × (length block ≤ s.max_count)
    × IsChain ss rest

-- No dimension fits two slots.
abbrev on_all : (AttackDimension → Bool) → Bool
on_all p =
    p AttackDimension.information_reading
    && p AttackDimension.encoding
    && p AttackDimension.payload_execution
    && p AttackDimension.data_transmission

on_all→ : (p : AttackDimension → Bool) → on_all p ≡ true → (d : AttackDimension) → p d ≡ true
on_all→ p h AttackDimension.information_reading = ground (arith, h)
on_all→ p h AttackDimension.encoding = ground (arith, h)
on_all→ p h AttackDimension.payload_execution = ground (arith, h)
on_all→ p h AttackDimension.data_transmission = ground (arith, h)

abbrev clash : SeqSlot → List SeqSlot → AttackDimension → Bool
clash s ss d = slot_matches_dim s d && any (λ t. slot_matches_dim t d) ss

abbrev pub apart : List SeqSlot → Bool
apart [] = true
apart (s ∷ ss) = on_all (λ d. not (clash s ss d)) && apart ss

-- A slot takes a block that fits, and then what it can of the rest.
fill-block :
    (s : SeqSlot) (room : ℕ) (block calls : List ApiCall)
    → All (λ c. fits s c ≡ true) block
    → length block ≤ room
    → (room' : ℕ) × (length block ≤ (fill s room (block ++ calls)).0)
      × ((fill s room (block ++ calls)).1 ≡ (fill s room' calls).1)
unfolding fill
fill-block s room [] calls h l = (room, omega arith, refl)
fill-block s zero (c ∷ cs) calls h l = absurd (omega (arith, l))
fill-block s (suc room) (c ∷ cs) calls h l =
    let (room', e, f) = fill-block s room cs calls h.1 (omega (arith, l)) in
    (room', rw (h.0) (omega (arith, e)), rw (h.0) f)

fill-stops :
    (s : SeqSlot) (room : ℕ) (c : ApiCall) (cs : List ApiCall)
    → fits s c ≡ false
    → fill s room (c ∷ cs) ≡ (0, c ∷ cs)
unfolding fill
fill-stops s zero c cs h = refl
fill-stops s (suc room) c cs h = rw h refl

-- What a slot takes is a block of it.
fill-splits :
    (s : SeqSlot) (room : ℕ) (calls : List ApiCall)
    → (block : List ApiCall) × (calls ≡ block ++ (fill s room calls).1)
      × All (λ c. fits s c ≡ true) block
      × (length block ≡ (fill s room calls).0)
      × (length block ≤ room)
unfolding fill
fill-splits s zero calls = ([], refl, tt, refl, omega arith)
fill-splits s (suc room) [] = ([], refl, tt, refl, omega arith)
fill-splits s (suc room) (c ∷ cs) =
    let (block, e, h, n, l) = fill-splits s room cs in
    elim (Bool-cases (fits s c)) [
      | inl y ↦ (c ∷ block, rw y (ap (λ z. c ∷ z) e), (y, h), rw y (ap suc n), omega (arith, l))
      | inr y ↦ ([], rw y refl, tt, rw y refl, omega arith)
    ]

-- A match ends after a chain.
pub match_slots-IsChain :
    (ss : List SeqSlot) (pos end : ℕ) (calls : List ApiCall)
    → match_slots ss pos calls ≡ some end
    → (segment : List ApiCall) × (after : List ApiCall) × (calls ≡ segment ++ after)
      × IsChain ss segment
      × (end ≡ pos + length segment)
unfolding match_slots
match_slots-IsChain [] pos end calls h = ([], calls, refl, refl, ground (arith, h))
match_slots-IsChain (s ∷ ss) pos end calls h =
    let filled = fill s s.max_count calls in
    let (block, e, f, n, l) = fill-splits s s.max_count calls in
    elim (Bool-cases (ltb filled.0 s.min_count)) [
      | inl y ↦ absurd (ground (arith, h, y))
      | inr y ↦
          let (segment, after, e', c, p) =
            match_slots-IsChain ss (pos + filled.0) end filled.1 (ground (arith, h, y)) in
          (
            block ++ segment,
            after,
            e ∙ (ap (λ z. block ++ z) e' ∙ sym (append_assoc block segment after)),
            (block, segment, refl, f, ground (arith, n, y), l, c),
            omega (arith, p, n, length-append block segment),
          )
    ]

-- A chain begins with a call that fits one of its slots.
IsChain-head :
    (ss : List SeqSlot) (c : ApiCall) (cs : List ApiCall)
    → IsChain ss (c ∷ cs)
    → any (λ t. fits t c) ss ≡ true
IsChain-head [] c cs e = absurd (ground (arith, e))
IsChain-head (s ∷ ss) c cs ([], rest, e, h, lo, hi, k) =
    let ih = IsChain-head ss c cs (subst (IsChain ss) (sym e) k) in ground (arith, ih)
IsChain-head (s ∷ ss) c cs (x ∷ xs, rest, e, h, lo, hi, k) =
    let f : fits s c ≡ true = ap (fits s) (head_eq c x cs (xs ++ rest) e) ∙ h.0 in ground (arith, f)

-- After what a slot took of a chain's rest, a chain still follows.
fill-rest :
    (s : SeqSlot) (ss : List SeqSlot) (room : ℕ) (rest after : List ApiCall)
    → ((c : ApiCall) → any (λ t. fits t c) ss ≡ true → fits s c ≡ false)
    → IsChain ss rest
    → (segment : List ApiCall) × (after' : List ApiCall) × ((fill s room (rest ++ after)).1
        ≡ segment ++ after')
      × IsChain ss segment
fill-rest s ss room [] after d k = ([], (fill s room after).1, refl, k)
fill-rest s ss room (c ∷ cs) after d k = (
  c ∷ cs,
  after,
  ap (λ z. z.1) (fill-stops s room c (cs ++ after) (d c (IsChain-head ss c cs k))),
  k,
)

-- No chain is missed where no dimension fits two slots.
pub IsChain-match :
    (ss : List SeqSlot) (pos : ℕ) (segment after : List ApiCall)
    → apart ss ≡ true
    → IsChain ss segment
    → (end : ℕ) × (match_slots ss pos (segment ++ after) ≡ some end)
unfolding match_slots
IsChain-match [] pos segment after a k = (pos, refl)
IsChain-match (s ∷ ss) pos segment after a (block, rest, e, h, lo, hi, k) =
    let (room, n, f) = fill-block s s.max_count block (rest ++ after) h hi in
    let apart_here : (c : ApiCall) → any (λ t. fits t c) ss ≡ true → fits s c ≡ false = λ c g.
      let o = on_all→ (λ d. not (clash s ss d)) (ground (arith, a)) c.dimension in
      ground (arith, o, g) in
    let (segment', after', g, k') = fill-rest s ss room rest after apart_here k in
    let whole : segment ++ after ≡ block ++ (rest ++ after) =
      ap (λ z. z ++ after) e ∙ append_assoc block rest after in
    let filled = fill s s.max_count (segment ++ after) in
    let (end, m) = IsChain-match ss (pos + filled.0) segment' after' (ground (arith, a)) k' in
    let low : length block ≤ filled.0 =
      subst (λ z. length block ≤ (fill s s.max_count z).0) (sym whole) n in
    let left : filled.1 ≡ segment' ++ after' = ap (λ z. (fill s s.max_count z).1) whole ∙ (f ∙ g) in
    let enough : ltb filled.0 s.min_count ≡ false = ground (arith, low, lo) in
    (end, rw enough (ap (match_slots ss (pos + filled.0)) left ∙ m))
