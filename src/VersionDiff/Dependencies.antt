-- ===== src/VersionDiff/Dependencies.antt =====
-- `diff_dependencies` of src/pkgsentinel/stages/stage3b_full_diff.py misses no change and invents none.
use pkg_sentinel.Prelude.{
  String, Bool, true, false, List, [], ◌∷◌, ◌++◌, Option, none, some, ◌≡◌, ◌≢◌, ◌⊎◌, inl, inr, refl,
  sym, ap, ◌∙◌, arith, if◌then◌else◌, str_eq, eq_iff, map, All, Distinct, Bool-cases, dict_get,
  dict_has,
}
use pkg_sentinel.VersionDiff.Manifests.{
  ChangeKind, addition, removal, version_change, DependencyChange, Deps, added_deps, removed_deps,
  changed_spec, changed_deps, diff_dependencies,
}

-- What a change makes of the specification of its name.
abbrev pub outcome : DependencyChange → Option String
outcome c = elim c.kind [ ChangeKind.removed ↦ none | _ ↦ some c.new_spec ]

-- The specification of a name after some changes.
abbrev pub replay : String → List DependencyChange → Option String → Option String
replay n [] spec = spec
replay n (c ∷ cs) spec = replay n cs (if str_eq c.name n then outcome c else spec)

abbrev pub IsDict : Deps → Type 0
IsDict d = Distinct (map (λ (p : String × String). p.0) d)

module _ (n : String) where
  replay-append :
      (cs ds : List DependencyChange) (spec : Option String)
      → replay n (cs ++ ds) spec ≡ replay n ds (replay n cs spec)
  replay-append [] ds spec = refl
  replay-append (c ∷ cs) ds spec = replay-append cs ds _

  replay-skip :
      (c : DependencyChange) (cs : List DependencyChange) (spec : Option String)
      → str_eq c.name n ≡ false
      → replay n (c ∷ cs) spec ≡ replay n cs spec
  replay-skip c cs spec z = ap (λ b. replay n cs (if b then outcome c else spec)) z

  replay-take :
      (c : DependencyChange) (cs : List DependencyChange) (spec : Option String)
      → str_eq c.name n ≡ true
      → replay n (c ∷ cs) spec ≡ replay n cs (outcome c)
  replay-take c cs spec z = ap (λ b. replay n cs (if b then outcome c else spec)) z

  has-get :
      (d : Deps)
      → ((dict_has str_eq n d ≡ true) × ((s : String) × (dict_get str_eq n d ≡ some s)))
        ⊎ ((dict_has str_eq n d ≡ false) × (dict_get str_eq n d ≡ none))
  has-get [] = inr (refl, refl)
  has-get ((m, s) ∷ rest) = elim (Bool-cases (str_eq m n)) [
    | inl y ↦ rw y (inl (refl, (s, refl)))
    | inr y ↦ rw y (has-get rest)
  ]

  get_fresh :
      (m : String) (d : Deps)
      → m ≡ n
      → All (λ k. k ≢ m) (map (λ (p : String × String). p.0) d)
      → dict_get str_eq n d ≡ none
  get_fresh m [] e h = refl
  get_fresh m ((k, s) ∷ rest) e h = elim (Bool-cases (str_eq k n)) [
    | inl y ↦ absurd (h.0 ((eq_iff k n).0 y ∙ sym e))
    | inr y ↦ rw y (get_fresh m rest e h.1)
  ]

  has-same : (m : String) (d : Deps) → str_eq m n ≡ true → dict_has str_eq m d ≡ dict_has str_eq n d
  has-same m d y = ap (λ z. dict_has str_eq z d) ((eq_iff m n).0 y)

  added-other :
      (prev ds : Deps) (spec : Option String)
      → dict_has str_eq n prev ≡ true
      → replay n (added_deps prev ds) spec ≡ spec
  unfolding added_deps
  added-other prev [] spec h = refl
  added-other prev ((m, s) ∷ rest) spec h = elim (Bool-cases (dict_has str_eq m prev)) [
    | inl y ↦ rw y (added-other prev rest spec h)
    | inr y ↦ elim (Bool-cases (str_eq m n)) [
      | inl z ↦ absurd (let w = has-same m prev z in ground (arith, y, w, h))
      | inr z ↦
          rw y (
            replay-skip (addition m s) (added_deps prev rest) spec z ∙ added-other prev rest spec h)
    ]
  ]

  abbrev or_spec : Option String → Option String → Option String
  or_spec none spec = spec
  or_spec (some s) spec = some s

  added-new :
      (prev ds : Deps) (spec : Option String)
      → dict_has str_eq n prev ≡ false
      → IsDict ds
      → replay n (added_deps prev ds) spec ≡ or_spec (dict_get str_eq n ds) spec
  unfolding added_deps
  added-new prev [] spec h d = refl
  added-new prev ((m, s) ∷ rest) spec h d = elim (Bool-cases (str_eq m n)) [
    | inl z ↦
        let w : dict_has str_eq m prev ≡ false = has-same m prev z ∙ h in
        let f = get_fresh m rest ((eq_iff m n).0 z) d.0 in
        rw w (
          rw z (
            replay-take (addition m s) (added_deps prev rest) spec z
            ∙ (added-new prev rest (some s) h d.1 ∙ rw f refl)))
    | inr z ↦ elim (Bool-cases (dict_has str_eq m prev)) [
      | inl y ↦ rw z (rw y (added-new prev rest spec h d.1))
      | inr y ↦ rw y (
          rw z (
            replay-skip (addition m s) (added_deps prev rest) spec z
            ∙ added-new prev rest spec h d.1))
    ]
  ]

  removed-other :
      (curr ps : Deps) (spec : Option String)
      → dict_has str_eq n curr ≡ true
      → replay n (removed_deps curr ps) spec ≡ spec
  unfolding removed_deps
  removed-other curr [] spec h = refl
  removed-other curr ((m, s) ∷ rest) spec h = elim (Bool-cases (dict_has str_eq m curr)) [
    | inl y ↦ rw y (removed-other curr rest spec h)
    | inr y ↦ elim (Bool-cases (str_eq m n)) [
      | inl z ↦ absurd (let w = has-same m curr z in ground (arith, y, w, h))
      | inr z ↦ rw y (
          replay-skip (removal m s) (removed_deps curr rest) spec z
          ∙ removed-other curr rest spec h)
    ]
  ]

  if_same : (b : Bool) → ◌≡◌ {A = Option String} (if b then none else none) none
  if_same true = refl
  if_same false = refl

  removed-gone :
      (curr ps : Deps) (spec : Option String)
      → dict_has str_eq n curr ≡ false
      → replay n (removed_deps curr ps) spec ≡ (if dict_has str_eq n ps then none else spec)
  unfolding removed_deps
  removed-gone curr [] spec h = refl
  removed-gone curr ((m, s) ∷ rest) spec h = elim (Bool-cases (str_eq m n)) [
    | inl z ↦
        let w : dict_has str_eq m curr ≡ false = has-same m curr z ∙ h in
        rw w (
          rw z (
            replay-take (removal m s) (removed_deps curr rest) spec z
            ∙ (removed-gone curr rest none h ∙ if_same (dict_has str_eq n rest))))
    | inr z ↦ elim (Bool-cases (dict_has str_eq m curr)) [
      | inl y ↦ rw z (rw y (removed-gone curr rest spec h))
      | inr y ↦ rw y (
          rw z (
            replay-skip (removal m s) (removed_deps curr rest) spec z
            ∙ removed-gone curr rest spec h))
    ]
  ]

  changed_spec-other :
      (m old : String) (new : Option String) (spec : Option String)
      → str_eq m n ≡ false
      → replay n (changed_spec m old new) spec ≡ spec
  changed_spec-other m old none spec z = refl
  changed_spec-other m old (some s) spec z = elim (Bool-cases (str_eq old s)) [
    | inl y ↦ rw y refl
    | inr y ↦ rw y (replay-skip (version_change m old s) [] spec z)
  ]

  changed-absent :
      (curr ps : Deps) (spec : Option String)
      → (dict_get str_eq n curr ≡ none) ⊎ (dict_get str_eq n ps ≡ none)
      → replay n (changed_deps curr ps) spec ≡ spec
  unfolding changed_deps
  changed-absent curr [] spec h = refl
  changed-absent curr ((m, s) ∷ rest) spec h =
      replay-append (changed_spec m s (dict_get str_eq m curr)) (changed_deps curr rest) spec
      ∙ elim (Bool-cases (str_eq m n)) [
        | inr z ↦
            ap (replay n (changed_deps curr rest))
              (changed_spec-other m s (dict_get str_eq m curr) spec z)
            ∙ changed-absent curr rest spec
                (elim h [ inl a ↦ inl a | inr a ↦ inr (ground (arith, a, z)) ])
        | inl z ↦ elim h [
          | inr a ↦ absurd (ground (arith, a, z))
          | inl a ↦
              let b : dict_get str_eq m curr ≡ none =
                ap (λ k. dict_get str_eq k curr) ((eq_iff m n).0 z) ∙ a in
              rw b (changed-absent curr rest spec (inl a))
        ]
      ]

  changed-both :
      (curr ps : Deps) (old new : String)
      → IsDict ps
      → dict_get str_eq n ps ≡ some old
      → dict_get str_eq n curr ≡ some new
      → replay n (changed_deps curr ps) (some old) ≡ some new
  unfolding changed_deps
  changed-both curr [] old new d p c = absurd (ground (arith, p))
  changed-both curr ((m, s) ∷ rest) old new d p c =
      replay-append (changed_spec m s (dict_get str_eq m curr)) (changed_deps curr rest) (some old)
      ∙ elim (Bool-cases (str_eq m n)) [
        | inr z ↦
            ap (replay n (changed_deps curr rest))
              (changed_spec-other m s (dict_get str_eq m curr) (some old) z)
            ∙ changed-both curr rest old new d.1 (ground (arith, p, z)) c
        | inl z ↦
            let b : dict_get str_eq m curr ≡ some new =
              ap (λ k. dict_get str_eq k curr) ((eq_iff m n).0 z) ∙ c in
            let same : s ≡ old = ground (arith, p, z) in
            let gone = get_fresh m rest ((eq_iff m n).0 z) d.0 in
            elim (Bool-cases (str_eq s new)) [
              | inl y ↦ rw b (
                  rw y (
                    changed-absent curr rest (some old) (inr gone)
                    ∙ ap (λ k. some k) (sym same ∙ (eq_iff s new).0 y)))
              | inr y ↦ rw b (
                  rw y (
                    ap (replay n (changed_deps curr rest))
                      (replay-take (version_change m s new) [] (some old) z)
                    ∙ changed-absent curr rest (some new) (inr gone)))
            ]
      ]

-- The three parts, one after the other.
module _ (n : String) (prev curr : Deps) (d : IsDict prev) (e : IsDict curr) where
  abbrev spec_before : Option String
  spec_before = dict_get str_eq n prev

  abbrev spec_after : Option String
  spec_after = dict_get str_eq n curr

  abbrev replay_all : Option String
  replay_all =
      replay n (changed_deps curr prev)
        (replay n (removed_deps curr prev) (replay n (added_deps prev curr) spec_before))

  module _ (a r : Option String) (added : replay n (added_deps prev curr) spec_before ≡ a)
      (removed : replay n (removed_deps curr prev) a ≡ r) where
    replay_all-of : replay_all ≡ replay n (changed_deps curr prev) r
    replay_all-of =
        ap (λ x. replay n (changed_deps curr prev) (replay n (removed_deps curr prev) x)) added
        ∙ ap (replay n (changed_deps curr prev)) removed

  replay_all_lem : replay_all ≡ spec_after
  replay_all_lem = elim (has-get n prev) [
    | inr (h, g) ↦ elim (has-get n curr) [
      | inr (k, c) ↦
          replay_all-of none none (added-new n prev curr spec_before h e ∙ (rw c g))
            (removed-gone n curr prev none k ∙ if_same n (dict_has str_eq n prev))
          ∙ (changed-absent n curr prev none (inl c) ∙ sym c)
      | inl (k, (s, c)) ↦
          replay_all-of (some s) (some s) (added-new n prev curr spec_before h e ∙ (rw c refl))
            (removed-other n curr prev (some s) k)
          ∙ (changed-absent n curr prev (some s) (inr g) ∙ sym c)
    ]
    | inl (h, (o, g)) ↦ elim (has-get n curr) [
      | inr (k, c) ↦
          replay_all-of spec_before none (added-other n prev curr spec_before h)
            (removed-gone n curr prev spec_before k ∙ ap (λ b. if b then none else spec_before) h)
          ∙ (changed-absent n curr prev none (inl c) ∙ sym c)
      | inl (k, (s, c)) ↦
          replay_all-of (some o) (some o) (added-other n prev curr spec_before h ∙ g)
            (removed-other n curr prev (some o) k)
          ∙ (changed-both n curr prev o s d g c ∙ sym c)
    ]
  ]

-- The changes that are reported lead from the dependencies of the version before to those of this one: for each
-- name, replaying them on what the version before specified gives what this version specifies, or that it is gone.
pub diff_dependencies-replay :
    (prev curr : Deps) (n : String)
    → IsDict prev
    → IsDict curr
    → replay n (diff_dependencies prev curr) (dict_get str_eq n prev) ≡ dict_get str_eq n curr
unfolding diff_dependencies
diff_dependencies-replay prev curr n d e =
    let spec = dict_get str_eq n prev in
    replay-append n (added_deps prev curr) (removed_deps curr prev ++ changed_deps curr prev) spec
    ∙ (replay-append n (removed_deps curr prev) (changed_deps curr prev)
          (replay n (added_deps prev curr) spec)
        ∙ replay_all_lem n prev curr d e)
