-- ===== src/Env/Lookup.antt =====
-- The list of entries seen as a map from names to values.
use mathlib.Core.Option as LibOption
use posix_next.Base.{
  ℕ, zero, suc, ◌<◌, ◌≡◌, refl, sym, ◌∙◌, inl, inr, true, false, Option, none, some, List, [], ◌∷◌,
  ◌++◌, arith, if◌then◌else◌, Bool-cases, Option-cases, length, set, drop, remove_at, CString,
  str_eq, str_eq_refl, str_eq_sound, contains,
}
use posix_next.Env.{is_entry_of, index_of, entry, value_at}

-- A name has no '='.
abbrev pub IsName : CString → Type 0
IsName n = contains b'=' n ≡ false

-- The value of the first entry of a name: what a map from names to values holds.
abbrev pub lookup : CString → List CString → Option CString
lookup k [] = none
lookup k (e ∷ es) = if is_entry_of e k then some (drop (suc (length k)) e) else lookup k es

-- The entry `n=v` is an entry of the name n and of no other.
pub is_entry_of-entry :
    (n k v : CString) → IsName n → IsName k → is_entry_of (entry n v) k ≡ str_eq n k
is_entry_of-entry [] [] v h g = refl
is_entry_of-entry [] (d ∷ k) v h g = ground arith
is_entry_of-entry (c ∷ n) [] v h g = ground arith
is_entry_of-entry (c ∷ n) (d ∷ k) v h g = ground (arith, is_entry_of-entry n k v)

-- An entry has one name.
pub is_entry_of_unique :
    (e n k : CString) → IsName n → IsName k → is_entry_of e n ≡ true → is_entry_of e k ≡ str_eq n k
is_entry_of_unique [] n k h g p = cc
is_entry_of_unique (c ∷ e) [] [] h g p = ground arith
is_entry_of_unique (c ∷ e) [] (d ∷ k) h g p = ground arith
is_entry_of_unique (c ∷ e) (x ∷ n) [] h g p = ground arith
is_entry_of_unique (c ∷ e) (x ∷ n) (d ∷ k) h g p = ground (arith, is_entry_of_unique e n k)

pub drop-entry : (n v : CString) → drop (suc (length n)) (entry n v) ≡ v
drop-entry [] v = refl
drop-entry (c ∷ n) v = drop-entry n v

-- The index leads to what `lookup` finds.
pub lookup-index_of :
    (k : CString) (es : List CString) → lookup k es ≡ LibOption.map (value_at k es) (index_of k es)
unfolding index_of
lookup-index_of k [] = refl
lookup-index_of k (e ∷ es) = elim (Bool-cases (is_entry_of e k)) [
  | inl hit ↦ rw hit
  | inr miss ↦ elim (Option-cases (index_of k es)) [
    | inl e0 ↦ rw (miss, lookup-index_of k es, e0)
    | inr (i, e1) ↦ rw (miss, lookup-index_of k es, e1)
  ]
]

pub index_of-lt_length :
    (n : CString) (es : List CString) (i : ℕ) → index_of n es ≡ some i → i < length es
unfolding index_of
index_of-lt_length n [] i h = cc
index_of-lt_length n (e ∷ es) i h = elim (Bool-cases (is_entry_of e n)) [
  | inl hit ↦ ground arith
  | inr miss ↦ elim (Option-cases (index_of n es)) [
    | inl e0 ↦ ground arith
    | inr (j, e1) ↦ ground (arith, index_of-lt_length n es j e1)
  ]
]

module _ (n e : CString) (es : List CString) where
  pub index_of-cons_zero : index_of n (e ∷ es) ≡ some 0 → is_entry_of e n ≡ true
  unfolding index_of
  index_of-cons_zero h = elim (Bool-cases (is_entry_of e n)) [
    | inl hit ↦ hit
    | inr miss ↦ elim (Option-cases (index_of n es)) [
      | inl e0 ↦ ground arith
      | inr (j, e1) ↦ ground arith
    ]
  ]

  pub index_of-cons_suc :
      (i : ℕ)
      → index_of n (e ∷ es) ≡ some (suc i)
      → (is_entry_of e n ≡ false) × (index_of n es ≡ some i)
  unfolding index_of
  index_of-cons_suc i h = elim (Option-cases (index_of n es)) [
    | inl e0 ↦ ground arith
    | inr (j, e1) ↦ ground arith
  ]

  pub index_of-cons_none :
      index_of n (e ∷ es) ≡ none → (is_entry_of e n ≡ false) × (index_of n es ≡ none)
  unfolding index_of
  index_of-cons_none h = elim (Option-cases (index_of n es)) [
    | inl e0 ↦ ground arith
    | inr (j, e1) ↦ ground arith
  ]

-- No two entries have the same name.
abbrev pub UniqueNames : List CString → Type 0
UniqueNames [] = Unit {0}
UniqueNames (e ∷ es) =
    ((n : CString) → IsName n → is_entry_of e n ≡ true → index_of n es ≡ none) × UniqueNames es

value-entry {ℓ} :
    {A : Type ℓ} (n k v : CString) (f : CString → A) (x : A)
    → (if str_eq n k then f (drop (suc (length k)) (entry n v)) else x)
      ≡ (if str_eq n k then f v else x)
value-entry n k v f x = elim (Bool-cases (str_eq n k)) [
  | inl same ↦ rw (same, ← str_eq_sound n k same, drop-entry n v)
  | inr other ↦ rw other
]

module _ (n v : CString) (name : IsName n) where
  -- Writing the entry of n again leaves each name at its index.
  pub index_of-set :
      (k : CString) (es : List CString) (i : ℕ)
      → IsName k
      → index_of n es ≡ some i
      → index_of k (set es i (entry n v)) ≡ index_of k es
  unfolding index_of
  index_of-set k [] i g h = refl
  index_of-set k (e ∷ es) zero g h = rw (
    is_entry_of-entry n k v name g,
    is_entry_of_unique e n k name g (index_of-cons_zero n e es h),
  )
  index_of-set k (e ∷ es) (suc i) g h = rw (index_of-set k es i g (index_of-cons_suc n e es i h).1)

  pub lookup-set :
      (k : CString) (es : List CString) (i : ℕ)
      → IsName k
      → index_of n es ≡ some i
      → lookup k (set es i (entry n v)) ≡ (if str_eq n k then some v else lookup k es)
  lookup-set k [] i g h = absurd (omega (arith, index_of-lt_length n [] i h))
  lookup-set k (e ∷ es) zero g h =
      rw
        (
          is_entry_of-entry n k v name g,
          is_entry_of_unique e n k name g (index_of-cons_zero n e es h),
          value-entry n k v some,
        )
        (ground arith)
  lookup-set k (e ∷ es) (suc i) g h = elim (Bool-cases (is_entry_of e k)) [
    | inl hit ↦ rw (hit) (
        ground (
          arith,
          is_entry_of_unique e k n g name hit,
          str_eq_sound n k,
          str_eq_sound k n,
          str_eq_refl k,
          index_of-cons_suc n e es i h,
        ))
    | inr miss ↦ rw (miss) (lookup-set k es i g (index_of-cons_suc n e es i h).1)
  ]

  pub index_of-append :
      (k : CString) (es : List CString)
      → IsName k
      → str_eq n k ≡ false
      → index_of k (es ++ (entry n v ∷ [])) ≡ index_of k es
  unfolding index_of
  index_of-append k [] g d = rw (is_entry_of-entry n k v name g, d)
  index_of-append k (e ∷ es) g d = rw (index_of-append k es g d)

  pub lookup-append :
      (k : CString) (es : List CString)
      → IsName k
      → index_of n es ≡ none
      → lookup k (es ++ (entry n v ∷ [])) ≡ (if str_eq n k then some v else lookup k es)
  lookup-append k [] g h = rw (is_entry_of-entry n k v name g, value-entry n k v some)
  lookup-append k (e ∷ es) g h = elim (Bool-cases (is_entry_of e k)) [
    | inl hit ↦ rw (hit) (
        ground (
          arith,
          is_entry_of_unique e k n g name hit,
          str_eq_sound n k,
          str_eq_refl k,
          index_of-cons_none n e es h,
        ))
    | inr miss ↦ rw (miss) (lookup-append k es g (index_of-cons_none n e es h).1)
  ]

  pub UniqueNames-set :
      (es : List CString) (i : ℕ)
      → index_of n es ≡ some i
      → UniqueNames es
      → UniqueNames (set es i (entry n v))
  UniqueNames-set [] i h u = tt
  UniqueNames-set (e ∷ es) zero h u = (
    λ m g p. u.0 m g (
        is_entry_of_unique e n m name g (index_of-cons_zero n e es h)
        ∙ sym (is_entry_of-entry n m v name g)
        ∙ p),
    u.1,
  )
  UniqueNames-set (e ∷ es) (suc i) h u =
      let later = (index_of-cons_suc n e es i h).1 in
      (λ m g p. index_of-set m es i g later ∙ u.0 m g p, UniqueNames-set es i later u.1)

  pub UniqueNames-append :
      (es : List CString)
      → index_of n es ≡ none
      → UniqueNames es
      → UniqueNames (es ++ (entry n v ∷ []))
  unfolding index_of
  UniqueNames-append [] h u = (λ m g p. refl, tt)
  UniqueNames-append (e ∷ es) h u =
      let (miss, later) = index_of-cons_none n e es h in
      (
        λ m g p. index_of-append m es g (differs m miss p) ∙ u.0 m g p,
        UniqueNames-append es later u.1,
      )
    where
      differs :
          (m : CString) → is_entry_of e n ≡ false → is_entry_of e m ≡ true → str_eq n m ≡ false
      differs m miss p = ground (arith, str_eq_sound n m)

-- What is not in a list is not in it after a removal.
pub index_of-remove_at :
    (k : CString) (es : List CString) (i : ℕ)
    → index_of k es ≡ none
    → index_of k (remove_at es i) ≡ none
unfolding index_of
index_of-remove_at k [] i h = refl
index_of-remove_at k (e ∷ es) zero h = (index_of-cons_none k e es h).1
index_of-remove_at k (e ∷ es) (suc i) h =
    let (miss, later) = index_of-cons_none k e es h in rw (miss, index_of-remove_at k es i later)

pub UniqueNames-remove_at :
    (es : List CString) (i : ℕ) → UniqueNames es → UniqueNames (remove_at es i)
UniqueNames-remove_at [] i u = tt
UniqueNames-remove_at (e ∷ es) zero u = u.1
UniqueNames-remove_at (e ∷ es) (suc i) u =
    (λ m g p. index_of-remove_at m es i (u.0 m g p), UniqueNames-remove_at es i u.1)

-- A name that has no index has no value.
pub lookup-none : (k : CString) (es : List CString) → index_of k es ≡ none → lookup k es ≡ none
lookup-none k es h = rw (lookup-index_of k es, h)

pub lookup-remove_at :
    (n k : CString) (es : List CString) (i : ℕ)
    → IsName n
    → IsName k
    → UniqueNames es
    → index_of n es ≡ some i
    → lookup k (remove_at es i) ≡ (if str_eq n k then none else lookup k es)
lookup-remove_at n k [] i name g u h = absurd (omega (arith, index_of-lt_length n [] i h))
lookup-remove_at n k (e ∷ es) zero name g u h =
    let hit = index_of-cons_zero n e es h in
    rw (is_entry_of_unique e n k name g hit) (elim (Bool-cases (str_eq n k)) [
      | inl same ↦ rw same (lookup-none k es (rw (← str_eq_sound n k same) (u.0 n name hit)))
      | inr other ↦ rw other
    ])
lookup-remove_at n k (e ∷ es) (suc i) name g u h = elim (Bool-cases (is_entry_of e k)) [
  | inl hit ↦ rw hit (ground (arith, str_eq_sound n k, str_eq_refl k, index_of-cons_suc n e es i h))
  | inr miss ↦ rw miss (lookup-remove_at n k es i name g u.1 (index_of-cons_suc n e es i h).1)
]
