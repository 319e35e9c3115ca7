-- ===== src/Env/Unsetting.antt =====
-- unsetenv and getenv_r of lib/posix/options/shared/env_common.c.

use posix_next.Base.{
  Errno, zero, leb, str_eq_sound, remove_at, ℕ, suc, ◌+◌, ◌<◌, ◌≡◌, refl, ap, sym, ◌∙◌, inl, inr,
  Option, none, some, List, [], ◌∷◌, arith, ◌==◌, ltb, if◌then◌else◌, Bool-cases, length, CString,
  str_eq, einval, enoent, erange, ok, err,
}
use posix_next.Env.{
  index_of, Config, Env, entries, is_bad_name, findenv, value_at, z_getenv, z_getenv_r,
  remove_entry, z_unsetenv,
}
use posix_next.Env.Lookup.{index_of-lt_length, lookup, lookup-none, lookup-remove_at, UniqueNames}
use posix_next.Env.Found.{GoodName, GoodName-IsName, findenv-Found, findenv_bad, getenv-lookup}

-- Where the last entry goes the array goes too.
pub remove_entry-entries :
    (cfg : Config) (i : ℕ) (s : Env)
    → i < length (entries s.environ)
    → entries (remove_entry cfg i s).environ ≡ remove_at (entries s.environ) i
unfolding remove_entry
remove_entry-entries cfg i s h = elim (Bool-cases (length (entries s.environ) == 1)) [
  | inl one ↦ rw one (sym (remove_last (entries s.environ) i (ground arith) h))
  | inr more ↦ rw more
]
  where
    remove_last : (es : List CString) (i : ℕ) → length es ≡ 1 → i < length es → remove_at es i ≡ []
    remove_last [] i e h = refl
    remove_last (x ∷ []) zero e h = refl
    remove_last (x ∷ []) (suc i) e h = absurd (omega arith)
    remove_last (x ∷ y ∷ es) i e h = absurd (omega arith)

-- unsetenv with an accepted name succeeds and takes the value of that name alone, where the
-- entries have different names.
pub getenv-unsetenv :
    (cfg : Config) (s : Env) (n k : CString)
    → UniqueNames (entries s.environ)
    → GoodName n
    → GoodName k
    → let (r, t) = z_unsetenv cfg (some n) s in
      (r ≡ ok tt) × (z_getenv (some k) t ≡ (if str_eq n k then none else z_getenv (some k) s))
unfolding z_unsetenv
getenv-unsetenv cfg s n k u gn gk = elim (findenv-Found n s.environ gn) [
  | inl (e, miss) ↦ rw (e) (
    refl,
    ground (
      arith,
      getenv-lookup k s gk,
      lookup-none n (entries s.environ) miss,
      str_eq_sound n k,
      ap (λ m. lookup m (entries s.environ)) {x = n} {y = k},
    ),
  )
  | inr (i, e, hit) ↦ rw (e) (
    refl,
    rw
        (
          getenv-lookup k (remove_entry cfg i s) gk,
          remove_entry-entries cfg i s (index_of-lt_length n (entries s.environ) i hit),
          getenv-lookup k s gk,
        )
        (lookup-remove_at n k (entries s.environ) i (GoodName-IsName n gn) (GoodName-IsName k gk) u
          hit),
  )
]

-- What getenv_r returns where getenv returns this: on success the index of the first entry of the
-- name, next to the text that is copied.
abbrev pub ReadsAs : CString → ℕ → Env → Option CString → Type 0
ReadsAs k len s none = z_getenv_r (some k) len s ≡ err (if is_bad_name k then einval else enoent)
ReadsAs k len s (some v) =
    if leb (length v + 1) len
    then ((i : ℕ) × (index_of k (entries s.environ) ≡ some i)
        × (z_getenv_r (some k) len s ≡ ok (v, i)))
    else (z_getenv_r (some k) len s ≡ err erange)

module _ (k : CString) (len : ℕ) (s : Env) where
  reads-missing :
      (e : Errno)
      → findenv (some k) s.environ ≡ err e
      → (z_getenv (some k) s ≡ none) × (z_getenv_r (some k) len s ≡ err e)
  unfolding z_getenv z_getenv_r
  reads-missing e h = (rw (h, z_getenv), rw (h, z_getenv_r))

  reads-found :
      (i : ℕ)
      → findenv (some k) s.environ ≡ ok i
      → let v = value_at k (entries s.environ) i in
        (z_getenv (some k) s ≡ some v)
        × (z_getenv_r (some k) len s ≡ (if ltb len (length v + 1) then err erange else ok (v, i)))
  unfolding z_getenv z_getenv_r
  reads-found i h = (rw (h, z_getenv), rw (h, z_getenv_r))

  -- getenv_r copies what getenv returns if the buffer holds it with its terminator, and returns the
  -- index of the first entry of the name; it reports
  -- ERANGE if it does not; where getenv returns NULL it reports EINVAL for a name that is empty
  -- or has '=' and ENOENT for any other.
  pub getenv_r-getenv : ReadsAs k len s (z_getenv (some k) s)
  getenv_r-getenv = elim (Bool-cases (is_bad_name k)) [
    | inl bad ↦ let (e, r) = reads-missing einval (findenv_bad k s.environ bad) in rw e (rw bad r)
    | inr good ↦ elim (findenv-Found k s.environ good) [
      | inl (m, miss) ↦ let (e, r) = reads-missing enoent m in rw e (rw good r)
      | inr (i, f, hit) ↦
          let (e, r) = reads-found i f in
          rw e (elim (Bool-cases (leb (length (value_at k (entries s.environ) i) + 1) len)) [
            | inl fits ↦ rw fits (i, hit, r ∙ ground arith)
            | inr small ↦ rw small (r ∙ ground arith)
          ])
    ]
  ]
