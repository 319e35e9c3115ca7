-- ===== src/Env/Found.antt =====
-- The outcomes of `findenv`, and getenv as a lookup.

use posix_next.Base.{
  ℕ, ◌≡◌, refl, ◌⊎◌, inl, inr, true, false, Option, none, some, List, arith, Option-cases, CString,
  einval, enoent, ok, err,
}
use posix_next.Env.{Env, entries, is_bad_name, findenv, index_of, z_getenv}
use posix_next.Env.Lookup.{IsName, lookup, lookup-index_of, lookup-none}

-- What `findenv` accepts.
abbrev pub GoodName : CString → Type 0
GoodName n = is_bad_name n ≡ false

pub GoodName-IsName : (n : CString) → GoodName n → IsName n
GoodName-IsName n g = ground arith

-- The two outcomes for an accepted name.
abbrev pub Found : CString → Option (List CString) → Type 0
Found n environ =
    ((findenv (some n) environ ≡ err enoent) × (index_of n (entries environ) ≡ none))
    ⊎ ((i : ℕ) × (findenv (some n) environ ≡ ok i) × (index_of n (entries environ) ≡ some i))

pub findenv-Found : (n : CString) (environ : Option (List CString)) → GoodName n → Found n environ
unfolding findenv
findenv-Found n none g = inl (rw g, unfold index_of in refl)
findenv-Found n (some es) g = elim (Option-cases (index_of n es)) [
  | inl miss ↦ inl (rw (g, miss), miss)
  | inr (i, hit) ↦ inr (i, rw (g, hit), hit)
]

pub findenv_bad :
    (n : CString) (environ : Option (List CString))
    → is_bad_name n ≡ true
    → findenv (some n) environ ≡ err einval
unfolding findenv
findenv_bad n none b = rw b
findenv_bad n (some es) b = rw b

pub getenv-lookup :
    (k : CString) (s : Env) → GoodName k → z_getenv (some k) s ≡ lookup k (entries s.environ)
unfolding z_getenv
getenv-lookup k s g = elim (findenv-Found k s.environ g) [
  | inl (e, miss) ↦ rw (z_getenv, e, lookup-none k (entries s.environ) miss)
  | inr (i, e, hit) ↦ rw (z_getenv, e, lookup-index_of k (entries s.environ), hit)
]
