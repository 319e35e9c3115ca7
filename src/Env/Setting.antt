-- ===== src/Env/Setting.antt =====
-- setenv of lib/posix/options/shared/env_common.c acts on the map from names to values.

use posix_next.Base.{
  ℕ, ◌+◌, ◌≡◌, refl, ap, sym, ◌≢◌, ◌∙◌, ◌⊎◌, inl, inr, Bool, true, false, ◌||◌, ◌&&◌, not, Option,
  none, some, List, [], ◌∷◌, ◌++◌, arith, ltb, if◌then◌else◌, Bool-cases, length, set, CString,
  str_eq, einval, enomem, Result, ok, err,
}
use posix_next.Env.{
  Config, Env, entries, is_bad_name, findenv, index_of, entry, z_getenv, write_entry, add_entry,
  z_setenv, set_found, Config,
}
use posix_next.Env.Lookup.{
  IsName, lookup, lookup-index_of, lookup-none, lookup-set, lookup-append, UniqueNames,
  UniqueNames-set, UniqueNames-append,
}
use posix_next.Env.Found.{GoodName, GoodName-IsName, findenv-Found, findenv_bad, getenv-lookup}

set-append :
    (es : List CString) (x y : CString) → set (es ++ (x ∷ [])) (length es) y ≡ es ++ (y ∷ [])
set-append [] x y = refl
set-append (e ∷ es) x y = rw (set-append es x y)

-- The entry is replaced at its index, or added at the end.
write_entry-entries :
    (cfg : Config) (n v : CString) (i esize : ℕ) (s : Env)
    → ((write_entry cfg true n v i esize s).0 ≡ ok tt)
      × (entries (write_entry cfg true n v i esize s).1.environ
          ≡ set (entries s.environ) i (entry n v))
unfolding write_entry
write_entry-entries cfg n v i esize s = ground arith

add_entry-entries :
    (cfg : Config) (n v : CString) (s : Env)
    → ((add_entry cfg true true n v s).0 ≡ ok tt)
      × (entries (add_entry cfg true true n v s).1.environ ≡ entries s.environ ++ (entry n v ∷ []))
unfolding add_entry
add_entry-entries cfg n v s =
    let w = write_entry-entries cfg n v (length (entries s.environ)) 0 _ in
    (w.0, w.1 ∙ set-append (entries s.environ) [] (entry n v))

-- The list after the entry of n has been written.
pub data Written (n v : CString) (es es' : List CString) : Type 0 where
  replaced : (i : ℕ) → index_of n es ≡ some i → es' ≡ set es i (entry n v) → Written n v es es'
  added : index_of n es ≡ none → es' ≡ es ++ (entry n v ∷ []) → Written n v es es'

lookup-Written :
    (n v k : CString) (es es' : List CString)
    → IsName n
    → IsName k
    → Written n v es es'
    → lookup k es' ≡ (if str_eq n k then some v else lookup k es)
lookup-Written n v k es es' gn gk (replaced i hit e) = rw e (lookup-set n v gn k es i gk hit)
lookup-Written n v k es es' gn gk (added miss e) = rw e (lookup-append n v gn k es gk miss)

pub UniqueNames-Written :
    (n v : CString) (es es' : List CString)
    → IsName n
    → Written n v es es'
    → UniqueNames es
    → UniqueNames es'
UniqueNames-Written n v es es' gn (replaced i hit e) u = rw e (UniqueNames-set n v gn es i hit u)
UniqueNames-Written n v es es' gn (added miss e) u = rw e (UniqueNames-append n v gn es miss u)

-- How a call of setenv with an accepted name can end.
pub data SetOutcome (overwrite : Bool) (n v : CString) (s : Env) (out : Result (Unit {0}) × Env)
    : Type 0 where
  written :
      out.0 ≡ ok tt
      → Written n v (entries s.environ) (entries out.1.environ)
      → (overwrite ≡ true) ⊎ (index_of n (entries s.environ) ≡ none)
      → SetOutcome overwrite n v s out
  kept :
      overwrite ≡ false
      → (i : ℕ) → index_of n (entries s.environ) ≡ some i
      → out ≡ (ok tt, s)
      → SetOutcome overwrite n v s out
  failed :
      out.0 ≡ err enomem
      → entries out.1.environ ≡ entries s.environ
      → SetOutcome overwrite n v s out

write_entry-SetOutcome :
    (cfg : Config) (fits : Bool) (n v : CString) (i esize : ℕ) (s : Env)
    → index_of n (entries s.environ) ≡ some i
    → SetOutcome true n v s (write_entry cfg fits n v i esize s)
unfolding write_entry
write_entry-SetOutcome cfg true n v i esize s hit =
    let w = write_entry-entries cfg n v i esize s in written w.0 (replaced i hit w.1) (inl refl)
write_entry-SetOutcome cfg false n v i esize s hit =
    elim (Bool-cases (ltb esize (length n + 1 + length v + 1))) [
      | inl grows ↦ rw grows (failed refl refl)
      | inr enough ↦ rw enough (written refl (replaced i hit refl) (inl refl))
    ]

add_entry-SetOutcome :
    (cfg : Config) (array_fits entry_fits overwrite : Bool) (n v : CString) (s : Env)
    → index_of n (entries s.environ) ≡ none
    → SetOutcome overwrite n v s (add_entry cfg array_fits entry_fits n v s)
unfolding add_entry
add_entry-SetOutcome cfg true true overwrite n v s miss =
    let w = add_entry-entries cfg n v s in written w.0 (added miss w.1) (inr miss)
add_entry-SetOutcome cfg true false overwrite n v s miss = failed refl refl
add_entry-SetOutcome cfg false entry_fits overwrite n v s miss = failed refl refl

pub setenv-SetOutcome :
    (cfg : Config) (array_fits entry_fits overwrite : Bool) (n v : CString) (s : Env)
    → GoodName n
    → SetOutcome overwrite n v s (z_setenv cfg array_fits entry_fits (some n) (some v) overwrite s)
unfolding z_setenv
setenv-SetOutcome cfg array_fits entry_fits true n v s gn = elim (findenv-Found n s.environ gn) [
  | inl (e, miss) ↦
      rw (z_setenv, e) (add_entry-SetOutcome cfg array_fits entry_fits true n v s miss)
  | inr (i, e, hit) ↦ rw (z_setenv, e) (write_entry-SetOutcome cfg entry_fits n v i _ s hit)
]
setenv-SetOutcome cfg array_fits entry_fits false n v s gn = elim (findenv-Found n s.environ gn) [
  | inl (e, miss) ↦
      rw (z_setenv, e) (add_entry-SetOutcome cfg array_fits entry_fits false n v s miss)
  | inr (i, e, hit) ↦ rw (z_setenv, e) (kept refl i hit refl)
]

abbrev pub is_set : Option CString → Bool
is_set none = false
is_set (some v) = true

is_set-lookup :
    (n : CString) (es : List CString) (i : ℕ) → index_of n es ≡ some i → is_set (lookup n es) ≡ true
is_set-lookup n es i hit = rw (lookup-index_of n es, hit)

-- Whether setenv writes: it may overwrite, or the name has no value.
abbrev pub writes : Bool → CString → Env → Bool
writes overwrite n s = overwrite || not (is_set (z_getenv (some n) s))

writes_why :
    (overwrite : Bool) (n : CString) (s : Env)
    → GoodName n
    → (overwrite ≡ true) ⊎ (index_of n (entries s.environ) ≡ none)
    → writes overwrite n s ≡ true
writes_why overwrite n s gn (inl e) = rw e
writes_why true n s gn (inr miss) = refl
writes_why false n s gn (inr miss) =
    rw (getenv-lookup n s gn, lookup-none n (entries s.environ) miss)

-- What the call does to the value of the name k.
abbrev SetEffect : Bool → CString → CString → CString → Env → Result (Unit {0}) × Env → Type 0
SetEffect overwrite n v k s out =
    ((out.0 ≡ ok tt)
      × (z_getenv (some k) out.1
          ≡ (if str_eq n k && writes overwrite n s then some v else z_getenv (some k) s)))
    ⊎ ((out.0 ≡ err enomem) × (z_getenv (some k) out.1 ≡ z_getenv (some k) s))

SetOutcome-SetEffect :
    (overwrite : Bool) (n v k : CString) (s : Env) (out : Result (Unit {0}) × Env)
    → GoodName n
    → GoodName k
    → SetOutcome overwrite n v s out
    → SetEffect overwrite n v k s out
SetOutcome-SetEffect overwrite n v k s out gn gk (written e w why) = inl (
  e,
  rw (writes_why overwrite n s gn why, getenv-lookup k s gk, getenv-lookup k out.1 gk)
      (ground (
        arith,
        lookup-Written n v k (entries s.environ) (entries out.1.environ) (GoodName-IsName n gn)
            (GoodName-IsName k gk) w,
      )),
)
SetOutcome-SetEffect overwrite n v k s out gn gk (kept o i hit e) = inl (
  ap (λ r. r.0) e,
  ap (λ r. z_getenv (some k) r.1) e
      ∙ ground (arith, getenv-lookup n s gn, is_set-lookup n (entries s.environ) i hit),
)
SetOutcome-SetEffect overwrite n v k s out gn gk (failed e same) =
    inr (e, getenv-lookup k out.1 gk ∙ ap (lookup k) same ∙ sym (getenv-lookup k s gk))

-- setenv with an accepted name, whatever the allocator does. On success v becomes the value of the
-- name if the call may overwrite or the name had no value, and all else keeps its value; the only
-- failure is ENOMEM, and then every name keeps its value.
pub getenv-setenv :
    (cfg : Config) (array_fits entry_fits overwrite : Bool) (s : Env) (n v k : CString)
    → GoodName n
    → GoodName k
    → let (r, t) = z_setenv cfg array_fits entry_fits (some n) (some v) overwrite s in
      ((r ≡ ok tt)
        × (z_getenv (some k) t ≡ (
            if str_eq n k && (overwrite || not (is_set (z_getenv (some n) s)))
            then some v
            else z_getenv (some k) s)))
      ⊎ ((r ≡ err enomem) × (z_getenv (some k) t ≡ z_getenv (some k) s))
getenv-setenv cfg array_fits entry_fits overwrite s n v k gn gk =
    SetOutcome-SetEffect overwrite n v k s _ gn gk
      (setenv-SetOutcome cfg array_fits entry_fits overwrite n v s gn)

set_found-ok :
    (cfg : Config) (overwrite : Bool) (s : Env) (n v : CString) (r : Result ℕ)
    → r ≢ err einval
    → (set_found cfg true true overwrite n v r s).0 ≡ ok tt
set_found-ok cfg true s n v (ok i) h = (write_entry-entries cfg n v i _ s).0
set_found-ok cfg false s n v (ok i) h = refl
set_found-ok cfg overwrite s n v (err einval) h = absurd (h refl)
set_found-ok cfg overwrite s n v (err e) h = (add_entry-entries cfg n v s).0

-- With memory for both allocations setenv accepts every name that is not empty and has no '='; a
-- call with any other name reports EINVAL and changes nothing.
pub setenv_accepts :
    (cfg : Config) (overwrite : Bool) (s : Env) (n v : CString)
    → let out = z_setenv cfg true true (some n) (some v) overwrite s in
      if is_bad_name n then out ≡ (err einval, s) else (out.0 ≡ ok tt)
unfolding z_setenv
setenv_accepts cfg overwrite s n v = elim (Bool-cases (is_bad_name n)) [
  | inl bad ↦ rw (bad, z_setenv, findenv_bad n s.environ bad)
  | inr good ↦ rw (good) (
      set_found-ok cfg overwrite s n v (findenv (some n) s.environ)
        (elim (findenv-Found n s.environ good) [
          | inl (e, miss) ↦ rw e (λ p. cc)
          | inr (i, e, hit) ↦ rw e (λ p. cc)
        ]))
]
