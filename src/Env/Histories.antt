-- ===== src/Env/Histories.antt =====
-- Sequences of calls on the environment of lib/posix/options/shared/env_common.c.
use posix_next.Base.{
  sym, remove_at, einval, err, str_eq, ◌⊎◌, subst, if◌then◌else◌, inr, inl, Bool-cases, Result, ℕ,
  Bool, true, Option, none, some, List, [], ◌∷◌, CString, ◌≡◌, refl,
}
use posix_next.Env.Lookup.{IsName, UniqueNames, index_of-lt_length, UniqueNames-remove_at}
use posix_next.Env.Found.{GoodName, GoodName-IsName, findenv-Found, findenv_bad}
use posix_next.Env.Setting.{
  SetOutcome, written, kept, failed, setenv-SetOutcome, UniqueNames-Written,
}
use posix_next.Env.Unsetting.{remove_entry-entries, getenv-unsetenv}
use posix_next.Env.{findenv, is_bad_name, z_getenv, Config, Env, entries, z_setenv, z_unsetenv}

-- A call, with the outcomes of the allocations that it makes.
pub data Call : Type 0 where
  sets : Bool → Bool → Option CString → Option CString → Bool → Call
  unsets : Option CString → Call

pub step : Config → Env → Call → Env
step cfg s (sets array_fits entry_fits name val overwrite) =
    (z_setenv cfg array_fits entry_fits name val overwrite s).1
step cfg s (unsets name) = (z_unsetenv cfg name s).1

pub run : Config → Env → List Call → Env
run cfg s [] = s
run cfg s (c ∷ cs) = run cfg (step cfg s c) cs

-- `environ` before the first call.
unfoldable pub start : Env
start = record { environ = none; allocated = 0 }

SetOutcome-UniqueNames :
    {overwrite : Bool} {v : CString} {out : Result (Unit {0}) × Env} (n : CString) (s : Env)
    → IsName n
    → UniqueNames (entries s.environ)
    → SetOutcome overwrite n v s out
    → UniqueNames (entries out.1.environ)
SetOutcome-UniqueNames n s g u (written e w why) = UniqueNames-Written n _ _ _ g w u
SetOutcome-UniqueNames n s g u (kept o i hit e) = rw e u
SetOutcome-UniqueNames n s g u (failed e same) = rw same u

setenv_bad :
    (cfg : Config) (array_fits entry_fits overwrite : Bool) (s : Env) (n v : CString)
    → is_bad_name n ≡ true
    → z_setenv cfg array_fits entry_fits (some n) (some v) overwrite s ≡ (err einval, s)
unfolding z_setenv
setenv_bad cfg array_fits entry_fits overwrite s n v bad = rw (findenv_bad n s.environ bad)

-- How a call of unsetenv can end: with the entries as they were, or with one entry fewer.
unsetenv-entries :
    (cfg : Config) (name : Option CString) (s : Env)
    → let es = entries s.environ in
      let es' = entries (z_unsetenv cfg name s).1.environ in
      (es' ≡ es) ⊎ ((i : ℕ) × (es' ≡ remove_at es i))
unfolding z_unsetenv
unsetenv-entries cfg none s = inl (unfold findenv in refl)
unsetenv-entries cfg (some n) s = elim (Bool-cases (is_bad_name n)) [
  | inl bad ↦ inl (rw (findenv_bad n s.environ bad))
  | inr good ↦ elim (findenv-Found n s.environ good) [
    | inl (e, miss) ↦ inl (rw e)
    | inr (i, e, hit) ↦
        inr
          (i, rw e (remove_entry-entries cfg i s (index_of-lt_length n (entries s.environ) i hit)))
  ]
]

-- Every call keeps the names of the entries different, failed calls included.
pub step-UniqueNames :
    (cfg : Config) (s : Env) (c : Call)
    → UniqueNames (entries s.environ)
    → UniqueNames (entries (step cfg s c).environ)
unfolding step
step-UniqueNames cfg s (sets array_fits entry_fits none val overwrite) u = unfold z_setenv in u
step-UniqueNames cfg s (sets array_fits entry_fits (some n) none overwrite) u = unfold z_setenv in u
step-UniqueNames cfg s (sets array_fits entry_fits (some n) (some v) overwrite) u =
    elim (Bool-cases (is_bad_name n)) [
      | inl bad ↦
          subst (λ o. UniqueNames (entries o.1.environ))
            (sym (setenv_bad cfg array_fits entry_fits overwrite s n v bad)) u
      | inr good ↦
          SetOutcome-UniqueNames n s (GoodName-IsName n good) u
            (setenv-SetOutcome cfg array_fits entry_fits overwrite n v s good)
    ]
step-UniqueNames cfg s (unsets name) u = elim (unsetenv-entries cfg name s) [
  | inl same ↦ subst UniqueNames (sym same) u
  | inr (i, fewer) ↦ subst UniqueNames (sym fewer) (UniqueNames-remove_at (entries s.environ) i u)
]

-- Any history of calls leaves the names of the entries different, where they were before it.
pub run-UniqueNames :
    (cfg : Config) (s : Env) (cs : List Call)
    → UniqueNames (entries s.environ)
    → UniqueNames (entries (run cfg s cs).environ)
unfolding run
run-UniqueNames cfg s [] u = u
run-UniqueNames cfg s (c ∷ cs) u =
    run-UniqueNames cfg (step cfg s c) cs (step-UniqueNames cfg s c u)

-- After any history of calls from the start, unsetenv with an accepted name takes the value of that
-- name and no other.
pub unsetenv_after_history :
    (cfg : Config) (cs : List Call) (n k : CString)
    → GoodName n
    → GoodName k
    → let s = run cfg start cs in
      z_getenv (some k) (z_unsetenv cfg (some n) s).1
      ≡ (if str_eq n k then none else z_getenv (some k) s)
unfolding start
unsetenv_after_history cfg cs n k gn gk =
    (getenv-unsetenv cfg (run cfg start cs) n k (run-UniqueNames cfg start cs tt) gn gk).1
