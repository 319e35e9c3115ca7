-- ===== src/Env/Tests.antt =====
-- The theorems on lib/posix/options/shared/env_common.c at concrete environments.
use posix_next.Base.{
  ◌≡◌, ◌⊎◌, refl, true, false, not, ◌&&◌, ◌||◌, if◌then◌else◌, none, some, List, [], ◌∷◌, CString,
  str_eq, enomem, ok, err,
}
use posix_next.Env.{entries, Config, Env, z_getenv, z_setenv, z_unsetenv}
use posix_next.Env.Lookup.{UniqueNames}
use posix_next.Env.Setting.{is_set, getenv-setenv}
use posix_next.Env.Unsetting.{ReadsAs, getenv_r-getenv}
use posix_next.Env.Histories.{Call, sets, start, run, unsetenv_after_history, run-UniqueNames}

abbrev cfg : Config
cfg = record { track_alloc = true; ptr_size = 8 }

-- The names "A" and "B", the value "x", and the environment with "A=x" and "B=".
abbrev name_a : CString
name_a = 65 ∷ []

abbrev name_b : CString
name_b = 66 ∷ []

abbrev value_x : CString
value_x = 120 ∷ []

abbrev some_calls : List Call
some_calls =
    sets true true (some name_a) (some value_x) true
    ∷ sets true true (some name_b) none true
    ∷ sets true false (some (67 ∷ [])) none true
    ∷ []

abbrev two_names : Env
two_names = run cfg start some_calls

two_names-UniqueNames : UniqueNames (entries two_names.environ)
unfolding start
two_names-UniqueNames = run-UniqueNames cfg start some_calls tt

getenv-setenv_example :
    let (r, t) = z_setenv cfg true true (some name_b) (some value_x) true two_names in
    ((r ≡ ok tt)
      × (z_getenv (some name_b) t ≡ (
          if str_eq name_b name_b && (true || not (is_set (z_getenv (some name_b) two_names)))
          then some value_x
          else z_getenv (some name_b) two_names)))
    ⊎ ((r ≡ err enomem) × (z_getenv (some name_b) t ≡ z_getenv (some name_b) two_names))
getenv-setenv_example = getenv-setenv cfg true true true two_names name_b value_x name_b refl refl

getenv_r-getenv_example : ReadsAs name_a 1 two_names (z_getenv (some name_a) two_names)
getenv_r-getenv_example = getenv_r-getenv name_a 1 two_names

unsetenv_after_history_example :
    let s = run cfg start some_calls in
    z_getenv (some name_b) (z_unsetenv cfg (some name_a) s).1
    ≡ (if str_eq name_a name_b then none else z_getenv (some name_b) s)
unsetenv_after_history_example = unsetenv_after_history cfg some_calls name_a name_b refl refl
