-- ===== src/Env.antt =====
-- The environment, lib/posix/options/shared/env_common.c: `environ` and the functions behind
-- getenv, getenv_r, setenv and unsetenv. Each of them runs under `environ_lock`, so a call is one
-- step on the state. `realloc` is the standard library's: its outcome is an argument.
pub mod Lookup
pub mod Found
pub mod Setting
pub mod Unsetting
pub mod Histories
mod Tests
use posix_next.Base.{
  ℕ, suc, ◌+◌, ◌-◌, ◌*◌, ◌%◌, ◌^◌, ◌≡◌, Bool, true, false, ◌&&◌, ◌||◌, Option, none, some, List, [],
  ◌∷◌, ◌++◌, ◌==◌, ltb, if◌then◌else◌, length, get_or, set, drop, remove_at, CString, contains,
  Errno, einval, enoent, enomem, erange, Result, ok, err,
}
use mathlib.Core.Option as LibOption

-- What the build decides: whether allocations are counted, and `sizeof(void *)`.
pub record Config : Type 0 where
  pub track_alloc : Bool
  pub ptr_size : ℕ

-- `environ` is NULL or an array of entries "name=value"; the terminating NULL is not listed.
pub record Env : Type 0 where
  pub environ : Option (List CString)
  pub allocated : ℕ

-- size_t arithmetic
abbrev pub size_mod : ℕ
size_mod = 2 ^ 64

abbrev pub add_size : ℕ → ℕ → ℕ
add_size a b = (a + b) % size_mod

abbrev pub sub_size : ℕ → ℕ → ℕ
sub_size a b = (a + size_mod - b % size_mod) % size_mod

abbrev pub entries : Option (List CString) → List CString
entries none = []
entries (some es) = es

abbrev pub environ_size : Option (List CString) → ℕ
environ_size es = length (entries es)

-- `strncmp(env, name, namelen) == 0 && env[namelen] == '='`
abbrev pub is_entry_of : CString → CString → Bool
is_entry_of [] name = false
is_entry_of (c ∷ env) [] = c == b'='
is_entry_of (c ∷ env) (d ∷ name) = (c == d) && is_entry_of env name

-- The loop of `findenv`: `envp - environ` at the first entry of that name.
pub index_of : CString → List CString → Option ℕ
index_of name [] = none
index_of name (e ∷ es) = if is_entry_of e name then some 0 else LibOption.map suc (index_of name es)

abbrev pub or_enoent : Option ℕ → Result ℕ
or_enoent none = err enoent
or_enoent (some i) = ok i

-- The test that opens `findenv`: a name is not empty and has no '='.
abbrev pub is_bad_name : CString → Bool
is_bad_name name = (length name == 0) || contains b'=' name

pub findenv : Option CString → Option (List CString) → Result ℕ
findenv none environ = err einval
findenv (some name) none = if is_bad_name name then err einval else err enoent
findenv (some name) (some es) =
    if is_bad_name name then err einval else or_enoent (index_of name es)

abbrev pub str_or_empty : Option CString → CString
str_or_empty none = []
str_or_empty (some s) = s

-- `environ[i] + strlen(name) + 1`
abbrev pub value_at : CString → List CString → ℕ → CString
value_at name es i = drop (suc (length name)) (get_or es i [])

unfoldable pub z_getenv : Option CString → Env → Option CString
unfolding findenv
z_getenv name s = elim (findenv name s.environ) [
  | ok i ↦ some (value_at (str_or_empty name) (entries s.environ) i)
  | err e ↦ none
]

-- On success the value that is copied to `buf`, and the index that is returned.
pub z_getenv_r : Option CString → ℕ → Env → Result (CString × ℕ)
z_getenv_r name len s = elim (findenv name s.environ) [
  | ok i ↦
      let val = value_at (str_or_empty name) (entries s.environ) i in
      if ltb len (length val + 1) then err erange else ok (val, i)
  | err e ↦ err e
]

-- `name=val`
abbrev pub entry : CString → CString → CString
entry name val = name ++ (b'=' ∷ val)

-- The end of `z_setenv`, from `if (esize < tsize)` on: the entry i gets room if it needs it, and
-- the text. Its old text takes `esize` bytes.
pub write_entry : Config → Bool → CString → CString → ℕ → ℕ → Env → Result (Unit {0}) × Env
write_entry cfg entry_fits name val i esize s =
    if ltb esize tsize
    then (if entry_fits
        then (
          ok tt,
          record {
            environ = some (set (entries s.environ) i (entry name val));
            allocated =
                if cfg.track_alloc then add_size s.allocated (tsize - esize) else s.allocated;
          },
        )
        else (err enomem, s))
    else (ok tt, record s { environ = some (set (entries s.environ) i (entry name val)) })
  where
    tsize : ℕ
    tsize = length name + 1 + length val + 1

-- The branch of `z_setenv` that adds an entry: the array grows by one pointer, which is NULL (the
-- empty text stands for it) until the entry is written. If there is no room for the entry the
-- NULL stays the end of the array.
pub add_entry : Config → Bool → Bool → CString → CString → Env → Result (Unit {0}) × Env
add_entry cfg array_fits entry_fits name val s =
    if array_fits
    then (if entry_fits
        then write_entry cfg true name val n 0 (record grown { environ = some (es ++ ([] ∷ [])) })
        else (err enomem, grown))
    else (err enomem, s)
  where
    es : List CString
    es = entries s.environ

    n : ℕ
    n = length es

    grown : Env
    grown = record {
      environ = some es;
      allocated =
          if cfg.track_alloc then add_size s.allocated (cfg.ptr_size * (n + 2)) else s.allocated;
    }

abbrev pub set_found :
    Config → Bool → Bool → Bool → CString → CString → Result ℕ → Env → Result (Unit {0}) × Env
set_found cfg array_fits entry_fits overwrite name val (ok i) s =
    if overwrite
    then write_entry cfg entry_fits name val i (length (get_or (entries s.environ) i []) + 1) s
    else (ok tt, s)
set_found cfg array_fits entry_fits overwrite name val (err einval) s = (err einval, s)
set_found cfg array_fits entry_fits overwrite name val (err e) s =
    add_entry cfg array_fits entry_fits name val s

-- `array_fits` and `entry_fits` say whether the two calls of `realloc` succeed.
pub z_setenv :
    Config → Bool → Bool → Option CString → Option CString → Bool → Env → Result (Unit {0}) × Env
z_setenv cfg array_fits entry_fits none val overwrite s = (err einval, s)
z_setenv cfg array_fits entry_fits (some name) none overwrite s = (err einval, s)
z_setenv cfg array_fits entry_fits (some name) (some val) overwrite s =
    set_found cfg array_fits entry_fits overwrite name val (findenv (some name) s.environ) s

-- The entry i is freed and the pointers after it move forward; with the last entry the array goes
-- too. A `realloc` that shrinks the array changes no entry, whether it succeeds or not.
pub remove_entry : Config → ℕ → Env → Env
remove_entry cfg i s = record {
  environ = if length es == 1 then none else some (remove_at es i);
  allocated =
      if cfg.track_alloc then sub_size (sub_size s.allocated text) pointers else s.allocated;
}
  where
    es : List CString
    es = entries s.environ

    text : ℕ
    text = length (get_or es i []) + 1

    pointers : ℕ
    pointers = (if length es == 1 then 2 else 1) * cfg.ptr_size

abbrev pub unset_found : Config → Result ℕ → Env → Result (Unit {0}) × Env
unset_found cfg (ok i) s = (ok tt, remove_entry cfg i s)
unset_found cfg (err einval) s = (err einval, s)
unset_found cfg (err e) s = (ok tt, s)

pub z_unsetenv : Config → Option CString → Env → Result (Unit {0}) × Env
z_unsetenv cfg name s = unset_found cfg (findenv name s.environ) s
