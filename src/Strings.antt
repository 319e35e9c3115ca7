-- ===== src/Strings.antt =====
-- Strings, lib/posix/c_lib_ext/strnlen.c and lib/posix/c_lib_ext/stpcpy.c; the children have
-- lib/posix/c_lib_ext/strncasecmp.c and lib/posix/c_lang_support_r/strtok_r.c. Memory is the list of
-- the bytes from a pointer to the end of its object; `none` is a read past that end, which C does
-- not define.
pub mod Copying
pub mod Comparing
pub mod Tokens
pub mod Splitting
mod Tests
use posix_next.Base.{ℕ, zero, suc, ◌+◌, ◌≡◌, Option, none, some, List, [], ◌∷◌, ◌==◌, if◌then◌else◌}

-- The loop of strnlen.
unfoldable pub strnlen : List ℕ → ℕ → Option ℕ
strnlen s zero = some 0
strnlen [] (suc max) = none
strnlen (c ∷ s) (suc max) =
    let rest = strnlen s max in
    if c == 0 then some 0 else elim rest [ none ↦ none | some n ↦ some (n + 1) ]

-- The standard strlen of the same memory.
unfoldable pub strlen : List ℕ → Option ℕ
strlen [] = none
strlen (c ∷ s) =
    let rest = strlen s in
    if c == 0 then some 0 else elim rest [ none ↦ none | some n ↦ some (n + 1) ]

abbrev pub pointer_after : ℕ → ℕ → Option ℕ → Option ℕ
pointer_after c i ret = if c == 0 then some i else ret

abbrev write : ℕ → Option (List ℕ × Option ℕ) → Option (List ℕ × Option ℕ)
write c none = none
write c (some (cs, ret)) = some (c ∷ cs, ret)

-- The first loop of stpncpy: what is written from s1 on, and `ret` as an offset from s1. It ends
-- only when n is 0.
unfoldable pub copy_loop : List ℕ → ℕ → ℕ → Option ℕ → Option (List ℕ × Option ℕ)
copy_loop s2 zero i ret = some ([], ret)
copy_loop [] (suc n) i ret = none
copy_loop (c ∷ s2) (suc n) i ret = write c (copy_loop s2 n (i + 1) (pointer_after c i ret))

abbrev pub offset_or : ℕ → Option ℕ → ℕ
offset_or n none = n
offset_or n (some i) = i

-- After the first loop n is 0, and the second one writes nothing.
unfoldable pub stpncpy : List ℕ → ℕ → Option (List ℕ × ℕ)
unfolding copy_loop
stpncpy s2 n = elim (copy_loop s2 n 0 none) [ none ↦ none | some r ↦ some (r.0, offset_or n r.1) ]

unfoldable pub stpcpy : List ℕ → Option (List ℕ × ℕ)
unfolding strlen stpncpy
stpcpy s2 = elim (strlen s2) [ none ↦ none | some n ↦ stpncpy s2 (n + 1) ]
