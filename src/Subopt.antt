-- ===== src/Subopt.antt =====
-- Suboptions, lib/posix/c_lib_ext/getsubopt.c. A string is the list of its bytes before the
-- terminator.
pub mod Parsing
mod Tests
use posix_next.Base.{
  ℕ, ◌+◌, Bool, true, false, ◌&&◌, Option, none, some, List, [], ◌∷◌, ◌==◌, if◌then◌else◌, length,
  get_elem?, CString,
}

abbrev pub comma : ℕ
comma = 44

abbrev pub equals : ℕ
equals = 61

-- What the loop finds: the bytes from `begin` to `eq` or to `end`, those from `eq` to `end` where
-- `eq` is set, and the string that `*optionp` points to after the loop.
pub record Scan : Type 0 where
  pub key : CString
  pub value : Option CString
  pub rest : CString

abbrev to_key : ℕ → Scan → Scan
to_key c s = record s { key = c ∷ s.key }

abbrev cons_value : ℕ → Option CString → Option CString
cons_value c none = none
cons_value c (some v) = some (c ∷ v)

abbrev to_value : ℕ → Scan → Scan
to_value c s = record s { value = cons_value c s.value }

-- The loop once `eq` is set.
unfoldable pub scan_value : CString → Scan
scan_value [] = record { key = []; value = some []; rest = [] }
scan_value (c ∷ s) =
    if c == comma then record { key = []; value = some []; rest = s } else to_value c (scan_value s)

-- The loop while `eq` is NULL.
unfoldable pub scan : CString → Scan
unfolding scan_value
scan [] = record { key = []; value = none; rest = [] }
scan (c ∷ s) =
    if c == equals
    then scan_value s
    else (if c == comma then record { key = []; value = none; rest = s } else to_key c (scan s))

-- `strncmp(key, k, len) == 0 && k[len] == '\0'` for a key of `len` bytes.
unfoldable pub is_key : CString → CString → Bool
is_key [] [] = true
is_key [] (d ∷ k) = false
is_key (c ∷ s) [] = false
is_key (c ∷ s) (d ∷ k) = (c == d) && is_key s k

-- The search of the key list from index `i` on.
unfoldable pub find_key : CString → List CString → ℕ → Option ℕ
unfolding is_key
find_key key [] i = none
find_key key (k ∷ ks) i = if is_key key k then some i else find_key key ks (i + 1)

-- What getsubopt returns (`none` for -1), `*valuep` and `*optionp`.
pub record Subopt : Type 0 where
  pub index : Option ℕ
  pub value : Option CString
  pub rest : CString

unfoldable pub getsubopt : List CString → CString → Subopt
unfolding scan find_key
getsubopt keylist s =
    let r = scan s in
    record {
      index = if length r.key == 0 then none else find_key r.key keylist 0;
      value = r.value;
      rest = r.rest;
    }
