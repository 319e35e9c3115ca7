-- ===== src/Passwd.antt =====
-- The user database, z_getpw_r of lib/posix/options/system_database_r/system_database_priv.c. The
-- file is its bytes, none of them 0; `atoi` is that of the C library. The fields of a result are
-- the strings that they point to in the buffer, with the gaps that the code writes left out.
pub mod Lines
pub mod Lookup
pub mod Groups
pub mod Members
pub mod GroupLookup
mod Tests
use posix_next.Base.{
  ℕ, zero, suc, ◌+◌, ◌-◌, Bool, true, false, ◌&&◌, ◌||◌, not, ◌==◌, ltb, Option, none, some, List,
  [], ◌∷◌, ◌++◌, if◌then◌else◌, CString, str_eq, Errno, einval, eio, erange, Result, ok, err, ℤ,
}

-- `struct passwd`; pw_comment is NULL.
pub record Passwd : Type 0 where
  pub name : CString
  pub passwd : CString
  pub uid : ℤ
  pub gid : ℤ
  pub gecos : CString
  pub dir : CString
  pub shell : CString

-- What fgets with a buffer of `size` bytes reads, call after call: up to a newline, or size - 1
-- bytes; `left` more of them go into the piece that has been read so far.
unfoldable pub pieces : ℕ → ℕ → CString → CString → List CString
pieces size left [] [] = []
pieces size left (b ∷ read) [] = (b ∷ read) ∷ []
pieces size left read (c ∷ s) =
    let next = pieces size (size - 1) [] s in
    let more = pieces size (left - 1) (read ++ (c ∷ [])) s in
    if c == 10 || not (ltb 1 left) then (read ++ (c ∷ [])) ∷ next else more

-- `strchr(p, sep)`, with the terminator in its place: what is before it, and what is after it.
abbrev cut : ℕ → Option (CString × CString) → Option (CString × CString)
cut c none = none
cut c (some (f, rest)) = some (c ∷ f, rest)

unfoldable pub field : ℕ → CString → Option (CString × CString)
field sep [] = none
field sep (c ∷ s) = let rest = field sep s in if c == sep then some ([], s) else cut c rest

-- What becomes of a piece: the next one is read, the search ends with ERANGE, or it ends here.
pub data Line (A : Type 0) : Type 0 where
  continues too_small : Line A
  found : A → Line A

abbrev pub with_field :
    {A : Type 0} → Option (CString × CString) → (CString → CString → Line A) → Line A
with_field none k = too_small
with_field (some (f, rest)) k = k f rest

abbrev pub other_name : Option CString → CString → Bool
other_name none n = false
other_name (some name) n = not (str_eq n name)

abbrev pub no_name : Option CString → Bool
no_name none = true
no_name (some name) = false

abbrev pub after : {A : Type 0} → Line A → Result (Option A) → Result (Option A)
after continues rest = rest
after too_small rest = err erange
after (found e) rest = ok (some e)

module _ (atoi : CString → ℤ) (same : ℤ → ℤ → Bool) where
  abbrev pub fields : Option CString → ℤ → CString → Line Passwd
  fields name id p = with_field (field 58 p) λ n p.
      if other_name name n
      then continues
      else with_field (field 58 p) λ pass p. with_field (field 58 p) λ u p.
        if no_name name && not (same (atoi u) id)
        then continues
        else with_field (field 58 p) λ g p. with_field (field 58 p) λ gecos p.
          with_field (field 58 p) λ dir p. with_field (field 10 p) λ shell p. found (record {
            name = n;
            passwd = pass;
            uid = atoi u;
            gid = atoi g;
            gecos = gecos;
            dir = dir;
            shell = shell;
          })

  -- The body of the loop.
  unfoldable pub parse : Option CString → ℤ → CString → Line Passwd
  unfolding field
  parse name id [] = too_small
  parse name id (c ∷ s) = if c == 10 then continues else fields name id (c ∷ s)

  unfoldable pub search_lines : Option CString → ℤ → List CString → Result (Option Passwd)
  unfolding parse
  search_lines name id [] = ok none
  search_lines name id (l ∷ ls) = after (parse name id l) (search_lines name id ls)

  -- `given` says whether the pointers are not NULL and a name or an id is asked for; a file that
  -- cannot be opened is `none`.
  unfoldable pub z_getpw_r : Bool → Option CString → ℤ → ℕ → Option CString → Result (Option Passwd)
  unfolding search_lines pieces
  z_getpw_r given name id bufsize file =
      if not given
      then err einval
      else (if ltb bufsize 2 then err erange else elim file [
        | none ↦ err eio
        | some bytes ↦ search_lines name id (pieces bufsize (bufsize - 1) [] bytes)
      ])
