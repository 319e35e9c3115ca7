-- ===== src/Passwd/Groups.antt =====
-- The group database, z_getgr_r of lib/posix/options/system_database_r/system_database_priv.c. The
-- members are the strings that the array in the buffer points to; `pointer` is sizeof(char *).
use posix_next.Base.{
  ℕ, zero, suc, ◌+◌, ◌-◌, ◌*◌, Bool, ◌&&◌, not, ◌==◌, ltb, Option, none, some, List, [], ◌∷◌,
  if◌then◌else◌, CString, length, einval, eio, erange, Result, ok, err, ℤ,
}
use posix_next.Passwd.{
  Line, continues, too_small, found, pieces, field, with_field, other_name, no_name, after,
}

pub record Group : Type 0 where
  pub name : CString
  pub passwd : CString
  pub gid : ℤ
  pub members : List CString

unfoldable pub count : CString → ℕ → ℕ
count [] c = 0
count (d ∷ s) c = let rest = count s c in if d == c then suc rest else rest

abbrev pub nmemb_of : CString → ℕ
nmemb_of [] = 0
nmemb_of (c ∷ p) = 1 + count (c ∷ p) b','

-- The loop that sets the array.
unfoldable pub members_loop : ℕ → CString → List CString
unfolding field
members_loop zero p = []
members_loop (suc n) p = elim (field b',' p) [
  | none ↦ p ∷ []
  | some (member, rest) ↦ member ∷ members_loop n rest
]

-- `q` is the offset of the end of the line in the buffer.
abbrev pub min_size : ℕ → ℕ → ℕ → ℕ
min_size pointer q nmemb = q + 1 + nmemb * pointer + 32

module _ (atoi : CString → ℤ) (same : ℤ → ℤ → Bool) (pointer bufsize : ℕ) where
  -- The line is the whole piece, where the end of the line is looked for.
  abbrev pub group_fields : Option CString → ℤ → CString → Line Group
  group_fields name gid line = with_field (field b':' line) λ n p.
      if other_name name n
      then continues
      else with_field (field b':' p) λ pass p. with_field (field b':' p) λ g p.
        if no_name name && not (same (atoi g) gid)
        then continues
        else with_field (field b'\n' p) λ text rest.
          if ltb bufsize (min_size pointer (length line - length rest - 1) (nmemb_of text))
          then too_small
          else found (record {
            name = n;
            passwd = pass;
            gid = atoi g;
            members = members_loop (nmemb_of text) text;
          })

  unfoldable pub parse_group : Option CString → ℤ → CString → Line Group
  unfolding field count members_loop
  parse_group name gid [] = too_small
  parse_group name gid (c ∷ s) = if c == b'\n' then continues else group_fields name gid (c ∷ s)

  unfoldable pub search_groups : Option CString → ℤ → List CString → Result (Option Group)
  unfolding parse_group
  search_groups name gid [] = ok none
  search_groups name gid (l ∷ ls) = after (parse_group name gid l) (search_groups name gid ls)

  -- `given` says whether the pointers are not NULL and a name or an id is asked for; a file that
  -- cannot be opened is `none`.
  unfoldable pub z_getgr_r : Bool → Option CString → ℤ → Option CString → Result (Option Group)
  unfolding search_groups pieces
  z_getgr_r given name gid file =
      if not given
      then err einval
      else (if ltb bufsize 2 then err erange else elim file [
        | none ↦ err eio
        | some bytes ↦ search_groups name gid (pieces bufsize (bufsize - 1) [] bytes)
      ])
