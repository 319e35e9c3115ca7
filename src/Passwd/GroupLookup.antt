-- ===== src/Passwd/GroupLookup.antt =====
-- What z_getgr_r of lib/posix/options/system_database_r/system_database_priv.c finds in a file that
-- has the lines of a list of groups.
use posix_next.Base.{
  ℕ, ◌+◌, ◌-◌, ◌≤◌, Bool, true, false, ◌==◌, ltb, some, none, Option, List, [], ◌∷◌, ◌++◌, CString,
  contains, contains-append, length, length-append, ◌≡◌, refl, arith, Bool-cases, inl, inr, ap, ◌∙◌,
  sym, str_eq, if◌then◌else◌, ℤ, ok,
}
use mathlib.Core.List.{append_assoc}
use posix_next.Passwd.{pieces, continues, found}
use posix_next.Passwd.Lines.{IsField, field-append, pieces-line}
use posix_next.Passwd.Groups.{
  nmemb_of, Group, min_size, group_fields, parse_group, search_groups, z_getgr_r,
}
use posix_next.Passwd.Members.{
  member_text, AreMembers, nmemb_of-member_text, members_loop-member_text, contains-member_text,
}

-- A line of the file, with the number as it is written.
pub record GroupEntry : Type 0 where
  pub name : CString
  pub passwd : CString
  pub gid : CString
  pub members : List CString

-- The line with what follows it, from the number on, and from the password on.
abbrev line_gid : GroupEntry → CString → CString
line_gid e rest = e.gid ++ (b':' ∷ (member_text e.members ++ rest))

abbrev line_passwd : GroupEntry → CString → CString
line_passwd e rest = e.passwd ++ (b':' ∷ line_gid e rest)

abbrev pub line : GroupEntry → CString → CString
line e rest = e.name ++ (b':' ∷ line_passwd e rest)

abbrev pub print_groups : List GroupEntry → CString
print_groups [] = []
print_groups (e ∷ es) = line e (b'\n' ∷ print_groups es)

abbrev pub IsGroup : ℕ → ℕ → GroupEntry → Type 0
IsGroup pointer bufsize e =
    IsField e.name
    × IsField e.passwd
    × IsField e.gid
    × AreMembers e.members
    × (min_size pointer (length (line e [])) (length e.members) ≤ bufsize)

abbrev pub AreGroups : ℕ → ℕ → List GroupEntry → Type 0
AreGroups pointer bufsize [] = Unit {0}
AreGroups pointer bufsize (e ∷ es) = IsGroup pointer bufsize e × AreGroups pointer bufsize es

line-append : (e : GroupEntry) (s t : CString) → line e s ++ t ≡ line e (s ++ t)
line-append e s t =
    append_assoc e.name (b':' ∷ line_passwd e s) t
    ∙ ap (λ r. e.name ++ (b':' ∷ r))
        (append_assoc e.passwd (b':' ∷ line_gid e s) t
          ∙ ap (λ r. e.passwd ++ (b':' ∷ r))
              (append_assoc e.gid (b':' ∷ (member_text e.members ++ s)) t
                ∙ ap (λ r. e.gid ++ (b':' ∷ r)) (append_assoc (member_text e.members) s t)))

line_newline :
    (pointer bufsize : ℕ) (e : GroupEntry)
    → IsGroup pointer bufsize e
    → contains b'\n' (line e []) ≡ false
line_newline pointer bufsize e (n, p, g, ms, _) =
    contains-append b'\n' e.name (b':' ∷ line_passwd e []) n.1 (
      contains-append b'\n' e.passwd (b':' ∷ line_gid e []) p.1 (
        contains-append b'\n' e.gid (b':' ∷ (member_text e.members ++ [])) g.1 (
          contains-append b'\n' (member_text e.members) [] (contains-member_text e.members ms)
            refl)))

abbrev lines : List GroupEntry → List CString
lines [] = []
lines (e ∷ es) = line e (b'\n' ∷ []) ∷ lines es

length-line : (e : GroupEntry) → length (line e (b'\n' ∷ [])) ≡ length (line e []) + 1
length-line e =
    ap length (sym (line-append e [] (b'\n' ∷ []))) ∙ length-append (line e []) (b'\n' ∷ [])

pieces-print_groups :
    (pointer bufsize : ℕ) (es : List GroupEntry)
    → AreGroups pointer bufsize es
    → pieces bufsize (bufsize - 1) [] (print_groups es) ≡ lines es
unfolding pieces
pieces-print_groups pointer bufsize [] h = refl
pieces-print_groups pointer bufsize (e ∷ es) (h, hs) =
    let (_, _, _, _, fits) = h in
    ap (pieces bufsize (bufsize - 1) []) (sym (line-append e [] (b'\n' ∷ print_groups es)))
    ∙ pieces-line bufsize (bufsize - 1) [] (line e []) (print_groups es)
        (line_newline pointer bufsize e h) (omega (arith, fits))
    ∙ (λ i. line-append e [] (b'\n' ∷ []) i ∷ pieces-print_groups pointer bufsize es hs i)

module _ (atoi : CString → ℤ) (same : ℤ → ℤ → Bool) where
  abbrev pub group : GroupEntry → Group
  group e = record { name = e.name; passwd = e.passwd; gid = atoi e.gid; members = e.members }

  -- The entry is the one that is asked for: by its name, or where there is none by its id.
  abbrev pub is_wanted : Option CString → ℤ → GroupEntry → Bool
  is_wanted none gid e = same (atoi e.gid) gid
  is_wanted (some name) gid e = str_eq e.name name

  abbrev pub first_group : Option CString → ℤ → List GroupEntry → Option Group
  first_group name gid [] = none
  first_group name gid (e ∷ es) =
      if is_wanted name gid e then some (group e) else first_group name gid es

module _ (atoi : CString → ℤ) (same : ℤ → ℤ → Bool) (pointer bufsize : ℕ) where
  parse_group-group_fields :
      (name : Option CString) (gid : ℤ) (n rest : CString)
      → contains b'\n' n ≡ false
      → parse_group atoi same pointer bufsize name gid (n ++ (b':' ∷ rest))
        ≡ group_fields atoi same pointer bufsize name gid (n ++ (b':' ∷ rest))
  unfolding parse_group
  parse_group-group_fields name gid [] rest h = refl
  parse_group-group_fields name gid (c ∷ n) rest h = elim (Bool-cases (c == b'\n')) [
    | inl here ↦ absurd (ground (arith, h, here))
    | inr apart ↦ rw apart refl
  ]

  -- The array and the line fit into the buffer.
  enough :
      (e : GroupEntry)
      → IsGroup pointer bufsize e
      → ltb bufsize (
          min_size pointer
            (length (line e (b'\n' ∷ [])) - length {A = ℕ} [] - 1)
            (nmemb_of (member_text e.members)))
        ≡ false
  enough e (_, _, _, ms, fits) =
      let q : length (line e (b'\n' ∷ [])) - length {A = ℕ} [] - 1 ≡ length (line e []) =
        omega (arith, length-line e) in
      (λ i. ltb bufsize (min_size pointer (q i) (nmemb_of-member_text e.members ms i)))
      ∙ ground (arith, fits)

  group_fields-line :
      (name : Option CString) (gid : ℤ) (e : GroupEntry)
      → IsGroup pointer bufsize e
      → group_fields atoi same pointer bufsize name gid (line e (b'\n' ∷ []))
        ≡ (if is_wanted atoi same name gid e then found (group atoi same e) else continues)
  group_fields-line none gid e h =
      let (n, p, g, ms, _) = h in
      let end : CString = b'\n' ∷ [] in
      rw
        (
          field-append b':' e.name (line_passwd e end) n.0,
          field-append b':' e.passwd (line_gid e end) p.0,
          field-append b':' e.gid (member_text e.members ++ end) g.0,
        )
        (elim (Bool-cases (same (atoi e.gid) gid)) [
          | inl it ↦
              rw
                (
                  it,
                  field-append b'\n' (member_text e.members) [] (contains-member_text e.members ms),
                  enough e h,
                  nmemb_of-member_text e.members ms,
                  members_loop-member_text e.members ms,
                )
                refl
          | inr differs ↦ rw differs refl
        ])
  group_fields-line (some name) gid e h =
      let (n, p, g, ms, _) = h in
      let end : CString = b'\n' ∷ [] in
      rw (field-append b':' e.name (line_passwd e end) n.0)
        (elim (Bool-cases (str_eq e.name name)) [
          | inl it ↦
              rw
                (
                  it,
                  field-append b':' e.passwd (line_gid e end) p.0,
                  field-append b':' e.gid (member_text e.members ++ end) g.0,
                  field-append b'\n' (member_text e.members) [] (contains-member_text e.members ms),
                  enough e h,
                  nmemb_of-member_text e.members ms,
                  members_loop-member_text e.members ms,
                )
                refl
          | inr differs ↦ rw differs refl
        ])

  search_groups-lines :
      (name : Option CString) (gid : ℤ) (es : List GroupEntry)
      → AreGroups pointer bufsize es
      → search_groups atoi same pointer bufsize name gid (lines es)
        ≡ ok (first_group atoi same name gid es)
  unfolding search_groups
  search_groups-lines name gid [] h = refl
  search_groups-lines name gid (e ∷ es) (h, hs) =
      let (n, _, _, _, _) = h in
      let parsed : parse_group atoi same pointer bufsize name gid (line e (b'\n' ∷ []))
          ≡ (if is_wanted atoi same name gid e then found (group atoi same e) else continues) =
        parse_group-group_fields name gid e.name (line_passwd e (b'\n' ∷ [])) n.1
        ∙ group_fields-line name gid e h in
      elim (Bool-cases (is_wanted atoi same name gid e)) [
        | inl it ↦ rw (parsed, it) refl
        | inr differs ↦ rw (parsed, differs) (search_groups-lines name gid es hs)
      ]

  -- A file that has the lines of a list of groups, whose fields have neither colons nor newlines,
  -- whose members have neither commas nor newlines, and each of which fits into the buffer with its
  -- array of members: z_getgr_r finds the first group of the name, or where no name is given the
  -- first one of the id, with its members in order; and none where there is none.
  pub z_getgr_r-first_group :
      (name : Option CString) (gid : ℤ) (es : List GroupEntry)
      → 2 ≤ bufsize
      → AreGroups pointer bufsize es
      → z_getgr_r atoi same pointer bufsize true name gid (some (print_groups es))
        ≡ ok (first_group atoi same name gid es)
  unfolding z_getgr_r
  z_getgr_r-first_group name gid es big h =
      let fits : ltb bufsize 2 ≡ false = ground arith in
      rw (z_getgr_r, fits, pieces-print_groups pointer bufsize es h)
        (search_groups-lines name gid es h)
