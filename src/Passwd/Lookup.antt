-- ===== src/Passwd/Lookup.antt =====
-- What z_getpw_r of lib/posix/options/system_database_r/system_database_priv.c finds in a file that
-- has the lines of a list of users.
use posix_next.Base.{
  ℕ, ◌≤◌, ◌≡◌, arith, Bool, true, false, ◌==◌, ltb, Bool-cases, inl, inr, Option, none, some, List,
  [], ◌∷◌, ◌++◌, if◌then◌else◌, CString, contains, str_eq, refl, ap, ◌∙◌, ok, ℤ,
}
use posix_next.Passwd.{Passwd, continues, found, fields, parse, search_lines, z_getpw_r}
use posix_next.Passwd.Lines.{
  Entry, body, print, IsEntry, AreEntries, lines, line_dir, line_gecos, line_gid, line_uid,
  line_passwd, field-append, pieces-print, body-append,
}

module _ (atoi : CString → ℤ) (same : ℤ → ℤ → Bool) where
  abbrev pub user : Entry → Passwd
  user e = record {
    name = e.name;
    passwd = e.passwd;
    uid = atoi e.uid;
    gid = atoi e.gid;
    gecos = e.gecos;
    dir = e.dir;
    shell = e.shell;
  }

  -- The entry is the one that is asked for: by its name, or where there is none by its id.
  abbrev pub is_wanted : Option CString → ℤ → Entry → Bool
  is_wanted none id e = same (atoi e.uid) id
  is_wanted (some name) id e = str_eq e.name name

  abbrev pub first_wanted : Option CString → ℤ → List Entry → Option Passwd
  first_wanted name id [] = none
  first_wanted name id (e ∷ es) =
      if is_wanted name id e then some (user e) else first_wanted name id es

  parse-fields :
      (name : Option CString) (id : ℤ) (n rest : CString)
      → contains 10 n ≡ false
      → parse atoi same name id (n ++ (58 ∷ rest)) ≡ fields atoi same name id (n ++ (58 ∷ rest))
  unfolding parse
  parse-fields name id [] rest h = refl
  parse-fields name id (c ∷ n) rest h = elim (Bool-cases (c == 10)) [
    | inl here ↦ absurd (ground (arith, h, here))
    | inr apart ↦ rw apart refl
  ]

  fields-line :
      (bufsize : ℕ) (name : Option CString) (id : ℤ) (e : Entry)
      → IsEntry bufsize e
      → fields atoi same name id (e.name ++ (58 ∷ line_passwd e))
        ≡ (if is_wanted name id e then found (user e) else continues)
  fields-line bufsize none id e (n, p, u, g, c, d, s, l) =
      rw
        (
          field-append 58 e.name (line_passwd e) n.0,
          field-append 58 e.passwd (line_uid e) p.0,
          field-append 58 e.uid (line_gid e) u.0,
        )
        (elim (Bool-cases (same (atoi e.uid) id)) [
          | inl it ↦
              rw
                (
                  it,
                  field-append 58 e.gid (line_gecos e) g.0,
                  field-append 58 e.gecos (line_dir e) c.0,
                  field-append 58 e.dir (e.shell ++ (10 ∷ [])) d.0,
                  field-append 10 e.shell [] s.1,
                )
                refl
          | inr differs ↦ rw differs refl
        ])
  fields-line bufsize (some name) id e (n, p, u, g, c, d, s, l) =
      rw (field-append 58 e.name (line_passwd e) n.0) (elim (Bool-cases (str_eq e.name name)) [
        | inl it ↦
            rw
              (
                it,
                field-append 58 e.passwd (line_uid e) p.0,
                field-append 58 e.uid (line_gid e) u.0,
                field-append 58 e.gid (line_gecos e) g.0,
                field-append 58 e.gecos (line_dir e) c.0,
                field-append 58 e.dir (e.shell ++ (10 ∷ [])) d.0,
                field-append 10 e.shell [] s.1,
              )
              refl
        | inr differs ↦ rw differs refl
      ])

  search_lines-lines :
      (bufsize : ℕ) (name : Option CString) (id : ℤ) (es : List Entry)
      → AreEntries bufsize es
      → search_lines atoi same name id (lines es) ≡ ok (first_wanted name id es)
  unfolding search_lines
  search_lines-lines bufsize name id [] h = refl
  search_lines-lines bufsize name id (e ∷ es) (h, hs) =
      let (n, _, _, _, _, _, _, _) = h in
      let parsed : parse atoi same name id (body e ++ (10 ∷ []))
          ≡ (if is_wanted name id e then found (user e) else continues) =
        ap (parse atoi same name id) (body-append e)
        ∙ parse-fields name id e.name (line_passwd e) n.1
        ∙ fields-line bufsize name id e h in
      elim (Bool-cases (is_wanted name id e)) [
        | inl it ↦ rw (parsed, it) refl
        | inr differs ↦ rw (parsed, differs) (search_lines-lines bufsize name id es hs)
      ]

  -- A file that has the lines of a list of users, whose fields have neither colons nor newlines and
  -- whose lines fit into the buffer: z_getpw_r finds the first user of the name, or where no name is
  -- given the first one of the id, with the fields of its line; and none where there is none.
  pub z_getpw_r-first_wanted :
      (name : Option CString) (id : ℤ) (bufsize : ℕ) (es : List Entry)
      → 2 ≤ bufsize
      → AreEntries bufsize es
      → z_getpw_r atoi same true name id bufsize (some (print es)) ≡ ok (first_wanted name id es)
  unfolding z_getpw_r
  z_getpw_r-first_wanted name id bufsize es big h =
      let fits : ltb bufsize 2 ≡ false = ground arith in
      rw (z_getpw_r, fits, pieces-print bufsize es h) (search_lines-lines bufsize name id es h)
