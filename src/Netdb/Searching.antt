-- ===== src/Netdb/Searching.antt =====
-- What the searches of lib/posix/options/networking/netdb_ent.c find.
use posix_next.Netdb.Columns.{trim_newline, is_comment_or_blank}
use posix_next.Base.{
  Option-cases, inr, inl, if◌then◌else◌, Bool-cases, Bool, true, false, Option, none, some, List,
  [], ◌∷◌, CString, ◌≡◌, refl,
}
use posix_next.Netdb.{is_open, Db, Netdb, lines_of, netdb_rewind}
use posix_next.Netdb.Queries.{read_entry, scan}
use posix_next.Netdb.Files.{same_refl, file-netdb_rewind}
use posix_next.Netdb.Enumerating.{entries}

module _ {ℓ} {A : Type ℓ} where
  abbrev pub find : (A → Bool) → List A → Option A
  find accept [] = none
  find accept (e ∷ es) = if accept e then some e else find accept es

module _ {ℓ} {A : Type ℓ} (parse : CString → Option A) where
  read_entry-find :
      (accept : A → Bool) (ls : List CString)
      → (read_entry parse accept ls).0 ≡ find accept (entries parse ls)
  unfolding read_entry
  read_entry-find accept [] = refl
  read_entry-find accept (l ∷ ls) = elim (Bool-cases (is_comment_or_blank (trim_newline l))) [
    | inl skipped ↦ rw skipped (read_entry-find accept ls)
    | inr read ↦ elim (Option-cases (parse (trim_newline l))) [
      | inl bad ↦ rw (read, bad) (read_entry-find accept ls)
      | inr (e, good) ↦
          rw (read, good)
            (elim (Bool-cases (accept e)) [
              | inl it ↦ rw it refl
              | inr differs ↦ rw differs (read_entry-find accept ls)
            ])
    ]
  ]

module _ {ℓ} {A : Type ℓ} (content : Db → Option CString) (parse : CString → Option A) where
  open_if :
      (b : Bool) (ls : List CString)
      → is_open (record { fp = if b then some ls else none; stayopen = b }) ≡ b
  open_if true ls = refl
  open_if false ls = refl

  -- In every state, a search of a file that can be opened goes through all of it and yields the
  -- first entry that is accepted, and the file is open after it if it is to stay open.
  pub scan-find :
      (db : Db) (accept : A → Bool) (w : Netdb) (bytes : CString)
      → content db ≡ some bytes
      → ((scan content parse db accept w).0 ≡ find accept (entries parse (lines_of bytes)))
        × (is_open ((scan content parse db accept w).1.files db) ≡ (w.files db).stayopen)
  unfolding scan
  scan-find db accept w bytes h =
      let w' = netdb_rewind content db w in
      let rewound = file-netdb_rewind content db w bytes h in
      (
        rw (scan, rewound) (read_entry-find parse accept (lines_of bytes)),
        rw (scan, rewound, same_refl db)
            (open_if (w.files db).stayopen (read_entry parse accept (lines_of bytes)).1),
      )
