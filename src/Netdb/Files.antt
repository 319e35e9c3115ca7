-- ===== src/Netdb/Files.antt =====
-- What the functions on the files of lib/posix/options/networking/netdb_ent.c do to the file that
-- they are called for.
use posix_next.Base.{
  Option-cases, Bool, true, false, ◌&&◌, not, Option, none, some, List, CString, ◌≡◌, refl, ap, ◌∙◌,
  Bool-cases, inl, inr, arith, if◌then◌else◌,
}
use posix_next.Netdb.{
  activate, Db, File, Netdb, same, is_open, put, set_fp, netdb_release, release_other,
  netdb_release_others, netdb_open, netdb_close, netdb_rewind, start_of, lines_of,
}

pub same_refl : (db : Db) → same db db ≡ true
same_refl Db.hosts = refl
same_refl Db.networks = refl
same_refl Db.protocols = refl
same_refl Db.services = refl

pub file-put : (db : Db) (f : File) (w : Netdb) → (put db f w).files db ≡ f
file-put db f w = rw (same_refl db) refl

file-release :
    (db other : Db) (w : Netdb)
    → same db other ≡ false
    → (netdb_release other w).files db ≡ w.files db
unfolding netdb_release
file-release db other w h = elim (Bool-cases (is_open (w.files other))) [
  | inl opened ↦ rw (opened, h) refl
  | inr closed ↦ rw closed refl
]

file-release_other : (db other : Db) (w : Netdb) → (release_other db other w).files db ≡ w.files db
file-release_other db other w =
    elim (Bool-cases
      (is_open (w.files other) && not (same db other) && not (w.files other).stayopen)) [
        | inl released ↦ rw released (
            file-release db other w (
              middle (is_open (w.files other)) (same db other) (not (w.files other).stayopen)
                released))
        | inr kept ↦ rw kept refl
      ]
  where
    middle : (a b c : Bool) → (a && not b && c) ≡ true → b ≡ false
    middle true true c h = cc
    middle false true c h = cc
    middle a false c h = refl

pub file-netdb_release_others :
    (db : Db) (w : Netdb) → (netdb_release_others db w).files db ≡ w.files db
unfolding netdb_release_others
file-netdb_release_others db w =
    let w1 = release_other db Db.hosts w in
    let w2 = release_other db Db.networks w1 in
    let w3 = release_other db Db.protocols w2 in
    file-release_other db Db.services w3
    ∙ file-release_other db Db.protocols w2
    ∙ file-release_other db Db.networks w1
    ∙ file-release_other db Db.hosts w

module _ (content : Db → Option CString) where
  pub start_of-some :
      (db : Db) (bytes : CString)
      → content db ≡ some bytes
      → start_of content db ≡ some (lines_of bytes)
  start_of-some db bytes h = rw (start_of, h) refl

  -- An open file is left as it is; another one is opened at its start.
  pub file-netdb_open :
      (db : Db) (w : Netdb)
      → (netdb_open content db w).files db ≡ (
          if is_open (w.files db)
          then w.files db
          else record { fp = start_of content db; stayopen = (w.files db).stayopen })
  unfolding netdb_open
  file-netdb_open db w = elim (Bool-cases (is_open (w.files db))) [
    | inl opened ↦ rw opened refl
    | inr closed ↦ rw closed (
        file-activate db (set_fp db (start_of content db) (netdb_release_others db w))
        ∙ file-put db _ (netdb_release_others db w)
        ∙ ap (λ f. with_fp (start_of content db) f) (file-netdb_release_others db w))
  ]
    where
      with_fp : Option (List CString) → File → File
      with_fp fp f = record { fp = fp; stayopen = f.stayopen }

      file-activate : (db : Db) (w : Netdb) → (activate content db w).files db ≡ w.files db
      file-activate db w = ground arith

  pub file-netdb_rewind :
      (db : Db) (w : Netdb) (bytes : CString)
      → content db ≡ some bytes
      → (netdb_rewind content db w).files db
        ≡ record { fp = some (lines_of bytes); stayopen = (w.files db).stayopen }
  unfolding netdb_rewind
  file-netdb_rewind db w bytes h =
      let start = start_of-some db bytes h in
      let stays : ((netdb_open content db w).files db).stayopen ≡ (w.files db).stayopen =
        ap (λ f. f.stayopen) (file-netdb_open db w) ∙ ground arith in
      rw (opened db w bytes h) (
        file-put db _ (netdb_open content db w)
        ∙ (λ i. record { fp = start i; stayopen = stays i }))
    where
      opened :
          (db : Db) (w : Netdb) (bytes : CString)
          → content db ≡ some bytes
          → is_open ((netdb_open content db w).files db) ≡ true
      opened db w bytes h =
          ap is_open (file-netdb_open db w) ∙ elim (Bool-cases (is_open (w.files db))) [
            | inl before ↦ rw before before
            | inr closed ↦ rw closed (
                ap (λ fp. is_open (record { fp = fp; stayopen = (w.files db).stayopen }))
                  (start_of-some db bytes h))
          ]

pub file-netdb_close :
    (db : Db) (w : Netdb) (ls : List CString) (b : Bool)
    → w.files db ≡ record { fp = some ls; stayopen = b }
    → (netdb_close db w).files db ≡ record { fp = if b then some ls else none; stayopen = b }
unfolding netdb_close netdb_release
file-netdb_close db w ls true h = rw (netdb_close, h) h
file-netdb_close db w ls false h = rw (netdb_close, netdb_release, h, same_refl db) refl

pub fp-netdb_release : (db : Db) (w : Netdb) → ((netdb_release db w).files db).fp ≡ none
unfolding netdb_release
fp-netdb_release db w = elim (Option-cases (w.files db).fp) [
  | inl closed ↦ rw (closed, is_open, closed) refl
  | inr (ls, opened) ↦ rw (opened, same_refl db) refl
]
