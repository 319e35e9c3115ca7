-- ===== src/Netdb/Enumerating.antt =====
-- The calls that go through a file of lib/posix/options/networking/netdb_ent.c entry by entry.
use posix_next.Base.{
  Option-cases, inr, Bool-cases, replicate, zero, inl, suc, if◌then◌else◌, ◌⊎◌, ℕ, Bool, true,
  false, Option, none, some, List, [], ◌∷◌, CString, ◌≡◌, refl, ap, sym, ◌∙◌,
}
use posix_next.Netdb.{netdb_release, set_stayopen, set_fp, Db, Netdb, lines_of, netdb_open}
use posix_next.Netdb.Queries.{endent, read_entry, after_read, getent, setent}
use posix_next.Netdb.Columns.{is_comment_or_blank, trim_newline}
use posix_next.Netdb.Files.{
  fp-netdb_release, start_of-some, file-put, file-netdb_open, file-netdb_rewind, file-netdb_close,
}

module _ {ℓ} {A : Type ℓ} where
  abbrev and_others : Option A → List A → List A
  and_others none es = es
  and_others (some e) es = e ∷ es

  abbrev pub any : A → Bool
  any e = true

  abbrev pub first_entry : List A → Option A
  first_entry [] = none
  first_entry (e ∷ es) = some e

  -- The entries in their order, and NULL after the last one.
  abbrev pub listing : ℕ → List A → List (Option A)
  listing zero es = []
  listing (suc n) [] = none ∷ listing n []
  listing (suc n) (e ∷ es) = some e ∷ listing n es

module _ {ℓ} {A : Type ℓ} (parse : CString → Option A) where
  -- The entries of a file: those of its lines that are no comments and that parse.
  abbrev pub entries : List CString → List A
  entries [] = []
  entries (l ∷ ls) =
      let line = trim_newline l in
      if is_comment_or_blank line then entries ls else and_others (parse line) (entries ls)

  -- The first entry, and the entries after it.
  pub read_entry-entries :
      (ls : List CString)
      → ((entries ls ≡ []) × (read_entry parse any ls ≡ (none, [])))
        ⊎ ((e : A) × (ls' : List CString) × (entries ls ≡ e ∷ entries ls')
            × (read_entry parse any ls ≡ (some e, ls')))
  unfolding read_entry
  read_entry-entries [] = inl (refl, refl)
  read_entry-entries (l ∷ ls) = elim (Bool-cases (is_comment_or_blank (trim_newline l))) [
    | inl skipped ↦ rw skipped (read_entry-entries ls)
    | inr read ↦ elim (Option-cases (parse (trim_newline l))) [
      | inl bad ↦ rw (read, bad) (read_entry-entries ls)
      | inr (e, good) ↦ rw (read, good) (inr (e, ls, refl, refl))
    ]
  ]

module _ {ℓ} {A : Type ℓ} (content : Db → Option CString) (parse : CString → Option A) where
  after_read-file :
      (db : Db) (w : Netdb) (ls : List CString) (b : Bool) (r : Option A × List CString)
      → w.files db ≡ record { fp = some ls; stayopen = b }
      → ((after_read content parse db w r).0 ≡ r.0)
        × ((after_read content parse db w r).1.files db
            ≡ record { fp = if b then some r.1 else none; stayopen = b })
  after_read-file db w ls b (none, rest) h = (
    refl,
    file-netdb_close db (set_fp db (some rest) w) rest b
        (file-put db _ w ∙ ap (λ f. record { fp = some rest; stayopen = f.stayopen }) h),
  )
  after_read-file db w ls b (some e, rest) h = (
    refl,
    file-put db _ w
        ∙ ap (λ f. record { fp = if f.stayopen then some rest else none; stayopen = f.stayopen }) h,
  )

  getent-read_entry :
      (db : Db) (w : Netdb) (ls : List CString) (b : Bool)
      → (netdb_open content db w).files db ≡ record { fp = some ls; stayopen = b }
      → let r = read_entry parse any ls in
        ((getent content parse db w).0 ≡ r.0)
        × ((getent content parse db w).1.files db
            ≡ record { fp = if b then some r.1 else none; stayopen = b })
  unfolding getent
  getent-read_entry db w ls b h =
      rw (getent, h) (after_read-file db (netdb_open content db w) ls b (read_entry parse any ls) h)

  read_entry-first_entry :
      (ls : List CString) → (read_entry parse any ls).0 ≡ first_entry (entries parse ls)
  read_entry-first_entry ls = elim (read_entry-entries parse ls) [
    | inl (no_more, r) ↦ rw (no_more, r) refl
    | inr (e, ls', more, r) ↦ rw (more, r) refl
  ]

  -- What the calls of a program yield, one after the other.
  abbrev pub calls : ℕ → Db → Netdb → List (Option A)
  calls zero db w = []
  calls (suc n) db w = let (e, w') = getent content parse db w in e ∷ calls n db w'

  -- A file that stays open goes on from where it is.
  calls-listing :
      (n : ℕ) (db : Db) (w : Netdb) (ls : List CString)
      → w.files db ≡ record { fp = some ls; stayopen = true }
      → calls n db w ≡ listing n (entries parse ls)
  calls-listing zero db w ls h = refl
  calls-listing (suc n) db w ls h =
      let opened : (netdb_open content db w).files db ≡ record { fp = some ls; stayopen = true } =
        file-netdb_open content db w ∙ rw h refl in
      let (result, next) = getent-read_entry db w ls true opened in
      elim (read_entry-entries parse ls) [
        | inl (no_more, r) ↦
            (λ i.
              (result ∙ ap (λ p. p.0) r) i
              ∷ calls-listing n db (getent content parse db w).1 []
                  (next ∙ ap (λ p. record { fp = some p.1; stayopen = true }) r) i)
            ∙ sym (ap (listing (suc n)) no_more)
        | inr (e, ls', more, r) ↦
            (λ i.
              (result ∙ ap (λ p. p.0) r) i
              ∷ calls-listing n db (getent content parse db w).1 ls'
                  (next ∙ ap (λ p. record { fp = some p.1; stayopen = true }) r) i)
            ∙ sym (ap (listing (suc n)) more)
      ]

  -- A file that does not stay open is read from its start by every call.
  calls-first :
      (n : ℕ) (db : Db) (w : Netdb) (bytes : CString)
      → content db ≡ some bytes
      → w.files db ≡ record { fp = none; stayopen = false }
      → calls n db w ≡ replicate n (first_entry (entries parse (lines_of bytes)))
  calls-first zero db w bytes hb h = refl
  calls-first (suc n) db w bytes hb h =
      let opened : (netdb_open content db w).files db
          ≡ record { fp = some (lines_of bytes); stayopen = false } =
        file-netdb_open content db w
        ∙ rw h
            (ap (λ fp. record { fp = fp; stayopen = false }) (start_of-some content db bytes hb)) in
      let (result, next) = getent-read_entry db w (lines_of bytes) false opened in
      let found = result ∙ read_entry-first_entry (lines_of bytes) in
      λ i. found i ∷ calls-first n db (getent content parse db w).1 bytes hb next i

  -- After set*ent(1), where the file can be opened, the calls of get*ent yield the entries of the
  -- file in their order and NULL after the last one. After end*ent, where the file does not stay
  -- open, every call yields the first entry.
  pub getent-enumerates :
      (n : ℕ) (db : Db) (w : Netdb) (bytes : CString)
      → content db ≡ some bytes
      → (calls n db (setent content db true w) ≡ listing n (entries parse (lines_of bytes)))
        × (calls n db (endent db w) ≡ replicate n (first_entry (entries parse (lines_of bytes))))
  unfolding setent endent
  getent-enumerates n db w bytes h = (
    calls-listing n db (setent content db true w) (lines_of bytes) (
        file-netdb_rewind content db (set_stayopen db true w) bytes h
        ∙ ap (λ f. record { fp = some (lines_of bytes); stayopen = f.stayopen }) (file-put db _ w)),
    calls-first n db (endent db w) bytes h (
        file-put db _ (netdb_release db w)
        ∙ ap (λ fp. record { fp = fp; stayopen = false }) (fp-netdb_release db w)),
  )
