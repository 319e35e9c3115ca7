-- ===== src/Passwd/Lines.antt =====
-- The lines of a file of users, and how the loop of z_getpw_r in
-- lib/posix/options/system_database_r/system_database_priv.c reads them.
use posix_next.Base.{
  none, contains-append, ℕ, ◌+◌, ◌-◌, ◌<◌, ◌≡◌, arith, true, false, ◌==◌, ltb, Bool-cases, inl, inr,
  some, List, [], ◌∷◌, ◌++◌, CString, contains, length, refl, ap, ◌∙◌,
}
use mathlib.Core.List.{append_assoc}
use posix_next.Passwd.{pieces, field}

-- A line of the file, with the numbers as they are written.
pub record Entry : Type 0 where
  pub name : CString
  pub passwd : CString
  pub uid : CString
  pub gid : CString
  pub gecos : CString
  pub dir : CString
  pub shell : CString

abbrev pub from_dir : Entry → CString
from_dir e = e.dir ++ (58 ∷ e.shell)

abbrev pub from_gecos : Entry → CString
from_gecos e = e.gecos ++ (58 ∷ from_dir e)

abbrev pub from_gid : Entry → CString
from_gid e = e.gid ++ (58 ∷ from_gecos e)

abbrev pub from_uid : Entry → CString
from_uid e = e.uid ++ (58 ∷ from_gid e)

abbrev pub from_passwd : Entry → CString
from_passwd e = e.passwd ++ (58 ∷ from_uid e)

abbrev pub body : Entry → CString
body e = e.name ++ (58 ∷ from_passwd e)

abbrev pub print : List Entry → CString
print [] = []
print (e ∷ es) = body e ++ (10 ∷ print es)

-- A field has neither a colon nor a newline.
abbrev pub IsField : CString → Type 0
IsField s = (contains 58 s ≡ false) × (contains 10 s ≡ false)

abbrev pub IsEntry : ℕ → Entry → Type 0
IsEntry bufsize e =
    IsField e.name
    × IsField e.passwd
    × IsField e.uid
    × IsField e.gid
    × IsField e.gecos
    × IsField e.dir
    × IsField e.shell
    × (length (body e) + 1 < bufsize)

abbrev pub AreEntries : ℕ → List Entry → Type 0
AreEntries bufsize [] = Unit {0}
AreEntries bufsize (e ∷ es) = IsEntry bufsize e × AreEntries bufsize es

pub field-append :
    (sep : ℕ) (f rest : CString)
    → contains sep f ≡ false
    → field sep (f ++ (sep ∷ rest)) ≡ some (f, rest)
unfolding field
field-append sep [] rest h = ground arith
field-append sep (c ∷ f) rest h = elim (Bool-cases (c == sep)) [
  | inl here ↦ absurd (ground (arith, h, here))
  | inr apart ↦ rw (apart, field-append sep f rest (ground (arith, h, apart))) refl
]

pub field-none : (sep : ℕ) (s : CString) → contains sep s ≡ false → field sep s ≡ none
unfolding field
field-none sep [] h = refl
field-none sep (c ∷ s) h = elim (Bool-cases (c == sep)) [
  | inl here ↦ absurd (ground (arith, h, here))
  | inr apart ↦ rw (apart, field-none sep s (ground (arith, h, apart))) refl
]

-- A line that fits into the buffer is read in one piece.
pub pieces-line :
    (size left : ℕ) (read line rest : CString)
    → contains 10 line ≡ false
    → length line < left
    → pieces size left read (line ++ (10 ∷ rest))
      ≡ (read ++ (line ++ (10 ∷ []))) ∷ pieces size (size - 1) [] rest
unfolding pieces
pieces-line size left [] [] rest h l = refl
pieces-line size left (b ∷ read) [] rest h l = refl
pieces-line size left read (c ∷ line) rest h l = elim (Bool-cases (c == 10)) [
  | inl here ↦ absurd (ground (arith, h, here))
  | inr apart ↦
      let more : ltb 1 left ≡ true = ground arith in
      rw (apart, more)
        (pieces-line size (left - 1) (read ++ (c ∷ [])) line rest (ground (arith, h, apart))
            (omega (arith, l))
          ∙ ap (λ r. r ∷ pieces size (size - 1) [] rest)
              (append_assoc read (c ∷ []) (line ++ (10 ∷ []))))
]

abbrev pub lines : List Entry → List CString
lines [] = []
lines (e ∷ es) = (body e ++ (10 ∷ [])) ∷ lines es

body-line : (bufsize : ℕ) (e : Entry) → IsEntry bufsize e → contains 10 (body e) ≡ false
body-line bufsize e (n, p, u, g, c, d, s, l) = contains-append 10 e.name (58 ∷ from_passwd e) n.1 (
    contains-append 10 e.passwd (58 ∷ from_uid e) p.1 (
      contains-append 10 e.uid (58 ∷ from_gid e) u.1 (
        contains-append 10 e.gid (58 ∷ from_gecos e) g.1 (
          contains-append 10 e.gecos (58 ∷ from_dir e) c.1
            (contains-append 10 e.dir (58 ∷ e.shell) d.1 s.1)))))

pub pieces-print :
    (bufsize : ℕ) (es : List Entry)
    → AreEntries bufsize es
    → pieces bufsize (bufsize - 1) [] (print es) ≡ lines es
unfolding pieces
pieces-print bufsize [] h = refl
pieces-print bufsize (e ∷ es) (h, hs) =
    let (_, _, _, _, _, _, _, l) = h in
    pieces-line bufsize (bufsize - 1) [] (body e) (print es) (body-line bufsize e h)
      (omega (arith, l))
    ∙ ap (λ ls. (body e ++ (10 ∷ [])) ∷ ls) (pieces-print bufsize es hs)

-- The line from a field on, with its newline.
abbrev pub line_dir : Entry → CString
line_dir e = e.dir ++ (58 ∷ (e.shell ++ (10 ∷ [])))

abbrev pub line_gecos : Entry → CString
line_gecos e = e.gecos ++ (58 ∷ line_dir e)

abbrev pub line_gid : Entry → CString
line_gid e = e.gid ++ (58 ∷ line_gecos e)

abbrev pub line_uid : Entry → CString
line_uid e = e.uid ++ (58 ∷ line_gid e)

abbrev pub line_passwd : Entry → CString
line_passwd e = e.passwd ++ (58 ∷ line_uid e)

append-field :
    (f rest rest' : CString)
    → rest ++ (10 ∷ []) ≡ rest'
    → (f ++ (58 ∷ rest)) ++ (10 ∷ []) ≡ f ++ (58 ∷ rest')
append-field f rest rest' h = append_assoc f (58 ∷ rest) (10 ∷ []) ∙ ap (λ r. f ++ (58 ∷ r)) h

pub body-append : (e : Entry) → body e ++ (10 ∷ []) ≡ e.name ++ (58 ∷ line_passwd e)
body-append e = append-field e.name (from_passwd e) (line_passwd e) (
    append-field e.passwd (from_uid e) (line_uid e) (
      append-field e.uid (from_gid e) (line_gid e) (
        append-field e.gid (from_gecos e) (line_gecos e) (
          append-field e.gecos (from_dir e) (line_dir e)
            (append-field e.dir e.shell (e.shell ++ (10 ∷ [])) refl)))))
