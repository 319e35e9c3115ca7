-- ===== src/Passwd/Members.antt =====
-- The list of members at the end of a line of groups, as z_getgr_r of
-- lib/posix/options/system_database_r/system_database_priv.c takes it apart.
use posix_next.Base.{
  contains-append, ◌≢◌, suc, ◌==◌, false, List, [], ◌∷◌, ◌++◌, CString, contains, length, ◌≡◌, refl,
  arith, Bool-cases, inl, inr, ap, ◌∙◌,
}
use mathlib.Core.List.{append-nil}
use posix_next.Passwd.Lines.{field-none, field-append}
use posix_next.Passwd.Groups.{count, nmemb_of, members_loop}

-- The members, with a comma before each but the first.
abbrev pub with_commas : List CString → CString
with_commas [] = []
with_commas (m ∷ ms) = b',' ∷ (m ++ with_commas ms)

abbrev pub member_text : List CString → CString
member_text [] = []
member_text (m ∷ ms) = m ++ with_commas ms

-- A member has bytes, none of them a comma or a newline.
abbrev pub AreMembers : List CString → Type 0
AreMembers [] = Unit {0}
AreMembers (m ∷ ms) =
    (m ≢ []) × (contains b',' m ≡ false) × (contains b'\n' m ≡ false) × AreMembers ms

count-append : (s t : CString) → contains b',' s ≡ false → count (s ++ t) b',' ≡ count t b','
unfolding count
count-append [] t h = refl
count-append (c ∷ s) t h = elim (Bool-cases (c == b',')) [
  | inl here ↦ absurd (ground (arith, h, here))
  | inr apart ↦ rw apart (count-append s t (ground (arith, h, apart)))
]

count-with_commas : (ms : List CString) → AreMembers ms → count (with_commas ms) b',' ≡ length ms
unfolding count
count-with_commas [] h = refl
count-with_commas (m ∷ ms) (_, c, _, hs) =
    ap suc (count-append m (with_commas ms) c ∙ count-with_commas ms hs)

pub nmemb_of-member_text :
    (ms : List CString) → AreMembers ms → nmemb_of (member_text ms) ≡ length ms
nmemb_of-member_text [] h = refl
nmemb_of-member_text ([] ∷ ms) (some_bytes, _, _, _) = absurd (some_bytes refl)
nmemb_of-member_text ((c ∷ m) ∷ ms) (_, no_comma, _, hs) =
    omega (arith, count-append (c ∷ m) (with_commas ms) no_comma, count-with_commas ms hs)

pub members_loop-member_text :
    (ms : List CString) → AreMembers ms → members_loop (length ms) (member_text ms) ≡ ms
unfolding members_loop
members_loop-member_text [] h = refl
members_loop-member_text (m ∷ []) (_, c, _, _) =
    ap (members_loop 1) (append-nil m) ∙ rw (members_loop, field-none b',' m c) refl
members_loop-member_text (m ∷ m' ∷ ms) (_, c, _, hs) =
    rw
      (
        members_loop,
        field-append b',' m (m' ++ with_commas ms) c,
        members_loop-member_text (m' ∷ ms) hs,
      )
      refl

contains-with_commas : (ms : List CString) → AreMembers ms → contains b'\n' (with_commas ms) ≡ false
contains-with_commas [] h = refl
contains-with_commas (m ∷ ms) (_, _, n, hs) =
    contains-append b'\n' m (with_commas ms) n (contains-with_commas ms hs)

pub contains-member_text :
    (ms : List CString) → AreMembers ms → contains b'\n' (member_text ms) ≡ false
contains-member_text [] h = refl
contains-member_text (m ∷ ms) (_, _, n, hs) =
    contains-append b'\n' m (with_commas ms) n (contains-with_commas ms hs)
