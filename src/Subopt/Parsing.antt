-- ===== src/Subopt/Parsing.antt =====
-- A list of suboptions that is written out is read back by repeated calls of getsubopt,
-- lib/posix/c_lib_ext/getsubopt.c.
use mathlib.Core.Option as LibOption
use posix_next.Base.{
  ◌&&◌, ◌+◌, ◌∙◌, if◌then◌else◌, str_eq, zero, suc, ℕ, ◌≡◌, arith, Bool, true, false, not, Option,
  none, some, List, [], ◌∷◌, ◌++◌, map, ◌==◌, length, CString, contains, refl, ap, subst,
  Bool-cases, inl, inr, ◌||◌,
}
use posix_next.Subopt.{is_key, comma, equals, scan_value, scan, find_key, getsubopt}

-- A suboption as an application writes it: `key` or `key=value`.
pub record Item : Type 0 where
  pub key : CString
  pub value : Option CString

abbrev print_value : Option CString → CString → CString
print_value none tail = tail
print_value (some v) tail = equals ∷ (v ++ tail)

-- Each followed by a comma.
abbrev pub print : List Item → CString
print [] = []
print (it ∷ its) = it.key ++ print_value it.value (comma ∷ print its)

-- A key of one byte or more has no comma and no equals sign, and a value has no comma.
abbrev is_plain_value : Option CString → Bool
is_plain_value none = true
is_plain_value (some v) = not (contains comma v)

abbrev pub IsPlain : Item → Type 0
IsPlain it =
    ((length it.key == 0) ≡ false)
    × (contains comma it.key ≡ false)
    × (contains equals it.key ≡ false)
    × (is_plain_value it.value ≡ true)

abbrev pub AllPlain : List Item → Type 0
AllPlain [] = Unit {0}
AllPlain (it ∷ its) = IsPlain it × AllPlain its

-- The results of `n` calls, each of which goes on where the one before stopped.
unfoldable pub calls : List CString → ℕ → CString → List (Option ℕ × Option CString)
calls keylist zero s = []
calls keylist (suc n) s = let r = getsubopt keylist s in (r.index, r.value) ∷ calls keylist n r.rest

-- Where a key first stands in the key list, counted from 0.
abbrev pub position : CString → List CString → Option ℕ
position key [] = none
position key (k ∷ ks) = if str_eq key k then some 0 else LibOption.map suc (position key ks)

abbrev pub meaning : List CString → Item → Option ℕ × Option CString
meaning keylist it = (position it.key keylist, it.value)

is_key-str_eq : (s k : CString) → is_key s k ≡ str_eq s k
unfolding is_key
is_key-str_eq [] [] = refl
is_key-str_eq [] (d ∷ k) = refl
is_key-str_eq (c ∷ s) [] = refl
is_key-str_eq (c ∷ s) (d ∷ k) = ap (λ b. (c == d) && b) (is_key-str_eq s k)

abbrev offset_by : ℕ → Option ℕ → Option ℕ
offset_by i none = none
offset_by i (some j) = some (i + j)

offset_by-suc : (i : ℕ) (o : Option ℕ) → offset_by (i + 1) o ≡ offset_by i (LibOption.map suc o)
offset_by-suc i none = refl
offset_by-suc i (some j) = ap some (omega arith)

find_key-offset_by :
    (key : CString) (ks : List CString) (i : ℕ) → find_key key ks i ≡ offset_by i (position key ks)
unfolding find_key
find_key-offset_by key [] i = refl
find_key-offset_by key (k ∷ ks) i = elim (Bool-cases (str_eq key k)) [
  | inl same ↦ rw (is_key-str_eq key k, same) (ap some (omega arith))
  | inr other ↦
      rw (is_key-str_eq key k, other)
        (find_key-offset_by key ks (i + 1) ∙ offset_by-suc i (position key ks))
]

offset_by_zero : (o : Option ℕ) → offset_by 0 o ≡ o
offset_by_zero none = refl
offset_by_zero (some j) = ap some (omega arith)

find_key-position : (key : CString) (ks : List CString) → find_key key ks 0 ≡ position key ks
find_key-position key ks = find_key-offset_by key ks 0 ∙ offset_by_zero (position key ks)

without :
    (x c : ℕ) (v : CString)
    → contains x (c ∷ v) ≡ false
    → ((c == x) ≡ false) × (contains x v ≡ false)
without x c v h = elim (Bool-cases (c == x)) [
  | inl e ↦ absurd (ground (arith, h, e))
  | inr e ↦ (e, subst (λ b. (b || contains x v) ≡ false) e h)
]

scan_value-comma :
    (v s : CString)
    → contains comma v ≡ false
    → scan_value (v ++ (comma ∷ s)) ≡ record { key = []; value = some v; rest = s }
unfolding scan_value
scan_value-comma [] s h = refl
scan_value-comma (c ∷ v) s h =
    rw ((without comma c v h).0, scan_value-comma v s (without comma c v h).1)

scan_key-comma :
    (k s : CString)
    → contains comma k ≡ false
    → contains equals k ≡ false
    → scan (k ++ (comma ∷ s)) ≡ record { key = k; value = none; rest = s }
unfolding scan
scan_key-comma [] s h g = refl
scan_key-comma (c ∷ k) s h g = rw (
  (without equals c k g).0,
  (without comma c k h).0,
  scan_key-comma k s (without comma c k h).1 (without equals c k g).1,
)

scan_key-equals :
    (k v s : CString)
    → contains comma k ≡ false
    → contains equals k ≡ false
    → contains comma v ≡ false
    → scan (k ++ (equals ∷ (v ++ (comma ∷ s)))) ≡ record { key = k; value = some v; rest = s }
unfolding scan
scan_key-equals [] v s h g w = scan_value-comma v s w
scan_key-equals (c ∷ k) v s h g w = rw (
  (without equals c k g).0,
  (without comma c k h).0,
  scan_key-equals k v s (without comma c k h).1 (without equals c k g).1 w,
)

scan-print_value :
    (k : CString) (v : Option CString) (s : CString)
    → contains comma k ≡ false
    → contains equals k ≡ false
    → is_plain_value v ≡ true
    → scan (k ++ print_value v (comma ∷ s)) ≡ record { key = k; value = v; rest = s }
scan-print_value k none s h g w = scan_key-comma k s h g
scan-print_value k (some v) s h g w = scan_key-equals k v s h g (ground (arith, w))

-- A list of items whose keys are not empty and whose keys and values have no separators, printed
-- with a comma after each item, is read back: as many calls of getsubopt as there are items give, in
-- their order, the position at which each key first stands in the key list, or -1 where it is not
-- there, and its value.
pub calls-print :
    (keylist : List CString) (its : List Item)
    → AllPlain its
    → calls keylist (length its) (print its) ≡ map (meaning keylist) its
unfolding calls getsubopt
calls-print keylist [] h = refl
calls-print keylist (it ∷ its) h =
    rw
      (
        scan-print_value it.key it.value (print its) h.0.1 h.0.2 h.0.3,
        h.0.0,
        find_key-position it.key keylist,
      )
      (ap (λ rs. meaning keylist it ∷ rs) (calls-print keylist its h.1))
