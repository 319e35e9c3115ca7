-- ===== src/Signal/Mapping.antt =====
-- Signal numbers of the C library and of the kernel, lib/posix/options/shared/z_sig_set.c. The
-- numbers of both are not part of the repository: `names` has the pairs of a SIG and its K_SIG
-- value in the order of the tables, with 32 and 33 at the end.
use posix_next.Base.{
  ℕ, zero, suc, ◌+◌, ◌-◌, ◌≤◌, ◌<◌, ◌≡◌, ◌⊎◌, arith, Bool, false, ◌&&◌, ◌||◌, Bool-cases, inl, inr,
  List, [], ◌∷◌, ◌==◌, ltb, leb, if◌then◌else◌, length, get_or, set, replicate, refl, subst, sym,
  ◌∙◌, ℤ, pos, negsuc,
}

pub record Numbers : Type 0 where
  pub names : List (ℕ × ℕ)
  pub rtmin : ℕ
  pub rtmax : ℕ
  pub k_rtmin : ℕ
  pub k_num_rt : ℕ

-- Z_SIG_STD_MAP_MAX
abbrev pub std_map_max : ℕ
std_map_max = 33

-- The designated initialisers of a table, one after another.
unfoldable pub fill : List (ℕ × ℕ) → List ℕ → List ℕ
fill [] t = t
fill ((p, k) ∷ ps) t = fill ps (set t p k)

abbrev pub swap : List (ℕ × ℕ) → List (ℕ × ℕ)
swap [] = []
swap ((p, k) ∷ ps) = (k, p) ∷ swap ps

unfoldable pub posix_to_k_std : Numbers → List ℕ
unfolding fill
posix_to_k_std n = fill n.names (replicate (std_map_max + 1) 0)

unfoldable pub k_to_posix_std : Numbers → List ℕ
unfolding fill
k_to_posix_std n = fill (swap n.names) (replicate (std_map_max + 1) 0)

unfoldable pub z_sig_map : ℤ → List ℕ → ℕ → ℕ → ℕ → ℤ
z_sig_map (negsuc n) std_map rt_lo rt_hi rt_dst_base = negsuc 0
z_sig_map (pos signo) std_map rt_lo rt_hi rt_dst_base =
    if leb rt_lo signo && leb signo rt_hi
    then pos (signo - rt_lo + rt_dst_base)
    else (if ltb std_map_max signo then negsuc 0 else pos (get_or std_map signo 0))

unfoldable pub z_sig_from_posix : Numbers → ℤ → ℤ
unfolding z_sig_map
z_sig_from_posix n sig = z_sig_map sig (posix_to_k_std n) n.rtmin n.rtmax n.k_rtmin

unfoldable pub z_sig_to_posix : Numbers → ℤ → ℤ
unfolding z_sig_map
z_sig_to_posix n sig = z_sig_map sig (k_to_posix_std n) n.k_rtmin (n.k_rtmin + n.k_num_rt) n.rtmin

-- What the two libraries' numbers must be: within the tables, different for different names on
-- either side, real-time signals above the tables, and at least as many of the kernel's.
abbrev pub has_first : ℕ → List (ℕ × ℕ) → Bool
has_first a [] = false
has_first a ((p, k) ∷ ps) = (p == a) || has_first a ps

abbrev pub Distinct : List (ℕ × ℕ) → Type 0
Distinct [] = Unit {0}
Distinct ((p, k) ∷ ps) = (has_first p ps ≡ false) × (p ≤ std_map_max) × Distinct ps

pub record Consistent (n : Numbers) : Type 0 where
  pub posix_names : Distinct n.names
  pub k_names : Distinct (swap n.names)
  pub above : std_map_max < n.k_rtmin
  pub enough : n.rtmax - n.rtmin ≤ n.k_num_rt

abbrev In : ℕ → ℕ → List (ℕ × ℕ) → Type 0
In a b [] = ⊥
In a b ((p, k) ∷ ps) = ((p ≡ a) × (k ≡ b)) ⊎ In a b ps

In-swap : (a b : ℕ) (ps : List (ℕ × ℕ)) → In a b ps → In b a (swap ps)
In-swap a b [] h = absurd h
In-swap a b ((p, k) ∷ ps) (inl e) = inl (e.1, e.0)
In-swap a b ((p, k) ∷ ps) (inr h) = inr (In-swap a b ps h)

length-set_number : (t : List ℕ) (i v : ℕ) → length (set t i v) ≡ length t
length-set_number [] i v = refl
length-set_number (x ∷ t) zero v = omega arith
length-set_number (x ∷ t) (suc i) v = omega (arith, length-set_number t i v)

get_or-set_number :
    (t : List ℕ) (i j v : ℕ)
    → j < length t
    → get_or (set t i v) j 0 ≡ (if i == j then v else get_or t j 0)
get_or-set_number [] i j v h = absurd (omega arith)
get_or-set_number (x ∷ t) zero zero v h = ground arith
get_or-set_number (x ∷ t) zero (suc j) v h = ground arith
get_or-set_number (x ∷ t) (suc i) zero v h = ground arith
get_or-set_number (x ∷ t) (suc i) (suc j) v h = ground (arith, get_or-set_number t i j v)

get_or-fill_absent :
    (ps : List (ℕ × ℕ)) (t : List ℕ) (a : ℕ)
    → has_first a ps ≡ false
    → a < length t
    → get_or (fill ps t) a 0 ≡ get_or t a 0
unfolding fill
get_or-fill_absent [] t a h l = refl
get_or-fill_absent ((p, k) ∷ ps) t a h l =
    ground (
      arith,
      get_or-fill_absent ps (set t p k) a,
      length-set_number t p k,
      get_or-set_number t p a k,
    )

get_or-fill-In :
    (ps : List (ℕ × ℕ)) (t : List ℕ) (a b : ℕ)
    → Distinct ps
    → In a b ps
    → std_map_max < length t
    → get_or (fill ps t) a 0 ≡ b
unfolding fill
get_or-fill-In [] t a b d h l = absurd h
get_or-fill-In ((p, k) ∷ ps) t a b d (inl e) l =
    let gone : has_first a ps ≡ false = subst (λ x. has_first x ps ≡ false) e.0 d.0 in
    let small : a < length t = omega (arith, l, e.0, d.1) in
    get_or-fill_absent ps (set t p k) a gone (omega (arith, small, length-set_number t p k))
    ∙ get_or-set_number t p a k small
    ∙ ground (arith, e.0, e.1)
get_or-fill-In ((p, k) ∷ ps) t a b d (inr h) l =
    get_or-fill-In ps (set t p k) a b d.2 h (omega (arith, length-set_number t p k))

In-fill :
    (ps : List (ℕ × ℕ)) (t : List ℕ) (a : ℕ)
    → a < length t
    → In a (get_or (fill ps t) a 0) ps ⊎ (get_or (fill ps t) a 0 ≡ get_or t a 0)
unfolding fill
In-fill [] t a l = inr refl
In-fill ((p, k) ∷ ps) t a l =
    elim (In-fill ps (set t p k) a (omega (arith, l, length-set_number t p k))) [
      | inl h ↦ inl (inr h)
      | inr h ↦ elim (Bool-cases (p == a)) [
        | inl here ↦ inl (inl (ground arith, sym (h ∙ get_or-set_number t p a k l ∙ rw here refl)))
        | inr there ↦ inr (h ∙ get_or-set_number t p a k l ∙ rw there refl)
      ]
    ]

length-zeros : (n : ℕ) → length (replicate n (zero)) ≡ n
length-zeros zero = refl
length-zeros (suc n) = omega (arith, length-zeros n)

get_or-zeros : (n i : ℕ) → get_or (replicate n zero) i 0 ≡ 0
get_or-zeros zero i = refl
get_or-zeros (suc n) zero = refl
get_or-zeros (suc n) (suc i) = get_or-zeros n i

-- A named signal has one number on either side.
In-below : (a b : ℕ) (ps : List (ℕ × ℕ)) → Distinct ps → In a b ps → a ≤ std_map_max
In-below a b [] d h = absurd h
In-below a b ((p, k) ∷ ps) d (inl e) = omega (arith, d.1, e.0)
In-below a b ((p, k) ∷ ps) d (inr h) = In-below a b ps d.2 h

In-names :
    (n : Numbers) (s k : ℕ)
    → 0 < k
    → s ≤ std_map_max
    → get_or (posix_to_k_std n) s 0 ≡ k
    → In s k n.names
unfolding posix_to_k_std
In-names n s k some_signal small e =
    elim (In-fill n.names (replicate (std_map_max + 1) 0) s
      (omega (arith, small, length-zeros (std_map_max + 1)))) [
        | inl h ↦ subst (λ v. In s v n.names) e h
        | inr h ↦ absurd (omega (arith, e, h, get_or-zeros (std_map_max + 1) s))
      ]

-- For numbers that are consistent: a signal that has a counterpart in the kernel comes back from
-- it, a named one by the tables and a real-time one by its distance from SIGRTMIN.
pub to_posix-from_posix :
    (n : Numbers) (s k : ℕ)
    → Consistent n
    → 0 < k
    → z_sig_from_posix n (pos s) ≡ pos k
    → z_sig_to_posix n (pos k) ≡ pos s
unfolding z_sig_from_posix z_sig_to_posix posix_to_k_std k_to_posix_std
to_posix-from_posix n s k c some_signal h = elim (Bool-cases (leb n.rtmin s && leb s n.rtmax)) [
  | inl real_time ↦ ground (arith, h, c.enough)
  | inr named ↦ elim (Bool-cases (ltb std_map_max s)) [
    | inl large ↦ ground (arith, h)
    | inr small ↦
        let k_is : get_or (posix_to_k_std n) s 0 ≡ k = ground (arith, h) in
        let known = In-names n s k some_signal (ground arith) k_is in
        let back =
          get_or-fill-In (swap n.names) (replicate (std_map_max + 1) 0) k s c.k_names
            (In-swap s k n.names known) (omega (arith, length-zeros (std_map_max + 1))) in
        let below = In-below k s (swap n.names) c.k_names (In-swap s k n.names known) in
        ground (arith, back, below, c.above)
  ]
]
