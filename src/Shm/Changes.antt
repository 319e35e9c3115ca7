-- ===== src/Shm/Changes.antt =====
-- What opening, unlinking and closing do to the objects of
-- lib/posix/options/shared_memory_objects/shm.c and to the descriptors that refer to them.
use posix_next.Base.{
  ℕ, ◌+◌, ◌-◌, ◌≡◌, ◌<◌, arith, false, ◌&&◌, Bool-cases, Option-cases, inl, inr, ◌==◌,
  if◌then◌else◌, Option, none, some, List, ◌∷◌, subst,
}
use posix_next.Shm.{
  Shm, World, object_at, update_at, shm_obj_add, shm_obj_remove, refcount, drop_handle, shm_close,
  close_fd,
}
use posix_next.Shm.Registry.{
  Unique, unlink, object_at-update_at, Unique-update_at, object_at-remove, Unique-remove,
  object_at-add, Unique-add, refcount-drop_handle,
}

-- An object that is unlinked is open, and what is open is in the list.
abbrev pub Held : Option Shm → ℕ → Type 0
Held none n = n ≡ 0
Held (some o) n = if o.unlinked then 0 < n else Unit {0}

pub record IsValid (w : World) : Type 0 where
  pub unique : Unique w.objects
  pub held : (a : ℕ) → Held (object_at a w.objects) (refcount a w.handles)

pub Held-more : (q : Option Shm) (o : Shm) (n : ℕ) → q ≡ some o → Held q (n + 1)
Held-more none o n e = cc
Held-more (some p) o n e = elim (Bool-cases p.unlinked) [
  | inl t ↦ rw t (omega arith)
  | inr f ↦ rw f tt
]

pub opened-IsValid :
    (w : World) (a : ℕ) (o : Shm)
    → object_at a w.objects ≡ some o
    → IsValid w
    → IsValid (record w { handles = a ∷ w.handles })
unfolding refcount
opened-IsValid w a o e v = record {
  unique = v.unique;
  held = λ b. elim (Bool-cases (a == b)) [
    | inl same ↦ rw same (
        Held-more (object_at b w.objects) o (refcount b w.handles)
          (subst (λ k. object_at k w.objects ≡ some o) (ground arith) e))
    | inr apart ↦ rw apart (v.held b)
  ];
}

pub created-IsValid :
    (w : World) (p : Shm)
    → object_at p.addr w.objects ≡ none
    → p.unlinked ≡ false
    → IsValid w
    → IsValid (record { objects = shm_obj_add p w.objects; handles = p.addr ∷ w.handles })
unfolding refcount
created-IsValid w p fresh linked v = record {
  unique = Unique-add w.objects p fresh v.unique;
  held = λ b. elim (Bool-cases (p.addr == b)) [
    | inl same ↦ rw (object_at-add b w.objects p fresh, same, linked) tt
    | inr apart ↦ rw (object_at-add b w.objects p fresh, apart) (v.held b)
  ];
}

abbrev pub unlinked_objects : ℕ → World → List Shm
unlinked_objects a w =
    let os = update_at a unlink w.objects in
    if refcount a w.handles == 0 then shm_obj_remove a os else os

pub unlinked-IsValid :
    (w : World) (a : ℕ) (o : Shm)
    → object_at a w.objects ≡ some o
    → IsValid w
    → IsValid (record w { objects = unlinked_objects a w })
unlinked-IsValid w a o e v = elim (Bool-cases (refcount a w.handles == 0)) [
  | inl unused ↦ rw unused (record {
    unique = Unique-remove a _ (Unique-update_at a w.objects v.unique);
    held = λ b. elim (Bool-cases (a == b)) [
      | inl same ↦
          rw (object_at-remove a b _ (Unique-update_at a w.objects v.unique), same)
            (subst (λ k. refcount k w.handles ≡ 0) {x = a} (ground arith) (ground arith))
      | inr apart ↦
          rw
            (
              object_at-remove a b _ (Unique-update_at a w.objects v.unique),
              object_at-update_at a b w.objects,
              apart,
            )
            (v.held b)
    ];
  })
  | inr used ↦ rw used (record {
    unique = Unique-update_at a w.objects v.unique;
    held = λ b. elim (Bool-cases (a == b)) [
      | inl same ↦
          let here : object_at b w.objects ≡ some o =
            subst (λ k. object_at k w.objects ≡ some o) (ground arith) e in
          rw (object_at-update_at a b w.objects, same, here)
            (subst (λ k. 0 < refcount k w.handles) {x = a} (ground arith) (ground arith))
      | inr apart ↦ rw (object_at-update_at a b w.objects, apart) (v.held b)
    ];
  })
]

abbrev pub closed_objects : ℕ → World → List Shm
closed_objects a w =
    if refcount a (drop_handle a w.handles) == 0 then shm_close a w.objects else w.objects

closed-Unique : (w : World) (a : ℕ) → IsValid w → Unique (closed_objects a w)
unfolding shm_close
closed-Unique w a v = elim (Bool-cases (refcount a (drop_handle a w.handles) == 0)) [
  | inl last ↦ rw last (elim (Option-cases (object_at a w.objects)) [
    | inl e ↦ rw (shm_close, e) v.unique
    | inr (o, e) ↦ elim (Bool-cases o.unlinked) [
      | inl gone ↦ rw (shm_close, e, gone) (Unique-remove a w.objects v.unique)
      | inr linked ↦ rw (shm_close, e, linked) v.unique
    ]
  ])
  | inr more ↦ rw more v.unique
]

-- What the close of a descriptor does to every object.
pub object_at-closed :
    (w : World) (a b : ℕ) (o : Shm)
    → object_at a w.objects ≡ some o
    → IsValid w
    → object_at b (closed_objects a w) ≡ (
        if (a == b) && (refcount a (drop_handle a w.handles) == 0) && o.unlinked
        then none
        else object_at b w.objects)
unfolding shm_close
object_at-closed w a b o e v = elim (Bool-cases (refcount a (drop_handle a w.handles) == 0)) [
  | inl last ↦ elim (Bool-cases o.unlinked) [
    | inl gone ↦
        rw (last, shm_close, e, gone) (ground (arith, object_at-remove a b w.objects v.unique))
    | inr linked ↦ rw (last, shm_close, e, linked) (ground arith)
  ]
  | inr more ↦ rw more (ground arith)
]

one_less-Held : (o : Shm) (n : ℕ) → Held (if (n == 0) && o.unlinked then none else some o) n
one_less-Held o n = elim (Bool-cases (n == 0)) [
  | inl last ↦ elim (Bool-cases o.unlinked) [
    | inl gone ↦ rw (last, gone) (ground arith)
    | inr linked ↦ rw (last, linked) tt
  ]
  | inr more ↦ elim (Bool-cases o.unlinked) [
    | inl gone ↦ rw (more, gone) (ground arith)
    | inr linked ↦ rw (more, linked) tt
  ]
]

pub closed-IsValid :
    (w : World) (a : ℕ) → 0 < refcount a w.handles → IsValid w → IsValid (close_fd a w)
unfolding close_fd
closed-IsValid w a open_once v = elim (Option-cases (object_at a w.objects)) [
  | inl e ↦
      let h : Held none (refcount a w.handles) =
        subst (λ q. Held q (refcount a w.handles)) e (v.held a) in
      absurd (omega (arith, h))
  | inr (o, e) ↦ record {
    unique = closed-Unique w a v;
    held = λ b.
        rw (object_at-closed w a b o e v, refcount-drop_handle a b w.handles)
          (elim (Bool-cases (a == b)) [
            | inl same ↦
                let k : a ≡ b = ground arith in
                let here : object_at b w.objects ≡ some o =
                  subst (λ j. object_at j w.objects ≡ some o) k e in
                let counted : refcount a (drop_handle a w.handles) ≡ refcount b w.handles - 1 =
                  subst (λ j. refcount a (drop_handle a w.handles) ≡ refcount j w.handles - 1) k
                    (ground (arith, refcount-drop_handle a a w.handles)) in
                rw (same, here, counted) (one_less-Held o (refcount b w.handles - 1))
            | inr apart ↦ rw apart (v.held b)
          ]);
  }
]
