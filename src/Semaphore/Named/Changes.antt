-- ===== src/Semaphore/Named/Changes.antt =====
-- Each change that the calls of lib/posix/options/semaphores/semaphore.c make keeps the reference counts right.
use mathlib.Core.Option as LibOption
use posix_next.Base.{
  ◌≤◌, false, inr, arith, inl, Option-cases, Bool-cases, ◌+◌, ◌==◌, if◌then◌else◌, ◌++◌, ◌<◌,
  CString, ◌≡◌, ℕ, ==_iff, ap, refl, subst, sym, ◌∙◌, [], ◌∷◌, none, some, suc,
}
use posix_next.Semaphore.Named.{
  int_max, int_max, Nsem, Config, object_at, update_at, nsem_unref, sem_close,
}
use posix_next.Semaphore.Named.World.{
  World, count, drop_handle, linked, Counts, IsValid, step, closes,
}
use posix_next.Semaphore.Named.References.{
  count-drop_same, count-drop_other, UniqueAddrs-unref, unref-Counts, held, counts_at, no_name,
  one_more,
}
use posix_next.Semaphore.Named.Registry.{
  UniqueAddrs-update_at, UniqueAddrs-append, object_at-update_at, object_at-append,
  object_at-append_some,
}

module _ (cfg : Config) (w : World) (a : ℕ) (v : IsValid w) where
  close_premise :
      (o : Nsem) (b : ℕ)
      → object_at a w.objects ≡ some o
      → 0 < count a w.handles
      → if a == b
        then (o.ref_count ≡ count b (drop_handle a w.handles) + 1 + linked o.name)
          × (o.ref_count ≤ int_max)
        else Counts (object_at b w.objects) (count b (drop_handle a w.handles))
  close_premise o b e p = elim (Bool-cases (a == b)) [
    | inl same ↦ rw (same) (
        omega (
          arith,
          counts_at w a o v e,
          count-drop_same a b w.handles same,
          ap (λ c. count c w.handles) ((==_iff a b).0 same),
        ))
    | inr other ↦ rw (other) (
        subst (Counts (object_at b w.objects)) (sym (count-drop_other a b w.handles other))
          (v.counts b))
  ]

  pub close-IsValid : 0 < count a w.handles → IsValid (step cfg w (closes a))
  unfolding step sem_close
  close-IsValid p =
      let (o, e) = held w a v p in
      record {
        unique = UniqueAddrs-unref a w.objects v.unique;
        counts = λ b.
            unref-Counts a b (count b (drop_handle a w.handles)) w.objects o e
              (close_premise o b e p);
      }

  -- The name goes before the reference.
  pub unlinked-IsValid :
      (o : Nsem) (n : CString)
      → object_at a w.objects ≡ some o
      → o.name ≡ some n
      → IsValid (record w { objects = nsem_unref a (update_at a no_name w.objects) })
  unlinked-IsValid o n e m = record {
    unique = UniqueAddrs-unref a _ (UniqueAddrs-update_at a no_name w.objects (λ p. refl) v.unique);
    counts = λ b.
        unref-Counts a b (count b w.handles) _ (no_name o)
          (object_at-update_at a a no_name w.objects (λ p. refl) ∙ rw e (ground arith)) (premise b);
  }
    where
      premise :
          (b : ℕ)
          → if a == b
            then (o.ref_count ≡ count b w.handles + 1 + 0) × (o.ref_count ≤ int_max)
            else Counts (object_at b (update_at a no_name w.objects)) (count b w.handles)
      premise b = elim (Bool-cases (a == b)) [
        | inl same ↦ rw (same) (
            omega (
              arith,
              counts_at w a o v e,
              ap linked m,
              ap (λ c. count c w.handles) ((==_iff a b).0 same),
            ))
        | inr other ↦
            rw (other, object_at-update_at a b no_name w.objects (λ p. refl), other) (v.counts b)
      ]

  pub reopened-IsValid :
      (o : Nsem)
      → object_at a w.objects ≡ some o
      → (o.ref_count == int_max) ≡ false
      → IsValid (record { objects = update_at a one_more w.objects; handles = a ∷ w.handles })
  reopened-IsValid o e room = record {
    unique = UniqueAddrs-update_at a one_more w.objects (λ p. refl) v.unique;
    counts = λ b. rw (object_at-update_at a b one_more w.objects (λ p. refl)) (at b);
  }
    where
      below : o.ref_count < int_max
      below = ground (arith, room, counts_at w a o v e)

      at :
          (b : ℕ)
          → Counts
              (if a == b
                then LibOption.map one_more (object_at b w.objects)
                else object_at b w.objects)
              (if a == b then suc (count b w.handles) else count b w.handles)
      at b = elim (Bool-cases (a == b)) [
        | inl same ↦
            rw (same, ap (λ c. object_at c w.objects) (sym ((==_iff a b).0 same)), e)
              (omega (
                arith,
                below,
                counts_at w a o v e,
                ap (λ c. count c w.handles) ((==_iff a b).0 same),
              ))
        | inr other ↦ rw other (v.counts b)
      ]

  pub created-IsValid :
      (n : CString) (value : ℕ)
      → object_at a w.objects ≡ none
      → IsValid (record {
        objects =
            w.objects ++ (record { addr = a; name = some n; ref_count = 2; value = value } ∷ []);
        handles = a ∷ w.handles;
      })
  created-IsValid n value e = record {
    unique = UniqueAddrs-append w.objects _ e v.unique;
    counts = λ b. at b;
  }
    where
      new : Nsem
      new = record { addr = a; name = some n; ref_count = 2; value = value }

      at :
          (b : ℕ)
          → Counts
              (object_at b (w.objects ++ (new ∷ [])))
              (if a == b then suc (count b w.handles) else count b w.handles)
      at b = elim (Option-cases (object_at b w.objects)) [
        | inl f ↦ rw (object_at-append b w.objects new f) (elim (Bool-cases (a == b)) [
          | inl same ↦ rw same (omega (arith, rw f at (v.counts b)))
          | inr other ↦ rw other (rw f at (v.counts b))
        ])
        | inr (q, f) ↦ rw (object_at-append_some b w.objects new q f) (elim (Bool-cases (a == b)) [
          | inl same ↦ cc (e, f, ap (λ c. object_at c w.objects) ((==_iff a b).0 same))
          | inr other ↦ rw other (rw f at (v.counts b))
        ])
      ]
