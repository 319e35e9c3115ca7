-- ===== src/Shm/Bytes.antt =====
-- Reads and writes of lib/posix/options/shared_memory_objects/shm.c byte by byte.
use posix_next.Base.{
  ℕ, zero, suc, ◌+◌, ◌-◌, ◌≤◌, ◌≡◌, min, arith, ◌&&◌, Bool-cases, inl, inr, if◌then◌else◌, ltb, leb,
  List, [], ◌∷◌, ◌++◌, length, length-append, take, drop, get_or, refl, ap, ◌∙◌,
}
use posix_next.Shm.{Shm}
use posix_next.Shm.Access.{rw_size, overwrite, shm_read, shm_write}

get_or-append :
    (xs ys : List ℕ) (i : ℕ)
    → get_or (xs ++ ys) i 0
      ≡ (if ltb i (length xs) then get_or xs i 0 else get_or ys (i - length xs) 0)
get_or-append [] ys i = ground arith
get_or-append (x ∷ xs) ys zero = ground arith
get_or-append (x ∷ xs) ys (suc i) = ground (arith, get_or-append xs ys i)

get_or-take :
    (n : ℕ) (xs : List ℕ) (i : ℕ) → get_or (take n xs) i 0 ≡ (if ltb i n then get_or xs i 0 else 0)
get_or-take zero xs i = ground arith
get_or-take (suc n) [] i = ground arith
get_or-take (suc n) (x ∷ xs) zero = ground arith
get_or-take (suc n) (x ∷ xs) (suc i) = ground (arith, get_or-take n xs i)

get_or-drop : (n : ℕ) (xs : List ℕ) (i : ℕ) → get_or (drop n xs) i 0 ≡ get_or xs (n + i) 0
get_or-drop zero xs i = ap (λ j. get_or xs j 0) (omega arith)
get_or-drop (suc n) [] i = refl
get_or-drop (suc n) (x ∷ xs) i = ground (arith, get_or-drop n xs i)

length-take_le : (n : ℕ) (xs : List ℕ) → n ≤ length xs → length (take n xs) ≡ n
length-take_le zero xs h = refl
length-take_le (suc n) [] h = absurd (omega arith)
length-take_le (suc n) (x ∷ xs) h = omega (arith, length-take_le n xs (omega arith))

length-drop : (n : ℕ) (xs : List ℕ) → length (drop n xs) ≡ length xs - n
length-drop zero xs = omega arith
length-drop (suc n) [] = omega arith
length-drop (suc n) (x ∷ xs) = omega (arith, length-drop n xs)

length-overwrite :
    (mem : List ℕ) (off : ℕ) (bytes : List ℕ)
    → off + length bytes ≤ length mem
    → length (overwrite mem off bytes) ≡ length mem
length-overwrite mem off bytes h = omega (
  arith,
  length-append (take off mem) (bytes ++ drop (off + length bytes) mem),
  length-append bytes (drop (off + length bytes) mem),
  length-take_le off mem (omega arith),
  length-drop (off + length bytes) mem,
)

get_or-overwrite :
    (mem : List ℕ) (off : ℕ) (bytes : List ℕ) (i : ℕ)
    → off + length bytes ≤ length mem
    → get_or (overwrite mem off bytes) i 0 ≡ (
        if leb off i && ltb i (off + length bytes)
        then get_or bytes (i - off) 0
        else get_or mem i 0)
get_or-overwrite mem off bytes i h =
    rw
      (
        get_or-append (take off mem) (bytes ++ drop (off + length bytes) mem) i,
        length-take_le off mem (omega arith),
        get_or-take off mem i,
        get_or-append bytes (drop (off + length bytes) mem) (i - off),
        get_or-drop (off + length bytes) mem (i - off - length bytes),
      )
      (elim (Bool-cases (ltb i off)) [
        | inl before ↦ ground arith
        | inr later ↦ elim (Bool-cases (ltb (i - off) (length bytes))) [
          | inl inside ↦ ground arith
          | inr after ↦
              let e : off + length bytes + (i - off - length bytes) ≡ i = ground arith in
              rw e (ground arith)
        ]
      ])

rw_size-min : (o : Shm) (size offset : ℕ) → rw_size o size offset ≡ min size (o.size - offset)
rw_size-min o size offset = ground arith

-- A write on an object whose size is that of its memory, from a buffer of `size` bytes: it moves as
-- many bytes as the object holds from the offset on, up to `size`, these bytes are those of the
-- buffer and all others are as before; the size of the object and that of its memory stay.
pub shm_write-bytes :
    (o : Shm) (buf : List ℕ) (size offset i : ℕ)
    → o.size ≡ length o.mem
    → size ≤ length buf
    → let (n, p) = shm_write o buf size offset in
      (n ≡ min size (o.size - offset))
      × (get_or p.mem i 0 ≡ (
          if leb offset i && ltb i (offset + n)
          then get_or buf (i - offset) 0
          else get_or o.mem i 0))
      × (p.size ≡ o.size)
      × (p.size ≡ length p.mem)
unfolding shm_write
shm_write-bytes o buf size offset i whole enough =
    let n = rw_size o size offset in
    let e = rw_size-min o size offset in
    let l : length (take n buf) ≡ n = length-take_le n buf (omega (arith, e)) in
    elim (Bool-cases (ltb 0 n)) [
      | inl some_bytes ↦
          let fits : offset + length (take n buf) ≤ length o.mem = ground (arith, e, l) in
          rw some_bytes (
            e,
            get_or-overwrite o.mem offset (take n buf) i fits
                ∙ ground (arith, l, get_or-take n buf (i - offset)),
            refl,
            omega (arith, length-overwrite o.mem offset (take n buf) fits),
          )
      | inr no_bytes ↦ rw no_bytes (e, ground arith, refl, whole)
    ]

-- A read returns the bytes of the memory from the offset on, as many as there are up to `size`.
pub shm_read-bytes :
    (o : Shm) (size offset i : ℕ)
    → o.size ≡ length o.mem
    → let (bytes, n) = shm_read o size offset in
      (n ≡ min size (o.size - offset))
      × (length bytes ≡ n)
      × (get_or bytes i 0 ≡ (if ltb i n then get_or o.mem (offset + i) 0 else 0))
unfolding shm_read
shm_read-bytes o size offset i whole =
    let n = rw_size o size offset in
    let e = rw_size-min o size offset in
    elim (Bool-cases (ltb 0 n)) [
      | inl some_bytes ↦ rw some_bytes (
        e,
        length-take_le n (drop offset o.mem) (omega (arith, e, length-drop offset o.mem)),
        ground (arith, get_or-take n (drop offset o.mem) i, get_or-drop offset o.mem i),
      )
      | inr no_bytes ↦ rw no_bytes (e, ground arith, ground arith)
    ]
