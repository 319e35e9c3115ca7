-- ===== src/Shm/Offsets.antt =====
-- The offsets that lib/posix/options/shared_memory_objects/shm.c accepts.
use posix_next.Base.{
  ◌&&◌, ℕ, suc, ◌+◌, ◌-◌, ◌*◌, ◌%◌, ◌^◌, ◌≤◌, ◌<◌, ◌≡◌, arith, Bool, true, false, not, ◌==◌, ltb,
  leb, if◌then◌else◌, length, refl, einval, eoverflow, Result, ok, err, ℤ, pos, negsuc,
}
use native.Mathlib.Nat as NatLaws
use native.Mathlib.Nat.{one-le-pow}
use posix_next.Shm.{Shm}
use posix_next.Shm.Access.{Whence, set, cur, end, other, int_max, seek_from, shm_lseek, shm_mmap}

pow-suc : (b : ℕ) → 2 ^ suc b ≡ 2 * 2 ^ b
pow-suc b = omega (arith, NatLaws.pow-suc 2 b)

pow_pos : (b : ℕ) → 0 < 2 ^ b
pow_pos b = omega (arith, one-le-pow b 2 (omega arith))

-- The width is b + 1.
module _ (b : ℕ) where
  -- An off_t.
  abbrev pub InRange : ℤ → Type 0
  InRange (pos n) = n ≤ int_max (suc b)
  InRange (negsuc n) = n ≤ int_max (suc b)

  -- Where an offset from a base leads.
  abbrev pub seek_result : ℤ → ℕ → Result ℕ
  seek_result (pos n) base =
      if leb (n + base) (int_max (suc b)) then ok (n + base) else err eoverflow
  seek_result (negsuc n) base = err eoverflow

  seek_from-result :
      (offset : ℤ) (base : ℕ)
      → InRange offset
      → seek_from (suc b) offset base ≡ seek_result offset base
  unfolding seek_from
  seek_from-result (pos n) base h = ground arith
  seek_from-result (negsuc n) base h = ground (arith, pow-suc b, pow_pos b)

  abbrev pub base_of : Shm → Whence → ℕ → ℕ
  base_of o set pos' = 0
  base_of o cur pos' = pos'
  base_of o end pos' = o.size
  base_of o other pos' = 0

  abbrev is_whence : Whence → Bool
  is_whence set = true
  is_whence cur = true
  is_whence end = true
  is_whence other = false

  -- shm_lseek with an off_t: from the start, the position or the end it leads to the sum where the
  -- offset is not negative and the sum is representable, and reports EOVERFLOW for every other
  -- offset, each negative one included; any other `whence` is refused.
  pub shm_lseek-result :
      (o : Shm) (offset : ℤ) (whence : Whence) (pos' : ℕ)
      → InRange offset
      → shm_lseek (suc b) o offset whence pos'
        ≡ (if is_whence whence then seek_result offset (base_of o whence pos') else err einval)
  unfolding shm_lseek
  shm_lseek-result o offset set pos' h = seek_from-result offset 0 h
  shm_lseek-result o offset cur pos' h = seek_from-result offset pos' h
  shm_lseek-result o offset end pos' h = seek_from-result offset o.size h
  shm_lseek-result o offset other pos' h = refl

  -- Where the length and the offset do not wrap, shm_mmap with an MMU on an object with memory
  -- succeeds exactly for an offset that is not negative and on a page boundary, a length that is
  -- not 0, no MAP_FIXED, and a range that lies within the object; it then maps at the offset.
  pub shm_mmap-range :
      (page len : ℕ) (o : Shm) (fixed : Bool) (off : ℕ)
      → 0 < length o.mem
      → len + off < 2 ^ suc b
      → shm_mmap (suc b) true page o len fixed (pos off) ≡ (
          if ltb 0 len && not fixed && (off % page == 0) && leb (off + len) o.size
          then ok off
          else err einval)
  unfolding shm_mmap
  shm_mmap-range page len o fixed off some_memory small =
      let e : (len + off) % 2 ^ suc b ≡ len + off = NatLaws.mod-eq_of_lt small in
      rw e (ground arith)

  -- Where they wrap, a range that ends far behind the object is accepted: any object with memory
  -- maps nearly the whole address space from its second page on.
  pub shm_mmap-wraps :
      (page : ℕ) (o : Shm)
      → 0 < length o.mem
      → 0 < page
      → page < 2 ^ suc b
      → shm_mmap (suc b) true page o (2 ^ suc b - page) false (pos page) ≡ ok page
  unfolding shm_mmap
  shm_mmap-wraps page o some_memory some_page small =
      let e : 2 ^ suc b - page + page ≡ 2 ^ suc b = omega arith in
      let z : page % page ≡ 0 = NatLaws.mod_self page in
      let y : 2 ^ suc b % 2 ^ suc b ≡ 0 = NatLaws.mod_self (2 ^ suc b) in
      rw (e, y, z) (ground arith)
