-- ===== src/Memory/Growth.antt =====
-- An array that `luaM_growaux_` of src/lmem.c has grown has room for one more element.
use native.Mathlib.Nat.{mul-le-mul_right}
use luarc.Prelude.{
  ℕ, ◌+◌, ◌-◌, ◌*◌, ◌/◌, ◌%◌, ◌^◌, ◌<◌, ◌≤◌, ◌≡◌, max, ◌&&◌, ltb, leb, ◌==◌, Bool-cases, inl, inr,
  arith,
}
use luarc.Object.{Ptr, null}
use luarc.Memory.{
  Allocator, Memory, Outcome, ok, errmem, toobig, at_limit, max_sizet, realloc, reallocv, new_size,
  with_size, growaux,
}

-- How a growth ends: with room for one more element within the limit, or 4 elements where the limit is
-- lower, in a block that a size can count, and with the bytes of the old block given back; with an
-- error at the limit; with one that the block is too big, where the limit allows that; or without
-- memory, where the allocator gave NULL.
pub data Grows {D : Type 0} (frealloc : Allocator D) (g : Memory D) (block : Ptr) (size e limit : ℕ)
    : Outcome (ℕ × Ptr × Memory D) → Type 0 where
  grown :
      {n : ℕ} {p : Ptr} {g' : Memory D}
      → size < n
      → n ≤ max limit 4
      → n * e < 2 ^ 64
      → g'.totalbytes + size * e ≡ g.totalbytes + n * e
      → Grows frealloc g block size e limit (ok (n, p, g'))
  no_room : limit ≤ size → Grows frealloc g block size e limit at_limit
  too_long : max_sizet / e ≤ max limit 4 → Grows frealloc g block size e limit toobig
  no_memory :
      (n : ℕ)
      → n ≤ max limit 4
      → (frealloc g.ud block (size * e) (n * e)).0 ≡ null
      → Grows frealloc g block size e limit errmem

new_size-le :
    (size limit : ℕ)
    → size < limit
    → (size < new_size size limit) × (new_size size limit ≤ max limit 4)
unfolding new_size
new_size-le size limit h = (ground arith, ground arith)

module _ {D : Type 0} (frealloc : Allocator D) (g : Memory D) (block : Ptr) (size e limit : ℕ)
    (mine : size * e ≤ g.totalbytes) (fits : g.totalbytes + max limit 4 * e < 2 ^ 64) where
  reallocv-Grows :
      (n : ℕ)
      → size < n
      → n ≤ max limit 4
      → Grows frealloc g block size e limit (with_size n (reallocv frealloc g block size n e))
  unfolding reallocv realloc
  reallocv-Grows n more within =
      let below : n * e ≤ max limit 4 * e = mul-le-mul_right e within in
      let total : (g.totalbytes + 2 ^ 64 - size * e + n * e) % 2 ^ 64 + size * e
          ≡ g.totalbytes + n * e =
        omega arith in
      elim (Bool-cases (leb (n + 1) (max_sizet / e))) [
        | inl countable ↦
            elim (Bool-cases
              ((frealloc g.ud block (size * e) (n * e)).0 == null && ltb 0 (n * e))) [
                | inl none_left ↦ rw (countable, none_left) (no_memory n within (ground arith))
                | inr got ↦ rw (countable, got) (grown more within (omega arith) total)
              ]
        | inr long ↦ rw (long) (too_long (ground arith))
      ]

  -- `luaM_growaux_` ends in one of four ways: the array has a new size above the old one and no more
  -- than the limit (or 4, where the limit is lower), its bytes fit a size, and `totalbytes` has the new
  -- block's bytes in place of the old one's; or the size is at the limit already; or a block within
  -- the limit would be too big; or the allocator gave NULL. The conditions are that `totalbytes` includes the old block and
  -- that it does not overflow with one of the largest size.
  pub growaux-Grows : Grows frealloc g block size e limit (growaux frealloc g block size e limit)
  unfolding growaux
  growaux-Grows = elim (Bool-cases (leb limit size)) [
    | inl full ↦ rw (full) (no_room (ground arith))
    | inr room ↦
        let below : size < limit = ground arith in
        let n = new_size-le size limit below in
        rw (room) (reallocv-Grows (new_size size limit) n.0 n.1)
  ]
