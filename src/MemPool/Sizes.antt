-- ===== src/MemPool/Sizes.antt =====
-- The sizes that argo_mem_pool_create works with, the pool that it makes, and where the 32-bit product of the
-- sizes wraps.
use Prim.Native.Nat.{bit_and}
use tpt.Common.{
  ℕ, ◌+◌, ◌-◌, ◌*◌, ◌/◌, ◌%◌, ◌^◌, ◌≤◌, ◌<◌, ◌≡◌, refl, ap, ◌∙◌, inl, inr, true, some, List, [],
  arith, ltb, if◌then◌else◌, length, Bool-cases,
}
use tpt.Common.Bits.{bit_and_step, bit_and_mask}
use tpt.MemPool.{MemPool, adjust_size_and_count, create_new_slab, argo_mem_pool_create}
use tpt.MemPool.FreeList.{count, places}
use tpt.MemPool.Pool.{IsPool, IsSized, grown, create_new_slab-grown, grown-IsPool}

-- `& (-8)` in 32 bits.
round_down : (x : ℕ) → x < 2 ^ 32 → bit_and x (2 ^ 32 - 8) ≡ x / 8 * 8
round_down x small = omega (
  arith,
  bit_and_step x (2 ^ 32 - 8),
  bit_and_step (x / 2) (2 ^ 31 - 4),
  bit_and_step (x / 2 / 2) (2 ^ 30 - 2),
  bit_and_mask 29 (x / 2 / 2 / 2),
)

-- The size of an object with its metadata, in whole words.
abbrev pub whole_size : ℕ → ℕ
whole_size sz = (sz + 15) / 8 * 8

-- Where nothing wraps, an object of `sz` bytes gets at least 8 more, less than 16 and in all a multiple of 8; and the
-- count stays if the slab is at most 2 ^ 28 bytes, else it is cut to what fits.
pub adjust_size_and_count_lem :
    (sz cnt : ℕ)
    → sz + 15 < 2 ^ 32
    → whole_size sz * cnt < 2 ^ 32
    → adjust_size_and_count sz cnt
      ≡ (whole_size sz, if ltb (2 ^ 28) (whole_size sz * cnt) then 2 ^ 28 / whole_size sz else cnt)
unfolding adjust_size_and_count
adjust_size_and_count_lem sz cnt small no_wrap =
    let sum : (((sz + 8) % 2 ^ 32) + 7) % 2 ^ 32 ≡ sz + 15 = omega arith in
    let product : whole_size sz * cnt % 2 ^ 32 ≡ whole_size sz * cnt = omega arith in
    rw (sum, round_down (sz + 15) small, product)

-- Where the 32-bit product of size and count wraps to at most 2 ^ 28, the count is not cut: the slab is
-- allocated with at most 2 ^ 28 bytes for a free list that runs over 2 ^ 32 bytes and more.
pub adjust_size_and_count_wraps :
    (sz cnt : ℕ)
    → sz + 15 < 2 ^ 32
    → 2 ^ 32 ≤ whole_size sz * cnt
    → whole_size sz * cnt % 2 ^ 32 ≤ 2 ^ 28
    → let (size, count) = adjust_size_and_count sz cnt in
      (size * count % 2 ^ 32 ≤ 2 ^ 28) × (2 ^ 32 ≤ size * count)
unfolding adjust_size_and_count
adjust_size_and_count_wraps sz cnt small wraps low =
    let sum : (((sz + 8) % 2 ^ 32) + 7) % 2 ^ 32 ≡ sz + 15 = omega arith in
    rw (sum, round_down (sz + 15) small) (ground arith)

-- The count that is left of `cnt` objects of `w` bytes.
abbrev pub cut : ℕ → ℕ → ℕ
cut w cnt = if ltb (2 ^ 28) (w * cnt) then 2 ^ 28 / w else cnt

cut_fits : (w cnt : ℕ) → 0 < w → w ≤ 2 ^ 28 → 0 < cnt → (0 < cut w cnt) × (w * cut w cnt ≤ 2 ^ 28)
cut_fits w cnt pos small some_objects = elim (Bool-cases (ltb (2 ^ 28) (w * cnt))) [
  | inl big ↦ rw big (div_fits w pos small)
  | inr fits ↦ rw fits (some_objects, ground arith)
]
  where
    div_fits : (w : ℕ) → 0 < w → w ≤ 2 ^ 28 → (0 < 2 ^ 28 / w) × (w * (2 ^ 28 / w) ≤ 2 ^ 28)
    div_fits w pos small = (grind arith, grind arith)

-- The pool before its first slab.
abbrev pub bare : ℕ → ℕ → ℕ → MemPool
bare free_next w cnt = record {
  words = λ i o. 0;
  free_next = free_next;
  slab_cnt = 0;
  obj_sz = w;
  obj_cnt = cnt;
}

pub bare-IsPool :
    (w units cnt : ℕ)
    → w ≡ 8 * units
    → 0 < units
    → 0 < cnt
    → w * cnt ≤ 2 ^ 28
    → IsPool (bare (2 ^ 28 - 1) w cnt) [] []
unfolding count
bare-IsPool w units cnt aligned some_size some_objects fits = record {
  sized = record {
    units = units;
    aligned = aligned;
    some_size = some_size;
    some_objects = some_objects;
    fits = fits;
  };
  few_slabs = omega arith;
  chain = refl;
  objects = λ m i. absurd (omega arith);
  marked = λ m i. absurd (omega arith);
  single = λ m. omega arith;
  total = omega arith;
}

create-bare :
    (sz cnt : ℕ)
    → argo_mem_pool_create true true sz cnt
      ≡ create_new_slab true
          (bare 0 (adjust_size_and_count sz cnt).0 (adjust_size_and_count sz cnt).1)
unfolding argo_mem_pool_create
create-bare sz cnt = refl

-- With memory for the pool and its first slab, a count that is not 0 and an object of at most 2 ^ 28 bytes with
-- its metadata, where the 32-bit product of size and count does not wrap, argo_mem_pool_create makes a pool
-- of one slab. Its objects have the size asked for with at least 8 bytes more, in whole words; they are as many as
-- asked for, or as many as fit into 2 ^ 28 bytes if that is fewer; and all are free and none in use.
pub argo_mem_pool_create-IsPool :
    (sz cnt : ℕ)
    → 0 < cnt
    → whole_size sz ≤ 2 ^ 28
    → whole_size sz * cnt < 2 ^ 32
    → (mp : MemPool) × (free : List ℕ) × (argo_mem_pool_create true true sz cnt ≡ some mp)
      × IsPool mp free []
      × (length free ≡ cut (whole_size sz) cnt)
      × (mp.obj_sz ≡ whole_size sz)
      × (mp.slab_cnt ≡ 1)
argo_mem_pool_create-IsPool sz cnt some_objects small no_wrap =
    let w = whole_size sz in
    let (pos, fits) = cut_fits w cnt (omega arith) small some_objects in
    let p = bare-IsPool w ((sz + 15) / 8) (cut w cnt) (omega arith) (omega arith) pos fits in
    let sized : IsSized (bare 0 w (cut w cnt)) = record {
      units = (sz + 15) / 8;
      aligned = omega arith;
      some_size = omega arith;
      some_objects = pos;
      fits = fits;
    } in
    let q = grown-IsPool (bare (2 ^ 28 - 1) w (cut w cnt)) [] p (omega arith) in
    (
      grown (bare (2 ^ 28 - 1) w (cut w cnt)),
      places 0 w 0 (cut w cnt - 1),
      create-bare sz cnt
          ∙ ap (λ (a : ℕ × ℕ). create_new_slab true (bare 0 a.0 a.1))
              (adjust_size_and_count_lem sz cnt (omega arith) no_wrap)
          ∙ create_new_slab-grown (bare 0 w (cut w cnt)) sized (omega arith),
      q,
      omega (arith, q.total),
      refl,
      refl,
    )
