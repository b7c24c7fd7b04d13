-- ===== src/MemPool.antt =====
-- src/system/mem_pool/argo_mem_pool.c: a pool of fixed-size objects in slabs. The first 8 bytes of an object
-- hold its metadata: on the free list the place of the next free object, and while it is handed out its own
-- place. A place is a slab index above 28 bits of offset. A pointer into a slab is the slab's index
-- with the offset, and `words` are the metadata words of the slabs; a slab is present if its index is below `slab_cnt`.
-- Whether ARGO_ALLOC succeeds is an argument, and the logging is left out.
pub mod Places
pub mod FreeList
pub mod Pool
pub mod Client
pub mod Sizes
mod Program
mod Tests
use Prim.Native.Nat.{bit_and, bit_or}
use tpt.Common.{
  ℕ, zero, suc, ◌+◌, ◌-◌, ◌*◌, ◌/◌, ◌%◌, ◌^◌, Bool, true, false, ◌&&◌, Option, none, some, List, [],
  ◌∷◌, ltb, ◌==◌, if◌then◌else◌,
}

abbrev pub offset_bits : ℕ
offset_bits = 28

abbrev pub offset_mask : ℕ
offset_mask = 2 ^ offset_bits - 1

abbrev pub offset_invalid : ℕ
offset_invalid = offset_mask

abbrev pub slab_size : ℕ
slab_size = 2 ^ offset_bits

abbrev pub slabs_max : ℕ
slabs_max = 4096

abbrev pub metadata_sz : ℕ
metadata_sz = 8

-- The metadata word at an offset of a slab.
abbrev pub Words : Type 0
Words = ℕ → ℕ → ℕ

abbrev pub write : Words → ℕ → ℕ → ℕ → Words
write words slab offset v i o = if (slab == i) && (offset == o) then v else words i o

-- struct argo_mem_pool, and the memory of its slabs
pub record MemPool : Type 0 where
  pub words : Words
  pub free_next : ℕ  -- uint64_t
  pub slab_cnt : ℕ  -- uint64_t
  pub obj_sz : ℕ  -- uint32_t
  pub obj_cnt : ℕ  -- uint32_t

-- `slab_inx << MP_OFFSET_BITS`
abbrev pub shifted : ℕ → ℕ
shifted inx = inx * 2 ^ offset_bits % 2 ^ 64

-- The rounds of the loop of __mp_free_list_init, and the write behind it.
pub list_loop : (rounds slab obj_sz offset next_free : ℕ) → Words → Words
list_loop zero slab obj_sz offset next_free words =
    write words slab offset (bit_or (shifted slab) offset_invalid)
list_loop (suc rounds) slab obj_sz offset next_free words =
    let next = (next_free + obj_sz) % 2 ^ 64 in
    list_loop rounds slab obj_sz (offset + obj_sz) next
      (write words slab offset (bit_or (shifted slab) next))

-- `obj_cnt - 1` is taken in 32 bits.
pub free_list_init : (obj_sz obj_cnt slab : ℕ) → Words → Words
unfolding list_loop
free_list_init obj_sz obj_cnt slab words =
    list_loop ((obj_cnt + 2 ^ 32 - 1) % 2 ^ 32) slab obj_sz 0 0 words

pub adjust_size_and_count : (sz cnt : ℕ) → ℕ × ℕ
adjust_size_and_count sz cnt =
    let with_metadata = (sz + metadata_sz) % 2 ^ 32 in
    let aligned = bit_and ((with_metadata + 7) % 2 ^ 32) (2 ^ 32 - 8) in
    (aligned, if ltb slab_size (aligned * cnt % 2 ^ 32) then slab_size / aligned else cnt)

-- `alloc` says whether ARGO_ALLOC succeeds.
pub create_new_slab : (alloc : Bool) → MemPool → Option MemPool
unfolding free_list_init
create_new_slab false mp = none
create_new_slab true mp = some (record mp {
  words = free_list_init mp.obj_sz mp.obj_cnt mp.slab_cnt mp.words;
  free_next = shifted mp.slab_cnt;
  slab_cnt = mp.slab_cnt + 1;
})

pub argo_mem_pool_create : (alloc alloc_slab : Bool) → (obj_sz obj_cnt : ℕ) → Option MemPool
unfolding adjust_size_and_count create_new_slab
argo_mem_pool_create false alloc_slab obj_sz obj_cnt = none
argo_mem_pool_create true alloc_slab obj_sz obj_cnt =
    let (sz, cnt) = adjust_size_and_count obj_sz obj_cnt in
    create_new_slab alloc_slab
      (record { words = λ i o. 0; free_next = 0; slab_cnt = 0; obj_sz = sz; obj_cnt = cnt })

-- `none` is a result other than 0.
pub argo_mem_pool_expand : (alloc : Bool) → MemPool → Option MemPool
unfolding create_new_slab
argo_mem_pool_expand alloc mp = if mp.slab_cnt == slabs_max then none else create_new_slab alloc mp

-- __MP_METADATA_TO_INX_AND_OFFSET
abbrev pub inx_of : ℕ → ℕ
inx_of metadata = metadata / 2 ^ offset_bits

abbrev pub offset_of : ℕ → ℕ
offset_of metadata = bit_and metadata offset_mask

-- A pointer into a slab.
abbrev pub Addr : Type 0
Addr = ℕ × ℕ

-- The end of argo_mem_pool_get, for the object at the head of the free list.
pub take_free : MemPool → Addr × MemPool
take_free mp =
    let inx = inx_of mp.free_next in
    let offset = offset_of mp.free_next in
    (
      (inx, offset + metadata_sz),
      record mp {
        free_next = mp.words inx offset;
        words = write mp.words inx offset (bit_or (shifted inx) offset);
      },
    )

-- `none` is NULL, with the pool left as it was.
pub argo_mem_pool_get : (alloc : Bool) → MemPool → Option (Addr × MemPool)
unfolding argo_mem_pool_expand take_free
argo_mem_pool_get alloc mp =
    if offset_of mp.free_next == offset_invalid
    then elim (argo_mem_pool_expand alloc mp) [ none ↦ none | some mp' ↦ some (take_free mp') ]
    else some (take_free mp)

pub argo_mem_pool_put : MemPool → Addr → MemPool
argo_mem_pool_put mp (inx, at) =
    let offset = at - metadata_sz in
    record mp { words = write mp.words inx offset mp.free_next; free_next = mp.words inx offset }

-- The slabs that are freed, in order: of the `slabs_max` entries those that are not NULL.
slabs_loop : (rounds i : ℕ) → MemPool → List ℕ
slabs_loop zero i mp = []
slabs_loop (suc rounds) i mp =
    let rest = slabs_loop rounds (i + 1) mp in if ltb i mp.slab_cnt then i ∷ rest else rest

pub argo_mem_pool_destroy : MemPool → List ℕ
argo_mem_pool_destroy mp = slabs_loop slabs_max 0 mp
