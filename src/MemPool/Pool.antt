-- ===== src/MemPool/Pool.antt =====
-- argo_mem_pool_get and argo_mem_pool_put keep every object of the slabs either on the free list or with
-- one client.
use Prim.Native.Nat.{bit_or}
use native.Mathlib.Nat.{le_trans}
use tpt.Common.{
  ℕ, ◌+◌, ◌-◌, ◌*◌, ◌%◌, ◌^◌, ◌≤◌, ◌<◌, ◌≡◌, ap, ◌∙◌, true, some, List, [], ◌∷◌, arith, ◌==◌,
  if◌then◌else◌, length, dec_lt,
}
use tpt.MemPool.{
  Words, write, inx_of, shifted, slabs_max, metadata_sz, MemPool, Addr, list_loop, free_list_init,
  create_new_slab, take_free,
}
use tpt.MemPool.Places.{peek, offset_of-mod, place_lem, peek-write}
use tpt.MemPool.FreeList.{
  count, Chain, Chain-frame, places, length-places, places_single, places_below, places_member,
  list_loop-Chain, list_loop_frame,
}

-- The `k`-th object of the `i`-th slab.
abbrev pub IsObject : MemPool → ℕ → Type 0
IsObject mp m =
    (i : ℕ) × (k : ℕ) × (i < mp.slab_cnt) × (k < mp.obj_cnt) × (m ≡ i * 2 ^ 28 + k * mp.obj_sz)

-- Whole words in an object, at least one object in a slab, and a slab within its limit.
pub record IsSized (mp : MemPool) : Type 0 where
  pub units : ℕ
  pub aligned : mp.obj_sz ≡ 8 * units
  pub some_size : 0 < units
  pub some_objects : 0 < mp.obj_cnt
  pub fits : mp.obj_sz * mp.obj_cnt ≤ 2 ^ 28

-- The objects of the pool are those of `free`, linked in this order, and those of `used`, each marked
-- with its place.
pub record IsPool (mp : MemPool) (free used : List ℕ) : Type 0 where
  pub sized : IsSized mp
  pub few_slabs : mp.slab_cnt ≤ slabs_max
  pub chain : Chain mp.words mp.free_next free
  pub objects : (m : ℕ) → 0 < count m free + count m used → IsObject mp m
  pub marked : (m : ℕ) → 0 < count m used → peek mp.words m ≡ m
  pub single : (m : ℕ) → count m free + count m used ≤ 1
  pub total : length free + length used ≡ mp.slab_cnt * mp.obj_cnt

-- Where an object lies.
pub record Lies (mp : MemPool) (m : ℕ) : Type 0 where
  pub in_slabs : inx_of m < mp.slab_cnt
  pub in_slab : m % 2 ^ 28 + mp.obj_sz ≤ mp.obj_sz * mp.obj_cnt
  pub on_word : m % 2 ^ 28 % 8 ≡ 0

pub IsObject-Lies : (mp : MemPool) (m : ℕ) → IsSized mp → IsObject mp m → Lies mp m
IsObject-Lies mp m s (i, k, hi, hk, at) =
    let room : k * mp.obj_sz + mp.obj_sz ≤ mp.obj_sz * mp.obj_cnt = grind arith in
    let size : 0 < mp.obj_sz = omega (arith, s.aligned, s.some_size) in
    let words : k * mp.obj_sz ≡ 8 * (k * s.units) =
      omega (arith, ap (λ (t : ℕ). k * t) s.aligned) in
    let low : m % 2 ^ 28 ≡ k * mp.obj_sz = omega (arith, s.fits) in
    record { in_slabs = omega (arith, s.fits); in_slab = omega arith; on_word = omega arith }

-- The pointer that a client gets for an object.
abbrev pub pointer : ℕ → Addr
pointer m = (inx_of m, m % 2 ^ 28 + metadata_sz)

-- A write at an object, seen at every place.
pub read_back :
    (words : Words) (m v a : ℕ)
    → peek (write words (inx_of m) (m % 2 ^ 28) v) a ≡ (if m == a then v else peek words a)
read_back words m v a = peek-write words (inx_of m) (m % 2 ^ 28) v a (omega arith) ∙ ground arith

own_place : (m : ℕ) → inx_of m ≤ 4096 → bit_or (shifted (inx_of m)) (m % 2 ^ 28) ≡ m
own_place m few = place_lem (inx_of m) (m % 2 ^ 28) few (omega arith) ∙ omega arith

-- What take_free does to the object `m` at the head of the free list.
abbrev pub taken : MemPool → ℕ → MemPool
taken mp m = record mp {
  free_next = peek mp.words m;
  words = write mp.words (inx_of m) (m % 2 ^ 28) m;
}

pub take_free-taken :
    (mp : MemPool) (m : ℕ)
    → mp.free_next ≡ m
    → inx_of m ≤ 4096
    → take_free mp ≡ (pointer m, taken mp m)
unfolding take_free
take_free-taken mp m here few = rw (here, offset_of-mod m, own_place m few)

pub taken-IsPool :
    (mp : MemPool) (m : ℕ) (free used : List ℕ)
    → IsPool mp (m ∷ free) used
    → IsPool (taken mp m) free (m ∷ used)
unfolding count
taken-IsPool mp m free used p = record {
  sized = record {
    units = p.sized.units;
    aligned = p.sized.aligned;
    some_size = p.sized.some_size;
    some_objects = p.sized.some_objects;
    fits = p.sized.fits;
  };
  few_slabs = p.few_slabs;
  chain =
      Chain-frame mp.words (taken mp m).words (peek mp.words m) free
        (λ a i. read_back mp.words m m a ∙ ground (arith, p.single m)) p.chain.1;
  objects = λ a i. p.objects a (omega arith);
  marked = λ a i. read_back mp.words m m a ∙ ground (arith, p.marked a);
  single = λ a. omega (arith, p.single a);
  total = omega (arith, p.total);
}

-- What create_new_slab makes of a pool, with the sizes and indices in range.
abbrev pub grown : MemPool → MemPool
grown mp = record mp {
  words = list_loop (mp.obj_cnt - 1) mp.slab_cnt mp.obj_sz 0 0 mp.words;
  free_next = mp.slab_cnt * 2 ^ 28 + 0;
  slab_cnt = mp.slab_cnt + 1;
}

le-mul : (c sz : ℕ) → 0 < sz → c ≤ sz * c
le-mul c sz size = grind arith

count_range :
    (mp : MemPool)
    → IsSized mp
    → (0 < mp.obj_sz) × (mp.obj_cnt ≤ 2 ^ 28) × (0 + (mp.obj_cnt - 1) * mp.obj_sz < 2 ^ 28)
count_range mp s =
    let size : 0 < mp.obj_sz = omega (arith, s.aligned, s.some_size) in
    let e : (mp.obj_cnt - 1) * mp.obj_sz + mp.obj_sz ≡ mp.obj_sz * mp.obj_cnt =
      omega (arith, ap (λ (t : ℕ). mp.obj_sz * t) back) in
    (size, le_trans (le-mul mp.obj_cnt mp.obj_sz size) s.fits, omega (arith, s.fits))
  where
    back : mp.obj_cnt ≡ mp.obj_cnt - 1 + 1
    back = omega (arith, s.some_objects)

pub create_new_slab-grown :
    (mp : MemPool)
    → IsSized mp
    → mp.slab_cnt ≤ slabs_max
    → create_new_slab true mp ≡ some (grown mp)
unfolding create_new_slab free_list_init
create_new_slab-grown mp s few =
    let (size, fits, room) = count_range mp s in
    let rounds : (mp.obj_cnt + 2 ^ 32 - 1) % 2 ^ 32 ≡ mp.obj_cnt - 1 =
      omega (arith, s.some_objects) in
    let place : shifted mp.slab_cnt ≡ mp.slab_cnt * 2 ^ 28 + 0 = omega arith in rw (rounds, place)

IsObject-below : (mp : MemPool) (m : ℕ) → IsSized mp → IsObject mp m → m < mp.slab_cnt * 2 ^ 28
IsObject-below mp m s o =
    let l = IsObject-Lies mp m s o in
    let size : 0 < mp.obj_sz = omega (arith, s.aligned, s.some_size) in omega (arith, l.in_slabs)

pub grown-IsPool :
    (mp : MemPool) (used : List ℕ)
    → IsPool mp [] used
    → mp.slab_cnt < slabs_max
    → IsPool (grown mp) (places mp.slab_cnt mp.obj_sz 0 (mp.obj_cnt - 1)) used
unfolding count
grown-IsPool mp used p room =
    let (size, few, low) = count_range mp p.sized in
    let new = places mp.slab_cnt mp.obj_sz 0 (mp.obj_cnt - 1) in
    let old_object : (m : ℕ) → 0 < count m used → IsObject mp m =
      λ m i. p.objects m (omega arith) in
    let old_below : (m : ℕ) → 0 < count m used → m < mp.slab_cnt * 2 ^ 28 =
      λ m i. IsObject-below mp m p.sized (old_object m i) in
    record {
      sized = record {
        units = p.sized.units;
        aligned = p.sized.aligned;
        some_size = p.sized.some_size;
        some_objects = p.sized.some_objects;
        fits = p.sized.fits;
      };
      few_slabs = omega arith;
      chain =
          list_loop-Chain (mp.obj_cnt - 1) mp.slab_cnt mp.obj_sz 0 mp.words (omega arith) size low;
      objects = λ m i. elim (dec_lt 0 (count m used)) [
        | yes held ↦ let (slab, k, hi, hk, at) = old_object m held in (slab, k, omega arith, hk, at)
        | no fresh ↦
            let (j, below, at) =
              places_member mp.slab_cnt mp.obj_sz 0 (mp.obj_cnt - 1) m (omega arith) in
            (mp.slab_cnt, j, omega arith, omega (arith, p.sized.some_objects), omega arith)
      ];
      marked = λ m i.
          list_loop_frame (mp.obj_cnt - 1) mp.slab_cnt mp.obj_sz 0 0 mp.words m low
            (omega (arith, old_below m i))
          ∙ p.marked m i;
      single = λ m. elim (dec_lt 0 (count m used)) [
        | yes held ↦ omega (
          arith,
          p.single m,
          places_below mp.slab_cnt mp.obj_sz 0 (mp.obj_cnt - 1) m (omega (arith, old_below m held)),
        )
        | no fresh ↦ omega (arith, places_single mp.slab_cnt mp.obj_sz 0 (mp.obj_cnt - 1) m size)
      ];
      total = omega (
        arith,
        p.total,
        p.sized.some_objects,
        length-places mp.slab_cnt mp.obj_sz 0 (mp.obj_cnt - 1),
      );
    }
