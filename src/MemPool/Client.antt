-- ===== src/MemPool/Client.antt =====
-- What argo_mem_pool_get and argo_mem_pool_put promise their client.
use tpt.Common.{
  ℕ, ◌+◌, ◌-◌, ◌*◌, ◌%◌, ◌^◌, ◌≤◌, ◌<◌, ◌≡◌, refl, subst, ◌∙◌, ◌⊎◌, inl, inr, Bool, true, false,
  Option, none, some, List, [], ◌∷◌, ◌++◌, arith, ◌==◌, if◌then◌else◌, length-append, Bool-cases,
  ==_iff,
}
use tpt.MemPool.{
  write, offset_invalid, offset_of, inx_of, slabs_max, MemPool, Addr, create_new_slab,
  argo_mem_pool_expand, take_free, argo_mem_pool_get, argo_mem_pool_put,
}
use tpt.MemPool.Places.{offset_of-mod}
use tpt.MemPool.FreeList.{count, count-append, Chain-frame, places-cons}
use tpt.MemPool.Pool.{
  IsPool, Lies, IsObject-Lies, pointer, taken, take_free-taken, taken-IsPool, grown,
  create_new_slab-grown, grown-IsPool, read_back,
}

-- What argo_mem_pool_get may do with a pool: return NULL when no object is free and no slab can be added,
-- or hand out an object that lies within a slab on a whole word and that nobody had.
abbrev pub Got : Bool → MemPool → (free used : List ℕ) → Option (Addr × MemPool) → Type 0
Got alloc mp free used r =
    ((r ≡ none) × (free ≡ []) × ((mp.slab_cnt ≡ slabs_max) ⊎ (alloc ≡ false)))
    ⊎ ((m : ℕ) × (mp' : MemPool) × (free' : List ℕ) × (r ≡ some (pointer m, mp'))
        × IsPool mp' free' (m ∷ used)
        × Lies mp' m)

Lies-few : (mp : MemPool) (m : ℕ) → Lies mp m → mp.slab_cnt ≤ slabs_max → inx_of m ≤ 4096
Lies-few mp m l few = omega (arith, l.in_slabs)

head-Lies : (mp : MemPool) (m : ℕ) (free used : List ℕ) → IsPool mp (m ∷ free) used → Lies mp m
unfolding count
head-Lies mp m free used p = IsObject-Lies mp m p.sized (p.objects m (ground arith))

take-Got :
    (mp : MemPool) (m : ℕ) (free used : List ℕ)
    → IsPool mp (m ∷ free) used
    → (mp' : MemPool) × (take_free mp ≡ (pointer m, mp')) × IsPool mp' free (m ∷ used) × Lies mp' m
take-Got mp m free used p =
    let l = head-Lies mp m free used p in
    (
      taken mp m,
      take_free-taken mp m p.chain.0 (Lies-few mp m l p.few_slabs),
      taken-IsPool mp m free used p,
      record { in_slabs = l.in_slabs; in_slab = l.in_slab; on_word = l.on_word },
    )

-- The invalid offset is no multiple of 8, so no object has it.
head-valid :
    (mp : MemPool) (m : ℕ) (free used : List ℕ)
    → IsPool mp (m ∷ free) used
    → (offset_of mp.free_next == offset_invalid) ≡ false
head-valid mp m free used p =
    let l = head-Lies mp m free used p in
    rw (p.chain.0, offset_of-mod m) (ground (arith, l.on_word))

exhausted :
    {mp : MemPool} {used : List ℕ}
    → IsPool mp [] used
    → (offset_of mp.free_next == offset_invalid) ≡ true
exhausted {mp} p = rw (offset_of-mod mp.free_next) (ground (arith, p.chain))

-- What argo_mem_pool_get makes of the outcome of argo_mem_pool_expand.
abbrev then_take : Option MemPool → Option (Addr × MemPool)
then_take e = elim e [ none ↦ none | some mp' ↦ some (take_free mp') ]

full_slabs :
    (mp : MemPool) (alloc : Bool)
    → (mp.slab_cnt == slabs_max) ≡ true
    → then_take (argo_mem_pool_expand alloc mp) ≡ none
unfolding argo_mem_pool_expand
full_slabs mp alloc full = rw full refl

expand-create :
    (mp : MemPool)
    → argo_mem_pool_expand true mp
      ≡ (if mp.slab_cnt == slabs_max then none else create_new_slab true mp)
unfolding argo_mem_pool_expand
expand-create mp = refl

take_new :
    (mp g : MemPool) (x : Addr × MemPool)
    → (mp.slab_cnt == slabs_max) ≡ false
    → create_new_slab true mp ≡ some g
    → take_free g ≡ x
    → then_take (argo_mem_pool_expand true mp) ≡ some x
take_new mp g x room made runs = rw (expand-create mp, room, made, runs) refl

no_slab :
    (mp : MemPool)
    → (mp.slab_cnt == slabs_max) ≡ false
    → then_take (argo_mem_pool_expand false mp) ≡ none
unfolding argo_mem_pool_expand
no_slab mp room = rw room refl

grown_cons :
    (mp : MemPool) (used : List ℕ)
    → IsPool mp [] used
    → mp.slab_cnt < slabs_max
    → (rest : List ℕ) × IsPool (grown mp) ((mp.slab_cnt * 2 ^ 28 + 0) ∷ rest) used
grown_cons mp used p few =
    let (rest, whole) = places-cons mp.slab_cnt mp.obj_sz 0 (mp.obj_cnt - 1) in
    (rest, subst (λ free. IsPool (grown mp) free used) whole (grown-IsPool mp used p few))

with_room :
    {mp : MemPool} {used : List ℕ} (alloc : Bool)
    → IsPool mp [] used
    → (mp.slab_cnt == slabs_max) ≡ false
    → Got alloc mp [] used (then_take (argo_mem_pool_expand alloc mp))
with_room {mp} false p room = inl (no_slab mp room, refl, inr refl)
with_room {mp} {used} true p room =
    let few : mp.slab_cnt < slabs_max = ground (arith, p.few_slabs) in
    let (rest, new) = grown_cons mp used p few in
    let (mp', runs, p', l) = take-Got (grown mp) (mp.slab_cnt * 2 ^ 28 + 0) rest used new in
    let made = create_new_slab-grown mp p.sized p.few_slabs in
    inr (mp.slab_cnt * 2 ^ 28 + 0, mp', rest, take_new mp (grown mp) _ room made runs, p', l)

-- From a pool whose objects are those of `free` and `used`, argo_mem_pool_get either returns NULL, with no
-- object free and no slab to be had, or hands out an object that lies inside a slab, on a multiple of 8,
-- that was not in use, and is in use now; the other objects stay as they were.
pub argo_mem_pool_get-Got :
    (alloc : Bool) (mp : MemPool) (free used : List ℕ)
    → IsPool mp free used
    → Got alloc mp free used (argo_mem_pool_get alloc mp)
unfolding argo_mem_pool_get
argo_mem_pool_get-Got alloc mp (m ∷ free) used p =
    let (mp', runs, p', l) = take-Got mp m free used p in
    inr (m, mp', free, rw (head-valid mp m free used p, runs) refl, p', l)
argo_mem_pool_get-Got alloc mp [] used p =
    rw (exhausted p) (elim (Bool-cases (mp.slab_cnt == slabs_max)) [
      | inl full ↦ inl (full_slabs mp alloc full, refl, inl (ground arith))
      | inr room ↦ with_room alloc p room
    ])

-- Given back, an object is the first of the free list, and the other objects in use stay so.
pub argo_mem_pool_put-IsPool :
    (mp : MemPool) (m : ℕ) (free before after : List ℕ)
    → IsPool mp free (before ++ m ∷ after)
    → IsPool (argo_mem_pool_put mp (pointer m)) (m ∷ free) (before ++ after)
unfolding argo_mem_pool_put count
argo_mem_pool_put-IsPool mp m free before after p =
    let same : m % 2 ^ 28 + 8 - 8 ≡ m % 2 ^ 28 = omega arith in
    let had : 0 < count m (before ++ m ∷ after) =
      ground (arith, count-append m before (m ∷ after)) in
    let not_free : count m free ≡ 0 = omega (arith, p.single m) in
    rw same (record {
      sized = record {
        units = p.sized.units;
        aligned = p.sized.aligned;
        some_size = p.sized.some_size;
        some_objects = p.sized.some_objects;
        fits = p.sized.fits;
      };
      few_slabs = p.few_slabs;
      chain = (
        p.marked m had,
        rw (read_back mp.words m mp.free_next m) (
            rw ((==_iff m m).1 refl) (
              Chain-frame mp.words (write mp.words (inx_of m) (m % 2 ^ 28) mp.free_next)
                mp.free_next free
                (λ a i. read_back mp.words m mp.free_next a ∙ ground (arith, not_free)) p.chain)),
      );
      objects = λ a i.
          p.objects a
            (ground (arith, count-append a before (m ∷ after), count-append a before after));
      marked = λ a i.
          read_back mp.words m mp.free_next a
          ∙ ground (
            arith,
            p.marked a,
            p.single m,
            p.single a,
            count-append a before (m ∷ after),
            count-append a before after,
          );
      single = λ a.
          ground
            (arith, p.single a, count-append a before (m ∷ after), count-append a before after);
      total = omega (arith, p.total, length-append before (m ∷ after), length-append before after);
    })
