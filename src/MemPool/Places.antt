-- ===== src/MemPool/Places.antt =====
-- The places of objects in the slabs of argo_mem_pool.c as numbers.
use Prim.Native.Nat.{bit_or}
use tpt.Common.{ℕ, ◌+◌, ◌*◌, ◌%◌, ◌^◌, ◌≤◌, ◌<◌, ◌≡◌, arith, ◌==◌, if◌then◌else◌}
use tpt.Common.Bits.{bit_or_fields, bit_and_mask}
use tpt.MemPool.{Words, write, offset_of, inx_of, shifted}

-- The word at a place.
abbrev pub peek : Words → ℕ → ℕ
peek words m = words (inx_of m) (m % 2 ^ 28)

pub offset_of-mod : (m : ℕ) → offset_of m ≡ m % 2 ^ 28
offset_of-mod m = bit_and_mask 28 m

-- A slab's index with an offset below the size of a slab.
pub place_lem :
    (slab o : ℕ) → slab ≤ 4096 → o < 2 ^ 28 → bit_or (shifted slab) o ≡ slab * 2 ^ 28 + o
place_lem slab o few small =
    let same : shifted slab ≡ slab * 2 ^ 28 = omega arith in rw same (bit_or_fields 28 slab o small)

pub place_parts :
    (slab o : ℕ)
    → o < 2 ^ 28
    → (inx_of (slab * 2 ^ 28 + o) ≡ slab) × ((slab * 2 ^ 28 + o) % 2 ^ 28 ≡ o)
place_parts slab o small = omega arith

pub peek-write :
    (words : Words) (slab o v m : ℕ)
    → o < 2 ^ 28
    → peek (write words slab o v) m ≡ (if slab * 2 ^ 28 + o == m then v else peek words m)
peek-write words slab o v m small = ground arith
