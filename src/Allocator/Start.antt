-- ===== src/Allocator/Start.antt =====
-- The heap that `meminit` makes.
use virtual_memory_xinu_f.Base.{ℕ, ◌-◌, ◌%◌, ◌<◌, ◌≡◌, refl, ap, ◌∙◌, [], ◌∷◌, arith, update_self}
use virtual_memory_xinu_f.Kernel.{Memblk}
use virtual_memory_xinu_f.System.{MemList}
use virtual_memory_xinu_f.Allocator.{meminit}
use virtual_memory_xinu_f.Allocator.FreeList.{IsFreeList}

-- When the image ends at a multiple of 8 below 4 MB, `meminit` makes one free block of all memory
-- from there to 4 MB.
pub meminit-IsFreeList :
    (end : ℕ) (h : MemList)
    → 0 < end
    → end < 4194304
    → end % 8 ≡ 0
    → IsFreeList (meminit end h) ((end, 4194304 - end) ∷ [])
unfolding meminit
meminit-IsFreeList end h pos few al = record {
  chain = (
    refl,
    ap (λ (k : Memblk). k.mlength) (update_self h.blocks end _) ∙ omega arith,
    ap (λ (k : Memblk). k.mnext) (update_self h.blocks end _),
  );
  apart = (omega arith, omega arith, al, omega arith, omega arith);
  size = omega arith;
  low = pos;
  high = omega arith;
}
