-- ===== src/Tests/Runs.antt =====
-- Runs of the memory allocator and of process creation on small states.
use virtual_memory_xinu_f.Base.{
  ℕ, ◌≡◌, refl, some, none, Option, syserr, ◌+◌, ◌==◌, if◌then◌else◌, Status,
}
use virtual_memory_xinu_f.Kernel.{Memblk}
use virtual_memory_xinu_f.System.{MemList}
use virtual_memory_xinu_f.Allocator.{getmem, getstk, freemem, walk, first_fit, last_fit}

-- Free blocks of 64 bytes at 0x10_0000 and of 128 bytes at 0x10_0100.
abbrev block : ℕ → Memblk
block a =
    if a == 0x10_0000
    then record { mnext = some 0x10_0100; mlength = 64 }
    else record { mnext = none; mlength = 128 }

abbrev heap : MemList
heap = record {
  minheap = 0x10_0000;
  maxheap = 0x20_0000;
  memlist = record { mnext = some 0x10_0000; mlength = 192 };
  blocks = block;
}

abbrev result : Option (Option ℕ × MemList) → Option ℕ
result none = none
result (some (a, h)) = a

abbrev state : Option (Option ℕ × MemList) → MemList
state none = heap
state (some (a, h)) = h

abbrev status : Option (Status × MemList) → Option Status
status none = none
status (some (st, h)) = some st

abbrev freed : Option (Status × MemList) → MemList
freed none = heap
freed (some (st, h)) = h

-- 61 bytes are 64, the first block.
getmem_exact : result (getmem 61 heap) ≡ some 0x10_0000
unfolding getmem first_fit
getmem_exact = refl

getmem_splits : (state (getmem 70 heap)).memlist.mlength ≡ 120
unfolding getmem first_fit
getmem_splits = refl

getstk_top : result (getstk 16 heap) ≡ some (0x10_0100 + 124)
unfolding getstk last_fit
getstk_top = refl

-- A block that comes back between its neighbours is joined with them.
freemem_joins : ((freed (freemem 0x10_0040 192 heap)).blocks 0x10_0000).mlength ≡ 384
unfolding freemem walk
freemem_joins = refl

freemem_overlaps : status (freemem 0x10_0010 16 heap) ≡ some syserr
unfolding freemem walk
freemem_overlaps = refl
