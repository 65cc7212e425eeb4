-- ===== src/Tests/Allocation.antt =====
-- The theorems on the kernel's heap at the heap that `meminit` makes behind an image of 1 MB.
use virtual_memory_xinu_f.Base.{
  ℕ, ◌+◌, ◌-◌, ◌≡◌, refl, true, ◌&&◌, Option, none, some, List, [], ◌∷◌, ◌⊎◌, arith, ok, syserr,
}
use virtual_memory_xinu_f.System.{MemList}
use virtual_memory_xinu_f.VirtualHeap.Free.{Block}
use virtual_memory_xinu_f.VirtualHeap.Covers.{in_block, covers}
use virtual_memory_xinu_f.Allocator.{
  meminit, getmem, freemem, getstk, freestk, split, roundmb, shrink, set_length,
}
use virtual_memory_xinu_f.Allocator.FreeList.{IsFreeList}
use virtual_memory_xinu_f.Allocator.Taken.{Short, TakesOut, SameBounds}
use virtual_memory_xinu_f.Allocator.Start.{meminit-IsFreeList}
use virtual_memory_xinu_f.Allocator.Get.{IsFirst, getmem-IsFreeList}
use virtual_memory_xinu_f.Allocator.Freed.{PutsBack}
use virtual_memory_xinu_f.Allocator.Release.{freemem-IsFreeList}
use virtual_memory_xinu_f.Allocator.RoundTrip.{freemem-getmem}
use virtual_memory_xinu_f.Allocator.LastFit.{IsLast}
use virtual_memory_xinu_f.Allocator.Top.{getstk-IsFreeList, freestk-getstk, IsGiven}

abbrev blank : MemList
blank = record {
  minheap = 0;
  maxheap = 0;
  memlist = record { mnext = none; mlength = 0 };
  blocks = λ a. record { mnext = none; mlength = 0 };
}

abbrev started : MemList
unfolding meminit
started = meminit 1048576 blank

abbrev free_blocks : List Block
free_blocks = (1048576, 3145728) ∷ []

started-IsFreeList : IsFreeList started free_blocks
unfolding started
started-IsFreeList = meminit-IsFreeList 1048576 blank (omega arith) (omega arith) refl

meminit-IsFreeList_example : IsFreeList (meminit 1048576 blank) ((1048576, 4194304 - 1048576) ∷ [])
meminit-IsFreeList_example = meminit-IsFreeList 1048576 blank (omega arith) (omega arith) refl

getmem-IsFreeList_example :
    ((getmem 100 started ≡ some (none, started)) × Short (roundmb 100) free_blocks)
    ⊎ ((a : ℕ) × (h' : MemList) × (bs' : List Block) × (getmem 100 started ≡ some (some a, h'))
        × IsFreeList h' bs'
        × SameBounds started h'
        × TakesOut a (roundmb 100) free_blocks bs'
        × IsFirst (roundmb 100) a free_blocks)
getmem-IsFreeList_example =
    getmem-IsFreeList started free_blocks 100 started-IsFreeList (omega arith) (omega arith)

-- The block that is given back is free already.
freemem-IsFreeList_example :
    ((freemem 1048584 100 started ≡ some (syserr, started))
      × (x : ℕ) × ((in_block x 1048584 (roundmb 100) && covers x free_blocks) ≡ true))
    ⊎ ((h' : MemList) × (bs' : List Block) × (freemem 1048584 100 started ≡ some (ok, h'))
        × IsFreeList h' bs'
        × SameBounds started h'
        × PutsBack 1048584 (roundmb 100) free_blocks bs')
unfolding started
freemem-IsFreeList_example =
    freemem-IsFreeList started free_blocks 1048584 100 started-IsFreeList (omega arith)
      (omega arith) refl (omega arith) (omega arith)

abbrev after_get : MemList
after_get = split 104 none 1048576 started

gives_first : getmem 100 started ≡ some (some 1048576, after_get)
unfolding getmem started
gives_first = refl

freemem-getmem_example :
    (h2 : MemList) × (freemem 1048576 100 after_get ≡ some (ok, h2)) × IsFreeList h2 free_blocks
freemem-getmem_example =
    freemem-getmem started after_get free_blocks 100 1048576 started-IsFreeList (omega arith)
      (omega arith) gives_first

getstk-IsFreeList_example :
    ((getstk 100 started ≡ some (none, started)) × Short (roundmb 100) free_blocks)
    ⊎ ((prev : Option ℕ) × (b : ℕ) × (l : IsLast (roundmb 100) prev b free_blocks) × (h' : MemList)
        × (bs' : List Block) × (getstk 100 started ≡ some (some (b + l.length - 4), h'))
        × IsFreeList h' bs'
        × SameBounds started h'
        × TakesOut (b + l.length - roundmb 100) (roundmb 100) free_blocks bs')
getstk-IsFreeList_example =
    getstk-IsFreeList started free_blocks 100 started-IsFreeList (omega arith) (omega arith)

abbrev after_stack : MemList
after_stack = shrink 104 (set_length (some 1048576) 3145624 started)

gives_top : getstk 100 started ≡ some (some 4194300, after_stack)
unfolding getstk started
gives_top = refl

freestk-getstk_example : IsGiven free_blocks (freestk 4194300 100 after_stack)
freestk-getstk_example =
    freestk-getstk started after_stack free_blocks 100 4194300 started-IsFreeList (omega arith)
      (omega arith) gives_top
