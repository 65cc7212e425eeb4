-- ===== src/Tests/Heap.antt =====
-- The theorems on the virtual heap at a process that has used the first page of it.
use virtual_memory_xinu_f.Base.{
  ℕ, ◌+◌, ◌*◌, ◌<◌, ◌≡◌, refl, true, false, none, some, [], ◌∷◌, ◌⊎◌, List, arith, not, ◌&&◌, false,
}
use virtual_memory_xinu_f.Memory.{page_number}
use virtual_memory_xinu_f.Kernel.{Proc}
use virtual_memory_xinu_f.VirtualHeap.{vmhgetmem, take_split}
use virtual_memory_xinu_f.VirtualHeap.Free.{Block, IsHeap, first_fit}
use virtual_memory_xinu_f.VirtualHeap.Get.{vmhgetmem-IsHeap}
use virtual_memory_xinu_f.VirtualHeap.Covers.{in_block, covers, vmhgetmem-covers}
use virtual_memory_xinu_f.Tests.Sample.{idle}

-- One free block of three pages, behind the first page.
abbrev three_pages : Proc
three_pages = record idle {
  prmemblk = record { mnext = some 16781312; mlength = 12288 };
  heap = λ a. record { mnext = none; mlength = 12288 };
}

abbrev blocks : List Block
blocks = (16781312, 12288) ∷ []

three_pages-IsHeap : IsHeap three_pages blocks
three_pages-IsHeap = record {
  started = refl;
  free = (
    refl,
    record {
      behind = omega arith;
      aligned = refl;
      pages = refl;
      nonempty = omega arith;
      len = refl;
      marked = refl;
    },
    (refl, omega arith),
  );
  size = refl;
}

vmhgetmem-IsHeap_example :
    ((first_fit (2 * 4096) blocks ≡ none) × (vmhgetmem 2 three_pages ≡ some (none, three_pages)))
    ⊎ ((a : ℕ) × (bs' : List Block) × (p' : Proc) × (first_fit (2 * 4096) blocks ≡ some (a, bs'))
        × (vmhgetmem 2 three_pages ≡ some (some a, p'))
        × IsHeap p' bs'
        × ((i : ℕ) → i < 2 → p'.pralloc (page_number a + i) ≡ true))
vmhgetmem-IsHeap_example =
    vmhgetmem-IsHeap three_pages blocks 2 three_pages-IsHeap (omega arith) (omega arith)

abbrev after_get : Proc
unfolding take_split
after_get = take_split 2 none 16781312 three_pages

gives_two : vmhgetmem 2 three_pages ≡ some (some 16781312, after_get)
unfolding vmhgetmem after_get
gives_two = refl

vmhgetmem-covers_example :
    (bs' : List Block) × IsHeap after_get bs'
    × ((x : ℕ)
        → ((in_block x 16781312 (2 * 4096) && not (covers x blocks)) ≡ false)
          × (covers x bs' ≡ (covers x blocks && not (in_block x 16781312 (2 * 4096)))))
vmhgetmem-covers_example =
    vmhgetmem-covers three_pages after_get blocks 2 16781312 three_pages-IsHeap (omega arith)
      (omega arith) gives_two
