-- ===== src/Tests/Faults.antt =====
-- The theorems on page faults at a concrete kernel: the page of the entry 7 is in the frame 2024 of
-- E1, that of the entry 8 in the frame 3049 of E2.
use virtual_memory_xinu_f.Base.{
  ℕ, ◌≡◌, refl, true, false, none, some, [], ◌∷◌, ◌++◌, ◌⊎◌, inr, arith, ok, syserr,
}
use virtual_memory_xinu_f.Frames.{d, e1, e2, PteAddr, FrameTable, fidxtoregion}
use virtual_memory_xinu_f.Frames.Stacks.{free_list}
use virtual_memory_xinu_f.Memory.{load_pte, to_fidx16}
use virtual_memory_xinu_f.Kernel.{Kernel}
use virtual_memory_xinu_f.FrameBlock.Fifo.{filled}
use virtual_memory_xinu_f.Paging.{getpte}
use virtual_memory_xinu_f.Paging.Fault.{
  mapfreeframe, restoreframe, evictframe, swapframe, mapped_entry,
}
use virtual_memory_xinu_f.Paging.Handler.{handled, waits, fresh_page}
use virtual_memory_xinu_f.Paging.Map.{Mapped, mapfreeframe-IsValid}
use virtual_memory_xinu_f.Paging.Evict.{Evicted, evictframe-IsValid, evictframe-fails}
use virtual_memory_xinu_f.Paging.Restore.{Restored, restoreframe-IsValid}
use virtual_memory_xinu_f.Paging.Swap.{Swapped, swapframe-IsValid}
use virtual_memory_xinu_f.Paging.RoundTrip.{faulting, restoreframe-evictframe}
use virtual_memory_xinu_f.Paging.Fresh.{
  InFrame, Blocked, fresh_page-maps, fresh_page-evicts, fresh_page-waits,
}
use virtual_memory_xinu_f.Tests.Sample.{sample_kernel, kernel-IsValid, listed, entry_at}

-- Addresses in the pages of the entries 7 and 8, and in one that was never used.
abbrev page_7 : ℕ
page_7 = 16805900

abbrev page_8 : ℕ
page_8 = 16810000

abbrev page_9 : ℕ
page_9 = 16814080

getpte_8 : (b1 b2 : _) → getpte page_8 (sample_kernel b1 b2 page_8) ≡ entry_at 8
unfolding getpte
getpte_8 b1 b2 = refl

names_3049 :
    (b1 b2 : _)
    → to_fidx16
        (load_pte
          (getpte page_8 (sample_kernel b1 b2 page_8))
          (sample_kernel b1 b2 page_8).mem).pt_base
      ≡ 3049
names_3049 b1 b2 = rw (getpte_8 b1 b2) refl

3049-e2 : fidxtoregion 3049 ≡ some e2
unfolding fidxtoregion
3049-e2 = refl

abbrev at_9 : Kernel
at_9 = sample_kernel true true page_9

abbrev at_8 : Kernel
at_8 = sample_kernel true true page_8

-- No free frame in E1, and none in E1 and E2.
abbrev crowded : Kernel
crowded = sample_kernel false true page_9

abbrev full : Kernel
full = sample_kernel false false page_9

mapfreeframe-IsValid_example :
    ((mapfreeframe at_9 ≡ (none, at_9)) × (free_list at_9.frames e1 ≡ []))
    ⊎ ((f : ℕ) × (k' : Kernel) × (mapfreeframe at_9 ≡ (some f, k')) × Mapped at_9 listed f k')
mapfreeframe-IsValid_example = mapfreeframe-IsValid at_9 listed (kernel-IsValid true true)

restoreframe-IsValid_example :
    ((restoreframe at_8).0 ≡ ok)
    × Restored at_8 listed (getpte page_8 at_8) 3049 2025 (restoreframe at_8).1
restoreframe-IsValid_example =
    restoreframe-IsValid at_8 listed 3049 2025 [] (kernel-IsValid true true) refl
      (names_3049 true true) 3049-e2 refl

evictframe-IsValid_example :
    ((evictframe crowded).0 ≡ ok) × Evicted crowded 2024 [] 3048 (evictframe crowded).1
evictframe-IsValid_example =
    evictframe-IsValid crowded 2024 [] 3048 [] (kernel-IsValid false true) refl (omega arith)

evictframe-fails_example : evictframe full ≡ (syserr, full)
evictframe-fails_example = evictframe-fails full listed (kernel-IsValid false false) (inr refl)

-- Both regions are full: the two pages change places.
abbrev full_8 : Kernel
full_8 = sample_kernel false false page_8

swapframe-IsValid_example :
    ((swapframe full_8).0 ≡ ok) × Swapped full_8 2024 3049 [] (swapframe full_8).1
swapframe-IsValid_example =
    swapframe-IsValid full_8 2024 3049 [] (kernel-IsValid false false) (names_3049 false false)
      3049-e2 refl (omega arith)

fresh_page-maps_example :
    (k' : Kernel) × (fresh_page at_9 ≡ handled k')
    × InFrame at_9 2025 (listed ++ 2025 ∷ []) k'
    × (k'.mem.bytes ≡ at_9.mem.bytes)
fresh_page-maps_example = fresh_page-maps at_9 listed 2025 [] (kernel-IsValid true true) refl

fresh_page-evicts_example :
    (k' : Kernel) × (fresh_page crowded ≡ handled k')
    × InFrame crowded 2024 ([] ++ 2024 ∷ []) k'
    × (k'.mem.bytes 3048 10 ≡ crowded.mem.bytes 2024 10)
fresh_page-evicts_example =
    fresh_page-evicts crowded 2024 [] 3048 [] 10 (kernel-IsValid false true) refl refl (omega arith)
      (omega arith)

-- The process 7 waits for a frame.
abbrev waited_for : Kernel
waited_for = record full { blocked = record { fbqueue = λ i. 7; fbqhead = 0; fbqtail = 0 } }

fresh_page-waits_example :
    (k' : Kernel) × (fresh_page waited_for ≡ waits k') × Blocked waited_for k' (7 ∷ [])
fresh_page-waits_example =
    fresh_page-waits waited_for (7 ∷ []) refl refl
      (filled 0 (7 ∷ []) (omega arith) (omega arith) refl refl) (omega arith)

evicted_page : getpte page_7 (faulting 5 page_7 (evictframe crowded).1) ≡ entry_at 7
unfolding getpte evictframe virtual_memory_xinu_f.Frames.get_used_frame_e1
    virtual_memory_xinu_f.Frames.getfreeframe virtual_memory_xinu_f.Frames.invtakeframe
    virtual_memory_xinu_f.Memory.copy_page
evicted_page = refl

restoreframe-evictframe_example :
    let (done, k3) = restoreframe (faulting 5 page_7 (evictframe crowded).1) in
    (done ≡ ok)
    × (k3.mem.bytes 2024 10 ≡ crowded.mem.bytes 2024 10)
    × (load_pte (entry_at 7) k3.mem ≡ mapped_entry 2024 (load_pte (entry_at 7) crowded.mem))
    × (free_list k3.frames e2 ≡ free_list crowded.frames e2)
restoreframe-evictframe_example =
    restoreframe-evictframe crowded 2024 [] 3048 [] (entry_at 7) 5 page_7 10
      (kernel-IsValid false true) refl (omega arith) refl evicted_page (omega arith)
