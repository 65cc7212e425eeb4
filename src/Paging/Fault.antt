-- ===== src/Paging/Fault.antt =====
-- xinu-fall2022-paging/system/pgfutil.c: the steps of page fault handling. The faulting address is
-- `pgfaddr`, and its page table must be present.
use virtual_memory_xinu_f.Base.{ℕ, true, false, Option, none, some, Status, ok, syserr}
use virtual_memory_xinu_f.Frames.{
  e1, e2, FrameTable, PteAddr, getfreeframe, get_used_frame_e1, invtakeframe, invfreeframe,
}
use virtual_memory_xinu_f.Memory.{
  Pte, Memory, base20, to_fidx16, load_pte, store_pte, copy_page, read_page, write_page,
}
use virtual_memory_xinu_f.Kernel.{Kernel}
use virtual_memory_xinu_f.Paging.{getpte}

-- The entry of a page in the E1 frame `f`, and that of a page swapped out to the E2 frame `f`.
abbrev pub mapped_entry : ℕ → Pte → Pte
mapped_entry f e = record e { pt_pres = true; pt_write = true; pt_swap = false; pt_base = base20 f }

abbrev pub swapped_entry : ℕ → Pte → Pte
swapped_entry f e = record e {
  pt_pres = false;
  pt_write = false;
  pt_swap = true;
  pt_base = base20 f;
}

-- SYSERR is `none`. The result of `invtakeframe` is ignored, as in the code.
abbrev map_got : PteAddr → Option ℕ × FrameTable → Kernel → Option ℕ × Kernel
map_got p (none, fr) k = (none, record k { frames = fr })
map_got p (some f, fr) k = (
  some f,
  record k {
    frames = (invtakeframe f k.currpid (some p) fr).1;
    mem = store_pte p (mapped_entry f (load_pte p k.mem)) k.mem;
  },
)

unfoldable pub mapfreeframe : Kernel → Option ℕ × Kernel
unfolding getpte
mapfreeframe k = map_got (getpte k.pgfaddr k) (getfreeframe e1 k.frames) k

abbrev restore_into : ℕ → Option ℕ × Kernel → Status × Kernel
restore_into src (none, k) = (syserr, k)
restore_into src (some dest, k) =
    (ok, record k { mem = copy_page src dest k.mem; frames = (invfreeframe src k.frames).1 })

unfoldable pub restoreframe : Kernel → Status × Kernel
unfolding mapfreeframe
restoreframe k =
    restore_into (to_fidx16 (load_pte (getpte k.pgfaddr k) k.mem).pt_base) (mapfreeframe k)

-- The victim's entry is marked, unless it is FR_PTEUNUSED.
abbrev pub mark_swapped : Option PteAddr → ℕ → Memory → Memory
mark_swapped none dest m = m
mark_swapped (some p) dest m = store_pte p (swapped_entry dest (load_pte p m)) m

abbrev evict_to : ℕ → Option ℕ × FrameTable → Kernel → Status × Kernel
evict_to victim (none, fr) k = (syserr, record k { frames = fr })
evict_to victim (some dest, fr) k =
    let fr' = (invtakeframe dest (fr.invpt victim).fr_pid (fr.invpt victim).fr_pte fr).1 in
    (
      ok,
      record k {
        mem = mark_swapped (fr'.invpt victim).fr_pte dest (copy_page victim dest k.mem);
        frames = (invfreeframe victim fr').1;
      },
    )

abbrev evict_victim : Option ℕ → Kernel → Status × Kernel
evict_victim none k = (syserr, k)
evict_victim (some victim) k = evict_to victim (getfreeframe e2 k.frames) k

unfoldable pub evictframe : Kernel → Status × Kernel
evictframe k = evict_victim (get_used_frame_e1 k.frames) k

-- `frame_num * NBPG` of what `mapfreeframe` returned; SYSERR gives the page 2^20 - 1.
abbrev page_of : Option ℕ → ℕ
page_of none = 0xfffff
page_of (some f) = f

-- The results of `evictframe` and `mapfreeframe` are not tested, as in the code.
unfoldable pub swapframe : Kernel → Status × Kernel
unfolding evictframe mapfreeframe
swapframe k =
    let src = to_fidx16 (load_pte (getpte k.pgfaddr k) k.mem).pt_base in
    let temp = read_page src k.mem in
    let k1 = record k { frames = (invfreeframe src k.frames).1 } in
    let k2 = (evictframe k1).1 in
    let (got, k3) = mapfreeframe k2 in
    (ok, record k3 { mem = write_page temp (page_of got) k3.mem })
