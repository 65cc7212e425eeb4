-- ===== src/Paging/Handler.antt =====
-- xinu-fall2022-paging/system/pgfhandler.c: the page fault handler, as run for the running process
-- at the address `pgfaddr`.
use virtual_memory_xinu_f.Base.{ℕ, true, not, ◌&&◌, Option, none, some, if◌then◌else◌, update}
use virtual_memory_xinu_f.Base.Int.{succ_ℤ}
use virtual_memory_xinu_f.Frames.{e1, e2, FrameTable, hasfreeframe}
use virtual_memory_xinu_f.Memory.{PdeAddr, base20, page_number, load_pde, store_pde, load_pte}
use virtual_memory_xinu_f.Kernel.{Kernel}
use virtual_memory_xinu_f.Paging.{getpde, getpte, newpt}
use virtual_memory_xinu_f.Paging.Fault.{evictframe, mapfreeframe, restoreframe, swapframe}
use virtual_memory_xinu_f.FrameBlock.{frameblock}

-- How a run of the handler ends: it returns, it kills the process for a segmentation fault, it
-- blocks the process (`frameblock`), or it panics. A blocked process goes on with `fresh_page` when
-- it is resumed.
pub data Outcome : Type 0 where
  handled : Kernel → Outcome
  segfault : Kernel → Outcome
  waits : Kernel → Outcome
  panicked : Outcome

-- `__pde_inv_check`; `none` is the panic.
abbrev install_pt : PdeAddr → Option ℕ × Kernel → Option Kernel
install_pt p (none, k) = none
install_pt p (some f, k) = some (record k {
  mem =
      store_pde p
        (record (load_pde p k.mem) { pd_pres = true; pd_write = true; pd_base = base20 f }) k.mem;
})

unfoldable pub pde_inv_check : Kernel → Option Kernel
unfolding getpde newpt
pde_inv_check k =
    if (load_pde (getpde k.pgfaddr k) k.mem).pd_pres
    then some k
    else install_pt (getpde k.pgfaddr k) (newpt k.currpid k)

-- `invpt[INIDX(pde->pd_base)].fr_refcnt++` for the page table of the address.
abbrev pub count_page : ℕ → FrameTable → FrameTable
count_page f s = record s {
  invpt = update s.invpt f (record (s.invpt f) { fr_refcnt = succ_ℤ (s.invpt f).fr_refcnt });
}

unfoldable pub add_reference : Kernel → Kernel
unfolding getpde
add_reference k = record k {
  frames = count_page (load_pde (getpde k.pgfaddr k) k.mem).pd_base k.frames;
}

-- The loop and what follows it, for a page that is not swapped out. Each test of the loop is made
-- on the state in which the process is resumed.
unfoldable pub fresh_page : Kernel → Outcome
unfolding frameblock evictframe mapfreeframe add_reference hasfreeframe
fresh_page k =
    let e1full = not (hasfreeframe e1 k.frames) in
    let e2full = not (hasfreeframe e2 k.frames) in
    if e1full && e2full
    then waits (frameblock k)
    else handled (add_reference (mapfreeframe (if e1full then (evictframe k).1 else k)).1)

-- The three cases of a page that is swapped out.
unfoldable pub swapped_page : Kernel → Kernel
unfolding evictframe restoreframe swapframe hasfreeframe
swapped_page k =
    let e1full = not (hasfreeframe e1 k.frames) in
    let e2full = not (hasfreeframe e2 k.frames) in
    if e1full && e2full
    then (swapframe k).1
    else if e1full
    then (restoreframe (evictframe k).1).1
    else (restoreframe k).1

abbrev with_tables : Option Kernel → Outcome
with_tables none = panicked
with_tables (some k) =
    if (load_pte (getpte k.pgfaddr k) k.mem).pt_swap then handled (swapped_page k) else fresh_page k

unfoldable pub pgfhandler : Kernel → Outcome
unfolding pde_inv_check getpte swapped_page fresh_page
pgfhandler k =
    if k.pgf_pres
    then handled k
    else if not ((k.proctab k.currpid).pralloc (page_number k.pgfaddr))
    then segfault k
    else with_tables (pde_inv_check k)
