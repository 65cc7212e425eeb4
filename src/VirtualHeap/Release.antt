-- ===== src/VirtualHeap/Release.antt =====
-- xinu-fall2022-paging/system/vmhfreemem.c: the return of pages to the virtual heap of the running
-- process, with the frames that they occupy. A page that has no page table is looked up through a
-- directory entry that is not present, as in the code.
use virtual_memory_xinu_f.Base.{
  ℕ, zero, suc, ◌+◌, ◌*◌, ◌&&◌, ◌||◌, Bool, true, false, not, Option, none, some, ltb, ◌==◌,
  if◌then◌else◌, update, for_range, Status, ok, syserr,
}
use virtual_memory_xinu_f.Base.Int.{pred_ℤ}
use virtual_memory_xinu_f.Frames.{nbpg, FrameTable, invfreeframe}
use virtual_memory_xinu_f.Memory.{Pte, page_number, to_fidx16, load_pde, load_pte, store_pte}
use virtual_memory_xinu_f.Kernel.{Kernel, Memblk, Proc}
use virtual_memory_xinu_f.Paging.{getpde, getpte}
use virtual_memory_xinu_f.System.{System, proc_of, set_proc}
use virtual_memory_xinu_f.FrameBlock.Wakeup.{framewakeup}
use virtual_memory_xinu_f.VirtualHeap.{maxhsize, minvheap, word, set_next, vmhinit}

-- `pralloc[VHNUM(addr)] = FALSE`.
abbrev pub unallocate : ℕ → Kernel → Kernel
unallocate a k =
    let p = k.proctab k.currpid in
    record k {
      proctab =
          update k.proctab k.currpid
            (record p { pralloc = update p.pralloc (page_number a) false });
    }

-- `invpt[INIDX(f)].fr_refcnt--`.
abbrev pub uncount_page : ℕ → FrameTable → FrameTable
uncount_page f s = record s {
  invpt = update s.invpt f (record (s.invpt f) { fr_refcnt = pred_ℤ (s.invpt f).fr_refcnt });
}

-- The page's entry is cleared, and its frame and its reference to the page table are given up.
unfoldable pub drop_page : ℕ → Kernel → Kernel
unfolding getpde getpte invfreeframe
drop_page a k =
    let pte = getpte a k in
    let entry : Pte = record (load_pte pte k.mem) { pt_pres = false; pt_swap = false } in
    let mem = store_pte pte entry k.mem in
    let pt_frame = to_fidx16 (load_pde (getpde a k) mem).pd_base in
    record k {
      mem = mem;
      frames = uncount_page pt_frame (invfreeframe (to_fidx16 entry.pt_base) k.frames).1;
    }

unfoldable pub deallocate_page : ℕ → Kernel → Kernel
unfolding drop_page getpte
deallocate_page a k =
    let k' = unallocate a k in
    let entry = load_pte (getpte a k') k'.mem in
    if entry.pt_pres || entry.pt_swap then drop_page a k' else k'

-- `__set_pages_deallocated`.
unfoldable pub set_pages_deallocated : ℕ → ℕ → Bool → Kernel → Kernel
unfolding deallocate_page
set_pages_deallocated msize blkaddr skipfirst k =
    for_range msize 0
      (λ i k'. if (i == 0) && skipfirst then k' else deallocate_page (word (blkaddr + i * nbpg)) k')
      k

-- MAXVHEAP.
abbrev pub maxvheap : ℕ
maxvheap = minvheap + maxhsize * nbpg

-- Whether the `n` pages from the page `i` of the block on are allocated.
abbrev pub all_allocated : ℕ → ℕ → ℕ → Proc → Bool
all_allocated zero i blkaddr p = true
all_allocated (suc n) i blkaddr p =
    p.pralloc (page_number (word (blkaddr + i * nbpg))) && all_allocated n (i + 1) blkaddr p

-- The walk along the free list, on fuel; without fuel there is no result.
unfoldable pub walk : ℕ → ℕ → Option ℕ → Option ℕ → Proc → Option (Option ℕ × Option ℕ)
walk zero block prev next p = none
walk (suc fuel) block prev none p = some (prev, none)
walk (suc fuel) block prev (some next) p =
    let further = walk fuel block (some next) (p.heap next).mnext p in
    if ltb next block then further else some (prev, some next)

-- The top of the block before; NULL is 0.
abbrev pub top_of : Option ℕ → Proc → ℕ
top_of none p = 0
top_of (some prev) p = word (prev + (p.heap prev).mlength)

abbrev pub is_header : Option ℕ → Bool
is_header none = true
is_header (some a) = false

-- `next != NULL && block + nbytes > next`.
abbrev pub reaches : ℕ → Option ℕ → Bool
reaches end none = false
reaches end (some next) = ltb next end

-- `prptr->prmemblk.mlength += n`.
abbrev pub grow : ℕ → Proc → Proc
grow n p = record p { prmemblk = record p.prmemblk { mlength = word (p.prmemblk.mlength + n) } }

-- `prev->mlength += n`.
abbrev pub lengthen : Option ℕ → ℕ → Proc → Proc
lengthen none n p = grow n p
lengthen (some a) n p = record p {
  heap = update p.heap a (record (p.heap a) { mlength = word ((p.heap a).mlength + n) });
}

abbrev pub memblk_at : Option ℕ → Proc → Memblk
memblk_at none p = p.prmemblk
memblk_at (some a) p = p.heap a

-- The block is joined with the one behind it when they touch. The end of a block is no address 0.
abbrev pub join_next : Option ℕ → Option ℕ → Proc → Proc
join_next block none p = p
join_next none (some next) p = p
join_next (some b) (some next) p =
    let p' = lengthen (some b) (p.heap next).mlength p in
    if word (b + (p.heap b).mlength) == next then set_next (some b) (p'.heap next).mnext p' else p

abbrev pub run_proc : (Proc → Proc) → Kernel → Kernel
run_proc f k = record k { proctab = update k.proctab k.currpid (f (k.proctab k.currpid)) }

-- The changes of the free list and of the pages.
unfoldable pub give_block : ℕ → ℕ → Option ℕ → Option ℕ → Kernel → Kernel
unfolding set_pages_deallocated
give_block blkaddr msize prev next k =
    let nbytes = word (msize * nbpg) in
    let k1 = run_proc (grow nbytes) k in
    let linked =
      run_proc
        (λ p.
          set_next prev (some blkaddr)
            (record p { heap = update p.heap blkaddr (record { mnext = next; mlength = nbytes }) }))
        k1 in
    if top_of prev (k.proctab k.currpid) == blkaddr
    then run_proc (join_next prev next)
        (set_pages_deallocated msize blkaddr false (run_proc (lengthen prev nbytes) k1))
    else run_proc (join_next (some blkaddr) next) (set_pages_deallocated msize blkaddr true linked)

abbrev pub free_between : ℕ → ℕ → Option (Option ℕ × Option ℕ) → System → Option (Status × System)
unfolding give_block framewakeup
free_between blkaddr msize none y = none
free_between blkaddr msize (some (prev, next)) y =
    let p = proc_of y.kernel.currpid y in
    let overlaps =
      (not (is_header prev) && ltb blkaddr (top_of prev p))
      || reaches (word (blkaddr + word (msize * nbpg))) next in
    if overlaps
    then some (syserr, y)
    else some (ok, framewakeup (record y { kernel = give_block blkaddr msize prev next y.kernel }))

-- A block that is wholly allocated, on the state that `vmhinit` leaves.
unfoldable pub free_from : ℕ → ℕ → System → Option (Status × System)
unfolding free_between walk
free_from blkaddr msize y =
    let p = proc_of y.kernel.currpid y in
    if ((word (msize * nbpg) == 0) || ltb blkaddr minvheap) || ltb maxvheap blkaddr
    then some (syserr, y)
    else if not (all_allocated msize 0 blkaddr p)
    then some (syserr, y)
    else free_between blkaddr msize (walk (maxhsize + 1) blkaddr none p.prmemblk.mnext p) y

unfoldable pub vmhfreemem : ℕ → ℕ → System → Option (Status × System)
unfolding vmhinit free_from
vmhfreemem blkaddr msize y =
    let pid = y.kernel.currpid in free_from blkaddr msize (set_proc pid (vmhinit (proc_of pid y)) y)
