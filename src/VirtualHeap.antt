-- ===== src/VirtualHeap.antt =====
-- xinu-fall2022-paging/system/vmhinit.c and vmhgetmem.c: the virtual heap of a process. The functions
-- run on the process table entry of the running process, the only state that they change. A
-- `struct memblk *` is an address of the heap, the header `prmemblk` as a predecessor is `none`.
pub mod Free
pub mod Found
pub mod Split
pub mod Get
pub mod Covers
pub mod Release
use virtual_memory_xinu_f.Base.{
  ℕ, zero, suc, ◌+◌, ◌-◌, ◌*◌, ◌%◌, ◌^◌, Bool, true, false, ◌||◌, Option, none, some, ltb, ◌==◌,
  if◌then◌else◌, update, for_range,
}
use virtual_memory_xinu_f.Frames.{nbpg}
use virtual_memory_xinu_f.Memory.{page_number}
use virtual_memory_xinu_f.Kernel.{Memblk, Proc}

-- MAXHSIZE, and MINVHEAP, which is FRAME0_VF * NBPG.
abbrev pub maxhsize : ℕ
maxhsize = 1024

abbrev pub minvheap : ℕ
minvheap = 16777216

abbrev pub word : ℕ → ℕ
word n = n % 2 ^ 32

-- `x - y` on `uint32`.
abbrev pub sub32 : ℕ → ℕ → ℕ
sub32 x y = word (x + 2 ^ 32 - y)

abbrev pub initialized : Proc → Proc
initialized p = record p {
  prmemblk = record { mnext = some minvheap; mlength = maxhsize * nbpg };
  pralloc = update p.pralloc (page_number minvheap) true;
  heap = update p.heap minvheap (record { mnext = none; mlength = maxhsize * nbpg });
  prmeminit = true;
}

unfoldable pub vmhinit : Proc → Proc
vmhinit p = if p.prmeminit then p else initialized p

-- `prev->mnext = q`.
abbrev pub set_next : Option ℕ → Option ℕ → Proc → Proc
set_next none q p = record p { prmemblk = record p.prmemblk { mnext = q } }
set_next (some a) q p = record p { heap = update p.heap a (record (p.heap a) { mnext = q }) }

-- `prptr->prmemblk.mlength -= n`.
abbrev pub shrink : ℕ → Proc → Proc
shrink n p = record p { prmemblk = record p.prmemblk { mlength = sub32 p.prmemblk.mlength n } }

-- `__set_pages_allocated`.
unfoldable pub set_pages_allocated : ℕ → ℕ → Proc → Proc
set_pages_allocated msize a p = record p {
  pralloc = for_range msize 0 (λ i t. update t (page_number (word (a + i * nbpg))) true) p.pralloc;
}

-- The two cases of the search that find a block: an exact match, and a big block that is split.
unfoldable pub take_exact : ℕ → Option ℕ → ℕ → Proc → Proc
unfolding set_pages_allocated
take_exact msize prev curr p =
    set_pages_allocated msize curr
      (shrink (word (msize * nbpg)) (set_next prev (p.heap curr).mnext p))

abbrev pub with_leftover : ℕ → ℕ → ℕ → Proc → Proc
with_leftover nbytes leftover curr p =
    let h = update p.heap leftover (record (p.heap leftover) { mnext = (p.heap curr).mnext }) in
    record p {
      heap = update h leftover (record (h leftover) { mlength = sub32 (h curr).mlength nbytes });
    }

unfoldable pub take_split : ℕ → Option ℕ → ℕ → Proc → Proc
unfolding set_pages_allocated
take_split msize prev curr p =
    let nbytes = word (msize * nbpg) in
    let leftover = word (curr + nbytes) in
    let p1 = record p { pralloc = update p.pralloc (page_number leftover) true } in
    let p2 = with_leftover nbytes leftover curr (set_next prev (some leftover) p1) in
    set_pages_allocated msize curr (shrink nbytes p2)

-- The loop of `vmhgetmem`, on fuel; without fuel there is no result. SYSERR is the inner `none`.
unfoldable pub search : ℕ → ℕ → Option ℕ → Option ℕ → Proc → Option (Option ℕ × Proc)
unfolding take_exact take_split
search zero msize prev curr p = none
search (suc fuel) msize prev none p = some (none, p)
search (suc fuel) msize prev (some curr) p =
    let nbytes = word (msize * nbpg) in
    let next = search fuel msize (some curr) (p.heap curr).mnext p in
    if (p.heap curr).mlength == nbytes
    then some (some curr, take_exact msize prev curr p)
    else if ltb nbytes (p.heap curr).mlength
    then some (some curr, take_split msize prev curr p)
    else next

unfoldable pub getmem_from : ℕ → Proc → Option (Option ℕ × Proc)
unfolding search
getmem_from msize p =
    if (word (msize * nbpg) == 0) || (p.prmemblk.mlength == 0)
    then some (none, p)
    else search (maxhsize + 1) msize none p.prmemblk.mnext p

unfoldable pub vmhgetmem : ℕ → Proc → Option (Option ℕ × Proc)
unfolding vmhinit getmem_from
vmhgetmem msize p = getmem_from msize (vmhinit p)
