-- ===== src/Allocator.antt =====
-- xinu-fall2022-paging/system/getmem.c, freemem.c, getstk.c and include/memory.h: the kernel's heap, as
-- a list of free blocks in the order of their addresses. The header `memlist` as a predecessor is `none`.
pub mod Blocks
pub mod FreeList
pub mod Links
pub mod Taken
pub mod Found
pub mod Get
pub mod Joined
pub mod Freed
pub mod Release
pub mod RoundTrip
pub mod LastFit
pub mod Top
pub mod Start
use virtual_memory_xinu_f.Base.{
  ℕ, zero, suc, ◌+◌, ◌*◌, ◌/◌, ◌^◌, ◌||◌, Bool, false, Option, none, some, leb, ltb, ◌==◌,
  if◌then◌else◌, update, Status, ok, syserr,
}
use virtual_memory_xinu_f.VirtualHeap.{word, sub32}
use virtual_memory_xinu_f.System.{MemList}

-- `roundmb`.
abbrev pub roundmb : ℕ → ℕ
roundmb n = word (n + 7) / 8 * 8

-- The rounds of a walk: a block takes 8 bytes, so that a list without a cycle has fewer blocks.
abbrev pub max_blocks : ℕ
max_blocks = 2 ^ 29

abbrev pub set_next : Option ℕ → Option ℕ → MemList → MemList
set_next none x h = record h { memlist = record h.memlist { mnext = x } }
set_next (some a) x h = record h { blocks = update h.blocks a (record (h.blocks a) { mnext = x }) }

abbrev pub set_length : Option ℕ → ℕ → MemList → MemList
set_length none n h = record h { memlist = record h.memlist { mlength = n } }
set_length (some a) n h = record h {
  blocks = update h.blocks a (record (h.blocks a) { mlength = n });
}

-- `memlist.mlength -= n` and `memlist.mlength += n`.
abbrev pub shrink : ℕ → MemList → MemList
shrink n h = set_length none (sub32 h.memlist.mlength n) h

abbrev pub grow : ℕ → MemList → MemList
grow n h = set_length none (word (h.memlist.mlength + n)) h

-- The front of a bigger block.
abbrev pub with_leftover : ℕ → ℕ → ℕ → MemList → MemList
with_leftover n leftover curr h =
    let h' = set_next (some leftover) (h.blocks curr).mnext h in
    set_length (some leftover) (sub32 (h'.blocks curr).mlength n) h'

abbrev pub split : ℕ → Option ℕ → ℕ → MemList → MemList
split n prev curr h =
    let leftover = word (curr + n) in
    shrink n (with_leftover n leftover curr (set_next prev (some leftover) h))

-- The search of `getmem`. Here and in the walks below, without fuel there is no result; SYSERR is the
-- inner `none`.
unfoldable pub first_fit : ℕ → ℕ → Option ℕ → Option ℕ → MemList → Option (Option ℕ × MemList)
first_fit zero n prev curr h = none
first_fit (suc fuel) n prev none h = some (none, h)
first_fit (suc fuel) n prev (some curr) h =
    let further = first_fit fuel n (some curr) (h.blocks curr).mnext h in
    if (h.blocks curr).mlength == n
    then some (some curr, shrink n (set_next prev (h.blocks curr).mnext h))
    else if ltb n (h.blocks curr).mlength
    then some (some curr, split n prev curr h)
    else further

unfoldable pub getmem : ℕ → MemList → Option (Option ℕ × MemList)
unfolding first_fit
getmem nbytes h =
    if nbytes == 0
    then some (none, h)
    else first_fit (max_blocks + 1) (roundmb nbytes) none h.memlist.mnext h

-- The walk of `freemem`: the blocks between which the given one goes.
unfoldable pub walk : ℕ → ℕ → Option ℕ → Option ℕ → MemList → Option (Option ℕ × Option ℕ)
walk zero block prev next h = none
walk (suc fuel) block prev none h = some (prev, none)
walk (suc fuel) block prev (some next) h =
    let further = walk fuel block (some next) (h.blocks next).mnext h in
    if ltb next block then further else some (prev, some next)

abbrev pub top_of : Option ℕ → MemList → ℕ
top_of none h = 0
top_of (some prev) h = word (prev + (h.blocks prev).mlength)

abbrev pub below_top : Option ℕ → ℕ → MemList → Bool
below_top none block h = false
below_top (some prev) block h = ltb block (top_of (some prev) h)

abbrev pub reaches : ℕ → Option ℕ → Bool
reaches end none = false
reaches end (some next) = ltb next end

-- The block is joined with the one behind it when they touch. The end of a block is no address 0.
abbrev pub join_next : Option ℕ → Option ℕ → MemList → MemList
join_next none next h = h
join_next (some block) none h = h
join_next (some block) (some next) h =
    let h' =
      set_length (some block) (word ((h.blocks block).mlength + (h.blocks next).mlength)) h in
    if word (block + (h.blocks block).mlength) == next
    then set_next (some block) (h'.blocks next).mnext h'
    else h

abbrev pub lengthen : Option ℕ → ℕ → MemList → MemList
lengthen none n h = grow n h
lengthen (some a) n h = set_length (some a) (word ((h.blocks a).mlength + n)) h

abbrev pub free_between : ℕ → ℕ → Option (Option ℕ × Option ℕ) → MemList → Option (Status × MemList)
free_between block n none h = none
free_between block n (some (prev, next)) h =
    let linked = set_next prev (some block) (record (grow n h) {
      blocks = update h.blocks block (record { mnext = next; mlength = n });
    }) in
    if below_top prev block h || reaches (word (block + n)) next
    then some (syserr, h)
    else if top_of prev h == block
    then some (ok, join_next prev next (lengthen prev n (grow n h)))
    else some (ok, join_next (some block) next linked)

unfoldable pub freemem : ℕ → ℕ → MemList → Option (Status × MemList)
unfolding walk
freemem blkaddr nbytes h =
    if ((nbytes == 0) || ltb blkaddr h.minheap) || ltb h.maxheap blkaddr
    then some (syserr, h)
    else free_between blkaddr (roundmb nbytes)
        (walk (max_blocks + 1) blkaddr none h.memlist.mnext h) h

-- The scan of `getstk` for the last block that fits, and the one before it.
unfoldable pub last_fit :
    ℕ → ℕ → Option (Option ℕ × ℕ) → Option ℕ → Option ℕ → MemList → Option (Option (Option ℕ × ℕ))
last_fit zero n fits prev curr h = none
last_fit (suc fuel) n fits prev none h = some fits
last_fit (suc fuel) n fits prev (some curr) h =
    let fits' = if leb n (h.blocks curr).mlength then some (prev, curr) else fits in
    last_fit fuel n fits' (some curr) (h.blocks curr).mnext h

-- The address of the highest word.
abbrev pub take_top : ℕ → Option (Option ℕ × ℕ) → MemList → Option ℕ × MemList
take_top n none h = (none, h)
take_top n (some (prev, fits)) h =
    let left = sub32 (h.blocks fits).mlength n in
    if n == (h.blocks fits).mlength
    then (some (sub32 (word (fits + n)) 4), shrink n (set_next prev (h.blocks fits).mnext h))
    else (some (sub32 (word (word (fits + left) + n)) 4), shrink n (set_length (some fits) left h))

abbrev pub taken_top : ℕ → Option (Option (Option ℕ × ℕ)) → MemList → Option (Option ℕ × MemList)
taken_top n none h = none
taken_top n (some fits) h = some (take_top n fits h)

unfoldable pub getstk : ℕ → MemList → Option (Option ℕ × MemList)
unfolding last_fit
getstk nbytes h =
    if nbytes == 0
    then some (none, h)
    else let n = roundmb nbytes in
      taken_top n (last_fit (max_blocks + 1) n none none h.memlist.mnext h) h

unfoldable pub freestk : ℕ → ℕ → MemList → Option (Status × MemList)
unfolding freemem
freestk p len h = freemem (word (sub32 p (roundmb len) + 4)) (roundmb len) h

-- `meminit`: the heap from the end of the image on is one free block.
unfoldable pub meminit : ℕ → MemList → MemList
meminit end h = record h {
  minheap = end;
  maxheap = 4194304;
  memlist = record { mnext = some end; mlength = sub32 4194304 end };
  blocks = update h.blocks end (record { mnext = none; mlength = sub32 4194304 end });
}
