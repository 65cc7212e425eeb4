-- ===== src/Buffers.antt =====
-- xinu-fall2022-paging/include/bufpool.h and system/bufinit.c, mkbufpool.c, getbuf.c and freebuf.c: pools of
-- buffers of one size. The first word of a buffer links it to the next free one, or has the number of
-- its pool while it is in use. `getbuf`, which may be suspended by `wait`, is two functions.
use virtual_memory_xinu_f.Base.{
  ℕ, zero, suc, ◌+◌, ◌*◌, ◌/◌, ◌||◌, Option, none, some, leb, if◌then◌else◌, update, Status, ok,
  syserr,
}
use virtual_memory_xinu_f.Base.Int.{ℤ, pos, ltb_ℤ, pos_part}
use virtual_memory_xinu_f.Kernel.{syserr32}
use virtual_memory_xinu_f.VirtualHeap.{word, sub32}
use virtual_memory_xinu_f.System.{System, MemList}
use virtual_memory_xinu_f.Allocator.{getmem}
use virtual_memory_xinu_f.Semaphores.{wait, signal, semcreate}

-- NBPOOLS, BP_MAXB, BP_MINB, BP_MAXN.
abbrev pub max_pools : ℕ
max_pools = 20

abbrev pub bp_maxb : ℕ
bp_maxb = 8192

abbrev pub bp_minb : ℕ
bp_minb = 8

abbrev pub bp_maxn : ℕ
bp_maxn = 2048

-- `struct bpentry` as an entry of the table; NULL is 0.
pub record Bpentry : Type 0 where
  pub bpnext : ℕ
  pub bpsem : ℕ
  pub bpsize : ℕ

-- The global variables, and the first words of the buffers.
pub record Buffers : Type 0 where
  pub system : System
  pub buftab : ℕ → Bpentry
  pub nbpools : ℕ
  pub words : ℕ → ℕ

unfoldable pub bufinit : Buffers → Buffers
bufinit b = record b { nbpools = 0 }

-- The buffers of `size` bytes from `buf` on, `n` of them, are linked.
abbrev pub link_buffers : ℕ → ℕ → ℕ → (ℕ → ℕ) → ℕ → ℕ
link_buffers zero size buf w = w
link_buffers (suc zero) size buf w = update w buf 0
link_buffers (suc (suc n)) size buf w =
    link_buffers (suc n) size (word (buf + size)) (update w buf (word (buf + size)))

-- With a semaphore, or without one.
abbrev pub with_sem : ℕ → ℕ → ℕ → Option ℕ × System → Buffers → Option ℕ × Buffers
with_sem size n buf (none, y) b =
    let e : Bpentry = record { bpnext = buf; bpsem = syserr32; bpsize = size } in
    (none, record b { system = y; buftab = update b.buftab b.nbpools e })
with_sem size n buf (some sem, y) b =
    let e : Bpentry = record { bpnext = buf; bpsem = sem; bpsize = size } in
    (
      some b.nbpools,
      record {
        system = y;
        buftab = update b.buftab b.nbpools e;
        nbpools = b.nbpools + 1;
        words = link_buffers n (size + 4) buf b.words;
      },
    )

abbrev pub with_memory : ℕ → ℕ → Option (Option ℕ × MemList) → Buffers → Option (Option ℕ × Buffers)
unfolding semcreate
with_memory size n none b = none
with_memory size n (some (none, h)) b =
    some (none, record b { system = record b.system { memory = h } })
with_memory size n (some (some buf, h)) b =
    some (with_sem size n buf (semcreate (pos n) (record b.system { memory = h })) b)

-- SYSERR is the inner `none`, the outer one is that of `getmem`.
unfoldable pub mkbufpool : ℤ → ℤ → Buffers → Option (Option ℕ × Buffers)
unfolding with_memory getmem
mkbufpool bufsiz numbufs b =
    let size = (pos_part bufsiz + 3) / 4 * 4 in
    let n = pos_part numbufs in
    let bad_size = ltb_ℤ bufsiz (pos bp_minb) || ltb_ℤ (pos bp_maxb) bufsiz in
    let bad_number = ltb_ℤ numbufs (pos 1) || ltb_ℤ (pos bp_maxn) numbufs in
    if (bad_size || bad_number) || leb max_pools b.nbpools
    then some (none, b)
    else with_memory size n (getmem (n * (size + 4)) b.system.memory) b

-- `getbuf` up to `wait`, whose result is not tested.
unfoldable pub getbuf_waits : ℕ → Buffers → Status × Buffers
unfolding wait
getbuf_waits poolid b =
    if leb b.nbpools poolid
    then (syserr, b)
    else (ok, record b { system = (wait (b.buftab poolid).bpsem b.system).1 })

-- From there on: the address behind the number of the pool.
unfoldable pub getbuf_resumed : ℕ → Buffers → ℕ × Buffers
getbuf_resumed poolid b =
    let e = b.buftab poolid in
    (
      word (e.bpnext + 4),
      record b {
        buftab = update b.buftab poolid (record e { bpnext = b.words e.bpnext });
        words = update b.words e.bpnext poolid;
      },
    )

unfoldable pub freebuf : ℕ → Buffers → Status × Buffers
unfolding signal
freebuf bufaddr b =
    let a = sub32 bufaddr 4 in
    let poolid = b.words a in
    let e = b.buftab poolid in
    let b' : Buffers = record b {
      words = update b.words a e.bpnext;
      buftab = update b.buftab poolid (record e { bpnext = a });
    } in
    if leb b.nbpools poolid
    then (syserr, b)
    else (ok, record b' { system = (signal e.bpsem b'.system).1 })
