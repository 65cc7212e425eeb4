-- ===== src/Memory.antt =====
-- Page directory and page table entries (`pd_t`, `pt_t` of xinu-fall2022-paging/include/paging.h)
-- and the memory that holds them. Physical memory is seen frame by frame, through three views: the
-- entries of page directories, those of page tables, and bytes. A frame is used through one view
-- at a time; `clear_page`, the `memset` of a page to 0, clears all three.
pub mod Copy
use virtual_memory_xinu_f.Base.{
  ℕ, zero, suc, ◌+◌, ◌/◌, ◌%◌, ◌^◌, Bool, true, false, ◌&&◌, ltb, ◌==◌, if◌then◌else◌, update,
  for_range,
}
use virtual_memory_xinu_f.Frames.{PteAddr, nbpg}

-- `pd_t`: one-bit fields are Booleans.
pub record Pde : Type 0 where
  pub pd_pres : Bool
  pub pd_write : Bool
  pub pd_user : Bool
  pub pd_pwt : Bool
  pub pd_pcd : Bool
  pub pd_acc : Bool
  pub pd_mbz : Bool
  pub pd_fmb : Bool
  pub pd_global : Bool
  pub pd_avail : ℕ
  pub pd_base : ℕ

-- `pt_t`.
pub record Pte : Type 0 where
  pub pt_pres : Bool
  pub pt_write : Bool
  pub pt_user : Bool
  pub pt_pwt : Bool
  pub pt_pcd : Bool
  pub pt_acc : Bool
  pub pt_dirty : Bool
  pub pt_mbz : Bool
  pub pt_global : Bool
  pub pt_swap : Bool
  pub pt_avail : ℕ
  pub pt_base : ℕ

-- Entries whose bytes are all 0.
abbrev pub zero_pde : Pde
zero_pde = record {
  pd_pres = false;
  pd_write = false;
  pd_user = false;
  pd_pwt = false;
  pd_pcd = false;
  pd_acc = false;
  pd_mbz = false;
  pd_fmb = false;
  pd_global = false;
  pd_avail = 0;
  pd_base = 0;
}

abbrev pub zero_pte : Pte
zero_pte = record {
  pt_pres = false;
  pt_write = false;
  pt_user = false;
  pt_pwt = false;
  pt_pcd = false;
  pt_acc = false;
  pt_dirty = false;
  pt_mbz = false;
  pt_global = false;
  pt_swap = false;
  pt_avail = 0;
  pt_base = 0;
}

-- `pd_t *`: the page directory's frame and the entry's place in it.
pub record PdeAddr : Type 0 where
  pub dir : ℕ
  pub slot : ℕ

pub record Memory : Type 0 where
  pub pdes : ℕ → ℕ → Pde
  pub ptes : ℕ → ℕ → Pte
  pub bytes : ℕ → ℕ → ℕ

-- The 20 bits of `pd_base` and `pt_base`, and the conversion of such a field to `fidx16`.
abbrev pub base20 : ℕ → ℕ
base20 n = n % 2 ^ 20

abbrev pub to_fidx16 : ℕ → ℕ
to_fidx16 n = n % 2 ^ 16

-- PGNUM, PDIDX, PTIDX of an address.
abbrev pub page_number : ℕ → ℕ
page_number a = a / 2 ^ 12

abbrev pub pd_index : ℕ → ℕ
pd_index a = a / 2 ^ 22

abbrev pub pt_index : ℕ → ℕ
pt_index a = a / 2 ^ 12 % 1024

abbrev pub load_pte : PteAddr → Memory → Pte
load_pte p m = m.ptes p.table p.slot

abbrev pub store_pte : PteAddr → Pte → Memory → Memory
store_pte p v m = record m { ptes = update m.ptes p.table (update (m.ptes p.table) p.slot v) }

abbrev pub load_pde : PdeAddr → Memory → Pde
load_pde p m = m.pdes p.dir p.slot

abbrev pub store_pde : PdeAddr → Pde → Memory → Memory
store_pde p v m = record m { pdes = update m.pdes p.dir (update (m.pdes p.dir) p.slot v) }

-- `memset(page, 0, NBPG)`.
abbrev pub clear_page : ℕ → Memory → Memory
clear_page f m = record m {
  pdes = update m.pdes f (λ i. zero_pde);
  ptes = update m.ptes f (λ i. zero_pte);
  bytes = update m.bytes f (λ i. if ltb i nbpg then 0 else m.bytes f i);
}

-- `for (i = 0; i < NBPG; i++) daddr[i] = saddr[i]`, over whole pages.
unfoldable pub copy_page : ℕ → ℕ → Memory → Memory
copy_page src dest m = record m {
  bytes = for_range nbpg 0 (λ i b. update b dest (update (b dest) i (b src i))) m.bytes;
}

-- `for (i = 0; i < NBPG; i++) temp[i] = saddr[i]`, and the copy back.
unfoldable pub read_page : ℕ → Memory → ℕ → ℕ
read_page src m = for_range nbpg 0 (λ i t. update t i (m.bytes src i)) (λ i. 0)

unfoldable pub write_page : (ℕ → ℕ) → ℕ → Memory → Memory
write_page temp dest m = record m {
  bytes = for_range nbpg 0 (λ i b. update b dest (update (b dest) i (temp i))) m.bytes;
}
