-- ===== src/Paging.antt =====
-- xinu-fall2022-paging/system/pagingidx.c and pagingmgmt.c: the entries of an address, and the
-- making of page tables and directories.
pub mod Fault
pub mod Handler
pub mod Map
pub mod Evict
pub mod Restore
pub mod RoundTrip
pub mod Swap
pub mod Fresh
pub mod Tables
use virtual_memory_xinu_f.Base.{
  ℕ, zero, suc, ◌+◌, ◌*◌, ◌<◌, ◌≡◌, Bool, true, false, Option, none, some, ◌==◌, if◌then◌else◌,
  update, for_range, Status, ok, syserr,
}
use virtual_memory_xinu_f.Frames.{
  d, FrameTable, PteAddr, nentries, getfreeframe, invtakeframe, invfreeframe, init_invpt,
}
use virtual_memory_xinu_f.Memory.{
  Pde, Pte, PdeAddr, Memory, base20, to_fidx16, pd_index, pt_index, load_pde, store_pde, load_pte,
  store_pte, clear_page,
}
use virtual_memory_xinu_f.Kernel.{Kernel, Proc}

unfoldable pub getpde : ℕ → Kernel → PdeAddr
getpde a k = record { dir = (k.proctab k.currpid).prpd; slot = pd_index a }

unfoldable pub getpte : ℕ → Kernel → PteAddr
unfolding getpde
getpte a k = record { table = (load_pde (getpde a k) k.mem).pd_base; slot = pt_index a }

unfoldable pub getframenum : ℕ → Kernel → ℕ
unfolding getpte
getframenum a k = to_fidx16 (load_pte (getpte a k) k.mem).pt_base

unfoldable pub deletept : PdeAddr → Kernel → Kernel
deletept p k =
    let (_, fr) = invfreeframe (to_fidx16 (load_pde p k.mem).pd_base) k.frames in
    record k {
      frames = fr;
      mem = store_pde p (record (load_pde p k.mem) { pd_pres = false }) k.mem;
    }

-- What `newpt` and `newpd` begin with: a frame of D, occupied by the process. SYSERR is `none`.
abbrev pub take_d : ℕ → Option ℕ × FrameTable → Option ℕ × FrameTable
take_d pid (none, fr) = (none, fr)
take_d pid (some f, fr) =
    let (st, fr') = invtakeframe f pid none fr in
    elim st [ ok ↦ (some f, fr') | syserr ↦ (none, fr') ]

abbrev pub cleared : Option ℕ × FrameTable → Kernel → Option ℕ × Kernel
cleared (none, fr) k = (none, record k { frames = fr })
cleared (some f, fr) k = (some f, record k { frames = fr; mem = clear_page f k.mem })

-- The result is the page of the new table.
unfoldable pub newpt : ℕ → Kernel → Option ℕ × Kernel
newpt pid k = cleared (take_d pid (getfreeframe d k.frames)) k

-- `pdptr[i].pd_pres = 1; pdptr[i].pd_base = page`.
abbrev share_table : ℕ → ℕ → ℕ → Memory → Memory
share_table f i page m =
    let p : PdeAddr = record { dir = f; slot = i } in
    store_pde p (record (load_pde p m) { pd_pres = true; pd_base = base20 page }) m

-- REGION_G_PD.
abbrev pub region_g_pd : ℕ
region_g_pd = 576

abbrev share_tables : Option ℕ × Kernel → Option ℕ × Kernel
share_tables (none, k) = (none, k)
share_tables (some f, k) = (
  some f,
  record k {
    mem =
        share_table f region_g_pd (k.identity_pt 4)
          (for_range 4 0 (λ i m. share_table f i (k.identity_pt i) m) k.mem);
  },
)

unfoldable pub newpd : ℕ → Kernel → Option ℕ × Kernel
unfolding newpt
newpd pid k = share_tables (newpt pid k)

-- init_paging.c. The base of entry `j` of the table `i`.
abbrev identity_base : ℕ → ℕ → ℕ
identity_base i j = if i == 4 then nentries * region_g_pd + j else nentries * i + j

abbrev identity_entries : ℕ → ℕ → Memory → Memory
identity_entries f i m =
    for_range nentries 0
      (λ j m.
        let p : PteAddr = record { table = f; slot = j } in
        store_pte p
          (record (load_pte p m) {
            pt_pres = true;
            pt_write = true;
            pt_base = base20 (identity_base i j);
          })
          m)
      m

abbrev set_identity : ℕ → Option ℕ × Kernel → Option Kernel
set_identity i (none, k) = none
set_identity i (some f, k) =
    some (record k { mem = identity_entries f i k.mem; identity_pt = update k.identity_pt i f })

-- `__identity_pt_init`, with `n` tables left to make, the next one with the number `i`; a SYSERR is
-- `none`.
unfoldable pub identity_pt_init : ℕ → ℕ → Kernel → Option Kernel
unfolding newpt
identity_pt_init zero i k = some k
identity_pt_init (suc n) i k = elim (set_identity i (newpt 0 k)) [
  | none ↦ none
  | some k' ↦ identity_pt_init n (i + 1) k'
]

-- `init_paging`, up to the loading of CR3, the setting of the fault handler and the enabling of
-- paging, which are the hardware's. `none` is the panic; a directory that cannot be made leaves the
-- pointer (pd_t *) SYSERR, whose page is 2^20 - 1.
abbrev page_or_syserr : Option ℕ → ℕ
page_or_syserr none = 0xfffff
page_or_syserr (some f) = f

abbrev install_pd : Option ℕ × Kernel → Kernel
install_pd (got, k) = record k {
  proctab = update k.proctab 0 (record (k.proctab 0) { prpd = page_or_syserr got });
}

unfoldable pub init_paging : Kernel → Option Kernel
unfolding identity_pt_init newpd
init_paging k = elim (identity_pt_init 5 0 (record k { frames = init_invpt k.frames })) [
  | none ↦ none
  | some k' ↦ some (install_pd (newpd 0 k'))
]
