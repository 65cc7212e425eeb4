-- ===== src/Paging/Swap.antt =====
-- `swapframe` on a well-formed frame table.
use virtual_memory_xinu_f.Base.{
  Option, none, update-ne, ℕ, ◌<◌, ◌≡◌, ◌≢◌, refl, sym, ap, ◌∙◌, subst, Bool-cases, inl, inr, false,
  true, some, List, ◌∷◌, [], ◌++◌, arith, ok,
}
use virtual_memory_xinu_f.Base.Distinct.{mem, erase-not_mem, cons-injective}
use virtual_memory_xinu_f.Frames.{e2, nbpg, PteAddr, Frame, fr_used, fidxtoregion, invfreeframe}
use virtual_memory_xinu_f.Frames.Stacks.{free_list}
use virtual_memory_xinu_f.Frames.Valid.{IsValid}
use virtual_memory_xinu_f.Frames.Valid.Free.{Freed, invfreeframe-IsValid}
use virtual_memory_xinu_f.Memory.{
  Memory, Pte, load_pte, store_pte, copy_page, to_fidx16, base20, read_page, write_page,
}
use virtual_memory_xinu_f.Memory.Copy.{
  copy_page_lem, read_page_lem, write_page_lem, load_pte-store_pte, load_pte-store_pte_ne,
  load_pte-copy_page, load_pte-write_page, same_pte,
}
use virtual_memory_xinu_f.Kernel.{Kernel}
use virtual_memory_xinu_f.Paging.{getpte}
use virtual_memory_xinu_f.Paging.Fault.{
  evictframe, swapframe, mapped_entry, swapped_entry, mark_swapped,
}
use virtual_memory_xinu_f.Paging.Map.{Mapped, mapfreeframe-IsValid}
use virtual_memory_xinu_f.Paging.Evict.{Evicted, evictframe-IsValid}

-- The page in the E2 frame `src` and that in the E1 frame `x` have changed places.
pub record Swapped (k : Kernel) (x src : ℕ) (xs : List ℕ) (k' : Kernel) : Type 0 where
  pub valid : IsValid k'.frames (xs ++ x ∷ [])
  pub brought_in : (j : ℕ) → j < nbpg → k'.mem.bytes x j ≡ k.mem.bytes src j
  pub taken_out : (j : ℕ) → j < nbpg → k'.mem.bytes src j ≡ k.mem.bytes x j
  pub entry :
      let e = load_pte (getpte k.pgfaddr k) k'.mem in
      (e.pt_pres ≡ true) × (e.pt_write ≡ true) × (e.pt_swap ≡ false) × (e.pt_base ≡ base20 x)
  pub victim_entry :
      (p : PteAddr)
      → (k.frames.invpt x).fr_pte ≡ some p
      → same_pte (getpte k.pgfaddr k) p ≡ false
      → load_pte p k'.mem ≡ swapped_entry src (load_pte p k.mem)

bytes-mark_swapped :
    (p : Option PteAddr) (f : ℕ) (m : Memory) → (mark_swapped p f m).bytes ≡ m.bytes
bytes-mark_swapped none f m = refl
bytes-mark_swapped (some p) f m = refl

module _ (k : Kernel) (x src : ℕ) (xs : List ℕ) (v : IsValid k.frames (x ∷ xs))
    (at_e2 : fidxtoregion src ≡ some e2) (used : (k.frames.invpt src).fr_state ≡ fr_used)
    (small : src < 3072) where
  freed : Kernel
  freed = record k { frames = (invfreeframe src k.frames).1 }

  frees : Freed k.frames (x ∷ xs) src e2 freed.frames
  unfolding freed
  frees = (invfreeframe-IsValid k.frames (x ∷ xs) src e2 v at_e2 used).1

  not_listed : mem src (x ∷ xs) ≡ false
  not_listed = elim (Bool-cases (mem src (x ∷ xs))) [
    | inl inside ↦ absurd (cc ((v.used_frames src inside).0))
    | inr out ↦ out
  ]

  evicts : ((evictframe freed).0 ≡ ok) × Evicted freed x xs src (evictframe freed).1
  evicts =
      evictframe-IsValid freed x xs src (free_list k.frames e2)
        (subst (IsValid freed.frames) (erase-not_mem src (x ∷ xs) not_listed) frees.valid)
        frees.on_top small

  module _ (k3 : Kernel) (m : Mapped (evictframe freed).1 xs x k3) where
    swapped_to : Kernel
    swapped_to = record k3 { mem = write_page (read_page src k.mem) x k3.mem }

    same_address : getpte (evictframe freed).1.pgfaddr (evictframe freed).1 ≡ getpte k.pgfaddr k
    unfolding freed getpte
    same_address =
        evicts.1.pages (evictframe freed).1.pgfaddr ∙ ap (λ a. getpte a k) evicts.1.address

    mem-evicted :
        (evictframe freed).1.mem
        ≡ mark_swapped (freed.frames.invpt x).fr_pte src (copy_page x src k.mem)
    unfolding freed
    mem-evicted = evicts.1.memory

    -- The pages of E2 and the other entries are not touched after the eviction.
    bytes-mapped : (j : ℕ) → k3.mem.bytes src j ≡ (copy_page x src k.mem).bytes src j
    bytes-mapped j =
        ap (λ (n : Memory). n.bytes src j) (m.memory ∙ ap (store_pte _ _) mem-evicted)
        ∙ ap (λ (g : ℕ → ℕ → ℕ). g src j)
            (bytes-mark_swapped (freed.frames.invpt x).fr_pte src (copy_page x src k.mem))

    page_entry :
        load_pte (getpte k.pgfaddr k) k3.mem
        ≡ mapped_entry x (load_pte (getpte k.pgfaddr k) (evictframe freed).1.mem)
    page_entry =
        let after = (evictframe freed).1 in
        let q0 = getpte after.pgfaddr after in
        subst (λ q. load_pte q k3.mem ≡ mapped_entry x (load_pte q (evictframe freed).1.mem))
          same_address
          (ap (load_pte q0) m.memory
            ∙ load_pte-store_pte q0 (mapped_entry x (load_pte q0 after.mem)) after.mem)

    other_entry :
        (p : PteAddr)
        → (freed.frames.invpt x).fr_pte ≡ some p
        → same_pte (getpte k.pgfaddr k) p ≡ false
        → load_pte p k3.mem ≡ swapped_entry src (load_pte p k.mem)
    other_entry p owns ne =
        ap (load_pte p) m.memory
        ∙ load_pte-store_pte_ne _ p _ (evictframe freed).1.mem (rw same_address ne)
        ∙ ap (load_pte p) (mem-evicted ∙ ap (λ o. mark_swapped o src (copy_page x src k.mem)) owns)
        ∙ load_pte-store_pte p _ (copy_page x src k.mem)
        ∙ ap (swapped_entry src) (load_pte-copy_page p x src k.mem)

    same_owner : (freed.frames.invpt x).fr_pte ≡ (k.frames.invpt x).fr_pte
    same_owner =
        ap (λ (fr : Frame). fr.fr_pte) (frees.entries x)
        ∙ ap (λ (fr : Frame). fr.fr_pte)
            (update-ne k.frames.invpt src x _ (λ e. evicts.1.apart (sym e)))

    swapped_to-Swapped : Swapped k x src xs swapped_to
    unfolding swapped_to
    swapped_to-Swapped = record {
      valid = m.valid;
      brought_in = λ j h.
          write_page_lem (read_page src k.mem) x k3.mem x j
          ∙ ground (arith, read_page_lem src k.mem j h);
      taken_out = λ j h.
          let ne : x ≢ src = evicts.1.apart in
          write_page_lem (read_page src k.mem) x k3.mem src j
          ∙ ground (arith, bytes-mapped j, copy_page_lem x src k.mem src j);
      entry =
          let e =
            load_pte-write_page (getpte k.pgfaddr k) (read_page src k.mem) x k3.mem ∙ page_entry in
          (
            ap (λ (t : Pte). t.pt_pres) e,
            ap (λ (t : Pte). t.pt_write) e,
            ap (λ (t : Pte). t.pt_swap) e,
            ap (λ (t : Pte). t.pt_base) e,
          );
      victim_entry = λ p owns ne.
          load_pte-write_page p (read_page src k.mem) x k3.mem
          ∙ other_entry p (same_owner ∙ owns) ne;
    }

-- On a well-formed frame table whose first frame in the eviction list is `x`, where the entry of the
-- faulting page names a used frame `src` of E2, below 3072, `swapframe` succeeds, whether or not E1
-- and E2 have free frames: the page of the fault is in `x` with the bytes that `src` held, and its
-- entry is present, writable, not swapped and names `x`; the page that was in `x` is in `src` with
-- its bytes, and its entry, if it has one, other than that of the fault, is absent and swapped and
-- names `src`; `x` is the last in the eviction list, and the frame table stays well-formed.
pub swapframe-IsValid :
    (k : Kernel) (x src : ℕ) (xs : List ℕ)
    → IsValid k.frames (x ∷ xs)
    → to_fidx16 (load_pte (getpte k.pgfaddr k) k.mem).pt_base ≡ src
    → fidxtoregion src ≡ some e2
    → (k.frames.invpt src).fr_state ≡ fr_used
    → src < 3072
    → ((swapframe k).0 ≡ ok) × Swapped k x src xs (swapframe k).1
unfolding swapframe swapped_to freed
swapframe-IsValid k x src xs v names at_e2 used small =
    let ev = (evicts k x src xs v at_e2 used small).1 in
    elim (mapfreeframe-IsValid (evictframe (freed k x src xs v at_e2 used small)).1 xs ev.valid) [
      | inl (e, empty) ↦ absurd (cc (ev.victim_free))
      | inr (g, k3, e, m) ↦
          let same : g ≡ x = sym (cons-injective x g _ _ (sym ev.victim_free ∙ m.was_first)).0 in
          let e' = e ∙ ap (λ n. (some n, k3)) same in
          let m' =
            subst (λ n. Mapped (evictframe (freed k x src xs v at_e2 used small)).1 xs n k3) same
              m in
          rw (names, e') (refl, swapped_to-Swapped k x src xs v at_e2 used small k3 m')
    ]
