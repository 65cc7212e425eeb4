-- ===== src/Paging/RoundTrip.antt =====
-- The way of a page to E2 and back: `evictframe`, then `restoreframe` at the page's next fault.
use virtual_memory_xinu_f.Base.{ℕ, ◌<◌, ◌≡◌, sym, ap, subst, ◌∙◌, some, List, ◌∷◌, arith, ok}
use virtual_memory_xinu_f.Frames.{e1, e2, nbpg, PteAddr}
use virtual_memory_xinu_f.Frames.Stacks.{free_list}
use virtual_memory_xinu_f.Frames.Valid.{IsValid, fidxtoregion-bounds}
use virtual_memory_xinu_f.Memory.{Pte, load_pte, store_pte, copy_page, to_fidx16}
use virtual_memory_xinu_f.Memory.Copy.{load_pte-store_pte, load_pte-copy_page}
use virtual_memory_xinu_f.Kernel.{Kernel}
use virtual_memory_xinu_f.Paging.{getpte}
use virtual_memory_xinu_f.Paging.Fault.{
  evictframe, restoreframe, mapped_entry, swapped_entry, mark_swapped,
}
use virtual_memory_xinu_f.Paging.Evict.{moved, Evicted, evictframe-IsValid}
use virtual_memory_xinu_f.Paging.Restore.{Restored, restoreframe-IsValid}

-- The process `c` runs and faults at the address `a`.
abbrev pub faulting : ℕ → ℕ → Kernel → Kernel
faulting c a k = record k { currpid = c; pgfaddr = a }

module _ (k : Kernel) (x : ℕ) (xs : List ℕ) (f : ℕ) (p : PteAddr) (k1 : Kernel)
    (ev : Evicted k x xs f k1) (owns : (k.frames.invpt x).fr_pte ≡ some p) where
  evicted_mem :
      k1.mem
      ≡ store_pte p (swapped_entry f (load_pte p (copy_page x f k.mem))) (copy_page x f k.mem)
  evicted_mem = ev.memory ∙ ap (λ q. mark_swapped q f (copy_page x f k.mem)) owns

  evicted_entry : load_pte p k1.mem ≡ swapped_entry f (load_pte p k.mem)
  evicted_entry =
      ap (load_pte p) evicted_mem
      ∙ load_pte-store_pte p _ (copy_page x f k.mem)
      ∙ ap (swapped_entry f) (load_pte-copy_page p x f k.mem)

  names_target : to_fidx16 (load_pte p k1.mem).pt_base ≡ f
  names_target =
      ap (λ (e : Pte). to_fidx16 e.pt_base) evicted_entry
      ∙ omega (arith, fidxtoregion-bounds e2 f ev.target_in)

  module _ (c a : ℕ) (same_page : getpte a (faulting c a k1) ≡ p) where
    returns :
        ((restoreframe (faulting c a k1)).0 ≡ ok)
        × Restored
            (faulting c a k1)
            xs
            (getpte a (faulting c a k1))
            f
            x
            (restoreframe (faulting c a k1)).1
    returns =
        restoreframe-IsValid (faulting c a k1) xs f x (free_list k.frames e1) ev.valid
          ev.victim_free (ap (λ q. to_fidx16 (load_pte q k1.mem).pt_base) same_page ∙ names_target)
          ev.target_in ev.target_used

-- A page survives its way to E2 and back. On a well-formed frame table whose first frame in the
-- eviction list is `x`, held for the page of the entry `p`, and whose first free frame of E2 is
-- `f`, below 3072: after `evictframe`, when a process faults on that page, `restoreframe` succeeds,
-- the page is in the frame `x` again with each of its bytes (`j` is any offset), its entry is the
-- old one, present, writable and not swapped, and `f` is the first free frame of E2 again.
pub restoreframe-evictframe :
    (k : Kernel) (x : ℕ) (xs : List ℕ) (f : ℕ) (rest : List ℕ) (p : PteAddr) (c a j : ℕ)
    → IsValid k.frames (x ∷ xs)
    → free_list k.frames e2 ≡ f ∷ rest
    → f < 3072
    → (k.frames.invpt x).fr_pte ≡ some p
    → getpte a (faulting c a (evictframe k).1) ≡ p
    → j < nbpg
    → let (done, k3) = restoreframe (faulting c a (evictframe k).1) in
      (done ≡ ok)
      × (k3.mem.bytes x j ≡ k.mem.bytes x j)
      × (load_pte p k3.mem ≡ mapped_entry x (load_pte p k.mem))
      × (free_list k3.frames e2 ≡ free_list k.frames e2)
restoreframe-evictframe k x xs f rest p c a j v first small owns same_page h =
    let k1 = (evictframe k).1 in
    let ev = (evictframe-IsValid k x xs f rest v first small).1 in
    let (done, back) = returns k x xs f p k1 ev owns c a same_page in
    (
      done,
      back.target j h ∙ moved k x xs f k1 ev j h,
      subst
            (λ q.
              load_pte q (restoreframe (faulting c a k1)).1.mem
              ≡ mapped_entry x (load_pte q k1.mem))
            same_page back.entry
          ∙ ap (mapped_entry x) (evicted_entry k x xs f p k1 ev owns),
      back.source_free ∙ sym ev.was_first,
    )
