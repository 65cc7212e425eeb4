-- ===== src/Paging/Restore.antt =====
-- `restoreframe` on a well-formed frame table, and the way of a page to E2 and back.
use virtual_memory_xinu_f.Base.{
  ℕ, ◌<◌, ◌≡◌, ◌≢◌, refl, sym, ap, ◌∙◌, subst, false, some, List, [], ◌∷◌, ◌++◌, inl, inr, arith,
  ok, Bool-cases,
}
use virtual_memory_xinu_f.Base.Distinct.{mem, erase-not_mem, cons-injective}
use virtual_memory_xinu_f.Frames.{e1, e2, Frame, fr_used, invfreeframe, fidxtoregion, nbpg, PteAddr}
use virtual_memory_xinu_f.Frames.Stacks.{free_list}
use virtual_memory_xinu_f.Frames.Valid.{IsValid}
use virtual_memory_xinu_f.Frames.Valid.Free.{Freed, invfreeframe-IsValid}
use virtual_memory_xinu_f.Memory.{Memory, load_pte, copy_page, to_fidx16}
use virtual_memory_xinu_f.Memory.Copy.{copy_page_lem, load_pte-store_pte, load_pte-copy_page}
use virtual_memory_xinu_f.Kernel.{Kernel}
use virtual_memory_xinu_f.Paging.{getpte}
use virtual_memory_xinu_f.Paging.Fault.{restoreframe, mapped_entry}
use virtual_memory_xinu_f.Paging.Map.{Mapped, mapfreeframe-IsValid}

-- The page that was in the E2 frame `src` is in the E1 frame `f`.
pub record Restored (k : Kernel) (xs : List ℕ) (p : PteAddr) (src f : ℕ) (k' : Kernel)
    : Type 0 where
  pub valid : IsValid k'.frames (xs ++ f ∷ [])
  pub source_free : free_list k'.frames e2 ≡ src ∷ free_list k.frames e2
  pub entry : load_pte p k'.mem ≡ mapped_entry f (load_pte p k.mem)
  pub target : (j : ℕ) → j < nbpg → k'.mem.bytes f j ≡ k.mem.bytes src j
  pub others : (q j : ℕ) → f ≢ q → k'.mem.bytes q j ≡ k.mem.bytes q j

module _ (k : Kernel) (xs : List ℕ) (f : ℕ) (k1 : Kernel) (m : Mapped k xs f k1) (src : ℕ)
    (at_e2 : fidxtoregion src ≡ some e2) (used : (k.frames.invpt src).fr_state ≡ fr_used) where
  apart : f ≢ src
  apart e = cc (ap fidxtoregion e, m.in_e1, at_e2)

  still_used : (k1.frames.invpt src).fr_state ≡ fr_used
  still_used = ap (λ (fr : Frame). fr.fr_state) (m.others src apart) ∙ used

  freed :
      ((invfreeframe src k1.frames).0 ≡ ok)
      × Freed k1.frames (xs ++ f ∷ []) src e2 (invfreeframe src k1.frames).1
  freed = invfreeframe-IsValid k1.frames (xs ++ f ∷ []) src e2 m.valid at_e2 still_used

  not_listed : mem src (xs ++ f ∷ []) ≡ false
  not_listed = elim (Bool-cases (mem src (xs ++ f ∷ []))) [
    | inl inside ↦ absurd (cc ((m.valid.used_frames src inside).0))
    | inr out ↦ out
  ]

  same_bytes : k1.mem.bytes ≡ k.mem.bytes
  same_bytes = ap (λ (n : Memory). n.bytes) m.memory

  restored_to : Kernel
  restored_to = record k1 { mem = copy_page src f k1.mem; frames = (invfreeframe src k1.frames).1 }

  restored_to-Restored : Restored k xs (getpte k.pgfaddr k) src f restored_to
  unfolding restored_to
  restored_to-Restored = record {
    valid =
        subst (IsValid (invfreeframe src k1.frames).1) (erase-not_mem src (xs ++ f ∷ []) not_listed)
          freed.1.valid;
    source_free = freed.1.on_top ∙ ap (λ (l : List ℕ). src ∷ l) (m.other_lists e2 refl);
    entry =
        load_pte-copy_page (getpte k.pgfaddr k) src f k1.mem
        ∙ ap (load_pte (getpte k.pgfaddr k)) m.memory
        ∙ load_pte-store_pte (getpte k.pgfaddr k) _ k.mem;
    target =
        λ j h. copy_page_lem src f k1.mem f j (λ e. apart (sym e)) ∙ rw same_bytes (ground arith);
    others = λ q j ne.
        copy_page_lem src f k1.mem q j (λ e. apart (sym e)) ∙ rw same_bytes (ground arith);
  }

-- On a well-formed frame table whose first free frame of E1 is `f`, where the entry of the faulting
-- page names a used frame `src` of E2, `restoreframe` succeeds: the page of the fault is in `f`,
-- with the bytes that `src` held, its entry is present and names `f`, all other bytes are as they
-- were, `src` is the first free frame of E2, and the frame table stays well-formed.
pub restoreframe-IsValid :
    (k : Kernel) (xs : List ℕ) (src f : ℕ) (rest : List ℕ)
    → IsValid k.frames xs
    → free_list k.frames e1 ≡ f ∷ rest
    → to_fidx16 (load_pte (getpte k.pgfaddr k) k.mem).pt_base ≡ src
    → fidxtoregion src ≡ some e2
    → (k.frames.invpt src).fr_state ≡ fr_used
    → ((restoreframe k).0 ≡ ok) × Restored k xs (getpte k.pgfaddr k) src f (restoreframe k).1
unfolding restoreframe restored_to
restoreframe-IsValid k xs src f rest v first names at_e2 used = elim (mapfreeframe-IsValid k xs v) [
  | inl (e, empty) ↦ absurd (cc first)
  | inr (g, k1, e, m) ↦
      let same : g ≡ f =
        sym (cons-injective f g rest (free_list k1.frames e1) (sym first ∙ m.was_first)).0 in
      rw (names, e)
        (
          refl,
          subst
              (λ n.
                Restored k xs (getpte k.pgfaddr k) src n (restored_to k xs g k1 m src at_e2 used))
              same (restored_to-Restored k xs g k1 m src at_e2 used),
        )
]
