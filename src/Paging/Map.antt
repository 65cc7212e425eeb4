-- ===== src/Paging/Map.antt =====
-- `mapfreeframe` on a well-formed frame table.
use virtual_memory_xinu_f.Base.{
  ℕ, ◌≡◌, ◌≢◌, refl, sym, ap, ◌∙◌, false, none, some, List, [], ◌∷◌, ◌++◌, ◌⊎◌, inl, inr, arith,
}
use virtual_memory_xinu_f.Frames.{
  e1, Region, same_region, region_size, FrameTable, Frame, invtakeframe, fidxtoregion,
}
use virtual_memory_xinu_f.Frames.Stacks.{free_list, free_slots}
use virtual_memory_xinu_f.Frames.UsedList.{unlisted}
use virtual_memory_xinu_f.Frames.Valid.{IsValid, fidxtoregion-range}
use virtual_memory_xinu_f.Frames.Valid.Get.{Gave, getfreeframe-IsValid}
use virtual_memory_xinu_f.Frames.Valid.Take.{Took, invtakeframe-IsValid}
use virtual_memory_xinu_f.Memory.{load_pte, store_pte}
use virtual_memory_xinu_f.Kernel.{Kernel}
use virtual_memory_xinu_f.Paging.{getpte}
use virtual_memory_xinu_f.Paging.Fault.{mapfreeframe, mapped_entry}

-- The faulting page is in the frame `f` of E1, which was the first free one.
pub record Mapped (k : Kernel) (xs : List ℕ) (f : ℕ) (k' : Kernel) : Type 0 where
  pub valid : IsValid k'.frames (xs ++ f ∷ [])
  pub was_first : free_list k.frames e1 ≡ f ∷ free_list k'.frames e1
  pub other_lists :
      (q : Region) → same_region e1 q ≡ false → free_list k'.frames q ≡ free_list k.frames q
  pub in_e1 : fidxtoregion f ≡ some e1
  pub others : (a : ℕ) → f ≢ a → unlisted (k'.frames.invpt a) ≡ unlisted (k.frames.invpt a)
  pub owner : (k'.frames.invpt f).fr_pid ≡ k.currpid
  pub back : (k'.frames.invpt f).fr_pte ≡ some (getpte k.pgfaddr k)
  pub memory :
      k'.mem
      ≡ store_pte (getpte k.pgfaddr k) (mapped_entry f (load_pte (getpte k.pgfaddr k) k.mem)) k.mem

module _ (k : Kernel) (xs : List ℕ) (f : ℕ) (s' : FrameTable)
    (gave : Gave e1 k.frames xs f s') where
  mapped_to : Kernel
  mapped_to = record k {
    frames = (invtakeframe f k.currpid (some (getpte k.pgfaddr k)) s').1;
    mem =
        store_pte (getpte k.pgfaddr k) (mapped_entry f (load_pte (getpte k.pgfaddr k) k.mem)) k.mem;
  }

  map_takes : Took s' xs f k.currpid (some (getpte k.pgfaddr k)) e1 mapped_to.frames
  unfolding mapped_to
  map_takes =
      (invtakeframe-IsValid s' xs f k.currpid (some (getpte k.pgfaddr k)) e1 gave.valid
        gave.in_region gave.was_free gave.held
        (omega (arith, fidxtoregion-range e1 f gave.in_region))).1

  mapped_to-Mapped : Mapped k xs f mapped_to
  unfolding mapped_to
  mapped_to-Mapped = record {
    valid = map_takes.valid;
    was_first =
        gave.popped.list_is
        ∙ ap (λ (l : List ℕ). f ∷ l) (ap (λ st. free_slots 1024 (st e1)) (sym map_takes.stacks));
    other_lists = λ q ne.
        ap (λ st. free_slots (region_size q) (st q)) map_takes.stacks
        ∙ ap (free_slots (region_size q)) (gave.popped.others q ne);
    in_e1 = gave.in_region;
    others =
        λ a ne. map_takes.others a ne ∙ ap (λ (t : ℕ → Frame). unlisted (t a)) gave.popped.invpt_is;
    owner = ap (λ (fr : Frame). fr.fr_pid) map_takes.entry;
    back = ap (λ (fr : Frame). fr.fr_pte) map_takes.entry;
    memory = refl;
  }

-- On a well-formed frame table `mapfreeframe` either fails, exactly if E1 has no free frame, and
-- changes nothing, or puts the faulting page into the first free frame of E1: the running process
-- owns the frame, the frame and the page's entry name each other, the entry is present, writable
-- and not swapped, no other entry changes, the frame is the last in the eviction list, and the
-- frame table stays well-formed.
pub mapfreeframe-IsValid :
    (k : Kernel) (xs : List ℕ)
    → IsValid k.frames xs
    → ((mapfreeframe k ≡ (none, k)) × (free_list k.frames e1 ≡ []))
      ⊎ ((f : ℕ) × (k' : Kernel) × (mapfreeframe k ≡ (some f, k')) × Mapped k xs f k')
unfolding mapfreeframe mapped_to
mapfreeframe-IsValid k xs v = elim (getfreeframe-IsValid e1 k.frames xs v) [
  | inl (e, empty) ↦ inl (rw e, empty)
  | inr (f, s', e, gave) ↦ inr (f, mapped_to k xs f s' gave, rw e, mapped_to-Mapped k xs f s' gave)
]
