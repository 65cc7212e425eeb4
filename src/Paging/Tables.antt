-- ===== src/Paging/Tables.antt =====
-- `newpt` on a well-formed frame table.
use virtual_memory_xinu_f.Base.{
  ℕ, ◌≡◌, refl, ap, ◌∙◌, none, some, Option, ok, syserr, List, [], ◌⊎◌, inl, inr, arith,
  update_self,
}
use virtual_memory_xinu_f.Frames.{d, FrameTable, Frame, fr_used, fidxtoregion, invtakeframe}
use virtual_memory_xinu_f.Frames.Stacks.{free_list}
use virtual_memory_xinu_f.Frames.Valid.{IsValid, fidxtoregion-range}
use virtual_memory_xinu_f.Frames.Valid.Get.{Gave, getfreeframe-IsValid}
use virtual_memory_xinu_f.Frames.Valid.Take.{Took, invtakeframe-IsValid}
use virtual_memory_xinu_f.Memory.{zero_pte, zero_pde, clear_page}
use virtual_memory_xinu_f.Kernel.{Kernel}
use virtual_memory_xinu_f.Paging.{newpt, take_d, cleared}

-- The frame `f` of D is an empty page table or directory of the process `pid`.
pub record NewTable (k : Kernel) (xs : List ℕ) (pid f : ℕ) (k' : Kernel) : Type 0 where
  pub valid : IsValid k'.frames xs
  pub in_d : fidxtoregion f ≡ some d
  pub used : (k'.frames.invpt f).fr_state ≡ fr_used
  pub owner : (k'.frames.invpt f).fr_pid ≡ pid
  pub no_entry : (k'.frames.invpt f).fr_pte ≡ none
  pub ptes_zero : (i : ℕ) → k'.mem.ptes f i ≡ zero_pte
  pub pdes_zero : (i : ℕ) → k'.mem.pdes f i ≡ zero_pde
  pub memory : k'.mem ≡ clear_page f k.mem

module _ (k : Kernel) (xs : List ℕ) (pid f : ℕ) (s' : FrameTable)
    (gave : Gave d k.frames xs f s') where
  table_made : Kernel
  table_made = record k { frames = (invtakeframe f pid none s').1; mem = clear_page f k.mem }

  takes :
      ((invtakeframe f pid none s').0 ≡ ok) × Took s' xs f pid none d (invtakeframe f pid none s').1
  takes =
      invtakeframe-IsValid s' xs f pid none d gave.valid gave.in_region gave.was_free gave.held
        (omega (arith, fidxtoregion-range d f gave.in_region))

  table_made-NewTable : NewTable k xs pid f table_made
  unfolding table_made
  table_made-NewTable = record {
    valid = takes.1.valid;
    in_d = gave.in_region;
    used = ap (λ (fr : Frame). fr.fr_state) takes.1.entry;
    owner = ap (λ (fr : Frame). fr.fr_pid) takes.1.entry;
    no_entry = ap (λ (fr : Frame). fr.fr_pte) takes.1.entry;
    ptes_zero = λ i. ap (λ g. g i) (update_self k.mem.ptes f (λ j. zero_pte));
    pdes_zero = λ i. ap (λ g. g i) (update_self k.mem.pdes f (λ j. zero_pde));
    memory = refl;
  }

-- On a well-formed frame table `newpt` either fails, exactly if D has no free frame, and changes
-- nothing, or returns a frame of D: the process owns the frame, no page table entry stands for it,
-- all entries in it are zero, no other page of memory changes, and the frame table stays
-- well-formed.
pub newpt-IsValid :
    (k : Kernel) (xs : List ℕ) (pid : ℕ)
    → IsValid k.frames xs
    → ((newpt pid k ≡ (none, k)) × (free_list k.frames d ≡ []))
      ⊎ ((f : ℕ) × (k' : Kernel) × (newpt pid k ≡ (some f, k')) × NewTable k xs pid f k')
unfolding newpt table_made
newpt-IsValid k xs pid v = elim (getfreeframe-IsValid d k.frames xs v) [
  | inl (e, empty) ↦ inl (ap (λ g. cleared (take_d pid g) k) e, empty)
  | inr (f, s', e, gave) ↦
      let took = (takes k xs pid f s' gave).0 in
      inr (
        f,
        table_made k xs pid f s' gave,
        ap (λ g. cleared (take_d pid g) k) e
            ∙ ap
                (λ st.
                  cleared
                    (elim st as (λ x. Option ℕ × FrameTable) [
                      | ok ↦ (some f, (invtakeframe f pid none s').1)
                      | syserr ↦ (none, (invtakeframe f pid none s').1)
                    ])
                    k)
                took,
        table_made-NewTable k xs pid f s' gave,
      )
]
