-- ===== src/Frames/Stacks.antt =====
-- The stacks of free frames: `getfreeframe` and the push of `invfreeframe` against lists.
use virtual_memory_xinu_f.Base.{
  subst, ℕ, zero, suc, ◌+◌, ◌-◌, ◌≤◌, ◌<◌, ◌≡◌, ◌≢◌, refl, sym, ap, ap₂, update_self, ◌∙◌, true,
  false, none, some, arith, ◌==◌, update, List, [], ◌∷◌, Bool-cases, inl, inr, ◌⊎◌,
}
use virtual_memory_xinu_f.Base.Distinct.{length}
use virtual_memory_xinu_f.Frames.{
  Region, region_size, same_region, FreeStack, FrameTable, getfreeframe, set_stack, push_frame,
}

-- The entries of an array from `i` on.
abbrev pub slots_from : (ℕ → ℕ) → ℕ → ℕ → List ℕ
slots_from a i zero = []
slots_from a i (suc n) = a i ∷ slots_from a (suc i) n

-- The free frames of a stack, the next one to be given out first.
abbrev pub free_slots : ℕ → FreeStack → List ℕ
free_slots size st = slots_from st.frstack st.frsp (size - st.frsp)

abbrev pub free_list : FrameTable → Region → List ℕ
free_list s r = free_slots (region_size r) (s.stack r)

pub length-slots_from : (a : ℕ → ℕ) (i n : ℕ) → length (slots_from a i n) ≡ n
length-slots_from a i zero = refl
length-slots_from a i (suc n) = ap suc (length-slots_from a (suc i) n)

pub slots_from-update_below :
    (a : ℕ → ℕ) (k v i n : ℕ) → k < i → slots_from (update a k v) i n ≡ slots_from a i n
slots_from-update_below a k v i zero h = refl
slots_from-update_below a k v i (suc n) h = ground (arith, slots_from-update_below a k v (suc i) n)

free_slots-step :
    (size : ℕ) (st : FreeStack)
    → st.frsp < size
    → free_slots size st ≡ st.frstack st.frsp ∷ free_slots size (record st { frsp = st.frsp + 1 })
free_slots-step size st h =
    let e : size - st.frsp ≡ suc (size - (st.frsp + 1)) = omega arith in
    let e' : st.frsp + 1 ≡ suc st.frsp = omega arith in rw e (rw e')

pub free_slots-push :
    (size f : ℕ) (st : FreeStack)
    → st.frsp ≢ 0
    → st.frsp ≤ size
    → free_slots size (push_frame f st) ≡ f ∷ free_slots size st
free_slots-push size f st h le =
    let e : size - (st.frsp - 1) ≡ suc (size - st.frsp) = omega arith in
    let e' : suc (st.frsp - 1) ≡ st.frsp = omega arith in
    rw e (
      ap₂ ◌∷◌ (update_self st.frstack (st.frsp - 1) f) (
        slots_from-update_below st.frstack (st.frsp - 1) f (suc (st.frsp - 1)) (size - st.frsp)
          (omega arith)
        ∙ ap (λ k. slots_from st.frstack k (size - st.frsp)) e'))

pub same_region-eq : (r q : Region) → same_region r q ≡ true → r ≡ q
same_region-eq r q h = ground arith

pub same_region_self : (r : Region) → same_region r r ≡ true
same_region_self r = ground arith

-- A proof for one region and for the others.
pub by_region :
    (P : Region → Type 0) (r : Region)
    → P r
    → ((q : Region) → same_region r q ≡ false → P q)
    → (q : Region) → P q
by_region P r here there q = elim (Bool-cases (same_region r q)) [
  | inl same ↦ subst P (same_region-eq r q same) here
  | inr ne ↦ there q ne
]

-- What `getfreeframe` has done when it gave out `f`.
pub record Popped (r : Region) (s : FrameTable) (f : ℕ) (s' : FrameTable) : Type 0 where
  pub list_is : free_list s r ≡ f ∷ free_list s' r
  pub bounded : (s'.stack r).frsp ≤ region_size r
  pub others : (q : Region) → same_region r q ≡ false → s'.stack q ≡ s.stack q
  pub invpt_is : s'.invpt ≡ s.invpt
  pub head_is : s'.evicthead ≡ s.evicthead
  pub tail_is : s'.evicttail ≡ s.evicttail

module _ (r : Region) (s : FrameTable) (bounded : (s.stack r).frsp ≤ region_size r) where
  -- `getfreeframe` takes the first frame off the free list of the region, and reports an error
  -- exactly if there is none.
  pub getfreeframe_lem :
      ((getfreeframe r s ≡ (none, s)) × (free_list s r ≡ []))
      ⊎ ((f : ℕ) × (s' : FrameTable) × (getfreeframe r s ≡ (some f, s')) × Popped r s f s')
  unfolding getfreeframe
  getfreeframe_lem = elim (Bool-cases ((s.stack r).frsp == region_size r)) [
    | inl full ↦ let e : region_size r - (s.stack r).frsp ≡ 0 = ground arith in inl (rw full, rw e)
    | inr more ↦
        let room : (s.stack r).frsp < region_size r = ground arith in
        inr (
          (s.stack r).frstack (s.stack r).frsp,
          after,
          rw more,
          record {
            list_is =
                free_slots-step (region_size r) (s.stack r) room
                ∙ ap (λ st. (s.stack r).frstack (s.stack r).frsp ∷ free_slots (region_size r) st)
                    (sym top);
            bounded = rw top (omega arith);
            others = λ q ne. rw ne;
            invpt_is = refl;
            head_is = refl;
            tail_is = refl;
          },
        )
  ]
    where
      after : FrameTable
      after = record s {
        stack = set_stack s.stack r (record (s.stack r) { frsp = (s.stack r).frsp + 1 });
      }

      top : after.stack r ≡ record (s.stack r) { frsp = (s.stack r).frsp + 1 }
      top = rw (same_region_self r)
