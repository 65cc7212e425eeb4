-- ===== src/Frames/Valid/Order.antt =====
-- The order in which frames are given out and chosen for eviction.
use virtual_memory_xinu_f.Base.{ℕ, ◌≡◌, ap, ◌∙◌, sym, none, some, List, [], ◌∷◌, inl, inr}
use virtual_memory_xinu_f.Base.Distinct.{erase, mem-head, cons-injective}
use virtual_memory_xinu_f.Frames.{
  Region, e1, FrameTable, fr_used, fidxtoregion, getfreeframe, invfreeframe, get_used_frame_e1,
}
use virtual_memory_xinu_f.Frames.Seg.{head_or}
use virtual_memory_xinu_f.Frames.Stacks.{free_list}
use virtual_memory_xinu_f.Frames.Valid.{IsValid}
use virtual_memory_xinu_f.Frames.Valid.Free.{invfreeframe-IsValid}
use virtual_memory_xinu_f.Frames.Valid.Get.{getfreeframe-IsValid}

-- The victim that `getusedframeE1` names is the frame of E1 that has been in use for the longest
-- time; there is none exactly if no frame of E1 is in use.
pub get_used_frame_e1-head :
    (s : FrameTable) (xs : List ℕ) → IsValid s xs → get_used_frame_e1 s ≡ head_or xs none
unfolding get_used_frame_e1
get_used_frame_e1-head s [] v = rw v.used.head_is
get_used_frame_e1-head s (x ∷ xs) v =
    rw v.used.head_is (ap some (v.indexed e1 x (v.used_frames x (mem-head x xs)).0))

-- Free frames are given out last in, first out: after a successful `invfreeframe` of `f` the next
-- `getfreeframe` of its region gives out `f`, and leaves the free list as it was before both.
pub getfreeframe-invfreeframe :
    (s : FrameTable) (xs : List ℕ) (f : ℕ) (r : Region)
    → IsValid s xs
    → fidxtoregion f ≡ some r
    → (s.invpt f).fr_state ≡ fr_used
    → ((getfreeframe r (invfreeframe f s).1).0 ≡ some f)
      × (free_list (getfreeframe r (invfreeframe f s).1).1 r ≡ free_list s r)
getfreeframe-invfreeframe s xs f r v at_r used =
    let freed = (invfreeframe-IsValid s xs f r v at_r used).1 in
    elim (getfreeframe-IsValid r (invfreeframe f s).1 (erase f xs) freed.valid) [
      | inl (e, empty) ↦ absurd (cc (freed.on_top))
      | inr (g, s', e, gave) ↦
          let heads =
            cons-injective f g (free_list s r) (free_list s' r)
              (sym freed.on_top ∙ gave.popped.list_is) in
          rw e (ap some (sym heads.0), sym heads.1)
    ]
