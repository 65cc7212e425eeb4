-- ===== src/Frames/Limit.antt =====
-- The bound that `invtakeframe` checks: it compares a frame number, which runs from 1024 to 4095,
-- with NFRAMES, 3072.
use virtual_memory_xinu_f.Base.{ℕ, ◌≤◌, ◌≡◌, refl, Option, some, arith, List, inl, inr, ok, syserr}
use virtual_memory_xinu_f.Frames.{
  e2, FrameTable, PteAddr, fr_free, getfreeframe, invtakeframe, invfreeframe,
}
use virtual_memory_xinu_f.Frames.Valid.{IsValid, Held}
use virtual_memory_xinu_f.Frames.Valid.Get.{getfreeframe-IsValid}

pub invtakeframe-out :
    (f pid : ℕ) (pte : Option PteAddr) (s : FrameTable)
    → 3072 ≤ f
    → invtakeframe f pid pte s ≡ (syserr, s)
unfolding invtakeframe
invtakeframe-out f pid pte s h = ground arith

pub invfreeframe-free :
    (f : ℕ) (s : FrameTable) → (s.invpt f).fr_state ≡ fr_free → invfreeframe f s ≡ (ok, s)
unfolding invfreeframe
invfreeframe-free f s h = rw h

-- A frame of E2 with a number from 3072 on is lost when it is given out: on a well-formed state,
-- once `getfreeframe` has given it out, `invtakeframe` refuses it and leaves it marked free, so
-- that `invfreeframe` reports success without putting it back, and it is on no free list.
pub e2_frame_lost :
    (s s' : FrameTable) (xs : List ℕ) (f pid : ℕ) (pte : Option PteAddr)
    → IsValid s xs
    → getfreeframe e2 s ≡ (some f, s')
    → 3072 ≤ f
    → ((invtakeframe f pid pte s').0 ≡ syserr)
      × (invfreeframe f (invtakeframe f pid pte s').1 ≡ (ok, s'))
      × Held s' f
e2_frame_lost s s' xs f pid pte v got high = elim (getfreeframe-IsValid e2 s xs v) [
  | inl (e, empty) ↦ absurd (cc)
  | inr (g, t, e, gave) ↦
      let same_frame : g ≡ f = cc in
      let same_state : t ≡ s' = cc in
      let is_free : (s'.invpt f).fr_state ≡ fr_free =
        rw (← same_frame, ← same_state) gave.was_free in
      rw (invtakeframe-out f pid pte s' high)
        (refl, invfreeframe-free f s' is_free, rw (← same_frame, ← same_state) gave.held)
]
