-- ===== src/Frames/Valid.antt =====
-- The well-formed states of framemgmt.c.
pub mod Init
pub mod Get
pub mod Take
pub mod Free
pub mod Order
use virtual_memory_xinu_f.Base.{
  ℕ, zero, suc, ◌+◌, ◌-◌, ◌≤◌, ◌<◌, ◌≡◌, ◌≢◌, refl, sym, ap, ◌∙◌, Bool, true, false, Option, none,
  some, arith, List, [], ◌∷◌,
}
use virtual_memory_xinu_f.Base.Distinct.{mem, Distinct, length}
use virtual_memory_xinu_f.Frames.{
  Region, d, e1, e2, region_size, frame0, fr_free, fr_used, FrameTable, fidxtoregion, init_invpt,
}
use virtual_memory_xinu_f.Frames.Stacks.{free_list}
use virtual_memory_xinu_f.Frames.UsedList.{IsUsedList}

-- Frame numbers and regions.
pub fidxtoregion-range :
    (r : Region) (a : ℕ) → fidxtoregion a ≡ some r → (frame0 r ≤ a) × (a < frame0 r + region_size r)
unfolding fidxtoregion
fidxtoregion-range r a h = ground arith

pub fidxtoregion-eq :
    (r : Region) (a : ℕ) → frame0 r ≤ a → a < frame0 r + region_size r → fidxtoregion a ≡ some r
unfolding fidxtoregion
fidxtoregion-eq r a h k = ground arith

pub fidxtoregion-bounds : (r : Region) (a : ℕ) → fidxtoregion a ≡ some r → (1024 ≤ a) × (a < 4096)
unfolding fidxtoregion
fidxtoregion-bounds r a h = ground arith

-- The stacks hold free frames of their regions, without repetition, and the eviction list holds
-- the used frames of E1: these, and no others.
pub record IsValid (s : FrameTable) (xs : List ℕ) : Type 0 where
  pub bounded : (r : Region) → (s.stack r).frsp ≤ region_size r
  pub free_distinct : (r : Region) → Distinct (free_list s r)
  pub free_frames :
      (r : Region) (a : ℕ)
      → mem a (free_list s r) ≡ true
      → (fidxtoregion a ≡ some r) × ((s.invpt a).fr_state ≡ fr_free)
  pub used : IsUsedList s xs
  pub used_frames :
      (a : ℕ) → mem a xs ≡ true → (fidxtoregion a ≡ some e1) × ((s.invpt a).fr_state ≡ fr_used)
  pub used_listed :
      (a : ℕ) → fidxtoregion a ≡ some e1 → (s.invpt a).fr_state ≡ fr_used → mem a xs ≡ true
  pub indexed : (r : Region) (a : ℕ) → fidxtoregion a ≡ some r → (s.invpt a).fr_idx ≡ a

-- The frame is on no stack of free frames: it is in use, or `getfreeframe` has given it out.
abbrev pub Held : FrameTable → ℕ → Type 0
Held s f = (r : Region) → mem f (free_list s r) ≡ false
