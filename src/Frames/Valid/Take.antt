-- ===== src/Frames/Valid/Take.antt =====
-- `invtakeframe` on a well-formed state.
use virtual_memory_xinu_f.Base.{
  leb, ◌^◌, ℕ, ◌<◌, ◌≡◌, ◌≢◌, refl, sym, ap, ◌∙◌, true, false, Option, none, some, arith, ◌==◌,
  ◌||◌, ◌&&◌, ◌++◌, if◌then◌else◌, update, update-ne, update_self, List, [], ◌∷◌, Bool-cases, inl,
  inr, ok,
}
use virtual_memory_xinu_f.Base.Distinct.{mem, mem-append, ne_of_mem}
use virtual_memory_xinu_f.Frames.{
  Region, e1, same_region, fr_free, fr_used, Frame, FrameTable, PteAddr, fidxtoregion, invtakeframe,
  insert_to_used_ll,
}
use virtual_memory_xinu_f.Frames.Seg.{Seg-frame, same_of_eq}
use virtual_memory_xinu_f.Frames.Stacks.{free_list}
use virtual_memory_xinu_f.Frames.UsedList.{
  IsUsedList, LinksOnly, insert-IsUsedList, insert-LinksOnly, stack-insert, unlisted,
}
use virtual_memory_xinu_f.Frames.Valid.{IsValid, Held}

-- The entry of a frame that is taken.
abbrev pub taken_entry : ℕ → Option PteAddr → Frame → Frame
taken_entry pid pte fr = record fr { fr_state = fr_used; fr_pid = pid; fr_pte = pte }

state-unlisted : (a b : Frame) → unlisted a ≡ unlisted b → a.fr_state ≡ b.fr_state
state-unlisted a b e = ap (λ (fr : Frame). fr.fr_state) e

idx-unlisted : (a b : Frame) → unlisted a ≡ unlisted b → a.fr_idx ≡ b.fr_idx
idx-unlisted a b e = ap (λ (fr : Frame). fr.fr_idx) e

abbrev marked_taken : FrameTable → ℕ → ℕ → Option PteAddr → FrameTable
marked_taken s f pid pte = record s { invpt = update s.invpt f (taken_entry pid pte (s.invpt f)) }

-- What a caller may rely on when the frame `f` has been taken.
pub record Took (s : FrameTable) (xs : List ℕ) (f pid : ℕ) (pte : Option PteAddr) (r : Region)
    (s' : FrameTable) : Type 0 where
  pub valid : IsValid s' (if same_region r e1 then xs ++ f ∷ [] else xs)
  pub entry : unlisted (s'.invpt f) ≡ unlisted (taken_entry pid pte (s.invpt f))
  pub others : (a : ℕ) → f ≢ a → unlisted (s'.invpt a) ≡ unlisted (s.invpt a)
  pub stacks : s'.stack ≡ s.stack

module _ (s : FrameTable) (xs : List ℕ) (v : IsValid s xs) (f pid : ℕ) (pte : Option PteAddr)
    (r : Region) (at_r : fidxtoregion f ≡ some r) (was_free : (s.invpt f).fr_state ≡ fr_free)
    (held : Held s f) where
  not_listed : mem f xs ≡ false
  not_listed = elim (Bool-cases (mem f xs)) [
    | inl m ↦ absurd (cc ((v.used_frames f m).1))
    | inr out ↦ out
  ]

  marked-IsUsedList : IsUsedList (marked_taken s f pid pte) xs
  marked-IsUsedList = record {
    head_is = v.used.head_is;
    tail_is = v.used.tail_is;
    linked =
        Seg-frame s.invpt (marked_taken s f pid pte).invpt none xs none
          (same_of_eq s.invpt (marked_taken s f pid pte).invpt xs λ a m.
            update-ne s.invpt f a (taken_entry pid pte (s.invpt f))
              λ e. ne_of_mem a f xs m not_listed (sym e))
          v.used.linked;
    distinct = v.used.distinct;
  }

  module _ (t : ℕ → Frame) (links : LinksOnly (marked_taken s f pid pte).invpt t) where
    state_after : (a : ℕ) → (t a).fr_state ≡ (if f == a then fr_used else (s.invpt a).fr_state)
    state_after a =
        state-unlisted (t a) ((marked_taken s f pid pte).invpt a) (links a) ∙ ground arith

    idx_after : (a : ℕ) → (t a).fr_idx ≡ (s.invpt a).fr_idx
    idx_after a = idx-unlisted (t a) ((marked_taken s f pid pte).invpt a) (links a) ∙ ground arith

  -- Any state whose entries are those of `marked_taken` but for the links of its list.
  taken-IsValid :
      (s' : FrameTable) (xs' : List ℕ)
      → s'.stack ≡ s.stack
      → LinksOnly (marked_taken s f pid pte).invpt s'.invpt
      → IsUsedList s' xs'
      → ((a : ℕ) → mem a xs' ≡ (mem a xs || (same_region r e1 && (f == a))))
      → IsValid s' xs'
  taken-IsValid s' xs' same links listed mems = record {
    bounded = λ q. rw same (v.bounded q);
    free_distinct = λ q. rw same (v.free_distinct q);
    free_frames = λ q a m.
        let m' : mem a (free_list s q) ≡ true = rw same at m in
        ground (arith, v.free_frames q a m', state_after s'.invpt links a, held q);
    used = listed;
    used_frames =
        λ a m. ground (arith, mems a, v.used_frames a, state_after s'.invpt links a, at_r);
    used_listed = λ a at_e1 u.
        ground (arith, mems a, v.used_listed a at_e1, state_after s'.invpt links a, at_r);
    indexed = λ q a at_q. idx_after s'.invpt links a ∙ v.indexed q a at_q;
  }

  -- The frames of D, of E1 and the first 24 of E2 pass the bound that `invtakeframe` checks.
  took :
      f < 3072
      → invtakeframe f pid pte s ≡ (
        ok,
        (if same_region r e1
            then insert_to_used_ll f (marked_taken s f pid pte)
            else (marked_taken s f pid pte)),
      )
  unfolding invtakeframe
  took small =
      let inside : (leb (2 ^ 15) f || leb 3072 f) ≡ false = ground arith in
      rw (inside, was_free, at_r)

  module _ (s' : FrameTable) (same : s'.stack ≡ s.stack)
      (links : LinksOnly (marked_taken s f pid pte).invpt s'.invpt) where
    Took-of_valid :
        IsValid s' (if same_region r e1 then xs ++ f ∷ [] else xs) → Took s xs f pid pte r s'
    Took-of_valid ok_after = record {
      valid = ok_after;
      entry = links f ∙ ap unlisted (update_self s.invpt f (taken_entry pid pte (s.invpt f)));
      others = λ a ne.
          links a ∙ ap unlisted (update-ne s.invpt f a (taken_entry pid pte (s.invpt f)) ne);
      stacks = same;
    }

  taken-Took : Took s xs f pid pte r (
      if same_region r e1
      then insert_to_used_ll f (marked_taken s f pid pte)
      else (marked_taken s f pid pte))
  taken-Took = elim (Bool-cases (same_region r e1)) [
    | inl at_e1 ↦
        let u : FrameTable = insert_to_used_ll f (marked_taken s f pid pte) in
        rw at_e1 (
          Took-of_valid u (stack-insert f (marked_taken s f pid pte))
            (insert-LinksOnly f (marked_taken s f pid pte))
            (rw at_e1 (
              taken-IsValid u (xs ++ f ∷ []) (stack-insert f (marked_taken s f pid pte))
                (insert-LinksOnly f (marked_taken s f pid pte))
                (insert-IsUsedList f xs (marked_taken s f pid pte) marked-IsUsedList not_listed)
                λ a. ground (arith, mem-append a xs (f ∷ [])))))
    | inr other ↦ rw other (
        Took-of_valid (marked_taken s f pid pte) refl (λ a. refl)
          (rw other (
            taken-IsValid (marked_taken s f pid pte) xs refl (λ a. refl) marked-IsUsedList
              λ a. ground arith)))
  ]

-- On a well-formed state `invtakeframe`, for a free frame of a region that stands on no free list
-- and has a number below 3072, returns OK; the entry of the frame then has the new owner and page
-- table entry, no other entry changes but in its links, a frame of E1 becomes the last one of the
-- eviction list, and the state stays well-formed.
pub invtakeframe-IsValid :
    (s : FrameTable) (xs : List ℕ) (f pid : ℕ) (pte : Option PteAddr) (r : Region)
    → IsValid s xs
    → fidxtoregion f ≡ some r
    → (s.invpt f).fr_state ≡ fr_free
    → Held s f
    → f < 3072
    → ((invtakeframe f pid pte s).0 ≡ ok) × Took s xs f pid pte r (invtakeframe f pid pte s).1
invtakeframe-IsValid s xs f pid pte r v at_r was_free held small =
    rw (took s xs v f pid pte r at_r was_free held small)
      (refl, taken-Took s xs v f pid pte r at_r was_free held)
