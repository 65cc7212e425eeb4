-- ===== src/Frames/Valid/Init.antt =====
-- `init_invpt` establishes the well-formed states.
use virtual_memory_xinu_f.Base.{
  ℕ, zero, suc, ◌+◌, ◌-◌, ◌≤◌, ◌<◌, ◌≡◌, refl, true, ◌&&◌, none, some, arith, leb, ltb, [],
  Bool-cases, inl, inr,
}
use virtual_memory_xinu_f.Base.Distinct.{mem, Distinct, mem-cons_cases}
use virtual_memory_xinu_f.Base.Loops.{for_range-update, for_range-set}
use virtual_memory_xinu_f.Frames.{
  Region, e1, region_size, frame0, first_frame, fr_free, FrameTable, fidxtoregion, init_invpt,
  fresh_entry, nframes,
}
use virtual_memory_xinu_f.Frames.Stacks.{slots_from, free_list}
use virtual_memory_xinu_f.Frames.Valid.{IsValid, fidxtoregion-bounds, fidxtoregion-eq}

-- An array that counts upwards.
module _ (a : ℕ → ℕ) (base top : ℕ) (counts : (j : ℕ) → j < top → a j ≡ j + base) where
  mem-counting :
      (n i x : ℕ)
      → i + n ≤ top
      → mem x (slots_from a i n) ≡ true
      → (i + base ≤ x) × (x < i + n + base)
  mem-counting zero i x le m = absurd (cc)
  mem-counting (suc n) i x le m = elim (mem-cons_cases x (a i) (slots_from a (suc i) n) m) [
    | inl e ↦ omega (arith, counts i)
    | inr inside ↦ omega (arith, mem-counting n (suc i) x (omega arith) inside)
  ]

  Distinct-counting : (n i : ℕ) → i + n ≤ top → Distinct (slots_from a i n)
  Distinct-counting zero i le = tt
  Distinct-counting (suc n) i le = (
    elim (Bool-cases (mem (a i) (slots_from a (suc i) n))) [
      | inl m ↦ absurd (omega (arith, counts i, mem-counting n (suc i) (a i) (omega arith) m))
      | inr out ↦ out
    ],
    Distinct-counting n (suc i) (omega arith),
  )

module _ (s : FrameTable) where
  init_slots :
      (r : Region) (j : ℕ) → j < region_size r → ((init_invpt s).stack r).frstack j ≡ j + frame0 r
  unfolding init_invpt
  init_slots r j h =
      rw (for_range-set (λ i. i + frame0 r) (region_size r) 0 (s.stack r).frstack j) (ground arith)

  init_frsp : (r : Region) → ((init_invpt s).stack r).frsp ≡ 0
  unfolding init_invpt
  init_frsp r = refl

  init_head : s.evicthead ≡ none → (init_invpt s).evicthead ≡ none
  unfolding init_invpt
  init_head e = e

  init_tail : s.evicttail ≡ none → (init_invpt s).evicttail ≡ none
  unfolding init_invpt
  init_tail e = e

  init_list :
      (r : Region)
      → free_list (init_invpt s) r ≡ slots_from ((init_invpt s).stack r).frstack 0 (region_size r)
  unfolding init_invpt
  init_list r = let e : region_size r - 0 ≡ region_size r = omega arith in rw e

  in_region :
      (r : Region) (a : ℕ)
      → mem a (slots_from ((init_invpt s).stack r).frstack 0 (region_size r)) ≡ true
      → fidxtoregion a ≡ some r
  in_region r a m =
      let bounds =
        mem-counting ((init_invpt s).stack r).frstack (frame0 r) (region_size r) (init_slots r)
          (region_size r) 0 a (omega arith) m in
      fidxtoregion-eq r a (omega (arith, bounds)) (omega (arith, bounds))

  init_entry :
      (r : Region) (a : ℕ)
      → fidxtoregion a ≡ some r
      → (((init_invpt s).invpt a).fr_state ≡ fr_free) × (((init_invpt s).invpt a).fr_idx ≡ a)
  unfolding init_invpt
  init_entry r a at_r =
      let inside : (leb (0 + first_frame) a && ltb a (0 + first_frame + nframes)) ≡ true =
        ground (arith, fidxtoregion-bounds r a at_r) in
      rw (for_range-update first_frame fresh_entry nframes 0 s.invpt a, inside)
        (refl, omega (arith, fidxtoregion-bounds r a at_r))

  -- `init_invpt`, run with no eviction list, makes every frame of the three regions free and puts
  -- it on the stack of its region; the state is well-formed, with nothing to evict.
  pub init_invpt-IsValid : s.evicthead ≡ none → s.evicttail ≡ none → IsValid (init_invpt s) []
  init_invpt-IsValid no_head no_tail = record {
    bounded = λ r. omega (arith, init_frsp r);
    free_distinct = λ r. rw (init_list r) (
        Distinct-counting ((init_invpt s).stack r).frstack (frame0 r) (region_size r) (init_slots r)
          (region_size r) 0 (omega arith));
    free_frames = λ r a m.
        let at_r = in_region r a (rw (init_list r) at m) in (at_r, (init_entry r a at_r).0);
    used = record {
      head_is = init_head no_head;
      tail_is = init_tail no_tail;
      linked = tt;
      distinct = tt;
    };
    used_frames = λ a m. absurd (cc);
    used_listed = λ a at_e1 u. absurd (cc ((init_entry e1 a at_e1).0));
    indexed = λ r a at_r. (init_entry r a at_r).1;
  }
