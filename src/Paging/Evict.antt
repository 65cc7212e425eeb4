-- ===== src/Paging/Evict.antt =====
-- `evictframe` on a well-formed frame table.
use virtual_memory_xinu_f.Base.{
  none, update-ne, ℕ, ◌<◌, ◌≡◌, ◌≢◌, refl, sym, ap, ◌∙◌, subst, Option, some, List, [], ◌∷◌, ◌⊎◌,
  inl, inr, arith, ok, syserr,
}
use virtual_memory_xinu_f.Base.Distinct.{erase-head, mem-head, cons-injective}
use virtual_memory_xinu_f.Frames.{
  e1, e2, FrameTable, Frame, fr_used, getfreeframe, invtakeframe, invfreeframe, fidxtoregion,
  PteAddr, nbpg,
}
use virtual_memory_xinu_f.Frames.Stacks.{free_list, free_slots}
use virtual_memory_xinu_f.Frames.UsedList.{unlisted}
use virtual_memory_xinu_f.Frames.Valid.{IsValid}
use virtual_memory_xinu_f.Frames.Valid.Get.{Gave, getfreeframe-IsValid}
use virtual_memory_xinu_f.Frames.Valid.Take.{Took, invtakeframe-IsValid}
use virtual_memory_xinu_f.Frames.Valid.Free.{Freed, invfreeframe-IsValid}
use virtual_memory_xinu_f.Frames.Valid.Order.{get_used_frame_e1-head}
use virtual_memory_xinu_f.Memory.{Memory, copy_page}
use virtual_memory_xinu_f.Memory.Copy.{copy_page_lem}
use virtual_memory_xinu_f.Kernel.{Kernel}
use virtual_memory_xinu_f.Paging.{getpte}
use virtual_memory_xinu_f.Paging.Fault.{evictframe, mark_swapped}

-- The page in the E1 frame `x`, the first of the eviction list, has moved to the E2 frame `f`.
pub record Evicted (k : Kernel) (x : ℕ) (xs : List ℕ) (f : ℕ) (k' : Kernel) : Type 0 where
  pub valid : IsValid k'.frames xs
  pub victim_free : free_list k'.frames e1 ≡ x ∷ free_list k.frames e1
  pub target_used : (k'.frames.invpt f).fr_state ≡ fr_used
  pub target_in : fidxtoregion f ≡ some e2
  pub was_first : free_list k.frames e2 ≡ f ∷ free_list k'.frames e2
  pub owner : (k'.frames.invpt f).fr_pid ≡ (k.frames.invpt x).fr_pid
  pub back : (k'.frames.invpt f).fr_pte ≡ (k.frames.invpt x).fr_pte
  pub memory : k'.mem ≡ mark_swapped (k.frames.invpt x).fr_pte f (copy_page x f k.mem)
  pub apart : x ≢ f
  pub pages : (a : ℕ) → getpte a k' ≡ getpte a k
  pub address : k'.pgfaddr ≡ k.pgfaddr
  pub running : k'.currpid ≡ k.currpid

getpte-mark_swapped :
    (a : ℕ) (k : Kernel) (p : Option PteAddr) (x f : ℕ) (s : FrameTable)
    → getpte a (record k { frames = s; mem = mark_swapped p f (copy_page x f k.mem) }) ≡ getpte a k
unfolding getpte copy_page
getpte-mark_swapped a k none x f s = refl
getpte-mark_swapped a k (some p) x f s = refl

module _ (k : Kernel) (x : ℕ) (xs : List ℕ) (v : IsValid k.frames (x ∷ xs)) (f : ℕ)
    (s' : FrameTable) (gave : Gave e2 k.frames (x ∷ xs) f s') (small : f < 3072) where
  abbrev pid : ℕ
  pid = (s'.invpt x).fr_pid

  abbrev pte : Option PteAddr
  pte = (s'.invpt x).fr_pte

  taken : FrameTable
  taken = (invtakeframe f pid pte s').1

  -- The victim's entry is as it was.
  x_used : (fidxtoregion x ≡ some e1) × ((s'.invpt x).fr_state ≡ fr_used)
  x_used = gave.valid.used_frames x (mem-head x xs)

  took : Took s' (x ∷ xs) f pid pte e2 taken
  unfolding taken
  took =
      (invtakeframe-IsValid s' (x ∷ xs) f pid pte e2 gave.valid gave.in_region gave.was_free
        gave.held small).1

  x_apart : x ≢ f
  x_apart e = cc (ap fidxtoregion e, x_used.0, gave.in_region)

  x_kept : unlisted (taken.invpt x) ≡ unlisted (k.frames.invpt x)
  x_kept =
      took.others x (λ e. x_apart (sym e))
      ∙ ap (λ (t : ℕ → Frame). unlisted (t x)) gave.popped.invpt_is

  freed : ((invfreeframe x taken).0 ≡ ok) × Freed taken (x ∷ xs) x e1 (invfreeframe x taken).1
  freed =
      invfreeframe-IsValid taken (x ∷ xs) x e1 took.valid x_used.0
        (ap (λ (fr : Frame). fr.fr_state) (took.others x (λ e. x_apart (sym e))) ∙ x_used.1)

  evicted_to : Kernel
  unfolding taken
  evicted_to = record k {
    mem = mark_swapped (taken.invpt x).fr_pte f (copy_page x f k.mem);
    frames = (invfreeframe x taken).1;
  }

  target_entry : unlisted (evicted_to.frames.invpt f) ≡ unlisted (taken.invpt f)
  unfolding evicted_to
  target_entry = freed.1.entries f ∙ ap unlisted (update-ne taken.invpt x f _ x_apart)

  evicted_to-Evicted : Evicted k x xs f evicted_to
  unfolding evicted_to
  evicted_to-Evicted = record {
    valid = subst (IsValid (invfreeframe x taken).1) (erase-head x xs) freed.1.valid;
    victim_free =
        freed.1.on_top
        ∙ ap (λ (l : List ℕ). x ∷ l)
            (ap (λ st. free_slots 1024 (st e1)) took.stacks
              ∙ ap (free_slots 1024) (gave.popped.others e1 refl));
    target_used = ap (λ (fr : Frame). fr.fr_state) (target_entry ∙ took.entry);
    target_in = gave.in_region;
    was_first =
        gave.popped.list_is
        ∙ ap (λ (l : List ℕ). f ∷ l)
            (sym (freed.1.others e2 refl ∙ ap (λ st. free_slots 1048 (st e2)) took.stacks));
    owner =
        ap (λ (fr : Frame). fr.fr_pid) (target_entry ∙ took.entry)
        ∙ ap (λ (t : ℕ → Frame). (t x).fr_pid) gave.popped.invpt_is;
    back =
        ap (λ (fr : Frame). fr.fr_pte) (target_entry ∙ took.entry)
        ∙ ap (λ (t : ℕ → Frame). (t x).fr_pte) gave.popped.invpt_is;
    memory =
        ap (λ p. mark_swapped p f (copy_page x f k.mem)) (ap (λ (fr : Frame). fr.fr_pte) x_kept);
    apart = x_apart;
    pages = λ a. getpte-mark_swapped a k (taken.invpt x).fr_pte x f (invfreeframe x taken).1;
    address = refl;
    running = refl;
  }

  evicts : getfreeframe e2 k.frames ≡ (some f, s') → evictframe k ≡ (ok, evicted_to)
  unfolding evictframe evicted_to
  evicts e = rw (get_used_frame_e1-head k.frames (x ∷ xs) v, e)

-- On a well-formed frame table whose first frame in the eviction list is `x` and whose first free
-- frame of E2 is `f`, with a number below 3072, `evictframe` succeeds: the bytes of `x` are copied
-- to `f`, the page's entry, if the frame has one, becomes absent and swapped and names `f`, `f`
-- takes over the owner and the entry of `x`, `x` becomes the first free frame of E1, and the frame
-- table stays well-formed.
pub evictframe-IsValid :
    (k : Kernel) (x : ℕ) (xs : List ℕ) (f : ℕ) (rest : List ℕ)
    → IsValid k.frames (x ∷ xs)
    → free_list k.frames e2 ≡ f ∷ rest
    → f < 3072
    → ((evictframe k).0 ≡ ok) × Evicted k x xs f (evictframe k).1
evictframe-IsValid k x xs f rest v first small =
    elim (getfreeframe-IsValid e2 k.frames (x ∷ xs) v) [
      | inl (e, empty) ↦ absurd (cc first)
      | inr (g, s', e, gave) ↦
          let same : g ≡ f =
            sym (cons-injective f g rest (free_list s' e2) (sym first ∙ gave.popped.list_is)).0 in
          let small' : g < 3072 = omega arith in
          rw (evicts k x xs v g s' gave small' e) (
            refl,
            subst (λ n. Evicted k x xs n (evicted_to k x xs v g s' gave small')) same
                (evicted_to-Evicted k x xs v g s' gave small'),
          )
    ]

-- With nothing to evict, or no free frame in E2, `evictframe` reports an error and changes nothing.
pub evictframe-fails :
    (k : Kernel) (xs : List ℕ)
    → IsValid k.frames xs
    → (xs ≡ []) ⊎ (free_list k.frames e2 ≡ [])
    → evictframe k ≡ (syserr, k)
unfolding evictframe
evictframe-fails k [] v why = rw (get_used_frame_e1-head k.frames [] v)
evictframe-fails k (x ∷ xs) v (inl e) = absurd (cc)
evictframe-fails k (x ∷ xs) v (inr none_free) =
    rw (get_used_frame_e1-head k.frames (x ∷ xs) v)
      (elim (getfreeframe-IsValid e2 k.frames (x ∷ xs) v) [
        | inl (e, empty) ↦ rw e
        | inr (g, s', e, gave) ↦ absurd (cc (gave.popped.list_is))
      ])

bytes-mark_swapped :
    (p : Option PteAddr) (f : ℕ) (m : Memory) → (mark_swapped p f m).bytes ≡ m.bytes
bytes-mark_swapped none f m = refl
bytes-mark_swapped (some p) f m = refl

-- The bytes of the victim are in the target.
pub moved :
    (k : Kernel) (x : ℕ) (xs : List ℕ) (f : ℕ) (k1 : Kernel)
    → Evicted k x xs f k1
    → (j : ℕ) → j < nbpg
    → k1.mem.bytes f j ≡ k.mem.bytes x j
moved k x xs f k1 ev j h =
    ap (λ (m : Memory). m.bytes f j) ev.memory
    ∙ ap (λ (g : ℕ → ℕ → ℕ). g f j)
        (bytes-mark_swapped (k.frames.invpt x).fr_pte f (copy_page x f k.mem))
    ∙ copy_page_lem x f k.mem f j ev.apart
    ∙ ground arith
