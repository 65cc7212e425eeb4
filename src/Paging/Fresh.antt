-- ===== src/Paging/Fresh.antt =====
-- The fault of a page that is not swapped out: the loop of `pgfhandler` and what follows it.
use virtual_memory_xinu_f.Base.{
  none, ◌-◌, ℕ, ◌<◌, ◌≡◌, ◌≢◌, refl, update_self, update-ne, sym, ap, ◌∙◌, subst, inl, inr, true,
  false, List, ◌∷◌, [], ◌++◌, arith,
}
use virtual_memory_xinu_f.Base.Distinct.{cons-injective, length}
use virtual_memory_xinu_f.Frames.{Region, region_size, e1, e2, nbpg, FrameTable, hasfreeframe}
use virtual_memory_xinu_f.Frames.Seg.{Seg-frame}
use virtual_memory_xinu_f.Frames.Stacks.{free_list, length-slots_from}
use virtual_memory_xinu_f.Frames.Valid.{IsValid}
use virtual_memory_xinu_f.Memory.{Memory, Pte, base20, load_pte}
use virtual_memory_xinu_f.Memory.Copy.{load_pte-store_pte}
use virtual_memory_xinu_f.Kernel.{Kernel, Proc, nproc, pr_frame}
use virtual_memory_xinu_f.FrameBlock.{frameblock}
use virtual_memory_xinu_f.FrameBlock.Fifo.{IsQueue, insert_fbqueue-IsQueue}
use virtual_memory_xinu_f.Paging.{getpte}
use virtual_memory_xinu_f.Paging.Fault.{evictframe, mapped_entry}
use virtual_memory_xinu_f.Paging.Handler.{handled, waits, fresh_page, add_reference, count_page}
use virtual_memory_xinu_f.Paging.Map.{Mapped, mapfreeframe-IsValid}
use virtual_memory_xinu_f.Paging.Evict.{evictframe-IsValid, moved}

hasfreeframe-nil : (r : Region) (s : FrameTable) → free_list s r ≡ [] → hasfreeframe r s ≡ false
unfolding hasfreeframe
hasfreeframe-nil r s e = ground (
  arith,
  ap length e,
  length-slots_from (s.stack r).frstack (s.stack r).frsp (region_size r - (s.stack r).frsp),
)

hasfreeframe-cons :
    (r : Region) (s : FrameTable) (f : ℕ) (rest : List ℕ)
    → free_list s r ≡ f ∷ rest
    → hasfreeframe r s ≡ true
unfolding hasfreeframe
hasfreeframe-cons r s f rest e = ground (
  arith,
  ap length e,
  length-slots_from (s.stack r).frstack (s.stack r).frsp (region_size r - (s.stack r).frsp),
)

-- The reference counts of page tables have no part in the frame table's well-formedness.
count_page-IsValid :
    (f : ℕ) (s : FrameTable) (xs : List ℕ) → IsValid s xs → IsValid (count_page f s) xs
count_page-IsValid f s xs v = record {
  bounded = v.bounded;
  free_distinct = v.free_distinct;
  free_frames = λ r a m. ground (arith, v.free_frames r a m);
  used = record {
    head_is = v.used.head_is;
    tail_is = v.used.tail_is;
    linked =
        Seg-frame s.invpt (count_page f s).invpt none xs none (λ a m. ground arith) v.used.linked;
    distinct = v.used.distinct;
  };
  used_frames = λ a m. ground (arith, v.used_frames a m);
  used_listed = λ a at_e1 u. v.used_listed a at_e1 (ground arith);
  indexed = λ r a at_r. ground (arith, v.indexed r a at_r);
}

add_reference-IsValid :
    (k : Kernel) (xs : List ℕ) → IsValid k.frames xs → IsValid (add_reference k).frames xs
unfolding add_reference
add_reference-IsValid k xs v = count_page-IsValid _ k.frames xs v

mem-add_reference : (k : Kernel) → (add_reference k).mem ≡ k.mem
unfolding add_reference
mem-add_reference k = refl

-- The running process of `k` waits for a frame, behind the processes `ps`.
pub record Blocked (k k' : Kernel) (ps : List ℕ) : Type 0 where
  pub queue : IsQueue k'.blocked (ps ++ k.currpid ∷ [])
  pub state : (k'.proctab k.currpid).prstate ≡ pr_frame
  pub others : (a : ℕ) → k.currpid ≢ a → k'.proctab a ≡ k.proctab a
  pub frames : k'.frames ≡ k.frames
  pub memory : k'.mem ≡ k.mem

frameblock-Blocked :
    (k : Kernel) (ps : List ℕ)
    → IsQueue k.blocked ps
    → length ps < nproc
    → Blocked k (frameblock k) ps
unfolding frameblock
frameblock-Blocked k ps q few = record {
  queue = insert_fbqueue-IsQueue k.blocked ps k.currpid q few;
  state = ap (λ (p : Proc). p.prstate) (update_self k.proctab k.currpid _);
  others = λ a ne. update-ne k.proctab k.currpid a _ ne;
  frames = refl;
  memory = refl;
}

-- When neither E1 nor E2 has a free frame, and the processes `ps`, fewer than NPROC, wait for frames, a
-- fault on a page that is not swapped out blocks the running process: it stands at the end of the queue
-- of those that wait, behind `ps` in their order, and its state is PR_FRAME; the other processes, the
-- frame table and the memory stay as they are.
pub fresh_page-waits :
    (k : Kernel) (ps : List ℕ)
    → free_list k.frames e1 ≡ []
    → free_list k.frames e2 ≡ []
    → IsQueue k.blocked ps
    → length ps < nproc
    → (k' : Kernel) × (fresh_page k ≡ waits k') × Blocked k k' ps
unfolding fresh_page
fresh_page-waits k ps no1 no2 q few = (
  frameblock k,
  rw (hasfreeframe-nil e1 k.frames no1, hasfreeframe-nil e2 k.frames no2),
  frameblock-Blocked k ps q few,
)

-- The page of the fault is in the frame `f`.
pub record InFrame (k : Kernel) (f : ℕ) (xs : List ℕ) (k' : Kernel) : Type 0 where
  pub valid : IsValid k'.frames xs
  pub entry :
      let e = load_pte (getpte k.pgfaddr k) k'.mem in
      (e.pt_pres ≡ true) × (e.pt_write ≡ true) × (e.pt_swap ≡ false) × (e.pt_base ≡ base20 f)

Mapped-InFrame :
    (k : Kernel) (xs : List ℕ) (f : ℕ) (k1 : Kernel)
    → Mapped k xs f k1
    → InFrame k f (xs ++ f ∷ []) (add_reference k1)
Mapped-InFrame k xs f k1 m =
    let p = getpte k.pgfaddr k in
    let e : load_pte p (add_reference k1).mem ≡ mapped_entry f (load_pte p k.mem) =
      ap (load_pte p) (mem-add_reference k1 ∙ m.memory)
      ∙ load_pte-store_pte p (mapped_entry f (load_pte p k.mem)) k.mem in
    record {
      valid = add_reference-IsValid k1 (xs ++ f ∷ []) m.valid;
      entry = (
        ap (λ (t : Pte). t.pt_pres) e,
        ap (λ (t : Pte). t.pt_write) e,
        ap (λ (t : Pte). t.pt_swap) e,
        ap (λ (t : Pte). t.pt_base) e,
      );
    }

-- On a well-formed frame table whose first free frame of E1 is `f`, a fault on a page that is not
-- swapped out is handled: the entry of the page is present, writable, not swapped and names `f`,
-- `f` is the last in the eviction list, the frame table stays well-formed, and no byte of memory
-- changes.
pub fresh_page-maps :
    (k : Kernel) (xs : List ℕ) (f : ℕ) (rest : List ℕ)
    → IsValid k.frames xs
    → free_list k.frames e1 ≡ f ∷ rest
    → (k' : Kernel) × (fresh_page k ≡ handled k')
      × InFrame k f (xs ++ f ∷ []) k'
      × (k'.mem.bytes ≡ k.mem.bytes)
unfolding fresh_page
fresh_page-maps k xs f rest v first = elim (mapfreeframe-IsValid k xs v) [
  | inl (e, empty) ↦ absurd (cc first)
  | inr (g, k1, e, m) ↦
      let same : g ≡ f =
        sym (cons-injective f g rest (free_list k1.frames e1) (sym first ∙ m.was_first)).0 in
      (
        add_reference k1,
        rw (hasfreeframe-cons e1 k.frames f rest first, e),
        subst (λ n. InFrame k n (xs ++ n ∷ []) (add_reference k1)) same
            (Mapped-InFrame k xs g k1 m),
        ap (λ (n : Memory). n.bytes) (mem-add_reference k1 ∙ m.memory),
      )
]

InFrame-same :
    (k k1 : Kernel) (f : ℕ) (xs : List ℕ) (k' : Kernel)
    → getpte k1.pgfaddr k1 ≡ getpte k.pgfaddr k
    → InFrame k1 f xs k'
    → InFrame k f xs k'
InFrame-same k k1 f xs k' e i = record { valid = i.valid; entry = rw (← e) i.entry }

-- On a well-formed frame table with no free frame in E1, whose first frame in the eviction list is
-- `x` and whose first free frame of E2 is `f`, with a number below 3072, a fault on a page that is
-- not swapped out is handled: the entry of the page is present, writable, not swapped and names
-- `x`, `x` is the last in the eviction list, the frame table stays well-formed, and `f` holds each
-- of the bytes that `x` held (`j` is any offset).
pub fresh_page-evicts :
    (k : Kernel) (x : ℕ) (xs : List ℕ) (f : ℕ) (rest : List ℕ) (j : ℕ)
    → IsValid k.frames (x ∷ xs)
    → free_list k.frames e1 ≡ []
    → free_list k.frames e2 ≡ f ∷ rest
    → f < 3072
    → j < nbpg
    → (k' : Kernel) × (fresh_page k ≡ handled k')
      × InFrame k x (xs ++ x ∷ []) k'
      × (k'.mem.bytes f j ≡ k.mem.bytes x j)
unfolding fresh_page
fresh_page-evicts k x xs f rest j v full first small h =
    let k1 = (evictframe k).1 in
    let ev = (evictframe-IsValid k x xs f rest v first small).1 in
    elim (mapfreeframe-IsValid k1 xs ev.valid) [
      | inl (e, empty) ↦ absurd (cc (ev.victim_free))
      | inr (g, k2, e, m) ↦
          let same : g ≡ x = sym (cons-injective x g _ _ (sym ev.victim_free ∙ m.was_first)).0 in
          let at_page = ev.pages k1.pgfaddr ∙ ap (λ a. getpte a k) ev.address in
          (
            add_reference k2,
            rw (hasfreeframe-nil e1 k.frames full, hasfreeframe-cons e2 k.frames f rest first, e),
            subst (λ n. InFrame k n (xs ++ n ∷ []) (add_reference k2)) same
                (InFrame-same k k1 g (xs ++ g ∷ []) (add_reference k2) at_page
                  (Mapped-InFrame k1 xs g k2 m)),
            ap (λ (n : Memory). n.bytes f j) (mem-add_reference k2 ∙ m.memory)
                ∙ moved k x xs f k1 ev j h,
          )
    ]
