-- ===== src/Frames.antt =====
-- xinu-fall2022-paging/system/framemgmt.c: the inverted page table, the stacks of free frames of
-- the regions D, E1 and E2, and the FIFO list of used E1 frames; constants and `frame_t` from
-- include/paging.h. A frame number is the bit pattern of an `int16`. The table is keyed by frame
-- number: `invpt[INIDX(f)]` is `invpt f`, so a `frame_t *` is a frame number and NULL is `none`.
-- Frame numbers outside 1024..4095 name memory outside the array, of which nothing is said.
pub mod Seg
pub mod UsedList
pub mod Stacks
pub mod Valid
pub mod Limit
use virtual_memory_xinu_f.Base.{
  ℕ, ◌+◌, ◌-◌, Bool, true, false, ◌&&◌, ◌||◌, Option, none, some, leb, ltb, ◌==◌, if◌then◌else◌,
  Status, ok, syserr, update, for_range, not, ◌^◌,
}
use virtual_memory_xinu_f.Base.Int.{ℤ, pos}

-- NBPG, FRAME0, NFRAMES, NENTRIES.
abbrev pub nbpg : ℕ
nbpg = 4096

abbrev pub first_frame : ℕ
first_frame = 1024

abbrev pub nframes : ℕ
nframes = 3072

abbrev pub nentries : ℕ
nentries = 1024

-- REGION_D, REGION_E1, REGION_E2.
pub data Region : Type 0 where
  d e1 e2 : Region

-- NFRAMES_D, NFRAMES_E1, NFRAMES_E2.
abbrev pub region_size : Region → ℕ
region_size d = 1000
region_size e1 = 1024
region_size e2 = 1048

-- FRAME0_D, FRAME0_E1, FRAME0_E2; FRAME0_F is the first frame behind them.
abbrev pub frame0 : Region → ℕ
frame0 d = 1024
frame0 e1 = 2024
frame0 e2 = 3048

abbrev pub frame0_f : ℕ
frame0_f = 4096

abbrev pub same_region : Region → Region → Bool
same_region d d = true
same_region e1 e1 = true
same_region e2 e2 = true
same_region _ _ = false

-- `pt_t *`: the page table's frame and the entry's place in it.
pub record PteAddr : Type 0 where
  pub table : ℕ
  pub slot : ℕ

-- FR_FREE, FR_USED.
pub data FrState : Type 0 where
  fr_free fr_used : FrState

abbrev pub is_free : FrState → Bool
is_free fr_free = true
is_free fr_used = false

-- `struct invptent`. FR_PTEUNUSED is the `none` of `fr_pte`.
pub record Frame : Type 0 where
  pub fr_pid : ℕ
  pub fr_idx : ℕ
  pub fr_state : FrState
  pub fr_refcnt : ℤ
  pub fr_pte : Option PteAddr
  pub fr_next : Option ℕ
  pub fr_prev : Option ℕ

-- `frstackD[]` and `frspD`, and those of the other regions.
pub record FreeStack : Type 0 where
  pub frstack : ℕ → ℕ
  pub frsp : ℕ

-- The global variables of framemgmt.c.
pub record FrameTable : Type 0 where
  pub invpt : ℕ → Frame
  pub evicthead : Option ℕ
  pub evicttail : Option ℕ
  pub stack : Region → FreeStack

abbrev pub set_stack : (Region → FreeStack) → Region → FreeStack → Region → FreeStack
set_stack t r v q = if same_region r q then v else t q

-- `p->fr_next = q` and `p->fr_prev = q`, under the test `p != NULL`.
unfoldable pub link_next : Option ℕ → Option ℕ → (ℕ → Frame) → ℕ → Frame
link_next none q t = t
link_next (some p) q t = update t p (record (t p) { fr_next = q })

unfoldable pub link_prev : Option ℕ → Option ℕ → (ℕ → Frame) → ℕ → Frame
link_prev none q t = t
link_prev (some p) q t = update t p (record (t p) { fr_prev = q })

abbrev pub points_to : Option ℕ → ℕ → Bool
points_to none f = false
points_to (some p) f = p == f

abbrev pub is_null : Option ℕ → Bool
is_null none = true
is_null (some _) = false

-- `__remove_from_used_ll`; the fields of `frptr` are read anew after each write, as in the code.
unfoldable pub remove_from_used_ll : ℕ → FrameTable → FrameTable
unfolding link_next link_prev
remove_from_used_ll f s =
    let t1 = link_next (s.invpt f).fr_prev (s.invpt f).fr_next s.invpt in
    let t2 = link_prev (t1 f).fr_next (t1 f).fr_prev t1 in
    record s {
      evicthead = if points_to s.evicthead f then (t2 f).fr_next else s.evicthead;
      evicttail = if points_to s.evicttail f then (t2 f).fr_prev else s.evicttail;
      invpt = update t2 f (record (t2 f) { fr_next = none; fr_prev = none });
    }

-- `__insert_to_used_ll`.
unfoldable pub insert_to_used_ll : ℕ → FrameTable → FrameTable
unfolding link_next
insert_to_used_ll f s =
    let t1 = update s.invpt f (record (s.invpt f) { fr_prev = s.evicttail; fr_next = none }) in
    record s {
      invpt = link_next s.evicttail (some f) t1;
      evicttail = some f;
      evicthead = if is_null s.evicthead then some f else s.evicthead;
    }

-- SYSERR is `none`. On bit patterns from 2^15 on, the negative numbers, every test fails.
unfoldable pub fidxtoregion : ℕ → Option Region
fidxtoregion f =
    if leb (frame0 d) f && ltb f (frame0 e1)
    then some d
    else if leb (frame0 e1) f && ltb f (frame0 e2)
    then some e1
    else if leb (frame0 e2) f && ltb f frame0_f
    then some e2
    else none

-- `init_invpt`. It sets neither `fr_pid` nor `fr_pte`, nor the ends of the eviction list.
abbrev fresh_entry : ℕ → Frame → Frame
fresh_entry i fr = record fr {
  fr_idx = i + first_frame;
  fr_state = fr_free;
  fr_refcnt = pos 0;
  fr_next = none;
  fr_prev = none;
}

abbrev init_stack : Region → FreeStack → FreeStack
init_stack r st = record {
  frstack = for_range (region_size r) 0 (λ i a. update a i (i + frame0 r)) st.frstack;
  frsp = 0;
}

unfoldable pub init_invpt : FrameTable → FrameTable
init_invpt s = record s {
  invpt =
      for_range nframes 0 (λ i t. update t (i + first_frame) (fresh_entry i (t (i + first_frame))))
        s.invpt;
  stack = λ r. init_stack r (s.stack r);
}

-- `frspD < NFRAMES_D`, and so for the other regions.
unfoldable pub hasfreeframe : Region → FrameTable → Bool
hasfreeframe r s = ltb (s.stack r).frsp (region_size r)

unfoldable pub has_used_frame_e1 : FrameTable → Bool
has_used_frame_e1 s = not (is_null s.evicthead)

-- SYSERR is `none`.
unfoldable pub getfreeframe : Region → FrameTable → Option ℕ × FrameTable
getfreeframe r s =
    let st = s.stack r in
    if st.frsp == region_size r then (none, s) else (
      some (st.frstack st.frsp),
      record s { stack = set_stack s.stack r (record st { frsp = st.frsp + 1 }) },
    )

abbrev idx_of : (ℕ → Frame) → Option ℕ → Option ℕ
idx_of t none = none
idx_of t (some p) = some (t p).fr_idx

unfoldable pub get_used_frame_e1 : FrameTable → Option ℕ
get_used_frame_e1 s = idx_of s.invpt s.evicthead

-- The `fidx16` argument is negative.
abbrev neg16 : ℕ → Bool
neg16 f = leb (2 ^ 15) f

abbrev pub is_e1 : Option Region → Bool
is_e1 none = false
is_e1 (some r) = same_region r e1

unfoldable pub invtakeframe : ℕ → ℕ → Option PteAddr → FrameTable → Status × FrameTable
unfolding fidxtoregion insert_to_used_ll
invtakeframe f pid pte s =
    let fr = s.invpt f in
    if neg16 f || leb nframes f
    then (syserr, s)
    else if not (is_free fr.fr_state)
    then (syserr, s)
    else let taken = record fr { fr_state = fr_used; fr_pid = pid; fr_pte = pte } in
      let s' = record s { invpt = update s.invpt f taken } in
      (ok, if is_e1 (fidxtoregion f) then insert_to_used_ll f s' else s')

-- `frstack[--frsp] = f`.
abbrev push_frame : ℕ → FreeStack → FreeStack
push_frame f st = record { frstack = update st.frstack (st.frsp - 1) f; frsp = st.frsp - 1 }

abbrev set_free : ℕ → FrameTable → FrameTable
set_free f s = record s { invpt = update s.invpt f (record (s.invpt f) { fr_state = fr_free }) }

-- The `switch` of `invfreeframe` on the frame's region, and what follows it.
unfoldable pub give_back : Option Region → ℕ → FrameTable → Status × FrameTable
unfolding remove_from_used_ll
give_back none f s = (syserr, s)
give_back (some r) f s =
    if (s.stack r).frsp == 0
    then (syserr, s)
    else let s' = record s { stack = set_stack s.stack r (push_frame f (s.stack r)) } in
      (ok, set_free f (if same_region r e1 then remove_from_used_ll f s' else s'))

unfoldable pub invfreeframe : ℕ → FrameTable → Status × FrameTable
unfolding fidxtoregion give_back
invfreeframe f s = if is_free (s.invpt f).fr_state then (ok, s) else give_back (fidxtoregion f) f s
