-- ===== src/Tests/Sample.antt =====
-- A small frame table and a kernel over it: the E1 frame 2024 and the E2 frame 3049 are in use, for
-- the entries 7 and 8 of the page table in frame 1030.
use virtual_memory_xinu_f.Base.{
  ℕ, ◌+◌, ◌≤◌, ◌<◌, ◌≡◌, ◌≢◌, refl, true, false, Bool, none, some, arith, ◌==◌, if◌then◌else◌, List,
  [], ◌∷◌,
}
use virtual_memory_xinu_f.Base.Int.{pos}
use virtual_memory_xinu_f.Base.Distinct.{mem, Distinct}
use virtual_memory_xinu_f.Frames.{
  Region, d, e1, e2, fr_free, fr_used, Frame, FrameTable, FreeStack, PteAddr, fidxtoregion,
  region_size,
}
use virtual_memory_xinu_f.Frames.Stacks.{free_list}
use virtual_memory_xinu_f.Frames.Valid.{IsValid}
use virtual_memory_xinu_f.Memory.{Pte, zero_pde, zero_pte}
use virtual_memory_xinu_f.Kernel.{Kernel, Proc, pr_curr, syserr32}

abbrev pub entry_at : ℕ → PteAddr
entry_at i = record { table = 1030; slot = i }

abbrev sample_frame : ℕ → Frame
sample_frame a = record {
  fr_pid = 5;
  fr_idx = a;
  fr_state = if a == 2024 then fr_used else if a == 3049 then fr_used else fr_free;
  fr_refcnt = pos 0;
  fr_pte = if a == 2024 then some (entry_at 7) else if a == 3049 then some (entry_at 8) else none;
  fr_next = none;
  fr_prev = none;
}

-- Whether E1 and E2 have a free frame.
abbrev e1_sp : Bool → ℕ
e1_sp true = 1023
e1_sp false = 1024

abbrev e2_sp : Bool → ℕ
e2_sp true = 1047
e2_sp false = 1048

-- The free lists: the frame 1024 in D, the frame 2025 in E1 if `b1`, the frame `n` in E2 if `b2`.
abbrev sample_stack : Bool → Bool → ℕ → Region → FreeStack
sample_stack b1 b2 n d = record { frstack = λ i. 1024; frsp = 999 }
sample_stack b1 b2 n e1 = record { frstack = λ i. 2025; frsp = e1_sp b1 }
sample_stack b1 b2 n e2 = record { frstack = λ i. n; frsp = e2_sp b2 }

abbrev pub sample : Bool → Bool → ℕ → FrameTable
sample b1 b2 n = record {
  invpt = sample_frame;
  evicthead = some 2024;
  evicttail = some 2024;
  stack = sample_stack b1 b2 n;
}

abbrev pub listed : List ℕ
listed = 2024 ∷ []

sample_used :
    (a : ℕ) → fidxtoregion a ≡ some e1 → (sample_frame a).fr_state ≡ fr_used → mem a listed ≡ true
unfolding fidxtoregion
sample_used a at_e1 u = ground arith

sample_listed :
    (a : ℕ)
    → mem a listed ≡ true
    → (fidxtoregion a ≡ some e1) × ((sample_frame a).fr_state ≡ fr_used)
unfolding fidxtoregion
sample_listed a m = ground arith

abbrev e1_free : Bool → List ℕ
e1_free true = 2025 ∷ []
e1_free false = []

abbrev e2_free : Bool → ℕ → List ℕ
e2_free true n = n ∷ []
e2_free false n = []

abbrev lists : Bool → Bool → ℕ → Region → List ℕ
lists b1 b2 n d = 1024 ∷ []
lists b1 b2 n e1 = e1_free b1
lists b1 b2 n e2 = e2_free b2 n

lists_lem : (b1 b2 : Bool) (n : ℕ) (r : Region) → free_list (sample b1 b2 n) r ≡ lists b1 b2 n r
lists_lem b1 b2 n d = refl
lists_lem true b2 n e1 = refl
lists_lem false b2 n e1 = refl
lists_lem b1 true n e2 = refl
lists_lem b1 false n e2 = refl

sample_bounded :
    (b1 b2 : Bool) (n : ℕ) (r : Region) → ((sample b1 b2 n).stack r).frsp ≤ region_size r
sample_bounded b1 b2 n d = omega arith
sample_bounded true b2 n e1 = omega arith
sample_bounded false b2 n e1 = omega arith
sample_bounded b1 true n e2 = omega arith
sample_bounded b1 false n e2 = omega arith

sample-Distinct : (b1 b2 : Bool) (n : ℕ) (r : Region) → Distinct (lists b1 b2 n r)
sample-Distinct b1 b2 n d = (refl, tt)
sample-Distinct true b2 n e1 = (refl, tt)
sample-Distinct false b2 n e1 = tt
sample-Distinct b1 true n e2 = (refl, tt)
sample-Distinct b1 false n e2 = tt

module _ (n : ℕ) (lo : 3048 ≤ n) (hi : n < 4096) (other : n ≢ 3049) where
  in_lists :
      (b1 b2 : Bool) (r : Region) (a : ℕ)
      → mem a (lists b1 b2 n r) ≡ true
      → (fidxtoregion a ≡ some r) × ((sample_frame a).fr_state ≡ fr_free)
  unfolding fidxtoregion
  in_lists b1 b2 d a m = ground arith
  in_lists true b2 e1 a m = ground arith
  in_lists false b2 e1 a m = absurd (cc)
  in_lists b1 true e2 a m = ground arith
  in_lists b1 false e2 a m = absurd (cc)

  pub sample-IsValid : (b1 b2 : Bool) → IsValid (sample b1 b2 n) listed
  sample-IsValid b1 b2 = record {
    bounded = sample_bounded b1 b2 n;
    free_distinct = λ r. rw (lists_lem b1 b2 n r) (sample-Distinct b1 b2 n r);
    free_frames = λ r a m. in_lists b1 b2 r a (rw (lists_lem b1 b2 n r) at m);
    used = record {
      head_is = refl;
      tail_is = refl;
      linked = (refl, refl, tt);
      distinct = (refl, tt);
    };
    used_frames = sample_listed;
    used_listed = sample_used;
    indexed = λ r a at_r. refl;
  }

-- A kernel over such a frame table: the process 5 runs and faults at an address of the page in
-- frame 3049.
abbrev sample_pte : ℕ → Pte
sample_pte i =
    if i == 7
    then record zero_pte { pt_pres = true; pt_write = true; pt_base = 2024 }
    else if i == 8
    then record zero_pte { pt_write = true; pt_swap = true; pt_base = 3049 }
    else zero_pte

abbrev pub idle : Proc
idle = record {
  prstate = pr_curr;
  prprio = pos 20;
  prstkbase = 0;
  prstklen = 0;
  prsem = 0;
  prparent = 0;
  prmsg = 0;
  prhasmsg = false;
  prpd = 1029;
  prmeminit = true;
  prmemblk = record { mnext = none; mlength = 0 };
  pralloc = λ i. true;
  heap = λ i. record { mnext = none; mlength = 0 };
}

abbrev pub sample_kernel : Bool → Bool → ℕ → Kernel
sample_kernel b1 b2 a = record {
  frames = sample b1 b2 3048;
  mem = record {
    pdes = λ f i. record zero_pde { pd_pres = true; pd_base = 1030 };
    ptes = λ f i. sample_pte i;
    bytes = λ f i. f + i;
  };
  identity_pt = λ i. i;
  proctab = λ i. idle;
  currpid = 5;
  pgfaddr = a;
  pgf_pres = false;
  blocked = record { fbqueue = λ i. 0; fbqhead = syserr32; fbqtail = 0 };
}

pub kernel-IsValid : (b1 b2 : Bool) → IsValid (sample b1 b2 3048) listed
kernel-IsValid b1 b2 = sample-IsValid 3048 (omega arith) (omega arith) (omega arith) b1 b2
