-- ===== src/Tests/FrameTable.antt =====
-- The theorems on the frame table at concrete tables.
use virtual_memory_xinu_f.Base.{◌≡◌, refl, true, false, none, some, arith, ok, syserr}
use virtual_memory_xinu_f.Base.Distinct.{mem}
use virtual_memory_xinu_f.Frames.{
  Region, d, e1, e2, FrameTable, fidxtoregion, getfreeframe, invtakeframe, invfreeframe,
}
use virtual_memory_xinu_f.Frames.Stacks.{free_list}
use virtual_memory_xinu_f.Frames.Valid.{IsValid, Held}
use virtual_memory_xinu_f.Frames.Valid.Take.{Took, invtakeframe-IsValid}
use virtual_memory_xinu_f.Frames.Valid.Free.{Freed, invfreeframe-IsValid}
use virtual_memory_xinu_f.Frames.Valid.Order.{getfreeframe-invfreeframe}
use virtual_memory_xinu_f.Frames.Limit.{e2_frame_lost}
use virtual_memory_xinu_f.Tests.Sample.{sample, listed, sample-IsValid, kernel-IsValid}

-- E1 and E2 have a free frame each, 2025 and 3048.
abbrev table : FrameTable
table = sample true true 3048

-- With E2 full the free frame 3048 is held.
abbrev held_table : FrameTable
held_table = sample true false 3048

3048-held : (r : Region) → mem 3048 (free_list held_table r) ≡ false
3048-held d = refl
3048-held e1 = refl
3048-held e2 = refl

3048-e2 : fidxtoregion 3048 ≡ some e2
unfolding fidxtoregion
3048-e2 = refl

2024-e1 : fidxtoregion 2024 ≡ some e1
unfolding fidxtoregion
2024-e1 = refl

invtakeframe-IsValid_example :
    ((invtakeframe 3048 5 none held_table).0 ≡ ok)
    × Took held_table listed 3048 5 none e2 (invtakeframe 3048 5 none held_table).1
invtakeframe-IsValid_example =
    invtakeframe-IsValid held_table listed 3048 5 none e2 (kernel-IsValid true false) 3048-e2 refl
      3048-held (omega arith)

invfreeframe-IsValid_example :
    ((invfreeframe 2024 table).0 ≡ ok) × Freed table listed 2024 e1 (invfreeframe 2024 table).1
invfreeframe-IsValid_example =
    invfreeframe-IsValid table listed 2024 e1 (kernel-IsValid true true) 2024-e1 refl

getfreeframe-invfreeframe_example :
    ((getfreeframe e1 (invfreeframe 2024 table).1).0 ≡ some 2024)
    × (free_list (getfreeframe e1 (invfreeframe 2024 table).1).1 e1 ≡ free_list table e1)
getfreeframe-invfreeframe_example =
    getfreeframe-invfreeframe table listed 2024 e1 (kernel-IsValid true true) 2024-e1 refl

-- The frame 3072 of E2 is free, and the only one on its stack.
abbrev lost_table : FrameTable
lost_table = sample true true 3072

lost_table-IsValid : IsValid lost_table listed
lost_table-IsValid = sample-IsValid 3072 (omega arith) (omega arith) (omega arith) true true

abbrev after_get : FrameTable
unfolding getfreeframe
after_get = (getfreeframe e2 lost_table).1

gives_3072 : getfreeframe e2 lost_table ≡ (some 3072, after_get)
unfolding getfreeframe
gives_3072 = refl

e2_frame_lost_example :
    ((invtakeframe 3072 5 none after_get).0 ≡ syserr)
    × (invfreeframe 3072 (invtakeframe 3072 5 none after_get).1 ≡ (ok, after_get))
    × Held after_get 3072
e2_frame_lost_example =
    e2_frame_lost lost_table after_get listed 3072 5 none lost_table-IsValid gives_3072
      (omega arith)
