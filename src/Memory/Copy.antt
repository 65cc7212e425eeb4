-- ===== src/Memory/Copy.antt =====
-- What the copy loops do.
use virtual_memory_xinu_f.Base.{
  Bool, false, ℕ, zero, suc, ◌+◌, ◌<◌, ◌≡◌, ◌≢◌, refl, ◌∙◌, ◌&&◌, ltb, leb, ◌==◌, if◌then◌else◌,
  update, for_range, arith,
}
use virtual_memory_xinu_f.Base.Loops.{for_range-set}
use virtual_memory_xinu_f.Frames.{nbpg, PteAddr}
use virtual_memory_xinu_f.Memory.{
  Memory, Pte, load_pte, store_pte, copy_page, read_page, write_page,
}

copy_loop :
    (src dest n i : ℕ) (b : ℕ → ℕ → ℕ) (p j : ℕ)
    → src ≢ dest
    → for_range n i (λ i b. update b dest (update (b dest) i (b src i))) b p j
      ≡ (if (dest == p) && (leb i j && ltb j (i + n)) then b src j else b p j)
unfolding for_range
copy_loop src dest zero i b p j ne = ground arith
copy_loop src dest (suc n) i b p j ne =
    copy_loop src dest n (i + 1) (update b dest (update (b dest) i (b src i))) p j ne ∙ ground arith

write_loop :
    (temp : ℕ → ℕ) (dest n i : ℕ) (b : ℕ → ℕ → ℕ) (p j : ℕ)
    → for_range n i (λ i b. update b dest (update (b dest) i (temp i))) b p j
      ≡ (if (dest == p) && (leb i j && ltb j (i + n)) then temp j else b p j)
unfolding for_range
write_loop temp dest zero i b p j = ground arith
write_loop temp dest (suc n) i b p j =
    write_loop temp dest n (i + 1) (update b dest (update (b dest) i (temp i))) p j ∙ ground arith

-- A page copy writes the bytes of the source page to the target page and nothing else.
pub copy_page_lem :
    (src dest : ℕ) (m : Memory) (p j : ℕ)
    → src ≢ dest
    → (copy_page src dest m).bytes p j
      ≡ (if (dest == p) && ltb j nbpg then m.bytes src j else m.bytes p j)
unfolding copy_page
copy_page_lem src dest m p j ne = copy_loop src dest nbpg 0 m.bytes p j ne ∙ ground arith

pub read_page_lem : (src : ℕ) (m : Memory) (j : ℕ) → j < nbpg → read_page src m j ≡ m.bytes src j
unfolding read_page
read_page_lem src m j h = for_range-set (λ i. m.bytes src i) nbpg 0 (λ i. 0) j ∙ ground arith

pub write_page_lem :
    (temp : ℕ → ℕ) (dest : ℕ) (m : Memory) (p j : ℕ)
    → (write_page temp dest m).bytes p j
      ≡ (if (dest == p) && ltb j nbpg then temp j else m.bytes p j)
unfolding write_page
write_page_lem temp dest m p j = write_loop temp dest nbpg 0 m.bytes p j ∙ ground arith

-- A page table entry that was just stored is read back, and page copies leave entries alone.
pub load_pte-store_pte : (p : PteAddr) (v : Pte) (m : Memory) → load_pte p (store_pte p v m) ≡ v
load_pte-store_pte p v m = ground arith

abbrev pub same_pte : PteAddr → PteAddr → Bool
same_pte p q = p.table == q.table && p.slot == q.slot

pub load_pte-store_pte_ne :
    (p q : PteAddr) (v : Pte) (m : Memory)
    → same_pte p q ≡ false
    → load_pte q (store_pte p v m) ≡ load_pte q m
load_pte-store_pte_ne p q v m ne = ground arith

pub load_pte-write_page :
    (p : PteAddr) (temp : ℕ → ℕ) (dest : ℕ) (m : Memory)
    → load_pte p (write_page temp dest m) ≡ load_pte p m
unfolding write_page
load_pte-write_page p temp dest m = refl

pub load_pte-copy_page :
    (p : PteAddr) (src dest : ℕ) (m : Memory) → load_pte p (copy_page src dest m) ≡ load_pte p m
unfolding copy_page
load_pte-copy_page p src dest m = refl
