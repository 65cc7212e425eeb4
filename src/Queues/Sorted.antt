-- ===== src/Queues/Sorted.antt =====
-- `insert` keeps a queue in descending order of the keys.
use virtual_memory_xinu_f.Base.{
  ℕ, zero, suc, ◌+◌, ◌≤◌, ◌<◌, ◌≡◌, refl, subst, Bool, true, false, some, ◌&&◌, List, [], ◌∷◌, ◌++◌,
  inl, inr, arith, if◌then◌else◌, Bool-cases,
}
use virtual_memory_xinu_f.Base.Int.{ℤ, leb_ℤ, ltb_ℤ}
use virtual_memory_xinu_f.Base.Distinct.{mem, Distinct, length, pigeonhole, mem-append}
use virtual_memory_xinu_f.Kernel.{nproc}
use virtual_memory_xinu_f.Queues.{Qentry}
use virtual_memory_xinu_f.Queues.Chain.{
  Chain, IsQueue, all_processes, last_of, head_of, qnext-Chain, not_process, process_small,
}
use virtual_memory_xinu_f.Queues.Ordered.{find_place}
use virtual_memory_xinu_f.Queues.Placed.{placed, Chain-placed}

-- All keys are at least, or are below, `key`.
abbrev pub all_from : (ℕ → ℤ) → ℤ → List ℕ → Bool
all_from k key [] = true
all_from k key (x ∷ xs) = leb_ℤ key (k x) && all_from k key xs

abbrev pub all_below : (ℕ → ℤ) → ℤ → List ℕ → Bool
all_below k key [] = true
all_below k key (x ∷ xs) = ltb_ℤ (k x) key && all_below k key xs

-- No key is above `key`.
abbrev pub all_upto : (ℕ → ℤ) → ℤ → List ℕ → Bool
all_upto k key [] = true
all_upto k key (x ∷ xs) = leb_ℤ (k x) key && all_upto k key xs

abbrev pub Descending : (ℕ → ℤ) → List ℕ → Type 0
Descending k [] = Unit {0}
Descending k (x ∷ xs) = (all_upto k (k x) xs ≡ true) × Descending k xs

abbrev pub keys : (ℕ → Qentry) → ℕ → ℤ
keys t a = (t a).qkey

-- The two parts between which an entry goes.
abbrev pub front : (ℕ → ℤ) → ℤ → List ℕ → List ℕ
front k key [] = []
front k key (x ∷ xs) = if leb_ℤ key (k x) then x ∷ front k key xs else []

abbrev pub back : (ℕ → ℤ) → ℤ → List ℕ → List ℕ
back k key [] = []
back k key (x ∷ xs) = if leb_ℤ key (k x) then back k key xs else x ∷ xs

module _ (k : ℕ → ℤ) (key : ℤ) where
  pub front-append-back : (xs : List ℕ) → front k key xs ++ back k key xs ≡ xs
  front-append-back [] = refl
  front-append-back (x ∷ xs) = ground (arith, front-append-back xs)

  pub all_from-front : (xs : List ℕ) → all_from k key (front k key xs) ≡ true
  all_from-front [] = refl
  all_from-front (x ∷ xs) = ground (arith, all_from-front xs)

  all_below_upto :
      (b : ℤ) (xs : List ℕ)
      → all_upto k b xs ≡ true
      → ltb_ℤ b key ≡ true
      → all_below k key xs ≡ true
  all_below_upto b [] h lt = refl
  all_below_upto b (x ∷ xs) h lt = ground (arith, all_below_upto b xs)

  pub all_below-back : (xs : List ℕ) → Descending k xs → all_below k key (back k key xs) ≡ true
  all_below-back [] d = refl
  all_below-back (x ∷ xs) d = ground (arith, all_below-back xs d.1, all_below_upto (k x) xs d.0)

pub find_place_lem :
    (t : ℕ → Qentry) (key : ℤ) (fuel p : ℕ) (xs : List ℕ) (n : ℕ)
    → leb_ℤ key (t n).qkey ≡ false
    → length xs < fuel
    → Chain t p xs n
    → find_place fuel key (some (head_of xs n)) t ≡ some (head_of (back (keys t) key xs) n)
unfolding find_place
find_place_lem t key zero p xs n low enough c = absurd (omega arith)
find_place_lem t key (suc fuel) p [] n low enough c = rw low
find_place_lem t key (suc fuel) p (x ∷ xs) n low enough c =
    elim (Bool-cases (leb_ℤ key (t x).qkey)) [
      | inl goes ↦
          rw (goes, qnext-Chain t x xs n c.2)
            (find_place_lem t key fuel x xs n low (omega arith) c.2)
      | inr stops ↦ rw stops
    ]

pub length-processes-le : (xs : List ℕ) → Distinct xs → all_processes xs ≡ true → length xs ≤ nproc
length-processes-le xs d small =
    pigeonhole nproc 0 xs d λ a m. omega (arith, process_small a xs m small)

all_processes-mid :
    (ys zs : List ℕ) (a : ℕ)
    → all_processes (ys ++ zs) ≡ true
    → a < nproc
    → all_processes (ys ++ a ∷ zs) ≡ true
all_processes-mid [] zs a small h = ground arith
all_processes-mid (y ∷ ys) zs a small h = ground (arith, all_processes-mid ys zs a)

Distinct-mid :
    (ys zs : List ℕ) (a : ℕ)
    → Distinct (ys ++ zs)
    → mem a (ys ++ zs) ≡ false
    → Distinct (ys ++ a ∷ zs)
Distinct-mid [] zs a d new = (new, d)
Distinct-mid (y ∷ ys) zs a d new =
    ground (arith, Distinct-mid ys zs a d.1, mem-append y ys zs, mem-append y ys (a ∷ zs))

module _ (t : ℕ → Qentry) (q pid : ℕ) (key : ℤ) (xs : List ℕ) (v : IsQueue t q xs)
    (is_process : pid < nproc) (new : mem pid xs ≡ false) where
  pub placed-IsQueue :
      (ys zs : List ℕ)
      → xs ≡ ys ++ zs
      → IsQueue (placed pid key (last_of q ys) (head_of zs (q + 1)) t) q (ys ++ pid ∷ zs)
  placed-IsQueue ys zs e =
      let w : IsQueue t q (ys ++ zs) = subst (IsQueue t q) e v in
      let new' : mem pid (ys ++ zs) ≡ false = subst (λ l. mem pid l ≡ false) e new in
      record {
        in_table = v.in_table;
        behind = v.behind;
        processes = all_processes-mid ys zs pid w.processes is_process;
        distinct = Distinct-mid ys zs pid w.distinct new';
        chain =
            Chain-placed t pid key q ys zs (q + 1) (not_process q (ys ++ zs) v.behind w.processes)
              w.distinct (not_process (q + 1) (ys ++ zs) (omega (arith, v.behind)) w.processes)
              (omega arith) (omega (arith, v.behind)) (omega (arith, v.behind)) new' w.chain;
      }
