-- ===== src/Semaphores/Create.antt =====
-- `semcreate` finds a free entry whenever there is one.
use virtual_memory_xinu_f.Base.{
  ℕ, zero, suc, ◌+◌, ◌-◌, ◌%◌, ◌<◌, ◌≡◌, ◌≢◌, refl, ap, ◌∙◌, true, false, some, leb, ◌==◌, arith,
  if◌then◌else◌, inl, inr, Bool-cases,
}
use virtual_memory_xinu_f.Base.Int.{ℤ, is_neg}
use virtual_memory_xinu_f.System.{System, SemState, s_free, s_used, nsem}
use virtual_memory_xinu_f.Semaphores.{is_free_sem, newsem, with_count, semcreate, set_count}

-- The semaphore `sem` was free and is now in use; no other entry changed.
pub record Obtained (y y' : System) (sem : ℕ) : Type 0 where
  pub in_table : sem < nsem
  pub was_free : (y.semtab sem).sstate ≡ s_free
  pub now_used : (y'.semtab sem).sstate ≡ s_used
  pub others : (a : ℕ) → sem ≢ a → y'.semtab a ≡ y.semtab a

-- The entry that is `d` places ahead of the place `i` in the circular table.
abbrev ahead : ℕ → ℕ → ℕ
ahead i d = (i + d) % nsem

eq_self : (a : ℕ) → (a == a) ≡ true
eq_self a = ground arith

ne_test : (a b : ℕ) → a ≢ b → (a == b) ≡ false
ne_test a b ne = ground arith

free_state : (s : SemState) → is_free_sem s ≡ true → s ≡ s_free
free_state s_free e = refl
free_state s_used e = absurd (cc)

newsem-Obtained :
    (n d : ℕ) (y : System)
    → d < n
    → y.nextsem < nsem
    → is_free_sem (y.semtab (ahead y.nextsem d)).sstate ≡ true
    → (sem : ℕ) × ((newsem n y).0 ≡ some sem) × Obtained y (newsem n y).1 sem
unfolding newsem
newsem-Obtained zero d y enough small free = absurd (omega arith)
newsem-Obtained (suc n) d y enough small free =
    elim (Bool-cases (is_free_sem (y.semtab y.nextsem).sstate)) [
      | inl here ↦
          let sem = y.nextsem in
          rw here (
            sem,
            refl,
            record {
              in_table = small;
              was_free = free_state (y.semtab sem).sstate here;
              now_used = let same = eq_self sem in rw same refl;
              others = λ a ne. let other = ne_test sem a ne in rw other refl;
            },
          )
      | inr taken ↦ rw taken (go (λ i. newsem-Obtained n i) d enough free taken)
    ]
  where
    y' : System
    y' = record y { nextsem = if leb nsem (y.nextsem + 1) then 0 else y.nextsem + 1 }

    go :
        ((i : ℕ)
          → (z : System) → i < n
          → z.nextsem < nsem
          → is_free_sem (z.semtab (ahead z.nextsem i)).sstate ≡ true
          → (sem : ℕ) × ((newsem n z).0 ≡ some sem) × Obtained z (newsem n z).1 sem)
        → (d : ℕ) → d < suc n
        → is_free_sem (y.semtab (ahead y.nextsem d)).sstate ≡ true
        → is_free_sem (y.semtab y.nextsem).sstate ≡ false
        → (sem : ℕ) × ((newsem n y').0 ≡ some sem) × Obtained y (newsem n y').1 sem
    go ih zero enough free taken =
        let here : ahead y.nextsem 0 ≡ y.nextsem = omega (arith, small) in
        absurd (cc (free, taken, ap (λ i. is_free_sem (y.semtab i).sstate) here))
    go ih (suc d) enough free taken =
        let further : ahead y'.nextsem d ≡ ahead y.nextsem (suc d) = ground (arith, small) in
        let small' : y'.nextsem < nsem = ground (arith, small) in
        let r =
          ih d y' (omega (arith, enough)) small'
            (ap (λ i. is_free_sem (y.semtab i).sstate) further ∙ free) in
        (
          r.0,
          r.1,
          record {
            in_table = r.2.in_table;
            was_free = r.2.was_free;
            now_used = r.2.now_used;
            others = r.2.others;
          },
        )

-- `semcreate` with a count that is not negative, when the entry `free` of the table is free and the next
-- place to try is one of the table, returns a semaphore that was free, is in use, and has the count; no
-- other entry changes.
pub semcreate-Obtained :
    (count : ℤ) (free : ℕ) (y : System)
    → is_neg count ≡ false
    → y.nextsem < nsem
    → free < nsem
    → is_free_sem (y.semtab free).sstate ≡ true
    → (sem : ℕ) × ((semcreate count y).0 ≡ some sem)
      × Obtained y (semcreate count y).1 sem
      × (((semcreate count y).1.semtab sem).scount ≡ count)
unfolding semcreate
semcreate-Obtained count free y positive next small is =
    let d = (free + nsem - y.nextsem) % nsem in
    let reaches : ahead y.nextsem d ≡ free = omega (arith, next, small) in
    let near : d < nsem = omega arith in
    let r =
      newsem-Obtained nsem d y near next (ap (λ i. is_free_sem (y.semtab i).sstate) reaches ∙ is) in
    let sem = r.0 in
    let z = (newsem nsem y).1 in
    let o = r.2 in
    let same = eq_self sem in
    let e : with_count count (newsem nsem y) ≡ (some sem, set_count sem count z) =
      ap (λ f. with_count count (f, z)) r.1 in
    rw (positive, e)
      (
        sem,
        refl,
        record {
          in_table = o.in_table;
          was_free = o.was_free;
          now_used = rw same o.now_used;
          others = λ a ne. let other = ne_test sem a ne in rw other (o.others a ne);
        },
        rw same refl,
      )
