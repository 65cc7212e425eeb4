-- ===== src/Queues/Placed.antt =====
-- An entry put between two neighbours of a chain: the writes of `insert` and `insertd`.
use virtual_memory_xinu_f.Base.{
  ℕ, ◌+◌, ◌≡◌, ◌≢◌, ap, false, some, List, [], ◌∷◌, ◌++◌, arith, update,
}
use virtual_memory_xinu_f.Base.Int.{ℤ}
use virtual_memory_xinu_f.Base.Distinct.{mem, Distinct, mem-append}
use virtual_memory_xinu_f.Queues.{Qentry, set_qnext, set_qprev}
use virtual_memory_xinu_f.Queues.Chain.{
  Chain, Chain-frame, last_of, last_of-mem, head_of, Untouched, last_of-ne, head_of-ne,
}

abbrev pub placed : ℕ → ℤ → ℕ → ℕ → (ℕ → Qentry) → ℕ → Qentry
placed pid key prev next t = set_qprev (some next) (some pid) (
    set_qnext (some prev) (some pid)
      (update t pid (record { qkey = key; qnext = some next; qprev = some prev })))

-- What stands behind `ys` in a list without repetition is not in `ys`.
behind_ne : (y : ℕ) (zs : List ℕ) (n : ℕ) → mem y zs ≡ false → y ≢ n → head_of zs n ≢ y
behind_ne y [] n m ne e = ne (cc)
behind_ne y (z ∷ zs) n m ne e = absurd (ground arith)

pub Chain-placed :
    (t : ℕ → Qentry) (pid : ℕ) (key : ℤ) (p : ℕ) (ys zs : List ℕ) (n : ℕ)
    → mem p (ys ++ zs) ≡ false
    → Distinct (ys ++ zs)
    → mem n (ys ++ zs) ≡ false
    → p ≢ n
    → pid ≢ p
    → pid ≢ n
    → mem pid (ys ++ zs) ≡ false
    → Chain t p (ys ++ zs) n
    → Chain (placed pid key (last_of p ys) (head_of zs n) t) p (ys ++ pid ∷ zs) n
Chain-placed t pid key p [] [] n out d n_out pn ne ne' new c =
    (ground arith, ground arith, (ground arith, ground arith))
Chain-placed t pid key p [] (z ∷ zs) n out d n_out pn ne ne' new c =
    let u = placed pid key p z t in
    (
      ground arith,
      ground arith,
      (
        ground arith,
        ground arith,
        Chain-frame t u z zs n (ground arith) (λ a m. ground arith) (ground arith) c.2,
      ),
    )
Chain-placed t pid key p (y ∷ ys) zs n out d n_out pn ne ne' new c =
    let last = last_of-mem y ys in
    let first : mem p (y ∷ ys) ≡ false = ground (arith, mem-append p (y ∷ ys) zs) in
    let apart : p ≢ last_of y ys = λ e. absurd (cc (last, ap (λ a. mem a (y ∷ ys)) e)) in
    let behind : head_of zs n ≢ y =
      behind_ne y zs n (ground (arith, mem-append y ys zs)) (ground arith) in
    (
      ground (arith, c.0),
      ground (arith, c.1),
      Chain-placed t pid key y ys zs n d.0 d.1 (ground arith) (ground arith) (ground arith) ne'
          (ground arith) c.2,
    )

pub placed-Untouched :
    (t : ℕ → Qentry) (pid : ℕ) (key : ℤ) (q : ℕ) (ys zs : List ℕ)
    → Untouched t (placed pid key (last_of q ys) (head_of zs (q + 1)) t) q (pid ∷ ys ++ zs)
placed-Untouched t pid key q ys zs a n1 n2 out =
    let out' : mem a (ys ++ zs) ≡ false = ground (arith, out) in
    let left : mem a ys ≡ false = ground (arith, mem-append a ys zs) in
    let right : mem a zs ≡ false = ground (arith, mem-append a ys zs) in
    let before = last_of-ne q a ys n1 left in
    let after = head_of-ne zs (q + 1) a n2 right in
    let new : pid ≢ a = λ e. absurd (ground arith) in
    elsewhere (last_of q ys) (head_of zs (q + 1)) before after new
  where
    elsewhere : (prev next : ℕ) → prev ≢ a → next ≢ a → pid ≢ a → placed pid key prev next t a ≡ t a
    elsewhere prev next n1 n2 n3 = ground arith
