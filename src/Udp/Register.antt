-- ===== src/Udp/Register.antt =====
-- `udp_register` keeps the ends of the endpoints apart.
use virtual_memory_xinu_f.Base.{
  ℕ, zero, suc, ◌+◌, ◌≤◌, ◌<◌, ◌≡◌, ◌≢◌, refl, ap, sym, ◌∙◌, Bool, true, false, ◌&&◌, ◌||◌, not,
  Option, none, some, [], arith, ◌==◌, update, update_self, update-ne, if◌then◌else◌, if_either,
  subst, ◌⊎◌, inl, inr, Bool-cases,
}
use virtual_memory_xinu_f.Udp.{
  Udp, Udpentry, is_free, has_ends, registered, free_slot, opened, open_slot, udp_register,
  set_entry,
}
use virtual_memory_xinu_f.Udp.Fifo.{IsPackets}

-- The entry has this remote address, remote port and local port.
abbrev pub is_at : ℕ → ℕ → ℕ → Udpentry → Bool
is_at remip remport locport e =
    (remport == e.udremport) && ((locport == e.udlocport) && (remip == e.udremip))

-- No two endpoints in use have the same ends.
abbrev pub IsUnique : (ℕ → Udpentry) → Type 0
IsUnique t =
    (i j : ℕ)
    → i < 6
    → j < 6
    → i ≢ j
    → is_free (t i).udstate ≡ false
    → is_free (t j).udstate ≡ false
    → is_at (t i).udremip (t i).udremport (t i).udlocport (t j) ≡ false

module _ (remip remport locport : ℕ) (t : ℕ → Udpentry) where
  -- An entry in use has the ends.
  abbrev pub has : ℕ → Bool
  has j = not (is_free (t j).udstate) && is_at remip remport locport (t j)

  registered-found :
      (n i : ℕ)
      → registered n i remip remport locport t ≡ true
      → (j : ℕ) × (i ≤ j) × (j < i + n) × (has j ≡ true)
  unfolding registered
  registered-found zero i h = cc
  registered-found (suc n) i h = elim (Bool-cases (has i)) [
    | inl here ↦ (i, omega arith, omega arith, here)
    | inr past ↦
        let rest : registered n (i + 1) remip remport locport t ≡ true =
          ap (λ b. b || registered n (i + 1) remip remport locport t) (sym past) ∙ h in
        let (j, from, to, found) = registered-found n (i + 1) rest in
        (j, omega arith, omega arith, found)
  ]

  registered-absent :
      (n i : ℕ)
      → registered n i remip remport locport t ≡ false
      → (j : ℕ) → i ≤ j
      → j < i + n
      → has j ≡ false
  unfolding registered
  registered-absent zero i h j from to = absurd (omega arith)
  registered-absent (suc n) i h j from to = elim (Bool-cases (has i)) [
    | inl here ↦
        let f : true ≡ false =
          ap (λ b. b || registered n (i + 1) remip remport locport t) (sym here) ∙ h in
        cc
    | inr past ↦
        let rest : registered n (i + 1) remip remport locport t ≡ false =
          ap (λ b. b || registered n (i + 1) remip remport locport t) (sym past) ∙ h in
        elim (Bool-cases (j == i)) [
          | inl at ↦ let same : j ≡ i = ground arith in subst (λ k. has k ≡ false) (sym same) past
          | inr on ↦ registered-absent n (i + 1) rest j (ground arith) (omega arith)
        ]
  ]

abbrev FreeSlot : (ℕ → Udpentry) → ℕ → ℕ → Option ℕ → Type 0
FreeSlot t n i none = (j : ℕ) → i ≤ j → j < i + n → is_free (t j).udstate ≡ false
FreeSlot t n i (some k) = (i ≤ k) × (k < i + n) × (is_free (t k).udstate ≡ true)

widened :
    (t : ℕ → Udpentry) (n i : ℕ) (o : Option ℕ)
    → is_free (t i).udstate ≡ false
    → FreeSlot t n (i + 1) o
    → FreeSlot t (suc n) i o
widened t n i none b f = λ j from to. elim (Bool-cases (j == i)) [
  | inl at ↦
      let same : j ≡ i = ground arith in subst (λ k. is_free (t k).udstate ≡ false) (sym same) b
  | inr on ↦ f j (ground arith) (omega arith)
]
widened t n i (some k) b f = (omega (arith, f.0), omega (arith, f.1), f.2)

free_slot-FreeSlot : (t : ℕ → Udpentry) (n i : ℕ) → FreeSlot t n i (free_slot n i t)
unfolding free_slot
free_slot-FreeSlot t zero i = λ j from to. absurd (omega arith)
free_slot-FreeSlot t (suc n) i =
    if_either (FreeSlot t (suc n) i) (is_free (t i).udstate) (some i) (free_slot n (i + 1) t)
      (λ b. (omega arith, omega arith, b))
      (λ b. widened t n i (free_slot n (i + 1) t) b (free_slot-FreeSlot t n (i + 1)))

-- The new endpoint beside one in use.
new_apart :
    (remip remport locport : ℕ) (e d : Udpentry)
    → (not (is_free d.udstate) && has_ends remip remport locport d) ≡ false
    → is_free d.udstate ≡ false
    → (has_ends remip remport locport d ≡ false)
      × (has_ends d.udremip d.udremport d.udlocport (opened remip remport locport e) ≡ false)
new_apart remip remport locport e d absent used = (ground arith, ground arith)

module _ (remip remport locport : ℕ) (t : ℕ → Udpentry) (unique : IsUnique t)
    (absent : (j : ℕ) → j < 6 → has remip remport locport t j ≡ false) (i : ℕ) where
  abbrev new : Udpentry
  new = opened remip remport locport (t i)

  abbrev Apart : Udpentry → Udpentry → Type 0
  Apart d e =
      is_free d.udstate ≡ false
      → is_free e.udstate ≡ false
      → has_ends d.udremip d.udremport d.udlocport e ≡ false

  opened-IsUnique : IsUnique (update t i new)
  opened-IsUnique j k few few' ne = elim (Bool-cases (i == j)) [
    | inl at ↦
        let same : i ≡ j = ground arith in
        let first : update t i new j ≡ new = ap (λ b. if b then new else t j) at in
        let second : update t i new k ≡ t k = update-ne t i k new (λ e. ne (sym same ∙ e)) in
        subst (λ d. Apart d (update t i new k)) (sym first)
          (subst (Apart new) (sym second)
            (λ used used'. (new_apart remip remport locport (t i) (t k) (absent k few') used').0))
    | inr other ↦
        let first : update t i new j ≡ t j = ap (λ b. if b then new else t j) other in
        subst (λ d. Apart d (update t i new k)) (sym first)
          (elim (Bool-cases (i == k)) [
            | inl at ↦
                let second : update t i new k ≡ new = ap (λ b. if b then new else t k) at in
                subst (Apart (t j)) (sym second) (λ used used'.
                  (new_apart remip remport locport (t i) (t j) (absent j few) used).1)
            | inr apart ↦
                let second : update t i new k ≡ t k = ap (λ b. if b then new else t k) apart in
                subst (Apart (t j)) (sym second) (unique j k few few' ne)
          ])
  ]

abbrev Registered : ℕ → ℕ → ℕ → Udp → Option ℕ × Udp → Type 0
Registered remip remport locport u r =
    ((r ≡ (none, u))
      × (((j : ℕ) × (j < 6) × (has remip remport locport u.udptab j ≡ true))
          ⊎ ((j : ℕ) → j < 6 → is_free (u.udptab j).udstate ≡ false)))
    ⊎ ((i : ℕ) × (u' : Udp) × (r ≡ (some i, u'))
        × (i < 6)
        × (is_free (u.udptab i).udstate ≡ true)
        × (has remip remport locport u'.udptab i ≡ true)
        × IsPackets (u'.udptab i) []
        × ((j : ℕ) → i ≢ j → u'.udptab j ≡ u.udptab j)
        × IsUnique u'.udptab)

new_has :
    (remip remport locport : ℕ) (e : Udpentry)
    → has_ends remip remport locport (opened remip remport locport e) ≡ true
new_has remip remport locport e = ground arith

new-IsPackets :
    (remip remport locport : ℕ) (e : Udpentry) → IsPackets (opened remip remport locport e) []
new-IsPackets remip remport locport e = record {
  head = omega arith;
  tail = refl;
  held = tt;
  count = refl;
  room = omega arith;
}

taken :
    (remip remport locport : ℕ) (u : Udp)
    → IsUnique u.udptab
    → ((j : ℕ) → j < 6 → has remip remport locport u.udptab j ≡ false)
    → (o : Option ℕ) → FreeSlot u.udptab 6 0 o
    → Registered remip remport locport u (open_slot remip remport locport o u)
taken remip remport locport u unique absent none f =
    inl (refl, inr (λ j few. f j (omega arith) (omega arith)))
taken remip remport locport u unique absent (some i) f =
    let e = opened remip remport locport (u.udptab i) in
    let here : e ≡ update u.udptab i e i = sym (update_self u.udptab i e) in
    inr (
      i,
      set_entry i e u,
      refl,
      omega (arith, f.1),
      f.2,
      subst (λ d. (not (is_free d.udstate) && has_ends remip remport locport d) ≡ true) here
          (new_has remip remport locport (u.udptab i)),
      subst (λ d. IsPackets d []) here (new-IsPackets remip remport locport (u.udptab i)),
      λ j ne. update-ne u.udptab i j e ne,
      opened-IsUnique remip remport locport u.udptab unique absent i,
    )

-- The table when no two endpoints in use have the same remote address, remote port and local port.
-- `udp_register` either changes nothing and reports an error, because an endpoint in use has these
-- ends or all six are in use; or it takes a free entry, which then is in use with these ends and an
-- empty queue. All other entries stay as they are, and no two endpoints have the same ends.
pub udp_register-IsUnique :
    (remip remport locport : ℕ) (u : Udp)
    → IsUnique u.udptab
    → ((udp_register remip remport locport u ≡ (none, u))
        × (((j : ℕ) × (j < 6) × (has remip remport locport u.udptab j ≡ true))
            ⊎ ((j : ℕ) → j < 6 → is_free (u.udptab j).udstate ≡ false)))
      ⊎ ((i : ℕ) × (u' : Udp) × (udp_register remip remport locport u ≡ (some i, u'))
          × (i < 6)
          × (is_free (u.udptab i).udstate ≡ true)
          × (has remip remport locport u'.udptab i ≡ true)
          × IsPackets (u'.udptab i) []
          × ((j : ℕ) → i ≢ j → u'.udptab j ≡ u.udptab j)
          × IsUnique u'.udptab)
unfolding udp_register
udp_register-IsUnique remip remport locport u unique =
    elim (Bool-cases (registered 6 0 remip remport locport u.udptab)) [
      | inl known ↦
          let (j, from, to, found) = registered-found remip remport locport u.udptab 6 0 known in
          rw known (inl (refl, inl (j, omega arith, found)))
      | inr unknown ↦
          let absent : (j : ℕ) → j < 6 → has remip remport locport u.udptab j ≡ false = λ j few.
            registered-absent remip remport locport u.udptab 6 0 unknown j (omega arith)
              (omega arith) in
          rw unknown (
            taken remip remport locport u unique absent (free_slot 6 0 u.udptab)
              (free_slot-FreeSlot u.udptab 6 0))
    ]
