-- ===== src/Terminal/Erased.antt =====
-- A character or the line is taken back, and the end-of-file character.
use virtual_memory_xinu_f.Base.{
  ℕ, ◌+◌, ◌-◌, ◌^◌, ◌≤◌, ◌<◌, ◌≡◌, refl, ap, ap₂, sym, ◌∙◌, true, false, List, [], ◌∷◌, ◌++◌,
  length, length-append, append_nil, append_assoc, arith, update, ltb, ◌==◌, if◌then◌else◌,
  if_either, subst,
}
use virtual_memory_xinu_f.Base.Ring.{wrap, slot, Held, Held-front, slot_bounds, slot-sub}
use virtual_memory_xinu_f.Base.Int.{pos}
use virtual_memory_xinu_f.VirtualHeap.{sub32}
use virtual_memory_xinu_f.Semaphores.{signal}
use virtual_memory_xinu_f.Semaphores.Counted.{signal-Counted}
use virtual_memory_xinu_f.Terminal.{
  Terminal, eputc, eputs, echoch, echo_codes, erase1, erase_codes, echo_if_on, step_back,
}
use virtual_memory_xinu_f.Terminal.Input.{
  put_in, wrap_in, signal_in, kill_line, erase_char, end_of_file,
}
use virtual_memory_xinu_f.Terminal.Ring.{IsEditing}
use virtual_memory_xinu_f.Terminal.Typed.{eputs-IsEditing, echo_if_on-IsEditing, end-IsEditing}

abbrev pub drop_last : List ℕ → List ℕ
drop_last [] = []
drop_last (c ∷ []) = []
drop_last (c ∷ d ∷ cs) = c ∷ drop_last (d ∷ cs)

split_last : (cs : List ℕ) → 0 < length cs → (c : ℕ) × (cs ≡ drop_last cs ++ c ∷ [])
split_last [] h = absurd (omega arith)
split_last (c ∷ []) h = (c, refl)
split_last (c ∷ d ∷ cs) h = let (e, p) = split_last (d ∷ cs) (omega arith) in (e, ap (λ l. c ∷ l) p)

drop_nil : (cs : List ℕ) → length cs ≡ 0 → cs ≡ drop_last cs
drop_nil [] h = refl
drop_nil (c ∷ cs) h = absurd (omega arith)

-- One place back, as in `erase1`.
abbrev step_to : ℕ → ℕ → ℕ
step_to b q = let p = sub32 q 1 in if ltb p b then p + 128 else p

step_to-slot :
    (b h k : ℕ)
    → 128 ≤ b
    → b + 128 ≤ 2 ^ 31
    → b ≤ h
    → h < b + 128
    → k + 1 ≤ 128
    → step_to b (slot 128 b h (k + 1)) ≡ slot 128 b h k
step_to-slot b h k low high f g room = ground arith

module _ {defers : ℕ} (t : Terminal) (r l : List ℕ) (v : IsEditing defers t r l) where
  step_back-IsEditing :
      (rest : List ℕ) (c : ℕ)
      → l ≡ rest ++ c ∷ []
      → IsEditing defers (step_back (record t { tyicursor = t.tyicursor - 1 })) r rest
  step_back-IsEditing rest c e =
      let whole : r ++ l ≡ (r ++ rest) ++ c ∷ [] =
        ap (λ k. r ++ k) e ∙ sym (append_assoc r rest (c ∷ [])) in
      let n : length l ≡ length rest + 1 = ap length e ∙ length-append rest (c ∷ []) in
      let m = ap length whole ∙ length-append (r ++ rest) (c ∷ []) in
      record {
        mode = v.mode;
        low = v.low;
        high = v.high;
        head_low = v.head_low;
        head_high = v.head_high;
        tail =
            ap (step_to t.ibuff) (v.tail ∙ ap (slot 128 t.ibuff t.tyihead) m)
            ∙ step_to-slot t.ibuff t.tyihead (length (r ++ rest)) v.low v.high v.head_low
                v.head_high (omega (arith, m, v.room, length-append r l));
        held =
            Held-front 128 t.ibuff t.tyibuff t.tyihead v.head_low v.head_high 0 (r ++ rest) (c ∷ [])
              (subst (Held 128 t.ibuff t.tyibuff t.tyihead 0) whole v.held);
        cursor = omega (arith, v.cursor, n);
        room = omega (arith, v.room, n);
        valid = v.valid;
        count = v.count;
        deferred = v.deferred;
      }

  -- The last character of the line is taken back; on an empty line nothing is.
  pub erase_char-IsEditing : IsEditing defers (erase_char t) r (drop_last l)
  unfolding erase_char erase1
  erase_char-IsEditing =
      if_either (λ u. IsEditing defers u r (drop_last l)) (ltb 0 t.tyicursor)
        (erase1 (record t { tyicursor = t.tyicursor - 1 })) t
        (λ b.
          let (c, e) = split_last l (ground (arith, v.cursor)) in
          let t' = step_back (record t { tyicursor = t.tyicursor - 1 }) in
          eputs-IsEditing (erase_codes (t'.tyibuff t'.tyitail) t') t' r (drop_last l)
            (step_back-IsEditing (drop_last l) c e))
        (λ b. subst (IsEditing defers t r) (drop_nil l (ground (arith, v.cursor))) v)

  -- The line is killed, when it does not begin behind the place where it ends.
  pub kill_line-IsEditing : length l ≤ t.tyitail - t.ibuff → IsEditing defers (kill_line t) r []
  unfolding kill_line
  kill_line-IsEditing h =
      let p = sub32 t.tyitail t.tyicursor in
      let whole = length-append r l in
      let bounds =
        slot_bounds 128 t.ibuff t.tyihead (length (r ++ l)) v.head_low v.head_high
          (omega (arith, whole, v.room)) in
      let at_end = v.tail ∙ ap (slot 128 t.ibuff t.tyihead) whole in
      let start : p ≡ t.tyitail - length l =
        omega (arith, v.cursor, v.tail, v.high, v.low, bounds.1) in
      let inside : ltb p t.ibuff ≡ false = ground (arith, start, v.tail, bounds.0) in
      subst
        (λ b.
          IsEditing defers
            (eputs (13 ∷ 10 ∷ []) (record t {
              tyitail = p;
              tyihead = if b then t.tyihead + 128 else t.tyihead;
              tyicursor = 0;
            }))
            r [])
        (sym inside)
        (eputs-IsEditing (13 ∷ 10 ∷ []) (record t { tyitail = p; tyicursor = 0 }) r []
          (record {
            mode = v.mode;
            low = v.low;
            high = v.high;
            head_low = v.head_low;
            head_high = v.head_high;
            tail =
                start
                ∙ ap (λ q. q - length l) at_end
                ∙ slot-sub 128 t.ibuff t.tyihead (length r) (length l) v.head_low v.head_high v.room
                    (subst (λ q. length l ≤ q - t.ibuff) at_end h)
                ∙ ap (λ k. slot 128 t.ibuff t.tyihead (length k)) (sym (append_nil r));
            held =
                subst (Held 128 t.ibuff t.tyibuff t.tyihead 0) (sym (append_nil r))
                  (Held-front 128 t.ibuff t.tyibuff t.tyihead v.head_low v.head_high 0 r l v.held);
            cursor = refl;
            room = omega (arith, v.room);
            valid = v.valid;
            count = v.count;
            deferred = v.deferred;
          }))

module _ {defers : ℕ} (c : ℕ) (t : Terminal) (r : List ℕ) where
  put_file_end :
      IsEditing defers t r []
      → length r < 128
      → t.tyitail + 1 < t.ibuff + 128
      → IsEditing defers (signal_in (put_in c t)) (r ++ c ∷ []) []
  unfolding signal
  put_file_end v space h =
      let k = signal-Counted t.tyisem (length r) t.system v.count v.valid (omega (arith, space)) in
      let y = (signal t.tyisem t.system).1 in
      let stays : wrap t.ibuff 128 (t.tyitail + 1) ≡ t.tyitail + 1 = ground arith in
      let e : record (wrap_in (put_in c t)) { system = y; tyicursor = 0 } ≡ signal_in (put_in c t) =
        ap₂
          (λ p n. record t {
            tyibuff = update t.tyibuff t.tyitail c;
            tyitail = p;
            system = y;
            tyicursor = n;
          })
          stays (sym v.cursor) in
      subst (λ u. IsEditing defers u (r ++ c ∷ []) []) e
        (subst
          (λ k.
            IsEditing defers (record (wrap_in (put_in c t)) { system = y; tyicursor = 0 })
              (k ++ c ∷ []) [])
          (append_nil r)
          (end-IsEditing c t r [] v (omega arith) y (k.1 ∙ v.valid) (k.0 ∙ ap pos (omega arith))
            (omega (arith, k.2, v.deferred))))

-- The echo leaves the end of the input where it is.
eputc-tail : (c : ℕ) (t : Terminal) → (eputc c t).tyitail ≡ t.tyitail
unfolding eputc
eputc-tail c t = refl

eputc-base : (c : ℕ) (t : Terminal) → (eputc c t).ibuff ≡ t.ibuff
unfolding eputc
eputc-base c t = refl

pub eputs-tail : (cs : List ℕ) (t : Terminal) → (eputs cs t).tyitail ≡ t.tyitail
unfolding eputs
eputs-tail [] t = refl
eputs-tail (c ∷ cs) t = eputs-tail cs (eputc c t) ∙ eputc-tail c t

eputs-base : (cs : List ℕ) (t : Terminal) → (eputs cs t).ibuff ≡ t.ibuff
unfolding eputs
eputs-base [] t = refl
eputs-base (c ∷ cs) t = eputs-base cs (eputc c t) ∙ eputc-base c t

echo_tail : (c : ℕ) (t : Terminal) → (echo_if_on c t).tyitail ≡ t.tyitail
unfolding echoch
echo_tail c t =
    if_either (λ u. u.tyitail ≡ t.tyitail) t.tyiecho (echoch c t) t
      (λ b. eputs-tail (echo_codes c t) t) (λ b. refl)

echo_base : (c : ℕ) (t : Terminal) → (echo_if_on c t).ibuff ≡ t.ibuff
unfolding echoch
echo_base c t =
    if_either (λ u. u.ibuff ≡ t.ibuff) t.tyiecho (echoch c t) t (λ b. eputs-base (echo_codes c t) t)
      (λ b. refl)

-- At the beginning of a line the end-of-file character may be read at once, when it is not the last
-- of the buffer; elsewhere it is ignored.
pub end_of_file-IsEditing :
    {defers : ℕ} (c : ℕ) (t : Terminal) (r l : List ℕ)
    → IsEditing defers t r l
    → length r + length l < 128
    → t.tyitail + 1 < t.ibuff + 128
    → IsEditing defers (end_of_file c t) (if length l == 0 then r ++ c ∷ [] else r) l
unfolding end_of_file
end_of_file-IsEditing {defers = defers} c t r [] v space h =
    let t' = echo_if_on c t in
    if_either (λ u. IsEditing defers u (r ++ c ∷ []) []) (t.tyicursor == 0)
      (signal_in (put_in c t')) t'
      (λ b.
        put_file_end c t' r (echo_if_on-IsEditing c t r [] v) (omega arith)
          (omega (arith, echo_tail c t, echo_base c t)))
      (λ b. let f : true ≡ false = ground (arith, v.cursor, b) in cc)
end_of_file-IsEditing {defers = defers} c t r (d ∷ l) v space h =
    let t' = echo_if_on c t in
    let goes_on : (length (d ∷ l) == 0) ≡ false = ground arith in
    subst (λ b. IsEditing defers (end_of_file c t) (if b then r ++ c ∷ [] else r) (d ∷ l))
      (sym goes_on)
      (if_either (λ u. IsEditing defers u r (d ∷ l)) (t.tyicursor == 0) (signal_in (put_in c t')) t'
        (λ b. let f : true ≡ false = ground (arith, v.cursor, b) in cc)
        (λ b. echo_if_on-IsEditing c t r (d ∷ l) v))
