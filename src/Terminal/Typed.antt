-- ===== src/Terminal/Typed.antt =====
-- What the parts of `ttyhandle_in` make of the lists of characters.
use virtual_memory_xinu_f.Base.{
  ℕ, ◌+◌, ◌<◌, ◌≡◌, refl, ap, sym, ◌∙◌, false, List, [], ◌∷◌, ◌++◌, length, length-append,
  append_nil, append_assoc, arith, update, if_either, subst,
}
use virtual_memory_xinu_f.Base.Ring.{wrap, slot, Held, Held-put, wrap-slot}
use virtual_memory_xinu_f.Base.Int.{pos}
use virtual_memory_xinu_f.System.{System}
use virtual_memory_xinu_f.Semaphores.{bad_sem, signaln}
use virtual_memory_xinu_f.Semaphores.Counted.{signaln-Counted}
use virtual_memory_xinu_f.Terminal.{Terminal, eputc, eputs, echoch, echo_codes, echo_if_on}
use virtual_memory_xinu_f.Terminal.Input.{put_in, wrap_in, end_line, insert_char}
use virtual_memory_xinu_f.Terminal.Ring.{IsEditing}

-- The echo has no part in the input.
pub eputc-IsEditing :
    {defers : ℕ} (c : ℕ) (t : Terminal) (r l : List ℕ)
    → IsEditing defers t r l
    → IsEditing defers (eputc c t) r l
unfolding eputc
eputc-IsEditing c t r l v = record {
  mode = v.mode;
  low = v.low;
  high = v.high;
  head_low = v.head_low;
  head_high = v.head_high;
  tail = v.tail;
  held = v.held;
  cursor = v.cursor;
  room = v.room;
  valid = v.valid;
  count = v.count;
  deferred = v.deferred;
}

pub eputs-IsEditing :
    {defers : ℕ} (cs : List ℕ) (t : Terminal) (r l : List ℕ)
    → IsEditing defers t r l
    → IsEditing defers (eputs cs t) r l
unfolding eputs
eputs-IsEditing [] t r l v = v
eputs-IsEditing (c ∷ cs) t r l v = eputs-IsEditing cs (eputc c t) r l (eputc-IsEditing c t r l v)

pub echo_if_on-IsEditing :
    {defers : ℕ} (c : ℕ) (t : Terminal) (r l : List ℕ)
    → IsEditing defers t r l
    → IsEditing defers (echo_if_on c t) r l
unfolding echoch
echo_if_on-IsEditing {defers = defers} c t r l v =
    if_either (λ u. IsEditing defers u r l) t.tyiecho (echoch c t) t
      (λ on. eputs-IsEditing (echo_codes c t) t r l v) (λ off. v)

-- A character is put behind the others.
module _ {defers : ℕ} (c : ℕ) (t : Terminal) (r l : List ℕ) (v : IsEditing defers t r l)
    (space : length r + length l < 128) where
  put_tail :
      wrap t.ibuff 128 (t.tyitail + 1) ≡ slot 128 t.ibuff t.tyihead (length ((r ++ l) ++ c ∷ []))
  put_tail =
      let n : length (r ++ l) < 128 = omega (arith, length-append r l) in
      let m : length (r ++ l) + 1 ≡ length ((r ++ l) ++ c ∷ []) =
        omega (arith, length-append (r ++ l) (c ∷ [])) in
      ap (λ p. wrap t.ibuff 128 (p + 1)) v.tail
      ∙ wrap-slot 128 t.ibuff t.tyihead (length (r ++ l)) v.head_low v.head_high n
      ∙ ap (slot 128 t.ibuff t.tyihead) m

  put-Held : Held 128 t.ibuff (update t.tyibuff t.tyitail c) t.tyihead 0 ((r ++ l) ++ c ∷ [])
  put-Held =
      subst (λ p. Held 128 t.ibuff (update t.tyibuff p c) t.tyihead 0 ((r ++ l) ++ c ∷ []))
        (sym v.tail)
        (Held-put 128 t.ibuff t.tyibuff t.tyihead c (r ++ l) v.head_low v.head_high
          (omega (arith, length-append r l)) v.held)

  -- It belongs to the line.
  insert-IsEditing :
      IsEditing defers
        (wrap_in (put_in c (record t { tyicursor = t.tyicursor + 1 })))
        r
        (l ++ c ∷ [])
  insert-IsEditing =
      let e = append_assoc r l (c ∷ []) in
      record {
        mode = v.mode;
        low = v.low;
        high = v.high;
        head_low = v.head_low;
        head_high = v.head_high;
        tail = put_tail ∙ ap (λ cs. slot 128 t.ibuff t.tyihead (length cs)) e;
        held = subst (Held 128 t.ibuff (update t.tyibuff t.tyitail c) t.tyihead 0) e put-Held;
        cursor = omega (arith, v.cursor, length-append l (c ∷ []));
        room = omega (arith, length-append l (c ∷ []));
        valid = v.valid;
        count = v.count;
        deferred = v.deferred;
      }

  -- It ends the line, and the system `y` has counted the characters.
  module _ (y : System) (good : bad_sem t.tyisem y ≡ false)
      (counted : (y.semtab t.tyisem).scount ≡ pos (length r + length l + 1))
      (later : y.ndefers ≡ defers) where
    pub end-IsEditing :
        IsEditing defers
          (record (wrap_in (put_in c t)) { system = y; tyicursor = 0 })
          ((r ++ l) ++ c ∷ [])
          []
    end-IsEditing =
        let e = append_nil ((r ++ l) ++ c ∷ []) in
        let n : length ((r ++ l) ++ c ∷ []) ≡ length r + length l + 1 =
          omega (arith, length-append (r ++ l) (c ∷ []), length-append r l) in
        record {
          mode = v.mode;
          low = v.low;
          high = v.high;
          head_low = v.head_low;
          head_high = v.head_high;
          tail = put_tail ∙ ap (λ cs. slot 128 t.ibuff t.tyihead (length cs)) (sym e);
          held =
              subst (Held 128 t.ibuff (update t.tyibuff t.tyitail c) t.tyihead 0) (sym e) put-Held;
          cursor = refl;
          room = omega (arith, n);
          valid = good;
          count = counted ∙ ap pos (sym n);
          deferred = later;
        }

-- A line is ended.
pub end_line-IsEditing :
    {defers : ℕ} (c : ℕ) (t : Terminal) (r l : List ℕ)
    → IsEditing defers t r l
    → length r + length l < 128
    → 0 < defers
    → IsEditing defers (end_line c t) ((r ++ l) ++ c ∷ []) []
unfolding end_line
end_line-IsEditing c t r l v space later =
    let t' = echo_if_on c t in
    let v' = echo_if_on-IsEditing c t r l v in
    let n = t'.tyicursor + 1 in
    let k =
      signaln-Counted t'.tyisem (length r) n t'.system v'.count v'.valid
        (omega (arith, v'.deferred, later)) (omega (arith, v'.cursor)) in
    end-IsEditing c t' r l v' space (signaln t'.tyisem (pos n) t'.system).1 (k.1 ∙ v'.valid)
      (k.0 ∙ ap pos (omega (arith, v'.cursor))) (omega (arith, k.2, v'.deferred))

pub insert_char-IsEditing :
    {defers : ℕ} (c : ℕ) (t : Terminal) (r l : List ℕ)
    → IsEditing defers t r l
    → length r + length l < 128
    → IsEditing defers (insert_char c t) r (l ++ c ∷ [])
unfolding insert_char
insert_char-IsEditing c t r l v space =
    insert-IsEditing c (echo_if_on c t) r l (echo_if_on-IsEditing c t r l v) space
