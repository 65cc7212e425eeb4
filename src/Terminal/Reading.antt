-- ===== src/Terminal/Reading.antt =====
-- `ttygetc` reads the characters in order.
use virtual_memory_xinu_f.Base.{
  ℕ, ◌+◌, ◌≡◌, ap, sym, ◌∙◌, ◌&&◌, some, none, List, ◌∷◌, ◌++◌, length, length-append, arith, ◌==◌,
  if◌then◌else◌, subst, ok,
}
use virtual_memory_xinu_f.Base.Ring.{wrap, slot, Held, Held-shift, slot-wrap, slot_zero}
use virtual_memory_xinu_f.Base.Int.{pos}
use virtual_memory_xinu_f.Semaphores.{wait, set_count}
use virtual_memory_xinu_f.Semaphores.Counted.{wait-Counted, wait-counts}
use virtual_memory_xinu_f.Terminal.{Terminal}
use virtual_memory_xinu_f.Terminal.Output.{getc_resumed, is_cooked}
use virtual_memory_xinu_f.Terminal.Ring.{IsEditing}

-- A console in cooked mode with a character `d` that may be read, for whose input no process waits.
-- `wait`, called by `ttygetc`, returns OK and changes nothing but the count of the semaphore, so that the
-- caller runs on: it returns `d`, or EOF when it is the end-of-file character and that is honoured. The
-- character is taken out; the others, the line and the deferral of rescheduling stay as they are.
pub getc_resumed-IsEditing :
    (defers : ℕ) (t : Terminal) (d : ℕ) (r l : List ℕ)
    → IsEditing defers t (d ∷ r) l
    → (wait t.tyisem t.system ≡ (ok, set_count t.tyisem (pos (length r)) t.system))
      × ((getc_resumed (record t { system = (wait t.tyisem t.system).1 })).0
          ≡ (if t.tyeof && (d == t.tyeofch) then none else some d))
      × IsEditing defers (getc_resumed (record t { system = (wait t.tyisem t.system).1 })).1 r l
unfolding getc_resumed
getc_resumed-IsEditing defers t d r l v =
    let k = wait-Counted t.tyisem (length r) t.system v.count v.valid in
    let next = wrap t.ibuff 128 (t.tyihead + 1) in
    let first : slot 128 t.ibuff t.tyihead 0 ≡ t.tyihead =
      slot_zero 128 t.ibuff t.tyihead v.head_high in
    let here : t.tyibuff t.tyihead ≡ d = ap t.tyibuff (sym first) ∙ v.held.0 in
    (
      wait-counts t.tyisem (length r) t.system v.count v.valid,
      ap
            (λ m.
              if (is_cooked m && t.tyeof) && (t.tyibuff t.tyihead == t.tyeofch)
              then none
              else some (t.tyibuff t.tyihead))
            v.mode
          ∙ ap (λ c. if t.tyeof && (c == t.tyeofch) then none else some c) here,
      record {
        mode = v.mode;
        low = v.low;
        high = v.high;
        head_low = ground (arith, v.head_low);
        head_high = ground (arith, v.head_high);
        tail =
            v.tail
            ∙ ap (slot 128 t.ibuff t.tyihead) (omega arith)
            ∙ slot-wrap 128 t.ibuff t.tyihead (length (r ++ l)) v.head_low v.head_high
                (omega (arith, length-append r l, v.room));
        held =
            Held-shift 128 t.ibuff t.tyibuff t.tyihead v.head_low v.head_high 0 (r ++ l)
              (omega (arith, length-append r l, v.room))
              (subst (λ i. Held 128 t.ibuff t.tyibuff t.tyihead i (r ++ l)) (omega arith) v.held.1);
        cursor = v.cursor;
        room = omega (arith, v.room);
        valid = k.1 ∙ v.valid;
        count = k.0;
        deferred = omega (arith, k.2, v.deferred);
      },
    )
