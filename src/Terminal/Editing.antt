-- ===== src/Terminal/Editing.antt =====
-- `ttyhandle_in` in cooked mode is a line editor.
use virtual_memory_xinu_f.Base.{
  ℕ, ◌+◌, ◌-◌, ◌≤◌, ◌<◌, ◌≡◌, ap, ap₂, sym, ◌∙◌, Bool, true, false, ◌&&◌, Option, some, none, List,
  [], ◌∷◌, ◌++◌, length, leb, ◌==◌, if◌then◌else◌, both_branches, if_either, subst,
}
use virtual_memory_xinu_f.Base.Int.{ℤ, pos_part}
use virtual_memory_xinu_f.Semaphores.{semcount, bad_sem}
use virtual_memory_xinu_f.Terminal.{Terminal, im_raw, im_cbreak, im_cooked, eputc, is_line_end}
use virtual_memory_xinu_f.Terminal.Input.{
  available, handle_in, handle_cooked, handle_cbreak, handle_raw, with_flow, as_newline, kill_line,
  erase_char, end_line, end_of_file, insert_char,
}
use virtual_memory_xinu_f.Terminal.Ring.{IsEditing}
use virtual_memory_xinu_f.Terminal.Typed.{
  eputc-IsEditing, end_line-IsEditing, insert_char-IsEditing,
}
use virtual_memory_xinu_f.Terminal.Erased.{
  drop_last, erase_char-IsEditing, kill_line-IsEditing, end_of_file-IsEditing,
}

-- What the character `c` makes of the characters that may be read and of the line that is typed, by
-- the settings of the terminal.
abbrev pub edit : Terminal → ℕ → List ℕ → List ℕ → List ℕ × List ℕ
edit t c ready line =
    if (c == t.tyikillc) && t.tyikill
    then (ready, [])
    else if (c == t.tyierasec) && t.tyierase
    then (ready, drop_last line)
    else if is_line_end c
    then ((ready ++ line) ++ c ∷ [], [])
    else if leb 127 (length ready + length line)
    then (ready, line)
    else if (c == t.tyeofch) && t.tyeof
    then (if length line == 0 then ready ++ c ∷ [] else ready, line)
    else (ready, line ++ c ∷ [])

abbrev IsEdited : ℕ → Terminal → List ℕ × List ℕ → Type 0
IsEdited defers u p = IsEditing defers u p.0 p.1

abbrev option_part : Option ℤ → ℕ
option_part none = 0
option_part (some n) = pos_part n

available-IsEditing :
    {defers : ℕ} (t : Terminal) (r l : List ℕ) → IsEditing defers t r l → available t ≡ length r
unfolding available semcount
available-IsEditing t r l v =
    if_either (λ o. option_part o ≡ length r) (bad_sem t.tyisem t.system) none
      (some (t.system.semtab t.tyisem).scount) (λ b. let f : true ≡ false = sym b ∙ v.valid in cc)
      (λ b. ap pos_part v.count)

module _ {defers : ℕ} (later : 0 < defers) (c : ℕ) (t : Terminal) (r l : List ℕ)
    (v : IsEditing defers t r l) (space : length r + length l < 128)
    (kills : ((c == t.tyikillc) && t.tyikill) ≡ true → length l ≤ t.tyitail - t.ibuff)
    (ends : ((c == t.tyeofch) && t.tyeof) ≡ true → t.tyitail + 1 < t.ibuff + 128) where
  -- A character that belongs to the line, if there is room.
  full : leb 127 (available t + t.tyicursor) ≡ leb 127 (length r + length l)
  full = ap₂ (λ m n. leb 127 (m + n)) (available-IsEditing t r l v) v.cursor

  inserted :
      IsEdited defers
        (if leb 127 (available t + t.tyicursor)
          then eputc t.tyifullc t
          else if (c == t.tyeofch) && t.tyeof
          then end_of_file c t
          else insert_char c t)
        (if leb 127 (length r + length l)
          then (r, l)
          else if (c == t.tyeofch) && t.tyeof
          then (if length l == 0 then r ++ c ∷ [] else r, l)
          else (r, l ++ c ∷ []))
  inserted =
      subst
        (λ b.
          IsEdited defers
            (if b
              then eputc t.tyifullc t
              else if (c == t.tyeofch) && t.tyeof
              then end_of_file c t
              else insert_char c t)
            (if leb 127 (length r + length l)
              then (r, l)
              else if (c == t.tyeofch) && t.tyeof
              then (if length l == 0 then r ++ c ∷ [] else r, l)
              else (r, l ++ c ∷ [])))
        (sym full)
        (both_branches (IsEdited defers) (leb 127 (length r + length l)) (eputc t.tyifullc t) _
          (r, l) _ (λ b. eputc-IsEditing t.tyifullc t r l v)
          (λ b.
            both_branches (IsEdited defers) ((c == t.tyeofch) && t.tyeof) (end_of_file c t)
              (insert_char c t) (if length l == 0 then r ++ c ∷ [] else r, l) (r, l ++ c ∷ [])
              (λ b. end_of_file-IsEditing c t r l v space (ends b))
              (λ b. insert_char-IsEditing c t r l v space)))

  handle_cooked-IsEditing : IsEdited defers (handle_cooked c t) (edit t c r l)
  unfolding handle_cooked
  handle_cooked-IsEditing =
      both_branches (IsEdited defers) ((c == t.tyikillc) && t.tyikill) (kill_line t) _ (r, []) _
        (λ b. kill_line-IsEditing t r l v (kills b))
        (λ b.
          both_branches (IsEdited defers) ((c == t.tyierasec) && t.tyierase) (erase_char t) _
            (r, drop_last l) _ (λ b. erase_char-IsEditing t r l v)
            (λ b.
              both_branches (IsEdited defers) (is_line_end c) (end_line c t) _
                ((r ++ l) ++ c ∷ [], []) _ (λ b. end_line-IsEditing c t r l v space later)
                (λ b. inserted)))

held-IsEditing :
    {defers : ℕ} (t : Terminal) (held : Bool) (ier : ℕ) (r l : List ℕ)
    → IsEditing defers t r l
    → IsEditing defers (record t { tyoheld = held; ier = ier }) r l
held-IsEditing t held ier r l v = record {
  mode = v.mode;
  low = v.low;
  high = v.high;
  head_low = v.head_low;
  head_high = v.head_high;
  tail = v.tail;
  held = v.held;
  cursor = v.cursor;
  room = v.room;
  valid = v.valid;
  count = v.count;
  deferred = v.deferred;
}

-- The characters that control the flow of the output are no input.
abbrev pub typed : Terminal → ℕ → List ℕ → List ℕ → List ℕ × List ℕ
typed t ch ready line =
    let c = as_newline ch t in
    if t.tyoflow && (c == t.tyostart)
    then (ready, line)
    else if t.tyoflow && (c == t.tyostop)
    then (ready, line)
    else edit t c ready line

-- A console in cooked mode, with the characters `r` that may be read and the line `l` that is typed,
-- fewer than 128 in all, for whose input no process waits, while rescheduling is deferred, as it is when
-- interrupts are handled. The character `ch` arrives, a return counting as a newline where the
-- terminal says so; when it kills the line, the line does not begin behind its end in the buffer, and
-- when it is the end-of-file character, the last byte of the buffer is not in turn. Then `ttyhandle_in`
-- does with the two lists what the first of these cases that applies says, the special characters
-- being those that the terminal honours: the characters that start and stop the output change nothing;
-- the kill character empties the line; the erase character takes its last character back; a line end
-- adds the line and itself to the characters that may be read; a character that finds 127 or more in
-- all is left out; the end-of-file character is added to the characters that may be read when the line
-- is empty, and is left out otherwise; any other is added to the line.
pub handle_in-IsEditing :
    (defers ch : ℕ) (t : Terminal) (r l : List ℕ)
    → IsEditing defers t r l
    → 0 < defers
    → length r + length l < 128
    → (((as_newline ch t == t.tyikillc) && t.tyikill) ≡ true → length l ≤ t.tyitail - t.ibuff)
    → (((as_newline ch t == t.tyeofch) && t.tyeof) ≡ true → t.tyitail + 1 < t.ibuff + 128)
    → IsEditing defers (handle_in ch t) (typed t ch r l).0 (typed t ch r l).1
unfolding handle_in
handle_in-IsEditing defers ch t r l v later space kills ends =
    let c = as_newline ch t in
    subst
      (λ m.
        IsEdited defers
          (elim m [
            | im_raw ↦ handle_raw ch t
            | im_cbreak ↦ with_flow c (handle_cbreak c) t
            | im_cooked ↦ with_flow c (handle_cooked c) t
          ])
          (typed t ch r l))
      (sym v.mode)
      (both_branches (IsEdited defers) (t.tyoflow && (c == t.tyostart)) _ _ (r, l) _
        (λ b. held-IsEditing t false 3 r l v)
        (λ b.
          both_branches (IsEdited defers) (t.tyoflow && (c == t.tyostop))
            (record t { tyoheld = true }) _ (r, l) _ (λ b. held-IsEditing t true t.ier r l v)
            (λ b.
              handle_cooked-IsEditing later c (record t { tyoheld = false }) r l
                (held-IsEditing t false t.ier r l v) space kills ends)))
