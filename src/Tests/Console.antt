-- ===== src/Tests/Console.antt =====
-- The theorems on the console at a terminal with one line to be read and one that is typed.
use virtual_memory_xinu_f.Base.{
  ℕ, ◌+◌, ◌-◌, ◌≤◌, ◌<◌, ◌≡◌, refl, true, false, ◌&&◌, some, none, [], ◌∷◌, arith, ◌==◌,
  if◌then◌else◌, ok,
}
use virtual_memory_xinu_f.Base.Int.{pos}
use virtual_memory_xinu_f.Semaphores.{wait, set_count}
use virtual_memory_xinu_f.Terminal.{Terminal, im_cooked}
use virtual_memory_xinu_f.Terminal.Input.{handle_in, kill_line}
use virtual_memory_xinu_f.Terminal.Output.{getc_resumed}
use virtual_memory_xinu_f.Terminal.Ring.{IsEditing}
use virtual_memory_xinu_f.Terminal.Editing.{typed, handle_in-IsEditing}
use virtual_memory_xinu_f.Terminal.Reading.{getc_resumed-IsEditing}
use virtual_memory_xinu_f.Terminal.Wrapped.{kill_line-lt-ibuff}
use virtual_memory_xinu_f.Tests.Machine.{machine}

-- `a` and a newline may be read, `b` is typed; they go round the end of the buffer at 4096.
abbrev bytes : ℕ → ℕ
bytes a = if a == 4222 then 97 else if a == 4223 then 10 else 98

abbrev console : Terminal
console = record {
  system = record (machine 40 (pos 2)) { ndefers = 1 };
  ibuff = 4096;
  obuff = 5000;
  ebuff = 6000;
  tyihead = 4222;
  tyitail = 4097;
  tyibuff = bytes;
  tyisem = 0;
  tyohead = 5000;
  tyotail = 5000;
  tyobuff = λ a. 0;
  tyosem = 1;
  tyehead = 6000;
  tyetail = 6000;
  tyebuff = λ a. 0;
  tyimode = im_cooked;
  tyiecho = true;
  tyieback = true;
  tyevis = true;
  tyecrlf = true;
  tyicrlf = true;
  tyierase = true;
  tyierasec = 8;
  tyeof = true;
  tyeofch = 4;
  tyikill = true;
  tyikillc = 21;
  tyicursor = 1;
  tyoflow = true;
  tyoheld = false;
  tyostop = 19;
  tyostart = 17;
  tyocrlf = true;
  tyifullc = 7;
  ier = 3;
  sent = [];
}

console-IsEditing : IsEditing 1 console (97 ∷ 10 ∷ []) (98 ∷ [])
console-IsEditing = record {
  mode = refl;
  low = omega arith;
  high = omega arith;
  head_low = omega arith;
  head_high = omega arith;
  tail = refl;
  held = (refl, (refl, (refl, tt)));
  cursor = refl;
  room = omega arith;
  valid = refl;
  count = refl;
  deferred = refl;
}

no_kill : ((8 == 21) && true) ≡ true → 1 ≤ 4097 - 4096
no_kill e = omega arith

no_end : ((8 == 4) && true) ≡ true → 4097 + 1 < 4096 + 128
no_end e = omega arith

-- The erase character.
handle_in-IsEditing_example :
    IsEditing 1
      (handle_in 8 console)
      (typed console 8 (97 ∷ 10 ∷ []) (98 ∷ [])).0
      (typed console 8 (97 ∷ 10 ∷ []) (98 ∷ [])).1
handle_in-IsEditing_example =
    handle_in-IsEditing 1 8 console (97 ∷ 10 ∷ []) (98 ∷ []) console-IsEditing (omega arith)
      (omega arith) no_kill no_end

-- A process reads, with no deferral pending.
abbrev reading : Terminal
reading = record console { system = machine 40 (pos 2) }

reading-IsEditing : IsEditing 0 reading (97 ∷ 10 ∷ []) (98 ∷ [])
reading-IsEditing = record {
  mode = refl;
  low = omega arith;
  high = omega arith;
  head_low = omega arith;
  head_high = omega arith;
  tail = refl;
  held = (refl, (refl, (refl, tt)));
  cursor = refl;
  room = omega arith;
  valid = refl;
  count = refl;
  deferred = refl;
}

getc_resumed-IsEditing_example :
    (wait 0 reading.system ≡ (ok, set_count 0 (pos 1) reading.system))
    × ((getc_resumed (record reading { system = (wait 0 reading.system).1 })).0
        ≡ (if true && (97 == 4) then none else some 97))
    × IsEditing 0
        (getc_resumed (record reading { system = (wait 0 reading.system).1 })).1
        (10 ∷ [])
        (98 ∷ [])
getc_resumed-IsEditing_example =
    getc_resumed-IsEditing 0 reading 97 (10 ∷ []) (98 ∷ []) reading-IsEditing

-- A line of three characters that ends behind the first byte of the buffer.
abbrev long_line : Terminal
long_line = record console { tyicursor = 3 }

kill_line-lt-ibuff_example : (kill_line long_line).tyitail < 4096
kill_line-lt-ibuff_example =
    kill_line-lt-ibuff long_line (omega arith) (omega arith) (omega arith) (omega arith)
      (omega arith)
