-- ===== src/Tests/Running.antt =====
-- The theorems on the ready list, and on what makes processes ready, at a concrete state.
use virtual_memory_xinu_f.Base.{◌≡◌, refl, ok, some, false, [], ◌∷◌, ◌++◌, arith}
use virtual_memory_xinu_f.Base.Int.{pos}
use virtual_memory_xinu_f.Queues.{Queues}
use virtual_memory_xinu_f.Queues.Ordered.{insert, insertd}
use virtual_memory_xinu_f.Queues.Insert.{Inserted, insert-Inserted}
use virtual_memory_xinu_f.Frames.{hasfreeframe}
use virtual_memory_xinu_f.Queues.Insertd.{Delayed, insertd-Delayed}
use virtual_memory_xinu_f.FrameBlock.Fifo.{IsQueue, filled}
use virtual_memory_xinu_f.FrameBlock.Wakeup.{no_frames, framewakeup}
use virtual_memory_xinu_f.FrameBlock.Liveness.{framewakeup-Chosen}
use virtual_memory_xinu_f.System.{System, proc_of}
use virtual_memory_xinu_f.Sched.{resched, ready}
use virtual_memory_xinu_f.Messages.{send, receive}
use virtual_memory_xinu_f.Messages.Delivery.{receive-send}
use virtual_memory_xinu_f.Sched.Resched.{Chosen, resched-Chosen}
use virtual_memory_xinu_f.Sched.Ready.{ready-Chosen}
use virtual_memory_xinu_f.Sched.Released.{CanWake}
use virtual_memory_xinu_f.Tests.Machine.{
  machine, procs, table, listed, machine-IsReadyList, machine-Runs,
}

abbrev queues : Queues
queues = record { queuetab = table; nextqid = 106 }

insert-Inserted_example :
    ((insert (procs 15) 7 100 (pos 30) queues).0 ≡ ok)
    × Inserted table 100 listed 7 (pos 30) (insert (procs 15) 7 100 (pos 30) queues).1.queuetab
insert-Inserted_example =
    insert-Inserted (procs 15) 7 100 (pos 30) queues listed (machine-IsReadyList 15 (pos 0)).queue
      (machine-IsReadyList 15 (pos 0)).descending refl refl refl

resched-Chosen_example : Chosen (resched (machine 20 (pos 0))) (5 ∷ listed)
resched-Chosen_example =
    resched-Chosen (machine 20 (pos 0)) listed (machine-IsReadyList 20 (pos 0)) refl refl refl refl

ready-Chosen_example :
    ((ready 7 (machine 40 (pos 0))).0 ≡ ok)
    × Chosen (ready 7 (machine 40 (pos 0))).1 (5 ∷ 7 ∷ listed)
ready-Chosen_example =
    ready-Chosen (machine 40 (pos 0)) listed 7 (machine-IsReadyList 40 (pos 0)) refl refl refl refl
      refl refl refl (omega arith)

has_frames : no_frames (machine 40 (pos 0)).kernel.frames ≡ false
unfolding no_frames hasfreeframe
has_frames = refl

machine-CanWake : CanWake (machine 40 (pos 0)) (4 ∷ []) listed
machine-CanWake = record {
  distinct = (refl, tt);
  apart = λ a m. ground (arith);
  valid = λ a m. ground (arith);
  above = λ a m. ground (arith);
}

framewakeup-Chosen_example :
    IsQueue (framewakeup (machine 40 (pos 0))).kernel.blocked []
    × Chosen (framewakeup (machine 40 (pos 0))) (5 ∷ (4 ∷ []) ++ listed)
framewakeup-Chosen_example =
    framewakeup-Chosen (machine 40 (pos 0)) (4 ∷ []) listed
      (filled 0 (4 ∷ []) (omega arith) (omega arith) refl refl) has_frames refl
      (machine-Runs (pos 0)) refl refl refl machine-CanWake

-- As a delta list, the queue 100 has the process 3 after 30 and the process 8 after 50 milliseconds.
insertd-Delayed_example :
    ((insertd (procs 15) 7 100 (pos 40) queues).0 ≡ ok)
    × Delayed table 100 listed 7 40 (insertd (procs 15) 7 100 (pos 40) queues).1.queuetab
insertd-Delayed_example =
    insertd-Delayed (procs 15) 7 100 40 queues listed (machine-IsReadyList 15 (pos 0)).queue refl
      refl refl

abbrev sent_to : System
sent_to = (send 7 9 (machine 40 (pos 0))).1

-- Later the process 7 runs.
abbrev resumed : System
resumed = record sent_to { kernel = record sent_to.kernel { currpid = 7 } }

receive-send_example :
    ((send 7 9 (machine 40 (pos 0))).0 ≡ ok)
    × ((receive resumed).0 ≡ some 9)
    × ((proc_of 7 (receive resumed).1).prhasmsg ≡ false)
receive-send_example = receive-send 7 9 (machine 40 (pos 0)) resumed refl refl refl refl
