-- ===== src/Tests/Waits.antt =====
-- The theorems on process queues at a concrete table.
use virtual_memory_xinu_f.Base.{ℕ, ◌≡◌, refl, none, some, [], ◌∷◌, arith, ◌==◌, if◌then◌else◌}
use virtual_memory_xinu_f.Base.Int.{pos}
use virtual_memory_xinu_f.Kernel.{Proc}
use virtual_memory_xinu_f.Queues.{Qentry, Queues, dequeue}
use virtual_memory_xinu_f.Queues.Chain.{IsQueue}
use virtual_memory_xinu_f.Queues.Fifo.{dequeue-IsQueue}
use virtual_memory_xinu_f.Tests.Sample.{idle}

-- The queue 100 holds the processes 3 and 8.
abbrev entry : ℕ → Qentry
entry a =
    if a == 100
    then record { qkey = pos 0; qnext = some 3; qprev = none }
    else if a == 3
    then record { qkey = pos 0; qnext = some 8; qprev = some 100 }
    else if a == 8
    then record { qkey = pos 0; qnext = some 101; qprev = some 3 }
    else record { qkey = pos 0; qnext = none; qprev = some 8 }

abbrev queues : Queues
queues = record { queuetab = entry; nextqid = 102 }

queues-IsQueue : IsQueue entry 100 (3 ∷ 8 ∷ [])
queues-IsQueue = record {
  in_table = refl;
  behind = omega arith;
  processes = refl;
  distinct = (refl, (refl, tt));
  chain = (refl, refl, (refl, refl, (refl, refl)));
}

abbrev procs : ℕ → Proc
procs a = idle

dequeue-IsQueue_example :
    ((dequeue 100 queues).0 ≡ some 3) × IsQueue (dequeue 100 queues).1.queuetab 100 (8 ∷ [])
dequeue-IsQueue_example = dequeue-IsQueue 100 3 queues (8 ∷ []) queues-IsQueue
