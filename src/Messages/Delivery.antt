-- ===== src/Messages/Delivery.antt =====
-- A message that was sent stays with its process until the process takes it.
use virtual_memory_xinu_f.Base.{
  ℕ, ◌≡◌, refl, sym, ap, ◌∙◌, Bool, true, false, not, ltb, ◌==◌, ◌||◌, arith, if◌then◌else◌, ok,
  some, none, Option, inl, inr, Bool-cases,
}
use virtual_memory_xinu_f.Base.Int.{ltb_ℤ}
use virtual_memory_xinu_f.Kernel.{Kernel, Proc, PrState, pr_ready, pr_curr}
use virtual_memory_xinu_f.Queues.{Queues, dequeue}
use virtual_memory_xinu_f.System.{System, proc_of, set_prstate}
use virtual_memory_xinu_f.Sched.{
  is_curr, insert_ready, switch, run_first, resched, ready, bad_pid, firstkey,
}
use virtual_memory_xinu_f.Sched.Clock.{is_timed, unsleep}
use virtual_memory_xinu_f.Messages.{
  is_free, is_recv, is_rectim, deliver, send, receive_resumed, receive, own_message, taken,
}

eq_self : (a : ℕ) → (a == a) ≡ true
eq_self a = ground arith

-- What a change of states leaves alone, `resched`, `ready` and `unsleep` leave alone.
module _ {A : Type 0} (f : Proc → A)
    (same : (p : Proc) (st : PrState) → f (record p { prstate = st }) ≡ f p) (a : ℕ) where
  set_prstate_keeps :
      (pid : ℕ) (st : PrState) (y : System) → f (proc_of a (set_prstate pid st y)) ≡ f (proc_of a y)
  set_prstate_keeps pid st y = elim (Bool-cases (pid == a)) [
    | inl e ↦
        let here : pid ≡ a = ground arith in
        rw e (same (proc_of pid y) st ∙ ap (λ b. f (proc_of b y)) here)
    | inr ne ↦ rw ne refl
  ]

  either :
      (b : Bool) (s t : System) (v : A)
      → f (proc_of a s) ≡ v
      → f (proc_of a t) ≡ v
      → f (proc_of a (if b then s else t)) ≡ v
  either true s t v h1 h2 = h1
  either false s t v h1 h2 = h2

  switch_keeps : (y : System) → f (proc_of a (switch y)) ≡ f (proc_of a y)
  unfolding switch
  switch_keeps y = go (dequeue y.readylist y.queues)
    where
      go : (r : Option ℕ × Queues) → f (proc_of a (run_first r y)) ≡ f (proc_of a y)
      go (none, s) = refl
      go (some p, s) = set_prstate_keeps p pr_curr y

  resched_keeps : (y : System) → f (proc_of a (resched y)) ≡ f (proc_of a y)
  unfolding resched
  resched_keeps y =
      let old = y.kernel.currpid in
      let y' = set_prstate old pr_ready y in
      either (ltb 0 y.ndefers) _ _ _ refl (
        either (not (is_curr (proc_of old y).prstate)) _ _ _ (switch_keeps y) (
          either (ltb_ℤ (firstkey y.readylist y.queues) (proc_of old y).prprio) _ _ _ refl
            (switch_keeps (insert_ready old y') ∙ set_prstate_keeps old pr_ready y)))

  ready_keeps : (pid : ℕ) (y : System) → f (proc_of a (ready pid y).1) ≡ f (proc_of a y)
  unfolding ready
  ready_keeps pid y = elim (Bool-cases (bad_pid pid y)) [
    | inl bad ↦ rw bad refl
    | inr valid ↦ rw valid (
        resched_keeps (insert_ready pid (set_prstate pid pr_ready y))
        ∙ set_prstate_keeps pid pr_ready y)
  ]

unsleep_kernel : (pid : ℕ) (y : System) → (unsleep pid y).1.kernel ≡ y.kernel
unfolding unsleep
unsleep_kernel pid y = elim (Bool-cases (bad_pid pid y)) [
  | inl bad ↦ rw bad refl
  | inr valid ↦ elim (Bool-cases (is_timed (proc_of pid y).prstate)) [
    | inl timed ↦ rw (valid, timed) refl
    | inr other ↦ rw (valid, other) refl
  ]
]

-- The part of a process that messages are about.
abbrev pub message : Proc → Bool × ℕ
message p = (p.prhasmsg, p.prmsg)

message-deliver :
    (pid msg : ℕ) (y : System) → message (proc_of pid (deliver pid msg y)) ≡ (true, msg)
message-deliver pid msg y = let same = eq_self pid in rw same refl

pub send-message :
    (pid msg : ℕ) (y : System)
    → bad_pid pid y ≡ false
    → (is_free (proc_of pid y).prstate || (proc_of pid y).prhasmsg) ≡ false
    → ((send pid msg y).0 ≡ ok) × (message (proc_of pid (send pid msg y).1) ≡ (true, msg))
unfolding send
send-message pid msg y valid free =
    let y' = deliver pid msg y in
    let at = message-deliver pid msg y in
    let keeps = ready_keeps message (λ p st. refl) pid pid in
    elim (Bool-cases (is_recv (proc_of pid y).prstate)) [
      | inl waits ↦ rw (valid, free, waits) (refl, keeps y' ∙ at)
      | inr busy ↦ elim (Bool-cases (is_rectim (proc_of pid y).prstate)) [
        | inl timed ↦
            rw (valid, free, busy, timed)
              (
                refl,
                keeps (unsleep pid y').1
                    ∙ ap (λ (k : Kernel). message (k.proctab pid)) (unsleep_kernel pid y')
                    ∙ at,
              )
        | inr awake ↦ rw (valid, free, busy, awake) (refl, at)
      ]
    ]

receive_eq :
    (z : System)
    → (proc_of z.kernel.currpid z).prhasmsg ≡ true
    → receive z ≡ (some (own_message z), taken z)
unfolding receive receive_resumed
receive_eq z has = rw has refl

taken_keeps : (z : System) → (proc_of z.kernel.currpid (taken z)).prhasmsg ≡ false
taken_keeps z = let same = eq_self z.kernel.currpid in rw same refl

-- `send` to a process that is valid, not free and without a message returns OK, whether the process
-- waits for a message, waits with a time limit, or does not wait. When the process runs and
-- nothing has touched its message, `receive` returns this message at once, and leaves the process
-- without one.
pub receive-send :
    (pid msg : ℕ) (y z : System)
    → bad_pid pid y ≡ false
    → (is_free (proc_of pid y).prstate || (proc_of pid y).prhasmsg) ≡ false
    → z.kernel.currpid ≡ pid
    → message (proc_of pid z) ≡ message (proc_of pid (send pid msg y).1)
    → ((send pid msg y).0 ≡ ok)
      × ((receive z).0 ≡ some msg)
      × ((proc_of pid (receive z).1).prhasmsg ≡ false)
receive-send pid msg y z valid free runs kept =
    let sent = send-message pid msg y valid free in
    let whole : message (proc_of z.kernel.currpid z) ≡ (true, msg) =
      ap (λ b. message (proc_of b z)) runs ∙ kept ∙ sent.1 in
    let got = receive_eq z (ap (λ (m : Bool × ℕ). m.0) whole) in
    (
      sent.0,
      ap (λ (r : Option ℕ × System). r.0) got ∙ ap (λ (m : Bool × ℕ). some m.1) whole,
      ap (λ (r : Option ℕ × System). (proc_of pid r.1).prhasmsg) got
          ∙ ap (λ b. (proc_of b (taken z)).prhasmsg) (sym runs)
          ∙ taken_keeps z,
    )
