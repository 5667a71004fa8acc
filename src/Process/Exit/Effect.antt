-- ===== src/Process/Exit/Effect.antt =====
-- What `exit` leaves in the table when it reaches `swtch`.
use bf_scheduler.Common.{
  ℕ, ◌<◌, ◌≡◌, Bool, true, false, some, ◌&&◌, arith, ltb, ◌==◌, if◌then◌else◌, ◌∙◌, sym, ap, done,
  ◌⊎◌, inl, inr, Bool-cases,
}
use bf_scheduler.SkipList.{nproc}
use bf_scheduler.Process.{
  sleeping, runnable, running, zombie, same_state, same_chan, of_proc, chan_of, Proc, Kernel,
  set_proc,
}
use bf_scheduler.Process.Section.{IsIdle, held, entered, acquire_ptable-entered}
use bf_scheduler.Process.Signal.{wake, wakeup1}
use bf_scheduler.Process.Switch.Effect.{HoldsOne, sched_lem}
use bf_scheduler.Process.Exit.{is_child, adopt, exit_proc}
use bf_scheduler.Process.Exit.Adopt.{
  any_zombie, any_zombie_cong, adopt-lock, adopt-cpu, adopt-changed, changed,
}

-- The kernel at the `swtch` of `exit`.
pub record Exited (cur : ℕ) (k k' : Kernel) : Type 0 where
  pub holds : HoldsOne k'.cpu
  pub locked : k'.lock ≡ held k.cpu.id
  pub ended : (k'.proc cur).state ≡ zombie
  pub orphans :
      (j : ℕ)
      → j < nproc
      → (j == cur) ≡ false
      → (k'.proc j).parent
        ≡ (if is_child cur (k.proc j) then some k.initproc else (k.proc j).parent)
  pub parent_woken :
      (j : ℕ)
      → j < nproc
      → (j == cur) ≡ false
      → (k.proc cur).parent ≡ some j
      → (k.proc j).state ≡ sleeping
      → (k.proc j).chan ≡ of_proc j
      → (k'.proc j).state ≡ runnable
  pub init_woken :
      k.initproc < nproc
      → any_zombie cur nproc k.proc ≡ true
      → (k.proc k.initproc).state ≡ sleeping
      → (k.proc k.initproc).chan ≡ of_proc k.initproc
      → (k'.proc k.initproc).state ≡ runnable
  pub others :
      (j : ℕ)
      → (j == cur) ≡ false
      → ((k'.proc j).state ≡ (k.proc j).state)
        ⊎ (((k.proc j).state ≡ sleeping) × ((k'.proc j).state ≡ runnable))

module _ (cur : ℕ) (k : Kernel) (idle : IsIdle k) (zero : k.cpu.ncli ≡ 0) where
  woken : Kernel
  woken = wakeup1 (chan_of (k.proc cur).parent) (entered k)

  swept : Kernel
  swept = adopt cur nproc woken

  ended_kernel : Kernel
  ended_kernel = set_proc swept cur (record (swept.proc cur) { state = zombie })

  ended-HoldsOne : HoldsOne ended_kernel.cpu
  unfolding ended_kernel set_proc swept woken wakeup1
  ended-HoldsOne = ground (arith, adopt-cpu cur nproc woken)

  ended-lock : ended_kernel.lock ≡ held k.cpu.id
  unfolding ended_kernel set_proc swept woken wakeup1
  ended-lock = adopt-lock cur nproc woken

  ended-id : ended_kernel.cpu.id ≡ k.cpu.id
  unfolding ended_kernel set_proc swept woken wakeup1
  ended-id = ground (arith, adopt-cpu cur nproc woken)

  woken-zombie : any_zombie cur nproc woken.proc ≡ any_zombie cur nproc k.proc
  unfolding woken wakeup1 wake
  woken-zombie = any_zombie_cong cur nproc woken.proc k.proc (λ i. ground arith)

  -- A process other than `cur` at the end.
  ended-changed :
      (j : ℕ)
      → (j == cur) ≡ false
      → j < nproc
      → ended_kernel.proc j
        ≡ changed k.initproc
            (any_zombie cur nproc k.proc)
            (is_child cur (k.proc j))
            (wake (chan_of (k.proc cur).parent) (k.proc j))
  unfolding ended_kernel set_proc swept woken wakeup1 wake
  ended-changed j ne lt = ground (arith, adopt-changed cur nproc woken j, woken-zombie)

  ended-far : (j : ℕ) → (j == cur) ≡ false → ltb j nproc ≡ false → ended_kernel.proc j ≡ k.proc j
  unfolding ended_kernel set_proc swept woken wakeup1 wake
  ended-far j ne far = ground (arith, adopt-changed cur nproc woken j)

  ended-zombie : (ended_kernel.proc cur).state ≡ zombie
  unfolding ended_kernel set_proc
  ended-zombie = ground arith

  exit_run : (cur == k.initproc) ≡ false → exit_proc cur k ≡ done ended_kernel
  unfolding exit_proc ended_kernel swept woken
  exit_run ne =
      rw (ne, acquire_ptable-entered k idle)
        (sched_lem cur ended_kernel ended-HoldsOne (ended-lock ∙ ap held (sym ended-id))
          (ap (λ s. same_state s running) ended-zombie))

  wake-state :
      (w m : Bool) (p : Proc)
      → ((changed k.initproc w m (wake (chan_of (k.proc cur).parent) p)).state ≡ p.state)
        ⊎ ((p.state ≡ sleeping)
            × ((changed k.initproc w m (wake (chan_of (k.proc cur).parent) p)).state ≡ runnable))
  unfolding wake
  wake-state w m p = elim (Bool-cases (same_state p.state sleeping)) [
    | inl asleep ↦ elim (Bool-cases (same_chan p.chan (chan_of (k.proc cur).parent))) [
      | inl match ↦ inr (ground arith, ground arith)
      | inr other ↦ elim (Bool-cases (w && same_chan p.chan (of_proc k.initproc))) [
        | inl init ↦ inr (ground arith, ground arith)
        | inr still ↦ inl (ground arith)
      ]
    ]
    | inr awake ↦ inl (ground arith)
  ]

  kept :
      (j : ℕ)
      → (j == cur) ≡ false
      → ((ended_kernel.proc j).state ≡ (k.proc j).state)
        ⊎ (((k.proc j).state ≡ sleeping) × ((ended_kernel.proc j).state ≡ runnable))
  kept j other = elim (Bool-cases (ltb j nproc)) [
    | inr far ↦ inl (ap (λ (p : Proc). p.state) (ended-far j other far))
    | inl near ↦
        rw (ended-changed j other (ground arith))
          (wake-state (any_zombie cur nproc k.proc) (is_child cur (k.proc j)) (k.proc j))
  ]

  -- `exit`, called with no lock held by a process other than init, reaches `swtch` with `ptable.lock`
  -- alone. The process is a ZOMBIE; its children, and no others, are children of init; its parent, if
  -- it sleeps in `wait`, is RUNNABLE, and so is init if it sleeps in `wait` and one of the children
  -- was a ZOMBIE. Any other process keeps its state or is woken from sleep.
  pub exit_proc-Exited :
      (cur == k.initproc) ≡ false → (k' : Kernel) × (exit_proc cur k ≡ done k') × Exited cur k k'
  unfolding wake
  exit_proc-Exited ne = (
    ended_kernel,
    exit_run ne,
    record {
      holds = ended-HoldsOne;
      locked = ended-lock;
      ended = ended-zombie;
      orphans = λ j lt other. ground (arith, ended-changed j other lt);
      parent_woken = λ j lt other par s c. ground (arith, ended-changed j other lt);
      init_woken = λ lt any s c. ground (arith, ended-changed k.initproc (ground arith) lt);
      others = λ j other. kept j other;
    },
  )
