-- ===== src/Process/Wait/Effect.antt =====
-- One scan of `wait`, on all its branches.
use bf_scheduler.Common.{
  ℕ, zero, suc, ◌<◌, ◌≡◌, refl, Bool, true, false, not, Option, none, some, ◌&&◌, ◌||◌, arith, ◌==◌,
  ◌∙◌, Outcome, done, ◌⊎◌, inl, inr, Bool-cases, Option-cases, update_self, ==→eq,
}
use bf_scheduler.Common.Int.{ℤ, pos}
use bf_scheduler.SkipList.{nproc, minus_one}
use bf_scheduler.Process.{unused, zombie, same_state, of_proc, Proc, Kernel, set_proc}
use bf_scheduler.Process.Section.{
  IsIdle, Settled, entered, acquire_ptable-entered, settle, settle-Settled, release_ptable-settle,
}
use bf_scheduler.Process.Scan.{first_from, IsFirst, first_from-IsFirst, first_from-none}
use bf_scheduler.Process.Switch.{sleep_enter}
use bf_scheduler.Process.Switch.Effect.{Asleep, slept, slept-Asleep, fall_asleep-slept}
use bf_scheduler.Process.Exit.{is_child}
use bf_scheduler.Process.Wait.{scan_children, reap, wait_round, wait_begin}

-- A child of `cur` that has exited.
abbrev pub gone_child : ℕ → (ℕ → Proc) → ℕ → Bool
gone_child cur p i = is_child cur (p i) && same_state (p i).state zombie

scan_children-first_from :
    (cur : ℕ) (p : ℕ → Proc) (n i : ℕ) (h : Bool)
    → (scan_children cur p n i h).1 ≡ first_from (gone_child cur p) n i
unfolding scan_children first_from
scan_children-first_from cur p zero i h = refl
scan_children-first_from cur p (suc n) i h =
    ground (arith, scan_children-first_from cur p n (suc i) (h || is_child cur (p i)))

abbrev any_child : ℕ → (ℕ → Proc) → ℕ → Bool
any_child cur p i = is_child cur (p i)

abbrev found : Option ℕ → Bool
found none = false
found (some i) = true

-- With no such child the first result tells whether there is a child at all.
scan_children-havekids :
    (cur : ℕ) (p : ℕ → Proc) (n i : ℕ) (h : Bool)
    → first_from (gone_child cur p) n i ≡ none
    → (scan_children cur p n i h).0 ≡ (h || found (first_from (any_child cur p) n i))
unfolding scan_children first_from
scan_children-havekids cur p zero i h e = ground arith
scan_children-havekids cur p (suc n) i h e =
    ground (arith, scan_children-havekids cur p n (suc i) (h || is_child cur (p i)))

-- A slot that is free: UNUSED, with no pid, parent or kernel stack.
pub record Freed (p p' : Proc) : Type 0 where
  pub state : p'.state ≡ unused
  pub pid : p'.pid ≡ pos 0
  pub parent : p'.parent ≡ none
  pub kstack : p'.kstack ≡ none
  pub killed : p'.killed ≡ 0

reap-Freed : (p : Proc) → Freed p (reap p)
unfolding reap
reap-Freed p = record { state = refl; pid = refl; parent = refl; kstack = refl; killed = refl }

-- What one scan of `wait` by `cur` comes to.
pub data Waited (cur : ℕ) (k k' : Kernel) (r : Option ℤ) : Type 0 where
  reaped :
      (i : ℕ)
      → IsFirst (gone_child cur k.proc) 0 nproc i
      → r ≡ some (k.proc i).pid
      → Freed (k.proc i) (k'.proc i)
      → ((j : ℕ) → (j == i) ≡ false → k'.proc j ≡ k.proc j)
      → Settled k k'
      → Waited cur k k' r
  hopeless :
      ((j : ℕ) → j < nproc → gone_child cur k.proc j ≡ false)
      → ((j : ℕ) → j < nproc → is_child cur (k.proc j) ≡ false)
        ⊎ (((k.proc cur).killed == 0) ≡ false)
      → r ≡ some minus_one
      → k'.proc ≡ k.proc
      → Settled k k'
      → Waited cur k k' r
  asleep :
      (i : ℕ)
      → i < nproc
      → is_child cur (k.proc i) ≡ true
      → ((j : ℕ) → j < nproc → gone_child cur k.proc j ≡ false)
      → (k.proc cur).killed ≡ 0
      → r ≡ none
      → Asleep cur (of_proc cur) k k'
      → Waited cur k k' r

-- A run of `wait` to its return or its first sleep.
pub record Result (cur : ℕ) (k : Kernel) : Type 0 where
  pub result : Option ℤ
  pub after : Kernel
  pub run : wait_begin cur k ≡ done (result, after)
  pub waited : Waited cur k after result

module _ (cur : ℕ) (k : Kernel) (idle : IsIdle k) (zero : k.cpu.ncli ≡ 0) where
  abbrev first_gone : Option ℕ
  first_gone = first_from (gone_child cur k.proc) nproc 0

  round_run :
      (r : Outcome (Option ℤ × Kernel)) → wait_round cur (entered k) ≡ r → wait_begin cur k ≡ r
  unfolding wait_begin
  round_run r e = rw (acquire_ptable-entered k idle) e

  with_gone : (i : ℕ) → first_gone ≡ some i → Result cur k
  unfolding wait_round set_proc
  with_gone i e =
      let k1 = set_proc (entered k) i (reap (k.proc i)) in
      record {
        result = some (k.proc i).pid;
        after = settle k k1;
        run = round_run (done (some (k.proc i).pid, settle k k1)) (
            rw (scan_children-first_from cur k.proc nproc 0 false ∙ e, wait_round)
              (rw (release_ptable-settle k k1 idle refl refl) refl));
        waited =
            reaped i (first_from-IsFirst (gone_child cur k.proc) nproc 0 i e) refl
              (rw (update_self k.proc i (reap (k.proc i))) (reap-Freed (k.proc i)))
              (λ j ne. ground arith) (settle-Settled k k1);
      }

  none_gone : first_gone ≡ none → (j : ℕ) → j < nproc → gone_child cur k.proc j ≡ false
  none_gone e j lt = first_from-none (gone_child cur k.proc) nproc 0 e j (omega arith) (omega arith)

  give_up :
      first_gone ≡ none
      → (not (found (first_from (any_child cur k.proc) nproc 0)) || not ((k.proc cur).killed == 0))
        ≡ true
      → ((j : ℕ) → j < nproc → is_child cur (k.proc j) ≡ false)
        ⊎ (((k.proc cur).killed == 0) ≡ false)
      → Result cur k
  unfolding wait_round
  give_up e test why = record {
    result = some minus_one;
    after = settle k (entered k);
    run = round_run (done (some minus_one, settle k (entered k))) (
        rw
          (
            scan_children-first_from cur k.proc nproc 0 false ∙ e,
            wait_round,
            scan_children-havekids cur k.proc nproc 0 false e,
            test,
          )
          (rw (release_ptable-settle k (entered k) idle refl refl) refl));
    waited = hopeless (none_gone e) why refl refl (settle-Settled k (entered k));
  }

  go_to_sleep :
      (i : ℕ)
      → first_gone ≡ none
      → first_from (any_child cur k.proc) nproc 0 ≡ some i
      → ((k.proc cur).killed == 0) ≡ true
      → Result cur k
  unfolding wait_round sleep_enter
  go_to_sleep i e has alive =
      let first = first_from-IsFirst (any_child cur k.proc) nproc 0 i has in
      let a = slept-Asleep cur (of_proc cur) (entered k) in
      record {
        result = none;
        after = slept cur (of_proc cur) (entered k);
        run = round_run (done (none, slept cur (of_proc cur) (entered k))) (
            rw
              (
                scan_children-first_from cur k.proc nproc 0 false ∙ e,
                wait_round,
                scan_children-havekids cur k.proc nproc 0 false e,
                has,
                alive,
              )
              (rw
                (fall_asleep-slept cur (of_proc cur) (entered k)
                  (record { ncli = omega (arith, zero); off = refl }) refl)
                refl));
        waited =
            asleep i first.upper first.passes (none_gone e) (==→eq _ _ alive) refl
              (record { holds = a.holds; locked = a.locked; sleeps = a.sleeps; others = a.others });
      }

  -- `wait`, called with no lock held, either returns the pid of its first ZOMBIE child and frees that
  -- slot, which is UNUSED, without pid, parent and kernel stack; or, with no such child, and no child at all or having been killed, returns -1 and leaves the
  -- table; or, with a child that has not exited, sleeps on its own channel under `ptable.lock`.
  pub wait_begin-Waited : Result cur k
  wait_begin-Waited = elim (Option-cases first_gone) [
    | inr (i, e) ↦ with_gone i e
    | inl e ↦ elim (Option-cases (first_from (any_child cur k.proc) nproc 0)) [
      | inl barren ↦ give_up e (rw barren refl) (
          inl (λ j lt.
            first_from-none (any_child cur k.proc) nproc 0 barren j (omega arith) (omega arith)))
      | inr (i, has) ↦ elim (Bool-cases ((k.proc cur).killed == 0)) [
        | inl alive ↦ go_to_sleep i e has alive
        | inr dead ↦ give_up e (rw (has, dead) refl) (inr dead)
      ]
    ]
  ]
