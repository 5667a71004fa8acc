-- ===== src/Process/Exit/Adopt.antt =====
-- What the loop over the children leaves of each process.
use bf_scheduler.Common.{
  ℕ, zero, suc, ◌≡◌, refl, Bool, false, some, ◌&&◌, ◌||◌, arith, ltb, ◌==◌, if◌then◌else◌,
  Bool-cases, inl, inr, true, ◌∙◌, ap,
}
use mathlib.Core.Path.{ap₂}
use bf_scheduler.SkipList.{nproc}
use bf_scheduler.Process.{zombie, same_state, of_proc, Proc, Kernel}
use bf_scheduler.Process.Signal.{wake, wakeup1}
use bf_scheduler.Process.Exit.{is_child, adopt_one, adopt}

-- Whether one of the first `n` processes is a child of `cur` that has exited.
pub any_zombie : ℕ → ℕ → (ℕ → Proc) → Bool
any_zombie cur zero p = false
any_zombie cur (suc n) p =
    any_zombie cur n p || (is_child cur (p n) && same_state (p n).state zombie)

pub any_zombie_cong :
    (cur n : ℕ) (p q : ℕ → Proc)
    → ((i : ℕ)
        → (is_child cur (p i) && same_state (p i).state zombie)
          ≡ (is_child cur (q i) && same_state (q i).state zombie))
    → any_zombie cur n p ≡ any_zombie cur n q
unfolding any_zombie
any_zombie_cong cur zero p q h = refl
any_zombie_cong cur (suc n) p q h = ground (arith, any_zombie_cong cur n p q h, h n)

module _ (cur n : ℕ) (k : Kernel) where
  adopt_one-initproc : (adopt_one cur n k).initproc ≡ k.initproc
  unfolding adopt_one wakeup1
  adopt_one-initproc = ground arith

  adopt_one-lock : (adopt_one cur n k).lock ≡ k.lock
  unfolding adopt_one wakeup1
  adopt_one-lock = ground arith

  adopt_one-cpu : (adopt_one cur n k).cpu ≡ k.cpu
  unfolding adopt_one wakeup1
  adopt_one-cpu = ground arith

pub adopt-initproc : (cur n : ℕ) (k : Kernel) → (adopt cur n k).initproc ≡ k.initproc
unfolding adopt
adopt-initproc cur zero k = refl
adopt-initproc cur (suc n) k = adopt_one-initproc cur n (adopt cur n k) ∙ adopt-initproc cur n k

pub adopt-lock : (cur n : ℕ) (k : Kernel) → (adopt cur n k).lock ≡ k.lock
unfolding adopt
adopt-lock cur zero k = refl
adopt-lock cur (suc n) k = adopt_one-lock cur n (adopt cur n k) ∙ adopt-lock cur n k

pub adopt-cpu : (cur n : ℕ) (k : Kernel) → (adopt cur n k).cpu ≡ k.cpu
unfolding adopt
adopt-cpu cur zero k = refl
adopt-cpu cur (suc n) k = adopt_one-cpu cur n (adopt cur n k) ∙ adopt-cpu cur n k

-- A process after the loop: `woken` if init was woken, `moved` if it was handed over to init.
abbrev pub changed : ℕ → Bool → Bool → Proc → Proc
changed init woken moved p =
    let q = if woken then wake (of_proc init) p else p in
    record q { parent = if moved then some init else p.parent }

adopt_one-changed :
    (cur n : ℕ) (k : Kernel) (j : ℕ)
    → (adopt_one cur n k).proc j
      ≡ changed k.initproc
          (is_child cur (k.proc n) && same_state (k.proc n).state zombie && ltb j nproc)
          ((j == n) && is_child cur (k.proc j))
          (k.proc j)
unfolding adopt_one wakeup1 wake
adopt_one-changed cur n k j = ground arith

changed-changed :
    (init : ℕ) (w m w' m' : Bool) (p : Proc)
    → changed init w' m' (changed init w m p) ≡ changed init (w || w') (m || m') p
unfolding wake
changed-changed init true m true m' p = ground arith
changed-changed init true m false m' p = ground arith
changed-changed init false m w' m' p = ground arith

changed-zombie :
    (init : ℕ) (w m : Bool) (p : Proc)
    → same_state (changed init w m p).state zombie ≡ same_state p.state zombie
unfolding wake
changed-zombie init w m p = ground arith

changed-is_child :
    (cur init : ℕ) (w m : Bool) (p : Proc)
    → m ≡ false
    → is_child cur (changed init w m p) ≡ is_child cur p
unfolding wake
changed-is_child cur init w m p e = ground arith

-- The two steps as one.
changed-step :
    (cur init init' n j : ℕ) (z : Bool) (p q pn qn : Proc)
    → init' ≡ init
    → q ≡ changed init (z && ltb j nproc) (ltb j n && is_child cur p) p
    → is_child cur qn ≡ is_child cur pn
    → same_state qn.state zombie ≡ same_state pn.state zombie
    → ((j == n) && is_child cur q) ≡ ((j == n) && is_child cur p)
    → changed init'
        (is_child cur qn && same_state qn.state zombie && ltb j nproc)
        ((j == n) && is_child cur q)
        q
      ≡ changed init
          ((z || (is_child cur pn && same_state pn.state zombie)) && ltb j nproc)
          (ltb j (suc n) && is_child cur p)
          p
changed-step cur init init' n j z p q pn qn ei eq ec es ej =
    rw (ei, ec, es, ej)
      (ap
          (changed init (is_child cur pn && same_state pn.state zombie && ltb j nproc)
            ((j == n) && is_child cur p))
          eq
        ∙ changed-changed init (z && ltb j nproc) (ltb j n && is_child cur p)
            (is_child cur pn && same_state pn.state zombie && ltb j nproc)
            ((j == n) && is_child cur p) p
        ∙ ap₂ (λ w m. changed init w m p) (ground arith) (ground arith))

-- The process `j` after the loop.
pub adopt-changed :
    (cur n : ℕ) (k : Kernel) (j : ℕ)
    → (adopt cur n k).proc j
      ≡ changed k.initproc
          (any_zombie cur n k.proc && ltb j nproc)
          (ltb j n && is_child cur (k.proc j))
          (k.proc j)
unfolding adopt any_zombie
adopt-changed cur zero k j = ground arith
adopt-changed cur (suc n) k j =
    let p = k.proc n in
    let at_n = adopt-changed cur n k n in
    let woken = any_zombie cur n k.proc && ltb n nproc in
    let moved = ltb n n && is_child cur p in
    adopt_one-changed cur n (adopt cur n k) j
    ∙ changed-step cur k.initproc (adopt cur n k).initproc n j (any_zombie cur n k.proc) (k.proc j)
        ((adopt cur n k).proc j) p ((adopt cur n k).proc n) (adopt-initproc cur n k)
        (adopt-changed cur n k j)
        (ap (is_child cur) at_n ∙ changed-is_child cur k.initproc woken moved p (ground arith))
        (ap (λ (q : Proc). same_state q.state zombie) at_n
          ∙ changed-zombie k.initproc woken moved p)
        (elim (Bool-cases (j == n)) [
          | inl here ↦ rw here (
              ap (is_child cur) (adopt-changed cur n k j)
              ∙ changed-is_child cur k.initproc (any_zombie cur n k.proc && ltb j nproc)
                  (ltb j n && is_child cur (k.proc j)) (k.proc j) (ground arith))
          | inr other ↦ rw other refl
        ])
