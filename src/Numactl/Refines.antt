-- ===== src/Numactl/Refines.antt =====
-- What `main` does with an option, seen through the view, is what the abstract rules say.
use numactl.Base.{ℕ, ◌≡◌, refl, ap, sym, ◌∙◌, Bool, true, false, not, Option, some, Bytes, arith}
use numactl.Policy.{Reply, Outcome, done, exited, Action}
use numactl.Numactl.{Flags, Data, Exit, Progress, going, stopped, Run, continue, pure, ◌>>=◌}
use numactl.Numactl.Guards.{
  refuse_if, set_flags, set_data, lift, system, clear_errno, checkerror, setpolicy, nopolicy, noshm,
  dontshm, needshm, check_shmbeyond, carried,
}
use numactl.Numactl.Spec.{View, view, unless, then_spec}

module _ {W : Type 0} where
  -- A part of `main` that goes on has an abstract step.
  pub record Refines {A : Type 0} (m : Run W A) (s : View → Option View) : Type 0 where
    pub step :
        (f : Flags) (d : Data W) (a : A) (g : Flags) (e : Data W)
        → m f d ≡ going a g e
        → s (view f) ≡ some (view g)

  continue-going :
      {A B : Type 0} (p : Progress W A) (k : A → Run W B) (b : B) (g : Flags) (e : Data W)
      → continue p k ≡ going b g e
      → (a : A) × (h : Flags) × (c : Data W) × (p ≡ going a h c) × (k a h c ≡ going b g e)
  continue-going (going a h c) k b g e q = (a, h, c, refl, q)
  continue-going (stopped r) k b g e q = cc q

  -- One part behind another.
  pub both :
      {A B : Type 0} {m : Run W A} {k : A → Run W B} {s t : View → Option View}
      → Refines m s
      → ((a : A) → Refines (k a) t)
      → Refines (m >>= k) (λ v. then_spec (s v) t)
  both {m} {k} {s} {t} rm rk = record {
    step = λ f d b g e q.
        let (a, h, c, first, rest) = continue-going (m f d) k b g e q in
        ap (λ x. then_spec x t) (rm.step f d a h c first) ∙ (rk a).step h c b g e rest;
  }

  -- Behind a part that leaves the view alone, and in front of one.
  pub skip :
      {A B : Type 0} {m : Run W A} {k : A → Run W B} {t : View → Option View}
      → Refines m some
      → ((a : A) → Refines (k a) t)
      → Refines (m >>= k) t
  skip rm rk = both rm rk

  pub last :
      {A B : Type 0} {m : Run W A} {k : A → Run W B} {s : View → Option View}
      → Refines m s
      → ((a : A) → Refines (k a) some)
      → Refines (m >>= k) s
  last {m} {k} rm rk = record {
    step = λ f d b g e q.
        let (a, h, c, first, rest) = continue-going (m f d) k b g e q in
        rm.step f d a h c first ∙ (rk a).step h c b g e rest;
  }

  pub alike :
      {A : Type 0} {m : Run W A} {s t : View → Option View}
      → ((v : View) → s v ≡ t v)
      → Refines m s
      → Refines m t
  alike same rm = record { step = λ f d a g e q. sym (same (view f)) ∙ rm.step f d a g e q }

  -- A part that reads the variables first.
  pub reading :
      {A : Type 0} {m : Flags → Data W → Run W A} {s : View → Option View}
      → ((f : Flags) (d : Data W) → Refines (m f d) s)
      → Refines (λ f d. m f d f d) s
  reading rm = record { step = λ f d. (rm f d).step f d }

  carried-flags :
      {A : Type 0} (f : Flags) (d : Data W) (o : Outcome W A) (a : A) (g : Flags) (e : Data W)
      → carried f d o ≡ going a g e
      → view f ≡ view g
  carried-flags f d (done b t) a g e q = cc q
  carried-flags f d (exited t) a g e q = cc q

  pub lift-Refines : {A : Type 0} (m : Action W A) → Refines (lift m) some
  unfolding lift
  lift-Refines m = record { step = λ f d a g e q. ap some (carried-flags f d (m d.task) a g e q) }

  pub system-Refines : (m : W → Reply (Unit {0}) × W) → Refines (system m) some
  unfolding system
  system-Refines m = lift-Refines _

  pub refuse_if-Refines : (b : Bool) (r : Exit) → Refines (refuse_if b r) some
  unfolding refuse_if
  refuse_if-Refines true r = record { step = λ f d a g e q. cc q }
  refuse_if-Refines false r = record { step = λ f d a g e q. cc q }

  pub set_data-Refines : (h : Data W → Data W) → Refines (set_data h) some
  unfolding set_data
  set_data-Refines h = record { step = λ f d a g e q. cc q }

  pub pure-Refines : {A : Type 0} (b : A) → Refines (pure b) some
  pure-Refines b = record { step = λ f d a g e q. cc q }

  pub clear_errno-Refines : Refines clear_errno some
  unfolding clear_errno
  clear_errno-Refines = set_data-Refines _

  pub checkerror-Refines : Refines checkerror some
  unfolding checkerror
  checkerror-Refines = record { step = λ f d a g e q. ground arith }

  pub set_flags-Refines :
      (h : Flags → Flags) (s : View → Option View)
      → ((f : Flags) → s (view f) ≡ some (view (h f)))
      → Refines (set_flags h) s
  set_flags-Refines h s same = record {
    step = λ f d a g e q. let end : h f ≡ g = cc q in same f ∙ ap (λ x. some (view x)) end;
  }

  pub setpolicy-Refines :
      (pol : ℕ) → Refines (setpolicy pol) (λ v. unless v.policy (record v { policy = true }))
  unfolding setpolicy
  setpolicy-Refines pol = record { step = λ f d a g e q. ground arith }

  pub nopolicy-Refines : Refines nopolicy (λ v. unless v.policy v)
  unfolding nopolicy
  nopolicy-Refines = record { step = λ f d a g e q. ground arith }

  pub noshm-Refines :
      (opt : Bytes) → Refines (noshm opt) (λ v. unless v.shmattached (record v { named = true }))
  unfolding noshm
  noshm-Refines opt = record { step = λ f d a g e q. ground arith }

  pub dontshm-Refines : Refines dontshm (λ v. unless v.named v)
  unfolding dontshm
  dontshm-Refines = record { step = λ f d a g e q. ground arith }

  pub needshm-Refines : Refines needshm (λ v. unless (not v.shmattached) v)
  unfolding needshm
  needshm-Refines = record { step = λ f d a g e q. ground arith }

  pub check_shmbeyond-Refines : Refines check_shmbeyond some
  unfolding check_shmbeyond
  check_shmbeyond-Refines = record { step = λ f d a g e q. ground arith }
