-- ===== src/Numactl/Rules.antt =====
-- What follows for the options of numactl: which may stand behind which, and when the command runs.
use numactl.Base.{
  ◌≡◌, refl, sym, ◌∙◌, Bool, true, false, not, List, [], ◌∷◌, ◌++◌, some, Bytes, arith,
}
use numactl.Base.Ints.{is_neg}
use numactl.Libnuma.{State}
use numactl.Policy.{Kernel}
use numactl.Numactl.{Opt, Flags, no_flags, Data, Progress, going, stopped, System}
use numactl.Numactl.Guards.{check_cpubind, refuse_if, is_some}
use numactl.Numactl.Options.{check_do_shm}
use numactl.Numactl.Commands.{handle_all, run_command, ended, behind, main}
use numactl.Numactl.Spec.{
  View, view, spec, spec_all, then_spec-some, is_policy, attaches, is_setting, binds_cpus,
  names_nodes, is_all, any, Needs, LeftAll, spec-Needs, spec_all-LeftAll, spec_all-append,
}
use numactl.Numactl.Accepts.{handle_all-Refines}

-- What the variables say behind options that are accepted.
abbrev pub Says : List Opt → Flags → Type 0
Says opts g =
    (not (is_neg g.set_policy) ≡ any is_policy opts)
    × (g.attached ≡ any attaches opts)
    × (g.shmattached ≡ any attaches opts)
    × (is_some g.shmoption ≡ any is_setting opts)
    × (g.did_node_cpu_parse ≡ any names_nodes opts)
    × (g.did_cpubind ≡ any binds_cpus opts)
    × (g.do_shm ≡ false)

module _ {W : Type 0} (k : Kernel W) (exit_on_error fail_alloc_on_error : Bool) (st : State)
    (sys : System W) where
  -- If the loop of `main` goes on behind the last of the options, then the abstract rules accept the
  -- options one after the other, and they lead from the view of the variables before the first
  -- option to the view of those behind the last.
  pub handle_all-spec_all :
      (opts : List Opt) (f : Flags) (d : Data W) (g : Flags) (e : Data W)
      → handle_all k exit_on_error fail_alloc_on_error st sys opts f d ≡ going tt g e
      → spec_all opts (view f) ≡ some (view g)
  handle_all-spec_all opts f d g e q =
      (handle_all-Refines k exit_on_error fail_alloc_on_error st sys opts).step f d tt g e q

  -- If the loop of `main` goes on behind the last of the options, from the variables as they are at
  -- first, then each variable says what it is for: a policy is set, memory is attached (with
  -- `shmattached` and `shmfd` alike), `shmoption` names an option, nodes were named, or cpus were
  -- bound, exactly if one of the options does so. `do_shm` is still false.
  pub handle_all-Says :
      (opts : List Opt) (d : Data W) (g : Flags) (e : Data W)
      → handle_all k exit_on_error fail_alloc_on_error st sys opts no_flags d ≡ going tt g e
      → Says opts g
  handle_all-Says opts d g e q =
      let l =
        spec_all-LeftAll opts (view no_flags) (view g)
          (handle_all-spec_all opts no_flags d g e q) in
      ground (arith, l)

  -- What an option needs of those before it.
  accepted_among :
      (xs ys : List Opt) (o : Opt) (d : Data W) (g : Flags) (e : Data W)
      → handle_all k exit_on_error fail_alloc_on_error st sys (xs ++ (o ∷ ys)) no_flags d
        ≡ going tt g e
      → (v : View) × LeftAll xs (view no_flags) v × Needs o v
  unfolding spec_all
  accepted_among xs ys o d g e q =
      let (v, before, after) =
        spec_all-append xs (o ∷ ys) (view no_flags) (view g)
          (handle_all-spec_all (xs ++ (o ∷ ys)) no_flags d g e q) in
      let (w, accepts, rest) = then_spec-some (spec o v) (spec_all ys) (view g) after in
      (v, spec_all-LeftAll xs (view no_flags) v before, spec-Needs o v w accepts)

  -- If the loop of `main` accepts options among which one sets a policy, then none of those before
  -- it sets one. So at most one of the options that are accepted sets a policy.
  pub handle_all-one_policy :
      (xs ys : List Opt) (o : Opt) (d : Data W) (g : Flags) (e : Data W)
      → handle_all k exit_on_error fail_alloc_on_error st sys (xs ++ (o ∷ ys)) no_flags d
        ≡ going tt g e
      → is_policy o ≡ true
      → any is_policy xs ≡ false
  handle_all-one_policy xs ys o d g e q p =
      let (v, left, needs) = accepted_among xs ys o d g e q in ground (arith, left, needs)

  -- If the loop of `main` accepts options among which one attaches shared memory, then none of
  -- those before it sets a policy or binds to cpus.
  pub handle_all-attach_first :
      (xs ys : List Opt) (o : Opt) (d : Data W) (g : Flags) (e : Data W)
      → handle_all k exit_on_error fail_alloc_on_error st sys (xs ++ (o ∷ ys)) no_flags d
        ≡ going tt g e
      → attaches o ≡ true
      → (any is_policy xs ≡ false) × (any binds_cpus xs ≡ false)
  handle_all-attach_first xs ys o d g e q p =
      let (v, left, needs) = accepted_among xs ys o d g e q in ground (arith, left, needs)

  -- If the loop of `main` accepts options among which one is `--length`, `--shmmode`, `--offset` or
  -- `--huge`, then none of those before it attaches shared memory.
  pub handle_all-settings_first :
      (xs ys : List Opt) (o : Opt) (d : Data W) (g : Flags) (e : Data W)
      → handle_all k exit_on_error fail_alloc_on_error st sys (xs ++ (o ∷ ys)) no_flags d
        ≡ going tt g e
      → is_setting o ≡ true
      → any attaches xs ≡ false
  handle_all-settings_first xs ys o d g e q p =
      let (v, left, needs) = accepted_among xs ys o d g e q in ground (arith, left, needs)

  -- If the loop of `main` accepts options with `--all` among them, then none of those before it
  -- names nodes or cpus: each list is read with the same rules.
  pub handle_all-all_first :
      (xs ys : List Opt) (o : Opt) (d : Data W) (g : Flags) (e : Data W)
      → handle_all k exit_on_error fail_alloc_on_error st sys (xs ++ (o ∷ ys)) no_flags d
        ≡ going tt g e
      → is_all o ≡ true
      → any names_nodes xs ≡ false
  handle_all-all_first xs ys o d g e q p =
      let (v, left, needs) = accepted_among xs ys o d g e q in ground (arith, left, needs)

  -- The guard of `--cpubind` and `--physcpubind` against shared memory never refuses: whatever
  -- options were accepted, those that attach memory among them, `check_cpubind(do_shm)` returns.
  pub check_do_shm-handle_all :
      (opts : List Opt) (d : Data W) (g : Flags) (e : Data W)
      → handle_all k exit_on_error fail_alloc_on_error st sys opts no_flags d ≡ going tt g e
      → check_do_shm k exit_on_error fail_alloc_on_error st sys g e ≡ going tt g e
  unfolding check_cpubind refuse_if
  check_do_shm-handle_all opts d g e q =
      let says : Says opts g = handle_all-Says opts d g e q in ground (arith, says)

  -- What `ended` runs.
  ended-run_command :
      (g : Flags) (e : Data W) (av bv : List Bytes)
      → ended g e av ≡ run_command bv
      → (g.attached ≡ false) × (is_some g.shmoption ≡ false) × (g.do_dump ≡ false) × (bv ≡ av)
  ended-run_command g e [] bv q = ground arith
  ended-run_command g e (a ∷ av) bv q = ground arith

  behind-run_command :
      (p : Progress W (Unit {0})) (av bv : List Bytes)
      → behind p av ≡ run_command bv
      → (g : Flags) × (e : Data W) × (p ≡ going tt g e) × (ended g e av ≡ run_command bv)
  behind-run_command (going tt g e) av bv q = (g, e, refl, q)
  behind-run_command (stopped r) av bv q = cc q

  -- If `main` runs a command, then the command is what stands behind the options, and none of the
  -- options attaches shared memory, or is one of --length, --offset, --shmmode and --huge.
  pub main-runs :
      (opts : List Opt) (d : Data W) (av bv : List Bytes)
      → main k exit_on_error fail_alloc_on_error st sys opts d av ≡ run_command bv
      → (bv ≡ av) × (any attaches opts ≡ false) × (any is_setting opts ≡ false)
  unfolding main
  main-runs opts d av bv q =
      let (g, e, goes, ends) =
        behind-run_command (handle_all k exit_on_error fail_alloc_on_error st sys opts no_flags d)
          av bv q in
      let (attached, named, dumped, same) = ended-run_command g e av bv ends in
      let says : Says opts g = handle_all-Says opts d g e goes in
      (same, sym (says.1) ∙ attached, sym (says.3) ∙ named)
