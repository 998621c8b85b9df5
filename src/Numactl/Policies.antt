-- ===== src/Numactl/Policies.antt =====
-- What `main` does with the options that set a policy or bind to cpus, seen through the view, is what
-- the abstract rules say; and so the reading of their arguments leaves the view alone.
use numactl.Base.{
  ℕ, refl, Bool, true, false, [], ◌∷◌, Option, some, none, Bytes, arith, if◌then◌else◌,
}
use numactl.Bitmask.{Bitmask}
use numactl.Libnuma.{State}
use numactl.Parse.{Result, ok, refused, no_mask, exhausted}
use numactl.Policy.{Kernel, Action}
use numactl.Shm.{Region}
use numactl.Numactl.{Run, System}
use numactl.Numactl.Guards.{
  refuse_if, ask_numa, checknuma, check_cpubind, mask_or_refuse, parse_list, whole,
  numactl_parse_nodestring, parse_cpus, number,
}
use numactl.Numactl.Options.{
  parse_mask, node_cpu_parsed, for_memory_or_task, interleave_with, bind_to_nodes, bind_to_cpus,
  bind_memory, prefer_memory, prefer_one, prefer_many, prefer, prefer_supported, prefer_local,
  check_do_shm, check_did_cpubind, cpus_bound,
}
use numactl.Numactl.Spec.{View, unless, set_policy, set_policy_of_nodes, bind_cpus}
use numactl.Numactl.Refines.{
  Refines, both, skip, last, alike, reading, lift-Refines, system-Refines, refuse_if-Refines,
  set_data-Refines, pure-Refines, clear_errno-Refines, checkerror-Refines, set_flags-Refines,
  setpolicy-Refines, dontshm-Refines,
}

module _ {W : Type 0} (k : Kernel W) (exit_on_error fail_alloc_on_error : Bool) (st : State)
    (sys : System W) where
  ask_numa-Refines : (checked : Bool) → Refines (ask_numa k exit_on_error checked) some
  ask_numa-Refines true = pure-Refines tt
  ask_numa-Refines false = skip (lift-Refines _) (λ r. refuse_if-Refines _ _)

  pub checknuma-Refines : Refines (checknuma k exit_on_error) some
  unfolding checknuma
  checknuma-Refines =
      skip (reading (λ f d. ask_numa-Refines d.numa_checked)) (λ u. set_data-Refines _)

  pub mask_or_refuse-Refines : (r : Result Bitmask) → Refines (mask_or_refuse {W = W} r) some
  mask_or_refuse-Refines (ok mask) = pure-Refines mask
  mask_or_refuse-Refines (refused r) = record { step = λ f d a g e q. cc q }
  mask_or_refuse-Refines no_mask = record { step = λ f d a g e q. cc q }
  mask_or_refuse-Refines exhausted = record { step = λ f d a g e q. cc q }

  pub parse_list-Refines :
      (every : Bool) (l : Option Bytes) → Refines (parse_list sys st every l) some
  parse_list-Refines every none = record { step = λ f d a g e q. cc q }
  parse_list-Refines every (some s) = record {
    step = λ f d a g e q. (mask_or_refuse-Refines _).step f _ a g e q;
  }

  pub numactl_parse_nodestring-Refines :
      (s : Bytes) → Refines (numactl_parse_nodestring sys st s) some
  unfolding numactl_parse_nodestring
  numactl_parse_nodestring-Refines s = reading (λ f d. parse_list-Refines _ _)

  pub parse_mask-Refines :
      (s : Bytes) → Refines (parse_mask k exit_on_error fail_alloc_on_error st sys s) some
  unfolding parse_mask
  parse_mask-Refines s =
      skip (numactl_parse_nodestring-Refines s)
        (λ mask. skip (set_data-Refines _) (λ u. skip clear_errno-Refines (λ u. pure-Refines mask)))

  pub parse_cpus-Refines : (s : Bytes) → Refines (parse_cpus {W = W} st s) some
  unfolding parse_cpus
  parse_cpus-Refines s = reading (λ f d. mask_or_refuse-Refines _)

  pub whole-Refines : (r : Option (ℕ × Bytes)) → Refines (whole {W = W} r) some
  whole-Refines none = record { step = λ f d a g e q. cc q }
  whole-Refines (some (n, [])) = record { step = λ f d a g e q. cc q }
  whole-Refines (some (n, c ∷ s)) = record { step = λ f d a g e q. cc q }

  pub number-Refines : (base : ℕ) (s : Bytes) → Refines (number {W = W} base s) some
  unfolding number
  number-Refines base s = whole-Refines _

  pub node_cpu_parsed-Refines :
      Refines
        (node_cpu_parsed k exit_on_error fail_alloc_on_error st sys)
        (λ v. some (record v { parsed = true }))
  unfolding node_cpu_parsed
  node_cpu_parsed-Refines = set_flags-Refines _ _ (λ f. refl)

  pub for_memory_or_task-Refines :
      (memory : Region → Action W (Unit {0})) (task : Action W (Unit {0}))
      → Refines (for_memory_or_task k exit_on_error fail_alloc_on_error st sys memory task) some
  unfolding for_memory_or_task
  for_memory_or_task-Refines memory task = reading (λ f d. lift-Refines _)

  pub interleave_with-Refines :
      (s : Bytes)
      → Refines (interleave_with k exit_on_error fail_alloc_on_error st sys s) set_policy_of_nodes
  unfolding interleave_with
  interleave_with-Refines s =
      alike (λ v. ground arith)
        (skip checknuma-Refines (λ u. skip (parse_mask-Refines s) (λ mask.
          both node_cpu_parsed-Refines (λ u. last (reading (λ f d. setpolicy-Refines _)) (λ u.
            skip (reading (λ f d. for_memory_or_task-Refines _ _)) (λ u. checkerror-Refines))))))

  pub check_do_shm-Refines :
      Refines (check_do_shm k exit_on_error fail_alloc_on_error st sys) (λ v. unless v.dead v)
  unfolding check_cpubind refuse_if
  check_do_shm-Refines = record { step = λ f d a g e q. ground arith }

  pub check_did_cpubind-Refines :
      Refines (check_did_cpubind k exit_on_error fail_alloc_on_error st sys) (λ v. unless v.bound v)
  unfolding check_cpubind refuse_if
  check_did_cpubind-Refines = record { step = λ f d a g e q. ground arith }

  pub cpus_bound-Refines :
      Refines
        (cpus_bound k exit_on_error fail_alloc_on_error st sys)
        (λ v. some (record v { parsed = true; bound = true }))
  cpus_bound-Refines = set_flags-Refines _ _ (λ f. refl)

  pub bind_to_nodes-Refines :
      (s : Bytes) → Refines (bind_to_nodes k exit_on_error fail_alloc_on_error st sys s) bind_cpus
  unfolding bind_to_nodes
  bind_to_nodes-Refines s =
      alike (λ v. ground arith)
        (both dontshm-Refines (λ u. skip checknuma-Refines (λ u.
          skip (parse_mask-Refines s) (λ mask. both check_do_shm-Refines (λ u.
            last cpus_bound-Refines (λ u.
              skip (system-Refines (sys.run_on_node_mask_all mask)) (λ u. checkerror-Refines)))))))

  pub bind_to_cpus-Refines :
      (s : Bytes) → Refines (bind_to_cpus k exit_on_error fail_alloc_on_error st sys s) bind_cpus
  unfolding bind_to_cpus
  bind_to_cpus-Refines s =
      alike (λ v. ground arith)
        (both dontshm-Refines (λ u. skip (parse_cpus-Refines s) (λ cpubuf.
          skip clear_errno-Refines (λ u. both check_do_shm-Refines (λ u.
            last cpus_bound-Refines
              (λ u. skip (system-Refines (sys.setaffinity cpubuf)) (λ u. checkerror-Refines)))))))

  pub bind_memory-Refines :
      (s : Bytes)
      → Refines (bind_memory k exit_on_error fail_alloc_on_error st sys s) set_policy_of_nodes
  unfolding bind_memory
  bind_memory-Refines s =
      alike (λ v. ground arith)
        (skip checknuma-Refines (λ u. both (setpolicy-Refines _) (λ u.
          skip (parse_mask-Refines s) (λ mask. last node_cpu_parsed-Refines (λ u.
            skip (lift-Refines _) (λ u.
              skip (reading (λ f d. for_memory_or_task-Refines _ _))
                (λ u. skip (lift-Refines _) (λ u. checkerror-Refines))))))))

  pub prefer_memory-Refines :
      (mask : Bitmask)
      → Refines (prefer_memory k exit_on_error fail_alloc_on_error st sys mask) set_policy
  unfolding prefer_memory
  prefer_memory-Refines mask =
      skip (reading (λ f d. lift-Refines _))
        (λ u. skip (lift-Refines _) (λ many. setpolicy-Refines _))

  pub prefer_one-Refines :
      (mask : Bitmask)
      → Refines (prefer_one k exit_on_error fail_alloc_on_error st sys mask) set_policy
  unfolding prefer_one
  prefer_one-Refines mask =
      skip (refuse_if-Refines _ _) (λ u. last (setpolicy-Refines _) (λ u. lift-Refines _))

  pub prefer_many-Refines :
      (mask : Bitmask)
      → Refines (prefer_many k exit_on_error fail_alloc_on_error st sys mask) set_policy
  unfolding prefer_many
  prefer_many-Refines mask = last (setpolicy-Refines _) (λ u. lift-Refines _)

  pub either-Refines :
      (b : Bool) {m n : Run W (Unit {0})} {s : View → Option View}
      → Refines m s
      → Refines n s
      → Refines (if b then m else n) s
  either-Refines true r q = r
  either-Refines false r q = q

  pub prefer-Refines :
      (task : Bitmask → Run W (Unit {0}))
      → ((mask : Bitmask) → Refines (task mask) set_policy)
      → (s : Bytes)
      → Refines (prefer k exit_on_error fail_alloc_on_error st sys task s) set_policy_of_nodes
  unfolding prefer
  prefer-Refines task sets s =
      alike (λ v. ground arith)
        (skip checknuma-Refines (λ u. skip (parse_mask-Refines s) (λ mask.
          both node_cpu_parsed-Refines (λ u. skip (lift-Refines _) (λ u.
            last
              (reading (λ f d. either-Refines f.attached (prefer_memory-Refines mask) (sets mask)))
              (λ u. checkerror-Refines))))))

  pub prefer_supported-Refines :
      (s : Bytes)
      → Refines (prefer_supported k exit_on_error fail_alloc_on_error st sys s) set_policy_of_nodes
  unfolding prefer_supported
  prefer_supported-Refines s = skip (lift-Refines _) (λ many. skip (refuse_if-Refines _ _) (λ u.
      prefer-Refines (prefer_many k exit_on_error fail_alloc_on_error st sys) prefer_many-Refines
        s))

  pub prefer_local-Refines :
      Refines (prefer_local k exit_on_error fail_alloc_on_error st sys) set_policy
  unfolding prefer_local
  prefer_local-Refines = skip checknuma-Refines (λ u. last (setpolicy-Refines _) (λ u.
      skip clear_errno-Refines
        (λ u. skip (for_memory_or_task-Refines _ _) (λ u. checkerror-Refines))))
