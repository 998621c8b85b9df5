-- ===== src/Numactl/Accepts.antt =====
-- Each option of numactl, and the loop over them, follows the abstract rules: what `main` goes on
-- from has a step there.
use numactl.Base.{◌≡◌, refl, ap, Bool, true, not, List, [], ◌∷◌, Option, some, none, arith}
use numactl.Base.Ints.{is_neg}
use numactl.Bitmask.{Bitmask}
use numactl.Libnuma.{State}
use numactl.Policy.{Kernel}
use numactl.Policy.Memory.{set_strict}
use numactl.Shm.{Region}
use numactl.Numactl.{
  Opt, show, hardware, balancing, local, dump, dump_nodes, strict, huge, touch, verify, all,
  cpu_compress, version, unknown, interleave, weighted_interleave, cpubind, physcpubind, membind,
  preferred, preferred_many, shm, file, length, shmmode, shmid, offset, Flags, Data, Exit,
  nothing_to_verify, finished, stop, System,
}
use numactl.Numactl.Guards.{refuse_if, set_flags, check_all_parse}
use numactl.Numactl.Options.{prefer_one}
use numactl.Numactl.Commands.{
  attach, use_region, verified, verify_mask, dump_with, verify_region, handle, handle_all,
}
use numactl.Numactl.Spec.{view, unless, spec, spec_all, attach_memory, needs_attached}
use numactl.Numactl.Refines.{
  Refines, both, skip, last, alike, reading, lift-Refines, set_data-Refines, pure-Refines,
  set_flags-Refines, nopolicy-Refines, noshm-Refines, needshm-Refines, check_shmbeyond-Refines,
}
use numactl.Numactl.Policies.{
  number-Refines, interleave_with-Refines, check_did_cpubind-Refines, bind_to_nodes-Refines,
  bind_to_cpus-Refines, bind_memory-Refines, prefer_one-Refines, prefer-Refines,
  prefer_supported-Refines, prefer_local-Refines,
}

module _ {W : Type 0} (k : Kernel W) (exit_on_error fail_alloc_on_error : Bool) (st : State)
    (sys : System W) where
  use_region-Refines :
      (r : Option Region)
      → Refines
          (use_region k exit_on_error fail_alloc_on_error st sys r)
          (λ v. some (record v { attached = true; shmattached = true }))
  use_region-Refines none = record { step = λ f d a g e q. cc q }
  use_region-Refines (some r) = record { step = λ f d a g e q. cc q }

  attach-Refines :
      (region : Data W → Option Region)
      → Refines (attach k exit_on_error fail_alloc_on_error st sys region) attach_memory
  unfolding attach
  attach-Refines region =
      alike (λ v. ground arith)
        (both (check_did_cpubind-Refines k exit_on_error fail_alloc_on_error st sys)
          (λ u. both nopolicy-Refines (λ u. reading (λ f d. use_region-Refines _))))

  dump_with-Refines :
      (dumps : Region → W → Bool)
      → Refines (dump_with k exit_on_error fail_alloc_on_error st sys dumps) needs_attached
  unfolding dump_with refuse_if
  dump_with-Refines dumps = record { step = λ f d a g e q. ground arith }

  verified-Refines :
      (r : Option Bool) → Refines (verified k exit_on_error fail_alloc_on_error st sys r) some
  verified-Refines none = record { step = λ f d a g e q. cc q }
  verified-Refines (some b) = record { step = λ f d a g e q. cc q }

  verify_mask-Refines :
      (m : Option Bitmask) → Refines (verify_mask k exit_on_error fail_alloc_on_error st sys m) some
  verify_mask-Refines none = record { step = λ f d a g e q. cc q }
  verify_mask-Refines (some m) = reading (λ f d. verified-Refines _)

  with_policy-Refines :
      Refines {W = W}
        (λ f. refuse_if (is_neg f.set_policy) nothing_to_verify f)
        (λ v. unless (not v.policy) v)
  unfolding refuse_if
  with_policy-Refines = record { step = λ f d a g e q. ground arith }

  verify_region-Refines :
      Refines (verify_region k exit_on_error fail_alloc_on_error st sys) (spec verify)
  unfolding verify_region
  verify_region-Refines =
      alike (λ v. ground arith)
        (both needshm-Refines (λ u.
          last with_policy-Refines
            (λ u. skip check_shmbeyond-Refines (λ u. reading (λ f d. verify_mask-Refines _)))))

  flags-Refines :
      (h : Flags → Flags) → ((f : Flags) → view f ≡ view (h f)) → Refines {W = W} (set_flags h) some
  flags-Refines h same = set_flags-Refines _ _ (λ f. ap some (same f))

  check_all-Refines :
      Refines {W = W} (λ f. check_all_parse f.did_node_cpu_parse f) (λ v. unless v.parsed v)
  unfolding check_all_parse refuse_if
  check_all-Refines = record { step = λ f d a g e q. ground arith }

  stop-Refines : (r : Exit) → Refines {W = W} {A = Unit {0}} (stop r) (λ v. none)
  stop-Refines r = record { step = λ f d a g e q. cc q }

  pub handle-Refines :
      (o : Opt) → Refines (handle k exit_on_error fail_alloc_on_error st sys o) (spec o)
  unfolding handle
  handle-Refines show = record { step = λ f d a g e q. cc q }
  handle-Refines hardware = last nopolicy-Refines (λ u. flags-Refines _ (λ f. refl))
  handle-Refines balancing = last nopolicy-Refines (λ u. flags-Refines _ (λ f. refl))
  handle-Refines (weighted_interleave s) =
      skip (flags-Refines _ (λ f. refl))
        (λ u. (interleave_with-Refines k exit_on_error fail_alloc_on_error st sys) s)
  handle-Refines (interleave s) =
      (interleave_with-Refines k exit_on_error fail_alloc_on_error st sys) s
  handle-Refines (cpubind s) = (bind_to_nodes-Refines k exit_on_error fail_alloc_on_error st sys) s
  handle-Refines (physcpubind s) =
      (bind_to_cpus-Refines k exit_on_error fail_alloc_on_error st sys) s
  handle-Refines (membind s) = (bind_memory-Refines k exit_on_error fail_alloc_on_error st sys) s
  handle-Refines (preferred_many s) =
      (prefer_supported-Refines k exit_on_error fail_alloc_on_error st sys) s
  handle-Refines (preferred s) =
      (prefer-Refines k exit_on_error fail_alloc_on_error st sys)
        (prefer_one k exit_on_error fail_alloc_on_error st sys)
        (prefer_one-Refines k exit_on_error fail_alloc_on_error st sys) s
  handle-Refines local = (prefer_local-Refines k exit_on_error fail_alloc_on_error st sys)
  handle-Refines (shm s) = attach-Refines _
  handle-Refines (file s) = attach-Refines _
  handle-Refines (length s) = last (noshm-Refines _) (λ u. set_data-Refines _)
  handle-Refines (shmmode s) = last (noshm-Refines _) (λ u.
      skip ((number-Refines k exit_on_error fail_alloc_on_error st sys) 8 s)
        (λ n. set_data-Refines _))
  handle-Refines dump = dump_with-Refines _
  handle-Refines dump_nodes = dump_with-Refines _
  handle-Refines strict = skip (flags-Refines _ (λ f. refl)) (λ u. lift-Refines (set_strict true))
  handle-Refines (shmid s) =
      skip ((number-Refines k exit_on_error fail_alloc_on_error st sys) 0 s)
        (λ n. set_data-Refines _)
  handle-Refines huge = last (noshm-Refines _) (λ u. set_data-Refines _)
  handle-Refines (offset s) = last (noshm-Refines _) (λ u. set_data-Refines _)
  handle-Refines touch = last needshm-Refines (λ u. check_shmbeyond-Refines)
  handle-Refines verify = verify_region-Refines
  handle-Refines all = last check_all-Refines (λ u. flags-Refines _ (λ f. refl))
  handle-Refines cpu_compress = set_data-Refines _
  handle-Refines version =
      alike (λ v. ground arith) (both nopolicy-Refines (λ u. stop-Refines finished))
  handle-Refines unknown = record { step = λ f d a g e q. cc q }

  -- The loop of `main` over its options refines the abstract rules: if it goes on behind the last
  -- option, then the rules accept the options one after the other, and lead from the view of the
  -- variables before them to the view of those behind them.
  pub handle_all-Refines :
      (opts : List Opt)
      → Refines (handle_all k exit_on_error fail_alloc_on_error st sys opts) (spec_all opts)
  unfolding handle_all spec_all
  handle_all-Refines [] = pure-Refines tt
  handle_all-Refines (o ∷ opts) = both (handle-Refines o) (λ u. handle_all-Refines opts)
