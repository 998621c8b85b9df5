-- ===== src/Affinity/Lists.antt =====
-- affinity.c and libnuma.c: the lists of nodes with devices in them.
use numactl.Base.{ℕ, ◌≡◌, ◌∙◌, true, false, ◌==◌, ◌∷◌, Bytes, arith, inl, inr, Bool-cases}
use numactl.Bitmask.{Bitmask, IsValid, isbitset}
use numactl.Bitmask.Abstract.{IsTidy}
use numactl.Libnuma.{State}
use numactl.Libnuma.Laws.{IsReady}
use numactl.Affinity.{Devices, resolve_affinity}
use numactl.Affinity.Laws.{resolve_affinity-Adds}
use numactl.Parse.{ok, parse_nodestring_in}
use numactl.Parse.Sound.{Within, KeepsWithin, parse_nodestring-Within}
use numactl.Sysfs.{reaches}

resolve_affinity-KeepsWithin :
    (d : Devices) (allowed : Bitmask) (n : ℕ)
    → ((i : ℕ) → reaches i d.task_nodes ≡ false → isbitset allowed i ≡ true)
    → KeepsWithin (resolve_affinity d) allowed n
unfolding KeepsWithin
resolve_affinity-KeepsWithin d allowed n dense s m w =
    let adds = resolve_affinity-Adds d m w.valid s in
    record {
      valid = adds.valid;
      sized = adds.sized ∙ w.sized;
      inside = λ i h. elim (Bool-cases (isbitset m i)) [
        | inl e ↦ w.inside i e
        | inr e ↦ dense i (let f = adds.added i h e in ground (arith, f))
      ];
    }

-- If the task may use every node whose number is below the count of its nodes, then also with
-- devices, files and addresses in it, a list that does not begin with `!` names allowed nodes only:
-- the mask that `numa_parse_nodestring` returns is valid, of the kernel's size, and within them.
pub parse_nodestring-resolve_affinity :
    (d : Devices) (st : State) (allowed : Bitmask) (c : ℕ) (s : Bytes) (m : Bitmask)
    → IsReady st
    → IsValid allowed
    → IsTidy allowed
    → ((i : ℕ) → reaches i d.task_nodes ≡ false → isbitset allowed i ≡ true)
    → (c == b'!') ≡ false
    → parse_nodestring_in (resolve_affinity d) st allowed (c ∷ s) ≡ ok m
    → Within allowed st.nodemask_sz m
parse_nodestring-resolve_affinity d st allowed c s m ready va ta dense plain e =
    parse_nodestring-Within (resolve_affinity d) st allowed c s m ready va ta
      (resolve_affinity-KeepsWithin d allowed st.nodemask_sz dense) plain e
