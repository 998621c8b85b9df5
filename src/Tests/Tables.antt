-- ===== src/Tests/Tables.antt =====
-- The theorems on sizes, policies and distances at concrete arguments, and at two nodes, 0 and 2,
-- of three.
use numactl.Base.{ℕ, zero, suc, ◌<◌, refl, List, [], ◌∷◌, none, arith}
use numactl.Base.Ints.{pos}
use numactl.Bitmask.{Bitmask, isbitset, getbit}
use numactl.Distance.{File, no_entry, line, Distances}
use numactl.Distance.Numbers.{write_numbers}
use numactl.Distance.Table.{ShowsNode, available, missing, Answers, numa_distance-Answers}
use numactl.Libnuma.{State}
use numactl.Tests.Strings.{machine}

-- The nodes 0 and 2.
abbrev pair : Bitmask
pair = record { size = 3; maskp = 5 ∷ [] }

abbrev paired : State
paired = record machine { maxconfigurednode = pos 2; nodes_ptr = pair }

abbrev rows : ℕ → List ℕ
rows zero = 10 ∷ 20 ∷ []
rows (suc nd) = 21 ∷ 11 ∷ []

abbrev files : ℕ → File
files zero = line (write_numbers (10 ∷ 20 ∷ []))
files (suc (suc zero)) = line (write_numbers (21 ∷ 11 ∷ []))
files _ = no_entry

shown : (nd : ℕ) → nd < 3 → ShowsNode files pair 3 rows nd
unfolding isbitset getbit
shown zero l = available refl refl (omega arith, (omega arith, tt)) refl
shown (suc zero) l = missing refl refl
shown (suc (suc zero)) l = available refl refl (omega arith, (omega arith, tt)) refl
shown (suc (suc (suc nd))) l = absurd (omega arith)

abbrev unread : Distances
unread = record { numnodes = 0; table = none }

numa_distance-Answers_example : Answers files paired 4 unread 0 2 20
unfolding isbitset getbit
numa_distance-Answers_example =
    numa_distance-Answers files paired 4 unread 0 2 rows (omega arith) (omega arith) (omega arith)
      refl refl refl (omega arith) shown refl
