-- ===== src/Tests/Processes.antt =====
-- The theorems on processes and nodes of numastat at a machine with the nodes 0 and 2.
use numactl.Base.{
  ℕ, ◌*◌, ◌/◌, ◌≡◌, refl, true, false, List, [], ◌∷◌, some, none, Bytes, codes, arith,
  if◌then◌else◌, ◌==◌,
}
use numactl.Base.Ints.{ℤ, pos, minus_one, pos_part}
use numactl.Numastat.Maps.{Arithmetic}
use numactl.Numastat.Maps.Bounds.{Holds}
use numactl.Numastat.Nodes.{node_and_digits, init_node_ix_map}
use numactl.Numastat.Nodes.Laws.{node, other, d_names, Ascends, init_node_ix_map-Ascends}
use numactl.Numastat.Pids.{no_pids, add_pids, sort_pids_and_remove_duplicates}
use numactl.Numastat.Pids.Lists.{Grows, add_pids-Grows, add_pids-overrun}
use numactl.Numastat.Pids.Unique.{IsRising, has, sort_pids_and_remove_duplicates-IsRising}
use numactl.Numastat.Process.{Settings, Proc, show_process_info}
use numactl.Numastat.Process.Shown.{tables, expected, show_process_info-tables}
use numactl.Numastat.SystemFile.{System, Source}
use numactl.Numastat.Selection.Moves.{Swaps}
use numactl.Numastat.Table.{Table, init_table}
use numactl.Tests.Statistics.{naturals}

abbrev whole_numbers : Arithmetic ℕ
whole_numbers = record {
  of_long = pos_part;
  times = λ x y. x * y;
  megabytes = λ x. x / 1048576;
  is_zero = λ x. x == 0;
}

abbrev two_nodes : Settings ℕ
two_nodes = record {
  compress_display = false;
  show_zero_data = true;
  sort_table = false;
  sort_table_node = minus_one;
  verbose = false;
  screen_width = 80;
  node_header = codes "Node 0" ∷ codes "Node 2" ∷ codes "Total" ∷ [];
  sizes = record {
    page_size_in_bytes = 4096;
    huge_page_size_in_bytes = 2097152;
    node_ix_map = pos 0 ∷ pos 2 ∷ [];
  };
}

abbrev heap_file : Bytes
heap_file = codes "55d0 default heap anon=768 N0=512 N2=256 kernelpagesize_kB=4\n"

-- Process 7 can be read, and no other one.
abbrev one_readable : Proc
one_readable = record {
  status = λ pid. some (codes "Name:\tcat\n");
  numa_maps = λ pid. if pos_part pid == 7 then some (heap_file, false) else none;
}

abbrev start_table : Table ℕ
start_table = init_table 2 1 6 3

show_process_info-tables_example :
    Holds
      (λ out.
        tables out ≡ expected naturals whole_numbers two_nodes one_readable (pos 7 ∷ pos 8 ∷ []))
      (show_process_info naturals whole_numbers two_nodes one_readable (pos 7 ∷ pos 8 ∷ []))
show_process_info-tables_example =
    show_process_info-tables naturals whole_numbers two_nodes one_readable (pos 7 ∷ pos 8 ∷ [])

abbrev three_pids : List ℤ
three_pids = pos 7 ∷ pos 5 ∷ pos 7 ∷ []

abbrev qsort : List ℤ → List ℤ
qsort pids = pos 5 ∷ pos 7 ∷ pos 7 ∷ []

sort_pids_and_remove_duplicates-IsRising_example :
    IsRising (sort_pids_and_remove_duplicates qsort three_pids)
    × ((z : ℤ) → has z (sort_pids_and_remove_duplicates qsort three_pids) ≡ has z three_pids)
sort_pids_and_remove_duplicates-IsRising_example =
    sort_pids_and_remove_duplicates-IsRising qsort three_pids refl
      (omega arith, refl, (omega arith, refl, omega arith)) same
  where
    same : (z : ℤ) → has z (qsort three_pids) ≡ has z three_pids
    same (pos n) = ground arith
    same (ℤ.negsuc n) = refl

add_pids-Grows_example : Grows no_pids three_pids (add_pids (λ n. true) three_pids no_pids)
add_pids-Grows_example = add_pids-Grows (λ n. true) three_pids (λ n. refl)

add_pids-overrun_example : add_pids (λ n. false) (pos 7 ∷ pos 5 ∷ pos 7 ∷ []) no_pids ≡ none
add_pids-overrun_example = add_pids-overrun (λ n. false) (pos 7) (pos 5) (pos 7 ∷ []) refl

init_node_ix_map-Ascends_example :
    (m : List ℤ) × (init_node_ix_map (d_names (node 2 ∷ other (codes "online") ∷ node 0 ∷ []))
      ≡ some m)
    × Ascends m
    × Swaps (pos 0) 0 1 (pos 2 ∷ pos 0 ∷ []) m
init_node_ix_map-Ascends_example =
    init_node_ix_map-Ascends (node 2 ∷ other (codes "online") ∷ node 0 ∷ [])
      (omega arith, (not_node, (omega arith, tt))) (omega arith)
  where
    not_node : node_and_digits (codes "online") ≡ false
    not_node = unfold node_and_digits in refl

-- Each node has a numastat file of two lines.
abbrev two_files : System
two_files = record {
  node_file = λ node file. some (codes "numa_hit 7\nnuma_miss 5\n");
  hugepages = λ node. none;
  hugepages_file = λ node d_name fname. none;
}

abbrev counters : Source
counters = record { file = codes "numastat"; tok_offset = 0 }
