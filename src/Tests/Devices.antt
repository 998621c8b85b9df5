-- ===== src/Tests/Devices.antt =====
-- The theorems on lists of nodes with devices in them at a machine with one interface, `eth0`, on
-- node 0.
use numactl.Base.{ℕ, zero, suc, ◌≡◌, refl, true, false, [], ◌∷◌, some, none, codes, arith}
use numactl.Base.Ints.{pos, minus_one}
use numactl.Bitmask.{isbitset, getbit, setbit, bitmask_setbit, setall, clearall, alloc, weight}
use numactl.Affinity.{
  Devices, badchar, read_node_file, affinity_class, try_handlers, resolve_affinity,
}
use numactl.Affinity.Lists.{parse_nodestring-resolve_affinity}
use numactl.Parse.{ok, parse_nodestring_in, parse_nodes_into, nodes_loop, parse_item, item_from}
use numactl.Parse.Sound.{Within}
use numactl.Sysfs.{reaches, sysfs_node_read, read_nodes, skip_separators}
use numactl.Text.{skip_space, digit, scan, detect_base, sign, strtol}
use numactl.Libnuma.{allocate_nodemask}
use numactl.Sysfs.Laws.{
  Reads, sysfs_node_read-Reads, numa_node_file, sysfs_node_read-numa_node_file,
}
use numactl.Tests.Masks.{eight, eight-IsValid, eight-IsTidy}
use numactl.Tests.Strings.{machine, machine-IsReady, empty}

abbrev one_interface : Devices
one_interface = record {
  task_nodes = pos 1;
  file = λ path. some (codes "0\n");
  link = λ path. none;
  pci_match = λ path. none;
  stat = λ path. none;
  names = λ path. none;
  scan_dev = λ s. none;
  scan_pci = λ s. [];
  scan_short = λ s. [];
  interface_of = λ id. some (codes "eth0");
}

sysfs_node_read-Reads_example :
    Reads (pos 3) eight (sysfs_node_read (pos 3) eight (some (codes "1,2 7\n")))
sysfs_node_read-Reads_example =
    sysfs_node_read-Reads (pos 3) eight (some (codes "1,2 7\n")) eight-IsValid

-- Node 3 is one of three nodes of the task, and it is refused.
sysfs_node_read-numa_node_file_example :
    sysfs_node_read (pos 3) empty (some (numa_node_file 3)) ≡ some (minus_one, empty)
sysfs_node_read-numa_node_file_example =
    sysfs_node_read-numa_node_file (pos 3) empty 3 (omega arith)

low_allowed : (i : ℕ) → reaches i (pos 1) ≡ false → isbitset eight i ≡ true
unfolding isbitset getbit
low_allowed zero h = refl
low_allowed (suc i) h = absurd (ground (arith, h))

device_read :
    parse_nodestring_in (resolve_affinity one_interface) machine eight (codes "netdev:eth0")
    ≡ ok (record { size = 8; maskp = 1 ∷ [] })
unfolding skip_space digit scan detect_base sign strtol skip_separators read_nodes sysfs_node_read
    badchar read_node_file affinity_class try_handlers resolve_affinity getbit setbit bitmask_setbit
    setall clearall alloc weight allocate_nodemask parse_nodestring_in parse_nodes_into nodes_loop
    parse_item item_from
device_read = refl

parse_nodestring-resolve_affinity_example : Within eight 8 (record { size = 8; maskp = 1 ∷ [] })
parse_nodestring-resolve_affinity_example =
    parse_nodestring-resolve_affinity one_interface machine eight b'n' (codes "etdev:eth0")
      (record { size = 8; maskp = 1 ∷ [] }) machine-IsReady eight-IsValid eight-IsTidy low_allowed
      refl device_read
