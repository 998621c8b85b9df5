-- ===== src/Affinity.antt =====
-- affinity.c: the nodes of a device, a file or a network address. The system is an interface: the
-- files and links of /sys, `stat`, `regexec`, `sscanf`, and what finds the interface to an address.
use numactl.Base.{
  ℕ, zero, suc, ◌+◌, ◌-◌, ◌/◌, ◌%◌, Bool, true, false, not, ◌&&◌, ◌||◌, List, [], ◌∷◌, ◌++◌, Option,
  some, none, Bytes, codes, ltb, leb, ◌==◌, if◌then◌else◌, length, take, drop, strip_prefix,
  replicate,
}
use numactl.Base.Ints.{ℤ, pos, negsuc, minus_one, is_neg}
use numactl.Bitmask.{Bitmask}
use numactl.Parse.{no_io_affinity}
use numactl.Sysfs.{sysfs_node_read, sysfs_read}
use numactl.Text.{isspace, first_byte, skip_space}
pub mod Laws
pub mod Lists

-- What `stat` says of a file: whether it is a character or a block device, and the numbers, major
-- and minor, of the device that it is on and of the one that it is.
pub record Stat : Type 0 where
  pub is_chr : Bool
  pub is_blk : Bool
  pub on : ℕ × ℕ
  pub itself : ℕ × ℕ

-- The calls of affinity.c. `file` is what reading a file gives, `link` what a link points to, and
-- `pci_match` where the first match of the pattern for PCI devices begins and where its group ends;
-- `scan_dev` is `sscanf` with "%u:%u", if both numbers are there, and `scan_pci` and `scan_short`
-- the numbers that it reads by "%x:%x:%x.%x" and "%x:%x.%x". `interface_of` is `getaddrinfo`,
-- `find_route` and `iif_to_name`, one behind the other.
pub record Devices : Type 0 where
  pub task_nodes : ℤ
  pub file : Bytes → Option Bytes
  pub link : Bytes → Option Bytes
  pub pci_match : Bytes → Option (ℕ × ℕ)
  pub stat : Bytes → Option Stat
  pub names : Bytes → Option (List Bytes)
  pub scan_dev : Bytes → Option (ℕ × ℕ)
  pub scan_pci : Bytes → List ℕ
  pub scan_short : Bytes → List ℕ
  pub interface_of : Bytes → Option Bytes

-- `badchar`
unfoldable pub badchar : Bytes → Bool
badchar [] = false
badchar (c ∷ s) = c == b'/' || c == b'.' || badchar s

-- `%0<width>x`
unfoldable pub hex_onto : ℕ → ℕ → Bytes → Bytes
hex_onto zero n rest = rest
hex_onto (suc fuel) n rest =
    let d = n % 16 in
    let c = if ltb d 10 then b'0' + d else b'a' + (d - 10) in
    let more = hex_onto fuel (n / 16) (c ∷ rest) in if ltb n 16 then c ∷ rest else more

abbrev pub hex : ℕ → ℕ → Bytes
hex width n = let digits = hex_onto (suc n) n [] in replicate (width - length digits) b'0' ++ digits

-- `node_parse_failure`: the warnings differ, the result does not.
abbrev pub node_parse_failure : ℤ
node_parse_failure = minus_one

-- `ret = sysfs_node_read(...); if (ret < 0) return node_parse_failure(...)`; it always ends.
abbrev pub or_failure : Bitmask → Option (ℤ × Bitmask) → ℤ × Bitmask
or_failure mask none = (node_parse_failure, mask)
or_failure mask (some (ret, mask')) =
    if is_neg ret then (node_parse_failure, mask') else (ret, mask')

module _ (d : Devices) where
  unfoldable pub read_node_file : Bitmask → Bytes → ℤ × Bitmask
  read_node_file mask path = or_failure mask (sysfs_node_read d.task_nodes mask (d.file path))

  -- The path of the PCI device in a link, up to the slash behind it.
  abbrev pub pci_path : Option Bytes → Option Bytes
  pci_path none = none
  pci_path (some path) = elim (d.pci_match path) [
    | none ↦ none
    | some (so, eo) ↦ some (drop so (take (eo + 1) path))
  ]

  abbrev pub class_or_device : Bitmask → Bytes → Option Bytes → ℤ × Bitmask
  class_or_device mask path (some p) =
      read_node_file mask (codes "/sys/" ++ (p ++ codes "/numa_node"))
  class_or_device mask path none = read_node_file mask (path ++ codes "/device/numa_node")

  -- `affinity_class`
  unfoldable pub affinity_class : Bitmask → Bytes → Bytes → ℤ × Bitmask
  affinity_class mask cls name =
      let dev = skip_space name in
      let path = codes "/sys/class/" ++ (cls ++ (b'/' ∷ dev)) in
      if badchar dev then (minus_one, mask) else class_or_device mask path (pci_path (d.link path))

  -- The device of a file: the class that is enumerated, and the numbers that are looked for.
  abbrev pub device_of : Stat → Bytes × (ℕ × ℕ)
  device_of st =
      if st.is_chr
      then (codes "misc", st.itself)
      else (codes "block", if st.is_blk then st.itself else st.on)

  abbrev pub same_device : ℕ × ℕ → Option (ℕ × ℕ) → Bool
  same_device (major, minor) none = false
  same_device (major, minor) (some (maj, min)) = major == maj && (minor == min)

  abbrev pub scanned : Option Bytes → Option (ℕ × ℕ)
  scanned none = none
  scanned (some s) = d.scan_dev s

  -- The loop of `affinity_file` over the entries of the class.
  unfoldable pub find_device : Bitmask → ℕ × ℕ → List Bytes → ℤ × Bitmask
  find_device mask dev [] = (minus_one, mask)
  find_device mask dev (name ∷ rest) =
      let found =
        same_device dev
          (scanned (sysfs_read (d.file (codes "/sys/class/block/" ++ (name ++ codes "/dev"))))) in
      if not (first_byte name == b'.') && found
      then affinity_class mask (codes "block") name
      else find_device mask dev rest

  abbrev pub in_class : Bitmask → ℕ × ℕ → Option (List Bytes) → ℤ × Bitmask
  in_class mask dev none = (minus_one, mask)
  in_class mask dev (some names) = find_device mask dev names

  abbrev pub file_class : Bitmask → Option Stat → ℤ × Bitmask
  file_class mask none = (minus_one, mask)
  file_class mask (some st) =
      let (cls, dev) = device_of st in in_class mask dev (d.names (codes "/sys/class/" ++ cls))

  -- `affinity_file`
  unfoldable pub affinity_file : Bitmask → Bytes → ℤ × Bitmask
  affinity_file mask file = file_class mask (d.stat file)

  abbrev pub net_class : Bitmask → Option Bytes → ℤ × Bitmask
  net_class mask none = (minus_one, mask)
  net_class mask (some name) = affinity_class mask (codes "net") name

  -- `affinity_ip`
  unfoldable pub affinity_ip : Bitmask → Bytes → ℤ × Bitmask
  affinity_ip mask id = net_class mask (d.interface_of id)

  -- Segment, bus, device and function; segment and function are optional.
  abbrev pub short_numbers : List ℕ → Option (ℕ × ℕ × ℕ × ℕ)
  short_numbers (bus ∷ dev ∷ []) = some (0, bus, dev, 0)
  short_numbers (bus ∷ dev ∷ func ∷ []) = some (0, bus, dev, func)
  short_numbers _ = none

  abbrev pub pci_numbers : List ℕ → List ℕ → Option (ℕ × ℕ × ℕ × ℕ)
  pci_numbers (seg ∷ bus ∷ dev ∷ func ∷ []) short = some (seg, bus, dev, func)
  pci_numbers (seg ∷ bus ∷ dev ∷ []) short = some (seg, bus, dev, 0)
  pci_numbers _ short = short_numbers short

  abbrev pub pci_file : Bitmask → Option (ℕ × ℕ × ℕ × ℕ) → ℤ × Bitmask
  pci_file mask none = (minus_one, mask)
  pci_file mask (some (seg, bus, dev, func)) = read_node_file mask (
      codes "/sys/devices/pci"
      ++ (hex 4 seg
          ++ (b':'
              ∷ (hex 2 bus
                  ++ (b'/'
                      ∷ (hex 4 seg
                          ++ (b':'
                              ∷ (hex 2 bus
                                  ++ (b':'
                                      ∷ (hex 2 dev
                                          ++ (b'.' ∷ (hex 1 func ++ codes "/numa_node"))))))))))))

  -- `affinity_pci`
  unfoldable pub affinity_pci : Bitmask → Bytes → ℤ × Bitmask
  affinity_pci mask id = pci_file mask (pci_numbers (d.scan_pci id) (d.scan_short id))

-- `struct handler`; the class is given to `affinity_class` alone.
pub data Handler : Type 0 where
  class : Bytes → Handler
  ip file_handler pci : Handler

-- `handlers`, without the first character of each name.
abbrev pub handlers : List (Bytes × Handler)
handlers =
    (codes "netdev:", class (codes "net"))
    ∷ (codes "ip:", ip)
    ∷ (codes "file:", file_handler)
    ∷ (codes "block:", class (codes "block"))
    ∷ (codes "pci:", pci)
    ∷ []

module _ (d : Devices) where
  abbrev pub run_handler : Handler → Bitmask → Bytes → ℤ × Bitmask
  run_handler (class cls) mask s = affinity_class d mask cls s
  run_handler ip mask s = affinity_ip d mask s
  run_handler file_handler mask s = affinity_file d mask s
  run_handler pci mask s = affinity_pci d mask s

  -- One round of the loop of `resolve_affinity`: the handler whose name `id` begins with ends it.
  abbrev pub handled : Bitmask → ℤ × Bitmask → Handler → Option Bytes → ℤ × Bitmask
  handled mask rest h none = rest
  handled mask rest h (some s) = run_handler h mask s

  unfoldable pub try_handlers : List (Bytes × Handler) → Bytes → Bitmask → ℤ × Bitmask
  try_handlers [] id mask = (no_io_affinity, mask)
  try_handlers ((name, h) ∷ rest) id mask =
      handled mask (try_handlers rest id mask) h (strip_prefix name id)

  -- `resolve_affinity`
  unfoldable pub resolve_affinity : Bytes → Bitmask → ℤ × Bitmask
  resolve_affinity id mask = try_handlers handlers id mask
