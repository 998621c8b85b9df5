-- ===== src/Affinity/Laws.antt =====
-- affinity.c: what `resolve_affinity` adds to a mask.
use numactl.Base.{
  ℕ, inl, inr, Bool, true, false, not, List, [], ◌∷◌, ◌++◌, Option, some, none, Bytes, codes,
  if◌then◌else◌, Bool-cases, strip_prefix,
}
use numactl.Base.Ints.{ℤ, is_neg}
use numactl.Bitmask.{Bitmask, IsValid}
use numactl.Affinity.{
  Stat, Devices, badchar, read_node_file, class_or_device, affinity_class, find_device, in_class,
  file_class, affinity_file, net_class, affinity_ip, pci_file, affinity_pci, Handler, class, ip,
  file_handler, pci, handlers, run_handler, handled, try_handlers, resolve_affinity,
}
use numactl.Sysfs.{reaches}
use numactl.Sysfs.Laws.{Adds, Adds-nothing, sysfs_node_read-Reads}
use numactl.Text.{skip_space}

module _ (d : Devices) (mask : Bitmask) (v : IsValid mask) where
  -- A result whose mask has more nodes at most, below the count of the task's nodes.
  abbrev pub Finds : ℤ × Bitmask → Type 0
  Finds r = Adds (λ i. not (reaches i d.task_nodes)) mask (r.1)

  read_node_file-Finds : (path : Bytes) → Finds (read_node_file d mask path)
  unfolding read_node_file
  read_node_file-Finds path =
      let (n, mask', e, adds) = sysfs_node_read-Reads d.task_nodes mask (d.file path) v in
      rw e (elim (Bool-cases (is_neg n)) [ inl g ↦ rw g adds | inr g ↦ rw g adds ])

  class_or_device-Finds : (path : Bytes) (p : Option Bytes) → Finds (class_or_device d mask path p)
  class_or_device-Finds path none = read_node_file-Finds _
  class_or_device-Finds path (some p) = read_node_file-Finds _

  affinity_class-Finds : (cls name : Bytes) → Finds (affinity_class d mask cls name)
  unfolding affinity_class
  affinity_class-Finds cls name = elim (Bool-cases (badchar (skip_space name))) [
    | inl b ↦ rw b (Adds-nothing _ mask v)
    | inr b ↦
        rw b (class_or_device-Finds (codes "/sys/class/" ++ (cls ++ (b'/' ∷ skip_space name))) _)
  ]

  if-Finds : (b : Bool) (r q : ℤ × Bitmask) → Finds r → Finds q → Finds (if b then r else q)
  if-Finds true r q x y = x
  if-Finds false r q x y = y

  find_device-Finds : (dev : ℕ × ℕ) (names : List Bytes) → Finds (find_device d mask dev names)
  unfolding find_device
  find_device-Finds dev [] = Adds-nothing _ mask v
  find_device-Finds dev (name ∷ rest) =
      if-Finds _ _ _ (affinity_class-Finds (codes "block") name) (find_device-Finds dev rest)

  in_class-Finds : (dev : ℕ × ℕ) (names : Option (List Bytes)) → Finds (in_class d mask dev names)
  in_class-Finds dev none = Adds-nothing _ mask v
  in_class-Finds dev (some names) = find_device-Finds dev names

  file_class-Finds : (st : Option Stat) → Finds (file_class d mask st)
  file_class-Finds none = Adds-nothing _ mask v
  file_class-Finds (some st) = in_class-Finds _ _

  net_class-Finds : (name : Option Bytes) → Finds (net_class d mask name)
  net_class-Finds none = Adds-nothing _ mask v
  net_class-Finds (some name) = affinity_class-Finds _ name

  pci_file-Finds : (n : Option (ℕ × ℕ × ℕ × ℕ)) → Finds (pci_file d mask n)
  pci_file-Finds none = Adds-nothing _ mask v
  pci_file-Finds (some (seg, bus, dev, func)) = read_node_file-Finds _

  run_handler-Finds : (h : Handler) (s : Bytes) → Finds (run_handler d h mask s)
  unfolding affinity_file affinity_ip affinity_pci
  run_handler-Finds (class cls) s = affinity_class-Finds cls s
  run_handler-Finds ip s = net_class-Finds _
  run_handler-Finds file_handler s = file_class-Finds _
  run_handler-Finds pci s = pci_file-Finds _

  handled-Finds :
      (rest : ℤ × Bitmask) (h : Handler) (o : Option Bytes)
      → Finds rest
      → Finds (handled d mask rest h o)
  handled-Finds rest h none r = r
  handled-Finds rest h (some s) r = run_handler-Finds h s

  try_handlers-Finds :
      (hs : List (Bytes × Handler)) (id : Bytes) → Finds (try_handlers d hs id mask)
  unfolding try_handlers
  try_handlers-Finds [] id = Adds-nothing _ mask v
  try_handlers-Finds ((name, h) ∷ rest) id =
      handled-Finds _ h (strip_prefix name id) (try_handlers-Finds rest id)

  -- Whatever the devices are, `resolve_affinity` leaves a valid mask of the same size, with the bits
  -- that it had, and what it adds are numbers below the count of the task's nodes.
  pub resolve_affinity-Adds :
      (id : Bytes) → Adds (λ i. not (reaches i d.task_nodes)) mask ((resolve_affinity d id mask).1)
  unfolding resolve_affinity
  resolve_affinity-Adds id = try_handlers-Finds handlers id
