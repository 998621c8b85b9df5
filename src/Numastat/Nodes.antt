-- ===== src/Numastat/Nodes.antt =====
-- numastat.c: the numbers of the nodes, in ascending order, and the headers of their columns. What
-- `scandir` finds is a list of names.
use numactl.Base.{
  ℕ, zero, suc, ◌+◌, ◌-◌, Bool, true, false, not, ◌&&◌, List, [], ◌∷◌, ◌++◌, Option, some, none,
  Bytes, codes, leb, ltb, ◌==◌, if◌then◌else◌, length, get_or, drop, strip_prefix, map,
}
use numactl.Base.Ints.{ℤ, pos, int_lt}
use numactl.Numastat.Selection.{sort_from}
use numactl.Text.{isdigit, atoi}
use numactl.Numastat.Display.{print_long}
pub mod Laws

-- The loop of `node_and_digits`, behind a first digit: each character is one, up to the end.
abbrev pub only_digits : Bytes → Bool
only_digits [] = true
only_digits (c ∷ s) = isdigit c && only_digits s

abbrev pub some_digits : Option Bytes → Bool
some_digits none = false
some_digits (some []) = false
some_digits (some (c ∷ s)) = isdigit c && only_digits s

-- `node_and_digits`
unfoldable pub node_and_digits : Bytes → Bool
node_and_digits d_name = some_digits (strip_prefix (codes "node") d_name)

-- The numbers of the names that `scandir` keeps.
unfoldable pub node_numbers : List Bytes → List ℤ
node_numbers [] = []
node_numbers (d_name ∷ rest) =
    let others = node_numbers rest in
    if node_and_digits d_name then atoi (drop 4 d_name) ∷ others else others

-- The map of `init_node_ix_map_and_header`; `none` is its exit, where there is no node.
unfoldable pub init_node_ix_map : List Bytes → Option (List ℤ)
init_node_ix_map names =
    let found = node_numbers names in
    let num_nodes = length found in
    if ltb num_nodes 1
    then none
    else some (sort_from (pos 0) (λ x y. int_lt y x) (λ x. x) (num_nodes - 1) num_nodes 0 found)

-- The headers of the nodes, and of the column behind them.
unfoldable pub init_header : Bool → List ℤ → List Bytes
init_header compatibility_mode [] = codes "Total" ∷ []
init_header compatibility_mode (n ∷ rest) =
    ((if compatibility_mode then codes "node" else codes "Node ") ++ print_long n)
    ∷ init_header compatibility_mode rest
