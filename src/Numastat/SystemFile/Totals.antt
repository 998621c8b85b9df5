-- ===== src/Numastat/SystemFile/Totals.antt =====
-- numastat.c, `show_info_from_system_file`: each cell has the number that was read last for it, and
-- the total of a row is the sum of all that were read for the row.
use numactl.Base.{ℕ, ◌+◌, ◌≤◌, ◌<◌, ◌≡◌, Bool, List, [], if◌then◌else◌}
use numactl.Numastat.{init_hash_table}
use numactl.Numastat.Maps.{Arithmetic}
use numactl.Numastat.Process.{Settings, num_nodes, total_col_ix}
use numactl.Numastat.Process.Numbers.{cell_number}
use numactl.Numastat.SystemFile.{
  System, Loaded, loaded, no_file, no_token, endless, Source, Loading, load_nodes,
}
use numactl.Numastat.SystemFile.Shows.{system_column}
use numactl.Numastat.Table.{Doubles, Table}
use numactl.Numastat.SystemFile.Steps.{Step, steps, top, number_behind}

module _ {D : Type 0} (doubles : Doubles D) (num : Arithmetic D) (settings : Settings D)
    (compatibility_mode : Bool) where
  module _ (system : System) (source : Source) where
    -- The steps that the files of the nodes stand for.
    abbrev pub steps_of : Loaded (Loading (List (Step D)))
    steps_of =
        load_nodes doubles num system settings.sizes compatibility_mode source steps 0
          settings.sizes.node_ix_map (record { hash = init_hash_table; row = 0; built = [] })

    -- The table that is filled by the steps, if the files can be read.
    abbrev pub FillsUp : ℕ → Loaded (Loading (List (Step D))) → Loaded (Table D) → Type 0
    FillsUp meminfo_rows (loaded state) result =
        (table : Table D) × (result ≡ loaded table)
        × ((r c : ℕ)
            → top doubles num settings compatibility_mode ≤ r
            → r < top doubles num settings compatibility_mode + meminfo_rows
            → 0 < c
            → c < total_col_ix settings + 1
            → cell_number doubles table r c
              ≡ number_behind doubles num settings compatibility_mode r c state.built
                  doubles.zero_double)
    FillsUp meminfo_rows no_file result = result ≡ no_file
    FillsUp meminfo_rows no_token result = result ≡ no_token
    FillsUp meminfo_rows endless result = result ≡ endless

    abbrev finished : Loading (Table D) → Loaded (Table D)
    finished state = loaded (
        if compatibility_mode
        then state.built
        else system_column doubles num settings compatibility_mode (num_nodes settings) state.built)
