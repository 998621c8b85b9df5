-- ===== src/Numastat/Commands.antt =====
-- numastat.c, `main` and `add_pids_from_pattern_search`: the options, the processes that they name,
-- and which tables are shown. `getopt_long` is a parameter: the options come as a list.
use numactl.Base.{
  ℕ, zero, suc, ◌+◌, ◌-◌, Bool, true, false, not, ◌&&◌, ◌||◌, List, [], ◌∷◌, ◌++◌, Option, some,
  none, Bytes, ltb, ◌==◌, if◌then◌else◌, length, take,
}
use numactl.Base.Ints.{ℤ, pos, minus_one, int_eq}
use numactl.Numastat.Maps.{buf_size, behind_string}
use numactl.Numastat.Pids.{Pids, no_pids, all_digits, added, add_pid_to_list}
use numactl.Numastat.Process.{Proc, command_name_for_pid}
use numactl.Text.{atoi, is_some}
pub mod Tables

-- The options; `help` is any other one. The argument of `-s` may be missing.
pub data NumastatOpt : Type 0 where
  compress meminfo numastat verbosely skip_zeros version help : NumastatOpt
  process : Bytes → NumastatOpt
  sort_by : Option Bytes → NumastatOpt

-- The variables that the options set.
pub record Chosen : Type 0 where
  pub compress_display : Bool
  pub show_the_system_info : Bool
  pub show_the_numastat_info : Bool
  pub sort_table : Bool
  pub sort_table_node : ℤ
  pub verbose : Bool
  pub show_zero_data : Bool
  pub pids : Pids

abbrev pub nothing_chosen : Chosen
nothing_chosen = record {
  compress_display = false;
  show_the_system_info = false;
  show_the_numastat_info = false;
  sort_table = false;
  sort_table_node = minus_one;
  verbose = false;
  show_zero_data = true;
  pids = no_pids;
}

-- What the search for processes needs of the system: the names in /proc that begin with a digit, the
-- command line of one, the number of the program's own process, and whether memory is there.
pub record Processes : Type 0 where
  pub entries : List Bytes
  pub cmdline : Bytes → Option Bytes
  pub getpid : ℤ
  pub realloc : ℕ → Bool
  pub proc : Proc

-- The end of the variables' setting: by an exit, or by a write past the list of processes.
pub data Parsed : Type 0 where
  parsed : Chosen → Parsed
  usage_exit version_exit overrun : Parsed

abbrev pub spaced : Bytes → Bytes
spaced [] = []
spaced (c ∷ s) = (if c == 0 then b' ' else c) ∷ spaced s

module _ (processes : Processes) where
  abbrev pub name_or_empty : Option Bytes → Bytes
  name_or_empty none = []
  name_or_empty (some name) = name

  -- The buffer that is searched: the name, and the command line with spaces for its NULs.
  abbrev pub with_cmdline : Bytes → Option Bytes → Bytes
  with_cmdline name none = name
  with_cmdline name (some text) = name ++ (b' ' ∷ take (buf_size - 2 - length name) (spaced text))

  abbrev pub searched : Bytes → Bytes
  searched d_name =
      with_cmdline (name_or_empty (command_name_for_pid processes.proc (atoi d_name)))
        (processes.cmdline d_name)

  -- The loop of `add_pids_from_pattern_search`.
  unfoldable pub add_matching : Bytes → List Bytes → Pids → Option Pids
  add_matching pattern [] pids = some pids
  add_matching pattern (d_name ∷ rest) pids =
      let pid = atoi d_name in
      let more = added (add_matching pattern rest) (add_pid_to_list processes.realloc pid pids) in
      let skipped = add_matching pattern rest pids in
      if is_some (behind_string pattern (searched d_name)) && not (int_eq pid processes.getpid)
      then more
      else skipped

  -- `add_pids_from_pattern_search`
  abbrev pub add_pids_from_pattern_search : Bytes → Pids → Option Pids
  add_pids_from_pattern_search pattern pids = add_matching pattern processes.entries pids

  -- A process specifier of `-p`, or behind the options.
  unfoldable pub add_specified : Bytes → Pids → Option Pids
  add_specified arg pids =
      if all_digits (some arg)
      then add_pid_to_list processes.realloc (atoi arg) pids
      else add_pids_from_pattern_search arg pids

  abbrev pub with_pids : Chosen → (Chosen → Parsed) → Option Pids → Parsed
  with_pids chosen more none = overrun
  with_pids chosen more (some pids) = more (record chosen { pids = pids })

  abbrev pub sort_node : Chosen → Option Bytes → Chosen
  sort_node chosen none = chosen
  sort_node chosen (some arg) =
      if all_digits (some arg) then record chosen { sort_table_node = atoi arg } else chosen

  -- An option, with what is done behind it.
  abbrev pub option : Chosen → (Chosen → Parsed) → NumastatOpt → Parsed
  option chosen more compress = more (record chosen { compress_display = true })
  option chosen more meminfo = more (record chosen { show_the_system_info = true })
  option chosen more numastat = more (record chosen { show_the_numastat_info = true })
  option chosen more verbosely = more (record chosen { verbose = true })
  option chosen more skip_zeros = more (record chosen { show_zero_data = false })
  option chosen more version = version_exit
  option chosen more help = usage_exit
  option chosen more (process arg) = with_pids chosen more (add_specified arg chosen.pids)
  option chosen more (sort_by arg) = more (sort_node (record chosen { sort_table = true }) arg)

  -- The loop over the arguments that are left.
  unfoldable pub add_arguments : List Bytes → Chosen → Parsed
  add_arguments [] chosen = parsed chosen
  add_arguments (arg ∷ rest) chosen =
      with_pids chosen (add_arguments rest) (add_specified arg chosen.pids)

  -- The loop over the options, and the one behind it.
  unfoldable pub set_options : List NumastatOpt → List Bytes → Chosen → Parsed
  set_options [] arguments chosen = add_arguments arguments chosen
  set_options (o ∷ rest) arguments chosen = option chosen (set_options rest arguments) o

-- What `main` shows, one table behind the other.
pub data Shown : Type 0 where
  process_info : List ℤ → Shown
  system_info numastat_info : Shown

-- The rest of `main`; `sort` is `sort_pids_and_remove_duplicates`.
abbrev pub shown_by : (List ℤ → List ℤ) → Bool → Chosen → List Shown
shown_by sort compatibility_mode chosen =
    let pids = chosen.pids.pid_array in
    let no_process = length pids == 0 in
    if compatibility_mode
    then numastat_info ∷ []
    else (if no_process then [] else process_info (sort pids) ∷ [])
      ++ ((if chosen.show_the_system_info then system_info ∷ [] else [])
          ++ (if chosen.show_the_numastat_info || (no_process && not chosen.show_the_system_info)
              then numastat_info ∷ []
              else []))

abbrev pub shown_if : (List ℤ → List ℤ) → ℕ → Parsed → Option (List Shown)
shown_if sort argc (parsed chosen) = some (shown_by sort (argc == 1) chosen)
shown_if sort argc usage_exit = none
shown_if sort argc version_exit = none
shown_if sort argc overrun = none

-- `main`: the tables, or none where it exits before.
unfoldable pub main_shows :
    Processes → (List ℤ → List ℤ) → ℕ → List NumastatOpt → List Bytes → Option (List Shown)
main_shows processes sort argc opts arguments =
    shown_if sort argc (set_options processes opts arguments nothing_chosen)
