-- ===== src/Numastat/Commands/Tables.antt =====
-- numastat.c, `main`: there is always a table to show.
use numactl.Base.{
  ℕ, Bool, true, false, not, ◌&&◌, ◌||◌, List, [], ◌∷◌, ◌++◌, Option, some, none, Bytes, ◌==◌,
  if◌then◌else◌, length,
}
use numactl.Base.Ints.{ℤ}
use numactl.Numastat.Commands.{
  NumastatOpt, Chosen, Processes, Parsed, parsed, usage_exit, version_exit, overrun, Shown,
  process_info, system_info, numastat_info, shown_by, shown_if, main_shows,
}

-- The tables of processes, of the system, and of the counters, in that order.
abbrev pub in_order : Bool → List ℤ → Bool → Bool → List Shown
in_order no_process pids system counters =
    (if no_process then [] else process_info pids ∷ [])
    ++ ((if system then system_info ∷ [] else []) ++ (if counters then numastat_info ∷ [] else []))

abbrev pub IsShown : List Shown → Type 0
IsShown [] = ⊥
IsShown (s ∷ rest) = Unit

choice-IsShown : (n s c : Bool) (pids : List ℤ) → IsShown (in_order n pids s (c || (n && not s)))
choice-IsShown false s c pids = tt
choice-IsShown true true c pids = tt
choice-IsShown true false true pids = tt
choice-IsShown true false false pids = tt

shown_by-IsShown :
    (sort : List ℤ → List ℤ) (compatible : Bool) (chosen : Chosen)
    → IsShown (shown_by sort compatible chosen)
shown_by-IsShown sort true chosen = tt
shown_by-IsShown sort false chosen =
    choice-IsShown (length chosen.pids.pid_array == 0) chosen.show_the_system_info
      chosen.show_the_numastat_info _

-- What `main` shows, if it does not exit: one table at least.
abbrev pub ShowsOne : Option (List Shown) → Type 0
ShowsOne none = Unit
ShowsOne (some shown) = IsShown shown

shown_if-ShowsOne :
    (sort : List ℤ → List ℤ) (argc : ℕ) (r : Parsed) → ShowsOne (shown_if sort argc r)
shown_if-ShowsOne sort argc (parsed chosen) = shown_by-IsShown sort (argc == 1) chosen
shown_if-ShowsOne sort argc usage_exit = tt
shown_if-ShowsOne sort argc version_exit = tt
shown_if-ShowsOne sort argc overrun = tt

-- Whatever the options and the arguments are, `main` shows a table at least, if it comes to the end of
-- the options and the list of processes is not overrun.
pub main_shows-ShowsOne :
    (processes : Processes) (sort : List ℤ → List ℤ) (argc : ℕ) (opts : List NumastatOpt)
    (arguments : List Bytes)
    → ShowsOne (main_shows processes sort argc opts arguments)
unfolding main_shows
main_shows-ShowsOne processes sort argc opts arguments = shown_if-ShowsOne sort argc _
