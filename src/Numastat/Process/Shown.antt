-- ===== src/Numastat/Process/Shown.antt =====
-- numastat.c, `show_process_info`: which tables are displayed.
use numactl.Base.{
  ℕ, suc, ◌+◌, ◌≡◌, refl, ◌∙◌, Bool, true, false, ◌&&◌, ◌||◌, List, [], ◌∷◌, ◌++◌, Option, some,
  none, Bytes, ◌==◌, if◌then◌else◌, length, arith, Bool-cases, inl, inr,
}
use numactl.Base.Ints.{ℤ}
use numactl.Numastat.Maps.{Arithmetic, Ended, going, exit_failure, past_map}
use numactl.Numastat.Maps.Bounds.{Holds, Holds-and_then}
use numactl.Numastat.Process.{
  Settings, Proc, Output, overall_title, process_title, displayed, cannot_read, show_sub_categories,
  start_process, end_process, ended_by, show_maps, show_process, show_processes, show_process_info,
  add_maps,
}
use numactl.Numastat.Table.{Doubles, Table}

-- How many tables are displayed.
abbrev pub tables : List Output → ℕ
tables [] = 0
tables (displayed d ∷ rest) = suc (tables rest)
tables (overall_title ∷ rest) = tables rest
tables (process_title pid name ∷ rest) = tables rest
tables (cannot_read pid ∷ rest) = tables rest

tables-append : (xs ys : List Output) → tables (xs ++ ys) ≡ tables xs + tables ys
tables-append [] ys = omega arith
tables-append (displayed d ∷ xs) ys = let e = tables-append xs ys in omega (arith, e)
tables-append (overall_title ∷ xs) ys = tables-append xs ys
tables-append (process_title pid name ∷ xs) ys = tables-append xs ys
tables-append (cannot_read pid ∷ xs) ys = tables-append xs ys

-- Whether the file of a process can be opened.
abbrev pub opens : Option (Bytes × Bool) → Bool
opens none = false
opens (some f) = true

-- The processes whose files can be opened; and whether that of the last one can.
abbrev pub opened : Proc → List ℤ → ℕ
opened proc [] = 0
opened proc (pid ∷ rest) =
    if opens (proc.numa_maps pid) then suc (opened proc rest) else opened proc rest

abbrev pub last_opened : Proc → List ℤ → ℕ
last_opened proc [] = 0
last_opened proc (pid ∷ []) = if opens (proc.numa_maps pid) then 1 else 0
last_opened proc (pid ∷ next ∷ rest) = last_opened proc (next ∷ rest)

module _ {D : Type 0} (doubles : Doubles D) (num : Arithmetic D) (settings : Settings D)
    (proc : Proc) where
  -- A round displays so many tables.
  abbrev round : ℕ → ℕ → ℤ → ℕ
  round n ix pid =
      if opens (proc.numa_maps pid) && (show_sub_categories settings n || (ix + 1 == n))
      then 1
      else 0

  abbrev Displays : ℕ → Table D × List Output → Type 0
  Displays k (table, out) = tables out ≡ k

  end_process-Displays :
      (n ix : ℕ) (table : Table D)
      → Displays
          (if show_sub_categories settings n || (ix + 1 == n) then 1 else 0)
          (end_process doubles num settings proc n ix table)
  end_process-Displays n ix table =
      elim (Bool-cases (show_sub_categories settings n || (ix + 1 == n))) [
        | inl e ↦ rw e refl
        | inr e ↦ rw e refl
      ]

  ended_by-Displays :
      (n ix : ℕ) (fails : Bool) (table : Table D)
      → Holds
          (Displays (if show_sub_categories settings n || (ix + 1 == n) then 1 else 0))
          (ended_by doubles num settings proc n ix fails table)
  ended_by-Displays n ix true table = tt
  ended_by-Displays n ix false table = end_process-Displays n ix table

  show_maps-Displays :
      (n ix : ℕ) (pid : ℤ) (table : Table D) (o : Option (Bytes × Bool))
      → Holds
          (Displays (if opens o && (show_sub_categories settings n || (ix + 1 == n)) then 1 else 0))
          (show_maps doubles num settings proc n ix pid table o)
  show_maps-Displays n ix pid table none = refl
  show_maps-Displays n ix pid table (some (file, fails)) =
      Holds-and_then (λ t. Unit) (Displays _) (add_maps doubles num settings n ix table file) _
        (anything _) (λ t u. ended_by-Displays n ix fails t)
    where
      anything : (r : Ended (Table D)) → Holds (λ t. Unit) r
      anything (going t) = tt
      anything exit_failure = tt
      anything past_map = tt

  start_process-Displays :
      (n ix : ℕ) (pid : ℤ) (table : Table D)
      → Displays 0 (start_process doubles num settings proc n ix pid table)
  start_process-Displays n ix pid table = elim (Bool-cases (show_sub_categories settings n)) [
    | inl e ↦ rw e refl
    | inr e ↦ rw e refl
  ]

  show_process-Displays :
      (n ix : ℕ) (pid : ℤ) (table : Table D)
      → Holds (Displays (round n ix pid)) (show_process doubles num settings proc n ix pid table)
  unfolding show_process
  show_process-Displays n ix pid table =
      let started = start_process doubles num settings proc n ix pid table in
      Holds-and_then (Displays (round n ix pid)) (Displays (round n ix pid))
        (show_maps doubles num settings proc n ix pid (started.0) (proc.numa_maps pid)) _
        (show_maps-Displays n ix pid (started.0) (proc.numa_maps pid))
        (λ r d.
          let a = tables-append (started.1) (r.1) in
          let b = start_process-Displays n ix pid table in omega (arith, a, b, d))

  abbrev rounds : ℕ → ℕ → List ℤ → ℕ
  rounds n ix [] = 0
  rounds n ix (pid ∷ rest) = round n ix pid + rounds n (ix + 1) rest

  show_processes-rounds :
      (n ix : ℕ) (pids : List ℤ) (table : Table D)
      → Holds
          (λ out. tables out ≡ rounds n ix pids)
          (show_processes doubles num settings proc n ix pids table)
  unfolding show_processes
  show_processes-rounds n ix [] table = refl
  show_processes-rounds n ix (pid ∷ rest) table =
      Holds-and_then (Displays (round n ix pid)) _
        (show_process doubles num settings proc n ix pid table) _
        (show_process-Displays n ix pid table)
        (λ r d.
          Holds-and_then (λ out. tables out ≡ rounds n (ix + 1) rest) _
            (show_processes doubles num settings proc n (ix + 1) rest (r.0)) _
            (show_processes-rounds n (ix + 1) rest (r.0))
            (λ out e. let a = tables-append (r.1) out in omega (arith, a, d, e)))

  rounds-opened :
      (n ix : ℕ) (pids : List ℤ)
      → show_sub_categories settings n ≡ true
      → rounds n ix pids ≡ opened proc pids
  rounds-opened n ix [] e = refl
  rounds-opened n ix (pid ∷ rest) e =
      rw e (one (opens (proc.numa_maps pid)) _ _ (rounds-opened n (ix + 1) rest e))
    where
      one :
          (b : Bool) (r q : ℕ) → r ≡ q → (if b && true then 1 else 0) + r ≡ (if b then suc q else q)
      one true r q e = omega (arith, e)
      one false r q e = omega (arith, e)

  rounds-last_opened :
      (n ix : ℕ) (pids : List ℤ)
      → show_sub_categories settings n ≡ false
      → ix + length pids ≡ n
      → rounds n ix pids ≡ last_opened proc pids
  rounds-last_opened n ix [] e l = refl
  rounds-last_opened n ix (pid ∷ []) e l =
      let last : (ix + 1 == n) ≡ true = ground (arith, l) in
      rw (e, last) (one (opens (proc.numa_maps pid)))
    where
      one : (b : Bool) → (if b && true then 1 else 0) + 0 ≡ (if b then 1 else 0)
      one true = refl
      one false = refl
  rounds-last_opened n ix (pid ∷ next ∷ rest) e l =
      let more : (ix + 1 == n) ≡ false = ground (arith, l) in
      not_shown (opens (proc.numa_maps pid)) _ _ _ _ e more
        (rounds-last_opened n (ix + 1) (next ∷ rest) e (omega (arith, l)))
    where
      not_shown :
          (b own last : Bool) (r q : ℕ)
          → own ≡ false
          → last ≡ false
          → r ≡ q
          → (if b && (own || last) then 1 else 0) + r ≡ q
      not_shown true own last r q e d f = rw (e, d) (omega (arith, f))
      not_shown false own last r q e d f = omega (arith, f)

  -- How many tables the processes should get.
  abbrev pub expected : List ℤ → ℕ
  expected pids =
      if show_sub_categories settings (length pids) then opened proc pids else last_opened proc pids

  -- Where `show_process_info` ends, it displays a table for each process whose `numa_maps` can be
  -- opened, if processes have their own tables. Else it displays one table for all, but only if the
  -- file of the last process can be opened: if not, no table is displayed, whatever was read before.
  pub show_process_info-tables :
      (pids : List ℤ)
      → Holds (λ out. tables out ≡ expected pids) (show_process_info doubles num settings proc pids)
  unfolding show_process_info
  show_process_info-tables pids = elim (Bool-cases (show_sub_categories settings (length pids))) [
    | inl e ↦
        Holds-and_then _ _ (show_processes doubles num settings proc (length pids) 0 pids _) _
          (show_processes-rounds (length pids) 0 pids _)
          (λ out d. rw e (d ∙ rounds-opened (length pids) 0 pids e))
    | inr e ↦
        Holds-and_then _ _ (show_processes doubles num settings proc (length pids) 0 pids _) _
          (show_processes-rounds (length pids) 0 pids _)
          (λ out d. rw e (d ∙ rounds-last_opened (length pids) 0 pids e (omega arith)))
  ]
