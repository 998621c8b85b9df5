-- ===== src/Numastat/SystemFile/Steps.antt =====
-- numastat.c, `show_info_from_system_file`: the steps of filling the table, and what they do to a
-- number.
use numactl.Base.{
  ℕ, ◌+◌, ◌<◌, ◌≡◌, refl, Bool, List, [], ◌∷◌, ◌++◌, some, Bytes, ◌==◌, if◌then◌else◌,
}
use numactl.Numastat.Maps.{Arithmetic}
use numactl.Numastat.Process.{Settings, header_cols, num_nodes, total_col_ix}
use numactl.Numastat.SystemFile.{Stores}
use numactl.Numastat.SystemFile.Kept.{Keeps}
use numactl.Numastat.SystemFile.Log.{Follows}
use numactl.Numastat.SystemFile.Shows.{system_header_rows, system_column, store_number, in_table}
use numactl.Numastat.Table.{Doubles, Table, string_assign}

-- A step of filling the table.
pub data Step (D : Type 0) : Type 0 where
  column_step : ℕ → Step D
  label_step : ℕ → Bytes → Step D
  number_step : ℕ → ℕ → D → Step D

-- The steps are written down, in their order.
abbrev pub steps : {D : Type 0} → Stores D (List (Step D))
steps = record {
  column = λ ix ks. ks ++ (column_step ix ∷ []);
  label = λ row name ks. ks ++ (label_step row name ∷ []);
  store = λ index ix v ks. ks ++ (number_step index ix v ∷ []);
}

module _ {D : Type 0} (doubles : Doubles D) (num : Arithmetic D) (settings : Settings D)
    (compatibility_mode : Bool) where
  abbrev pub top : ℕ
  top = system_header_rows doubles num settings compatibility_mode

  -- What a step does to the number in a cell below the headers.
  abbrev pub effect : ℕ → ℕ → Step D → D → D
  effect r c (column_step ix) x = x
  effect r c (label_step row name) x = x
  effect r c (number_step index ix v) x =
      if top + index == r
      then (if total_col_ix settings == c
          then doubles.plus x v
          else if header_cols + ix == c
          then v
          else x)
      else x

  -- The number in a cell behind steps, in their order.
  unfoldable pub number_behind : ℕ → ℕ → List (Step D) → D → D
  number_behind r c [] x = x
  number_behind r c (k ∷ rest) x = number_behind r c rest (effect r c k x)

  abbrev pub take_step : Step D → Table D → Table D
  take_step (column_step ix) table = system_column doubles num settings compatibility_mode ix table
  take_step (label_step row name) table = string_assign table (top + row) 0 (some name)
  take_step (number_step index ix v) table =
      store_number doubles num settings compatibility_mode index ix v table

  unfoldable pub play : List (Step D) → Table D → Table D
  play [] table = table
  play (k ∷ rest) table = play rest (take_step k table)

  pub play_last :
      (ks : List (Step D)) (k : Step D) (table : Table D)
      → play (ks ++ (k ∷ [])) table ≡ take_step k (play ks table)
  unfolding play
  play_last [] k table = refl
  play_last (j ∷ ks) k table = play_last ks k _

  pub play-Follows :
      (table : Table D)
      → Follows steps (in_table doubles num settings compatibility_mode) (λ ks. play ks table)
  play-Follows table = record {
    columns = λ ix ks. play_last ks (column_step ix) table;
    labels = λ row name ks. play_last ks (label_step row name) table;
    numbers = λ index ix v ks. play_last ks (number_step index ix v) table;
  }

  -- The steps are for the columns of nodes.
  abbrev pub IsStep : Step D → Type 0
  IsStep (column_step ix) = ix < num_nodes settings
  IsStep (label_step row name) = Unit
  IsStep (number_step index ix v) = ix < num_nodes settings

  abbrev pub AreSteps : List (Step D) → Type 0
  AreSteps [] = Unit
  AreSteps (k ∷ rest) = IsStep k × AreSteps rest

  pub AreSteps-last :
      (ks : List (Step D)) (k : Step D) → IsStep k → AreSteps ks → AreSteps (ks ++ (k ∷ []))
  AreSteps-last [] k h a = (h, tt)
  AreSteps-last (j ∷ ks) k h (p, a) = (p, AreSteps-last ks k h a)

  pub steps-Keeps : Keeps steps (num_nodes settings) AreSteps
  steps-Keeps = record {
    columns = λ ix ks h a. AreSteps-last ks (column_step ix) h a;
    labels = λ row name ks a. AreSteps-last ks (label_step row name) tt a;
    numbers = λ index ix v ks h a. AreSteps-last ks (number_step index ix v) h a;
  }
