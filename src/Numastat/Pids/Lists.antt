-- ===== src/Numastat/Pids/Lists.antt =====
-- numastat.c: the growth of the list of processes, and what a failure of `realloc` does to it.
use numactl.Base.{
  ℕ, ◌*◌, ◌≤◌, ◌<◌, ◌≡◌, refl, ap, ◌∙◌, Bool, true, false, List, [], ◌∷◌, ◌++◌, Option, some, none,
  arith, ltb, ◌==◌, if◌then◌else◌, length, length-append, Bool-cases, inl, inr,
}
use numactl.Base.Ints.{ℤ}
use numactl.Numastat.Pids.{Pids, no_pids, append_pid, added, add_pid_to_list, add_pids}

-- The list is in the memory, which has room for as many as `pid_array_max_pids` says.
pub record InRoom (pids : Pids) : Type 0 where
  pub held : length pids.pid_array ≤ pids.max_pids
  pub backed : pids.max_pids ≤ pids.room

append_pid_lem :
    (pid : ℤ) (pids : Pids)
    → length pids.pid_array < pids.room
    → append_pid pid pids ≡ some (record pids { pid_array = pids.pid_array ++ (pid ∷ []) })
append_pid_lem pid pids h = ground (arith, h)

-- The list is longer by the given processes, and in its memory.
pub record Grows (pids : Pids) (new : List ℤ) (r : Option Pids) : Type 0 where
  pub later : Pids
  pub result : r ≡ some later
  pub listed : later.pid_array ≡ pids.pid_array ++ new
  pub in_room : InRoom later

add_pid_to_list-Grows :
    (realloc : ℕ → Bool) (pid : ℤ) (pids : Pids)
    → ((n : ℕ) → realloc n ≡ true)
    → InRoom pids
    → Grows pids (pid ∷ []) (add_pid_to_list realloc pid pids)
unfolding add_pid_to_list
add_pid_to_list-Grows realloc pid pids gives w =
    elim (Bool-cases (ltb (length pids.pid_array) pids.max_pids)) [
      | inl l ↦ rw l (record {
        later = record pids { pid_array = pids.pid_array ++ (pid ∷ []) };
        result = append_pid_lem pid pids (let b = w.backed in ground (arith, b, l));
        listed = refl;
        in_room = record {
          held = let e = length-append pids.pid_array (pid ∷ []) in ground (arith, e, l);
          backed = w.backed;
        };
      })
      | inr l ↦
          let double = 2 * (if pids.max_pids == 0 then 32 else pids.max_pids) in
          let fits : length pids.pid_array < double = let h = w.held in ground (arith, h) in
          rw (l, gives double)
            (record {
              later = record {
                pid_array = pids.pid_array ++ (pid ∷ []);
                max_pids = double;
                room = double;
              };
              result = append_pid_lem pid (record pids { max_pids = double; room = double }) fits;
              listed = refl;
              in_room = record {
                held = let e = length-append pids.pid_array (pid ∷ []) in omega (arith, e, fits);
                backed = omega arith;
              };
            })
    ]

append_one : (xs : List ℤ) (x : ℤ) (ys : List ℤ) → (xs ++ (x ∷ [])) ++ ys ≡ xs ++ (x ∷ ys)
append_one [] x ys = refl
append_one (y ∷ xs) x ys = ap (λ t. y ∷ t) (append_one xs x ys)

append_nil : (xs : List ℤ) → xs ≡ xs ++ []
append_nil [] = refl
append_nil (x ∷ xs) = ap (λ t. x ∷ t) (append_nil xs)

add_pids-Grows_from :
    (realloc : ℕ → Bool) (new : List ℤ) (pids : Pids)
    → ((n : ℕ) → realloc n ≡ true)
    → InRoom pids
    → Grows pids new (add_pids realloc new pids)
unfolding add_pids
add_pids-Grows_from realloc [] pids gives w = record {
  later = pids;
  result = refl;
  listed = append_nil pids.pid_array;
  in_room = w;
}
add_pids-Grows_from realloc (pid ∷ rest) pids gives w =
    let one = add_pid_to_list-Grows realloc pid pids gives w in
    let more = add_pids-Grows_from realloc rest one.later gives one.in_room in
    record {
      later = more.later;
      result = ap (added (add_pids realloc rest)) one.result ∙ more.result;
      listed = more.listed ∙ ap (λ t. t ++ rest) one.listed ∙ append_one pids.pid_array pid rest;
      in_room = more.in_room;
    }

-- If memory never runs out, then adding any number of processes to the empty list, one after the
-- other, gives the list of them in that order, and no write is past the memory of the list.
pub add_pids-Grows :
    (realloc : ℕ → Bool) (new : List ℤ)
    → ((n : ℕ) → realloc n ≡ true)
    → Grows no_pids new (add_pids realloc new no_pids)
add_pids-Grows realloc new gives =
    add_pids-Grows_from realloc new no_pids gives
      (record { held = omega arith; backed = omega arith })

skipped :
    (realloc : ℕ → Bool) (pid : ℤ)
    → realloc 64 ≡ false
    → add_pid_to_list realloc pid no_pids ≡ some (record no_pids { max_pids = 32 })
unfolding add_pid_to_list
skipped realloc pid fails = rw fails refl

-- If the first `realloc` fails, which asks for 64 elements, then that process is skipped, but the
-- next one is written past the memory of the list, whatever it is.
pub add_pids-overrun :
    (realloc : ℕ → Bool) (pid next : ℤ) (rest : List ℤ)
    → realloc 64 ≡ false
    → add_pids realloc (pid ∷ next ∷ rest) no_pids ≡ none
unfolding add_pids add_pid_to_list
add_pids-overrun realloc pid next rest fails =
    ap (added (add_pids realloc (next ∷ rest))) (skipped realloc pid fails)
