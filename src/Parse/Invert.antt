-- ===== src/Parse/Invert.antt =====
-- `!` in front of a list.
use numactl.Base.{
  ℕ, suc, ◌≡◌, false, not, ◌&&◌, ◌∷◌, Bytes, length, ltb, ◌==◌, if◌then◌else◌, inl, inr, ◌∙◌, refl,
  sym, ap, Option-cases,
}
use numactl.Base.Ints.{ℤ}
use numactl.Bitmask.{Bitmask, IsValid, isbitset}
use numactl.Libnuma.{State, num_configured_nodes, allocate_nodemask}
use numactl.Parse.Range.{invert_mask_lem}
use numactl.Parse.{
  Result, ok, refused, no_mask, exhausted, flag, finish, invert_mask, nodes_loop, parse_nodes_into,
  parse_nodestring_in,
}

finish-finish :
    (f : Bitmask → Bitmask) (r : Result Bitmask) → finish f (finish (λ m. m) r) ≡ finish f r
finish-finish f (ok m) = refl
finish-finish f (refused r) = refl
finish-finish f no_mask = refl
finish-finish f exhausted = refl

module _ (resolve : Bytes → Bitmask → ℤ × Bitmask) (st : State) (allowed : Bitmask) where
  parse_nodes_into_invert :
      (c : ℕ) (s : Bytes) (mask : Bitmask)
      → (c == b'!') ≡ false
      → parse_nodes_into resolve st allowed (b'!' ∷ c ∷ s) mask
        ≡ finish
            (invert_mask (num_configured_nodes st))
            (parse_nodes_into resolve st allowed (c ∷ s) mask)
  unfolding parse_nodes_into
  parse_nodes_into_invert c s mask plain =
      let (relative, s2) = flag b'+' (c ∷ s) in
      rw plain (
        sym (
          finish-finish (invert_mask (num_configured_nodes st))
            (nodes_loop resolve allowed relative (suc (length s2)) mask s2)))

  -- `!` in front of a list flips the bits below the number of configured nodes, and leaves every
  -- other bit as the list alone has it. (The numbers of the nodes may go past their count.)
  pub parse_nodestring_invert :
      (c : ℕ) (s : Bytes) (m : Bitmask)
      → (c == b'!') ≡ false
      → IsValid m
      → parse_nodestring_in resolve st allowed (c ∷ s) ≡ ok m
      → (m' : Bitmask) × (parse_nodestring_in resolve st allowed (b'!' ∷ c ∷ s) ≡ ok m')
        × ((i : ℕ)
            → isbitset m' i ≡ (
                if ltb i (num_configured_nodes st) && ltb i m.size
                then not (isbitset m i)
                else isbitset m i))
  unfolding parse_nodestring_in
  parse_nodestring_invert c s m plain v e = elim (Option-cases (allocate_nodemask st)) [
    | inl failed ↦ cc (rw (failed, parse_nodestring_in) at e)
    | inr (fresh, given) ↦ (
      invert_mask (num_configured_nodes st) m,
      rw (given, parse_nodestring_in)
          (parse_nodes_into_invert c s fresh plain
            ∙ ap (finish (invert_mask (num_configured_nodes st)))
                (rw (given, parse_nodestring_in) at e)),
      (invert_mask_lem (num_configured_nodes st) m v).2,
    )
  ]
