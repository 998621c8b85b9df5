-- ===== src/Numactl/Settings.antt =====
-- The options of numactl that only set variables: what the abstract rules accept, `main` accepts.
use numactl.Base.{◌≡◌, ◌≢◌, refl, ap, ◌∙◌, Bool, true, ◌&&◌, List, [], ◌∷◌, Option, some, arith}
use numactl.Libnuma.{State}
use numactl.Policy.{Kernel}
use numactl.Policy.Memory.{set_strict}
use numactl.Numactl.{Opt, Flags, Data, Exit, Progress, going, stopped, continue, System}
use numactl.Numactl.Guards.{check_all_parse, refuse_if, set_data, nopolicy, noshm, lift}
use numactl.Numactl.Commands.{handle, handle_all}
use numactl.Numactl.Spec.{View, view, spec, spec_all, then_spec-some, every, is_plain}
use numactl.Numactl.Accepts.{handle-Refines}

module _ {W : Type 0} (k : Kernel W) (exit_on_error fail_alloc_on_error : Bool) (st : State)
    (sys : System W) where
  handle-stopped :
      (o : Opt) (f : Flags) (d : Data W) (v : View) (r : Exit)
      → is_plain o ≡ true
      → spec o (view f) ≡ some v
      → handle k exit_on_error fail_alloc_on_error st sys o f d ≢ stopped r
  unfolding handle check_all_parse refuse_if set_data nopolicy noshm lift set_strict
  handle-stopped _ f d v r p q s = ground arith

  goes :
      (p : Progress W (Unit {0}))
      → ((r : Exit) → p ≢ stopped r)
      → (g : Flags) × (e : Data W) × (p ≡ going tt g e)
  goes (going tt g e) not_stopped = (g, e, refl)
  goes (stopped r) not_stopped = absurd (not_stopped r refl)

  handle-goes :
      (o : Opt) (f : Flags) (d : Data W) (v : View)
      → is_plain o ≡ true
      → spec o (view f) ≡ some v
      → (g : Flags) × (e : Data W) × (handle k exit_on_error fail_alloc_on_error st sys o f d
          ≡ going tt g e)
        × (view g ≡ v)
  handle-goes o f d v p q =
      let (g, e, first) = goes _ (λ r. handle-stopped o f d v r p q) in
      let leads =
        (handle-Refines k exit_on_error fail_alloc_on_error st sys o).step f d tt g e first in
      (g, e, first, cc (leads, q))

  and-true : (a b : Bool) → a && b ≡ true → (a ≡ true) × (b ≡ true)
  and-true a b q = ground arith

  goes_on :
      (o : Opt) (opts : List Opt) (f h g : Flags) (d c e : Data W)
      → handle k exit_on_error fail_alloc_on_error st sys o f d ≡ going tt h c
      → handle_all k exit_on_error fail_alloc_on_error st sys opts h c ≡ going tt g e
      → handle_all k exit_on_error fail_alloc_on_error st sys (o ∷ opts) f d ≡ going tt g e
  unfolding handle_all
  goes_on o opts f h g d c e first rest =
      ap (λ x. continue x (λ a. handle_all k exit_on_error fail_alloc_on_error st sys opts)) first
      ∙ rest

  same_view : (s : View → Option View) (u v w : View) → w ≡ u → s u ≡ some v → s w ≡ some v
  same_view s u v w same q = rw same q

  -- If every option only sets variables, and the abstract rules accept the options one after the
  -- other, then the loop of `main` goes on behind the last, and the variables have the view to which
  -- the rules lead.
  pub spec_all-handle_all :
      (opts : List Opt) (f : Flags) (d : Data W) (v : View)
      → every is_plain opts ≡ true
      → spec_all opts (view f) ≡ some v
      → (g : Flags) × (e : Data W) × (handle_all k exit_on_error fail_alloc_on_error st sys opts f d
          ≡ going tt g e)
        × (view g ≡ v)
  unfolding handle_all spec_all
  spec_all-handle_all [] f d v p q = (f, d, refl, cc q)
  spec_all-handle_all (o ∷ opts) f d v p q =
      let (u, accepts, after) = then_spec-some (spec o (view f)) (spec_all opts) v q in
      let (plain, others) = and-true (is_plain o) (every is_plain opts) p in
      let (h, c, first, same) = handle-goes o f d u plain accepts in
      let (g, e, rest, leads) =
        spec_all-handle_all opts h c v others (same_view (spec_all opts) u v (view h) same after) in
      (g, e, goes_on o opts f h g d c e first rest, leads)
