-- ===== src/Cpus/Laws.antt =====
-- The cpumap of a node is read once, and its parser ends.
use numactl.Base.{
  ℕ, zero, suc, ◌-◌, ◌≤◌, ◌<◌, ◌≡◌, ◌≢◌, refl, Bool, true, false, not, Option, some, none, Bytes,
  ltb, leb, ◌==◌, if◌then◌else◌, length, get_or, set, drop, arith, length-drop,
}
use numactl.Base.Ints.{pos, minus_one}
use numactl.Base.Loops.{find_from}
use numactl.Bitmask.{Bitmask, clearall}
use numactl.Bitmask.Copy.{copy_bitmask_to_bitmask}
use numactl.Bitmask.Words.{cpu_longs}
use numactl.Text.{strtoul}
use numactl.Text.Strtoul.{length-strtoul}
use numactl.Cpus.{
  field_before, Field, value_and_end, parse_words, parse_bitmap, parse_to, Cache, Answer, answer,
}

oldp-le : (p : ℕ) (line : Bytes) → (field_before p line).oldp ≤ p
unfolding field_before
oldp-le p line = ground arith

-- `strtoul` ends behind where it begins, or there.
endp_lem :
    (f : Field) (r : Option (ℕ × Bytes))
    → strtoul 16 (drop f.start f.line) ≡ r
    → f.start ≤ (value_and_end f r).1
endp_lem f none e = omega arith
endp_lem f (some (v, rest)) e =
    omega (arith, length-strtoul 16 (drop f.start f.line) e, length-drop f.start f.line)

-- A round that ends the loop has a result.
goes_on :
    {A : Type 0} (more full met : Bool) (a b c : A) (rest : Option A)
    → (if not more then some a else if full then some b else if not met then some c else rest)
      ≡ none
    → (more ≡ true) × (met ≡ true) × (rest ≡ none)
goes_on false full met a b c rest e = cc e
goes_on true true met a b c rest e = cc e
goes_on true false false a b c rest e = cc e
goes_on true false true a b c rest e = (refl, refl, e)

parse_words-ends :
    (fuel i p : ℕ) (line : Bytes) (mask : Bitmask)
    → p < fuel
    → parse_words fuel i p line mask ≢ none
unfolding parse_words
parse_words-ends zero i p line mask l e = absurd (omega arith)
parse_words-ends (suc fuel) i p line mask l e =
    let f : Field = field_before p line in
    let got : ℕ × ℕ = value_and_end f (strtoul 16 (drop f.start f.line)) in
    let stored : Bitmask = record mask { maskp = set mask.maskp i got.0 } in
    let begins : f.start ≤ got.1 = endp_lem f (strtoul 16 (drop f.start f.line)) refl in
    let old : f.oldp ≤ p = oldp-le p line in
    let (more, met, later) =
      goes_on (ltb 0 p) (leb (cpu_longs mask.size) i) (got.1 == f.oldp) (true, mask) (false, mask)
        (false, stored) (parse_words fuel (suc i) (f.start - 1) f.line stored) e in
    parse_words-ends fuel (suc i) (f.start - 1) f.line stored (ground arith) later

-- `numa_parse_bitmap` ends on every line.
pub parse_bitmap-ends : (line : Bytes) (mask : Bitmask) → parse_bitmap line mask ≢ none
unfolding parse_bitmap
parse_bitmap-ends line mask = go (find_from (length line) 0 (λ i. get_or line i 0 == b'\n'))
  where
    go : (o : Option ℕ) → parse_to line mask o ≢ none
    go none e = cc e
    go (some p) e = parse_words-ends (suc p) 0 p line mask (omega arith) e

-- The cache once the cpus of `node` are in it.
abbrev pub with_node : ℕ → Bitmask → Cache → Cache
with_node node mask c = record { masks = set c.masks node (some mask); stale = false }

-- What a call gives whose cpumap is `mask`.
abbrev pub found : ℕ → Bitmask → Bitmask → Cache → Answer
found node buffer mask c =
    answer (pos 0) (copy_bitmask_to_bitmask mask (clearall buffer)) (with_node node mask c)

-- What the cache gives to a later call: nothing where the buffer is smaller than the mask.
abbrev pub found_again : ℕ → Bitmask → Bitmask → Cache → Answer
found_again node buffer mask c =
    if ltb buffer.size mask.size
    then answer minus_one (clearall buffer) (with_node node mask c)
    else found node buffer mask c
