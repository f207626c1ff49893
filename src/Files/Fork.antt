-- ===== src/Files/Fork.antt =====
-- The descriptor table across `fork` (kernel/task.c).
use exscape_os.Prelude.{
  ℕ, zero, suc, ◌+◌, ◌<◌, ◌≡◌, ◌≢◌, refl, List, [], ◌∷◌, some, arith, length, get_elem?, take,
  Option-cases, inl, inr, update,
}
use exscape_os.Files.{Kernel, OpenFile, grab_all, fork_table}
use exscape_os.Files.Refs.{IsCounted, refs, count_of}

-- What counting the entries of `table` does to the counts.
record Grabbed (table : List ℕ) (k k' : Kernel) : Type 0 where
  counts : (p : ℕ) → p ≢ 0 → count_of (k'.files p) ≡ count_of (k.files p) + refs p table
  same_table : k'.fdtable ≡ k.fdtable
  alive : (p : ℕ) (f : OpenFile) → k'.files p ≡ some f → 0 < f.count

abbrev IsLive : Kernel → Type 0
IsLive k = (p : ℕ) (f : OpenFile) → k.files p ≡ some f → 0 < f.count

grab_all-Grabbed :
    (table : List ℕ) (k : Kernel) {k' : Kernel}
    → IsLive k
    → grab_all table k ≡ some k'
    → Grabbed table k k'
unfolding grab_all
grab_all-Grabbed [] k {k'} l h =
    let same : k ≡ k' = cc in
    rw (← same) (record { counts = λ p np. omega arith; same_table = refl; alive = l })
grab_all-Grabbed (zero ∷ table) k l h =
    let g = grab_all-Grabbed table k l h in
    record {
      counts = λ p np. ground (arith, g.counts p np);
      same_table = g.same_table;
      alive = g.alive;
    }
grab_all-Grabbed (suc file ∷ table) k {k'} l h = elim (Option-cases (k.files (suc file))) [
  | inl e ↦ ground (arith, e)
  | inr (f, e) ↦
      let k1 : Kernel = record k {
        files = update k.files (suc file) (some (record f { count = f.count + 1 }));
      } in
      let h1 : grab_all table k1 ≡ some k' = ground (arith, e, l (suc file) f e) in
      let g = grab_all-Grabbed table k1 (λ p g. ground (arith, l p g)) h1 in
      record {
        counts = λ p np. ground (arith, e, g.counts p np);
        same_table = g.same_table;
        alive = g.alive;
      }
]

refs-take :
    (p n : ℕ) (table : List ℕ)
    → p ≢ 0
    → length table ≡ n + 1
    → get_elem? table n ≡ some 0
    → refs p (take n table) ≡ refs p table
refs-take p n [] np l e = cc
refs-take p zero (x ∷ []) np l e = ground arith
refs-take p zero (x ∷ y ∷ table) np l e = absurd (omega arith)
refs-take p (suc n) (x ∷ table) np l e = omega (arith, refs-take p n table np (omega arith) e)

-- `fork` keeps the counts right: with the child's table counted among those of the other tasks,
-- every count is the number of entries, if the entry beyond the ones that it counts is free.
pub fork_table-IsCounted :
    {max_open : ℕ} {others : ℕ → ℕ} {k k' : Kernel} {child : List ℕ}
    → IsCounted max_open others k
    → get_elem? k.fdtable max_open ≡ some 0
    → fork_table max_open k ≡ some (child, k')
    → IsCounted max_open (λ p. others p + refs p child) k'
unfolding fork_table
fork_table-IsCounted {max_open} {others} {k} {k'} {child} v last h =
    elim (Option-cases (grab_all (take max_open k.fdtable) k)) [
      | inl e ↦ ground (arith, e)
      | inr (k1, e) ↦
          let g = grab_all-Grabbed (take max_open k.fdtable) k v.live e in
          let same : k1 ≡ k' = ground (arith, e) in
          let copied : k.fdtable ≡ child = ground (arith, e) in
          let v' : IsCounted max_open (λ p. others p + refs p k.fdtable) k1 = record {
            entries = rw g.same_table v.entries;
            counted = λ p np. rw g.same_table (
                omega (
                  arith,
                  g.counts p np,
                  v.counted p np,
                  refs-take p max_open k.fdtable np v.entries last,
                ));
            live = g.alive;
          } in
          rw (← same, ← copied) v'
    ]
