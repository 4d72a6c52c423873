-- ===== src/Prelude/Collect.antt =====
-- The idiom of `targets` in src/message.go and `clientsForKey` in src/engine.go: a list `out` that
-- takes a new element once, guarded by a map `seen`.
use mathlib.Core.Path.{◌≡◌, refl}
use mathlib.Core.Bool.{Bool, true, false, ◌||◌}
use mathlib.Core.List.{List, [], ◌∷◌, ◌++◌}
use mathlib.Core.Option.{none, some}
use native.Mathlib.Omega.{arith}
use goctopus.Prelude.Tests.{if◌then◌else◌, decide}
use goctopus.Prelude.Strings.{Key}
use goctopus.Prelude.Members.{has, Distinct, Distinct-snoc}
use goctopus.Prelude.GoMap.{Map, lookup, insert, lookup-insert}

-- The two variables.
pub record Collected {ℓ} (K : Type ℓ) : Type ℓ where
  pub seen : List (K × Bool)
  pub out : List K

module _ {K : Type 0} ⦃e : Key K⦄ where
  -- `seen[k]`, which is false where the map has no entry.
  unfoldable pub was_seen : Map K Bool → K → Bool
  was_seen seen k = elim (lookup k seen) [ none ↦ false | some b ↦ b ]

  -- `if !seen[k] { seen[k] = true; out = append(out, k) }`
  unfoldable pub collect : Collected K → K → Collected K
  collect c k =
      if was_seen c.seen k then c else record { seen = insert k true c.seen; out = c.out ++ k ∷ [] }

  unfoldable pub collect_all : Collected K → List K → Collected K
  unfolding collect
  collect_all c [] = c
  collect_all c (k ∷ ks) = collect_all (collect c k) ks

  -- `seen` holds what `out` lists, and `out` lists nothing twice.
  pub record IsCollected (c : Collected K) : Type 0 where
    pub agrees : (k : K) → was_seen c.seen k ≡ has k c.out
    pub distinct : Distinct c.out

  pub has-snoc : (k j : K) (xs : List K) → has j (xs ++ k ∷ []) ≡ (has j xs || decide (e.dec k j))
  unfolding has
  has-snoc k j [] = ground arith
  has-snoc k j (x ∷ xs) = ground (arith, has-snoc k j xs)

  pub collect-IsCollected : (c : Collected K) (k : K) → IsCollected c → IsCollected (collect c k)
  unfolding collect was_seen
  collect-IsCollected c k v = record {
    agrees = λ j.
        ground (arith, v.agrees j, v.agrees k, lookup-insert k j true c.seen, has-snoc k j c.out);
    distinct = ground (arith, v.agrees k, v.distinct, Distinct-snoc c.out k);
  }

  pub has-collect :
      (c : Collected K) (k j : K)
      → IsCollected c
      → has j (collect c k).out ≡ (has j c.out || decide (e.dec k j))
  unfolding collect
  has-collect c k j v = ground (arith, v.agrees k, has-snoc k j c.out)

  pub collect_all-IsCollected :
      (c : Collected K) (ks : List K) → IsCollected c → IsCollected (collect_all c ks)
  unfolding collect_all
  collect_all-IsCollected c [] v = v
  collect_all-IsCollected c (k ∷ ks) v =
      collect_all-IsCollected (collect c k) ks (collect-IsCollected c k v)

  pub has-collect_all :
      (c : Collected K) (ks : List K) (j : K)
      → IsCollected c
      → has j (collect_all c ks).out ≡ (has j c.out || has j ks)
  unfolding collect_all has
  has-collect_all c [] j v = ground arith
  has-collect_all c (k ∷ ks) j v =
      ground
        (arith, has-collect c k j v, has-collect_all (collect c k) ks j (collect-IsCollected c k v))

  unfoldable pub nothing_collected : Collected K
  nothing_collected = record { seen = []; out = [] }

  pub nothing_collected-IsCollected : IsCollected nothing_collected
  unfolding nothing_collected was_seen lookup has
  nothing_collected-IsCollected = record { agrees = λ k. refl; distinct = tt }
