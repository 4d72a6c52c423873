-- ===== src/Storage/Queue.antt =====
-- The queue of one key: what AddMessage and DeleteMessage of src/memory_storage.go do to it.
use goctopus.Prelude.{
  decide, has, Distinct, ℕ, ◌≡◌, refl, ite, Bool, true, false, ◌||◌, Option, none, some, List, [],
  ◌∷◌, arith, ℕ_discrete, nat_key,
}
use goctopus.Message.{Message}

-- The loop of `AddMessage`, with the append behind it: a message with a known id is replaced where
-- it stands.
unfoldable pub upsert : Message → List Message → List Message
upsert m [] = m ∷ []
upsert m (x ∷ xs) = ite (ℕ_discrete x.id m.id) (m ∷ xs) (x ∷ upsert m xs)

-- The loop of `DeleteMessage`: the first message with the id is cut out.
unfoldable pub without : ℕ → List Message → List Message
without id [] = []
without id (x ∷ xs) = ite (ℕ_discrete x.id id) xs (x ∷ without id xs)

-- Whether the loop of `DeleteMessage` finds the id.
unfoldable pub holds : ℕ → List Message → Bool
holds id [] = false
holds id (x ∷ xs) = ite (ℕ_discrete x.id id) true (holds id xs)

-- The message that stands under an id.
unfoldable pub find : ℕ → List Message → Option Message
find id [] = none
find id (x ∷ xs) = ite (ℕ_discrete x.id id) (some x) (find id xs)

unfoldable pub ids : List Message → List ℕ
ids [] = []
ids (x ∷ xs) = x.id ∷ ids xs

pub find-upsert :
    (m : Message) (id : ℕ) (q : List Message)
    → find id (upsert m q) ≡ ite (ℕ_discrete m.id id) (some m) (find id q)
unfolding find upsert
find-upsert m id [] = refl
find-upsert m id (x ∷ xs) = ground (arith, find-upsert m id xs)

pub find_absent : (id : ℕ) (q : List Message) → has id (ids q) ≡ false → find id q ≡ none
unfolding find ids has
find_absent id [] h = refl
find_absent id (x ∷ xs) h = ground (arith, find_absent id xs)

pub find-without :
    (i id : ℕ) (q : List Message)
    → Distinct (ids q)
    → find id (without i q) ≡ ite (ℕ_discrete i id) none (find id q)
unfolding find without ids
find-without i id [] d = ground arith
find-without i id (x ∷ xs) d = ground (arith, find-without i id xs, find_absent id xs)

has-ids-upsert :
    (m : Message) (id : ℕ) (q : List Message)
    → has id (ids (upsert m q)) ≡ (decide (ℕ_discrete m.id id) || has id (ids q))
unfolding upsert ids has
has-ids-upsert m id [] = ground arith
has-ids-upsert m id (x ∷ xs) = ground (arith, has-ids-upsert m id xs)

has-ids-without :
    (i id : ℕ) (q : List Message) → has id (ids q) ≡ false → has id (ids (without i q)) ≡ false
unfolding without ids has
has-ids-without i id [] h = refl
has-ids-without i id (x ∷ xs) h = ground (arith, has-ids-without i id xs)

pub upsert-Distinct :
    (m : Message) (q : List Message) → Distinct (ids q) → Distinct (ids (upsert m q))
unfolding upsert ids has
upsert-Distinct m [] d = ground arith
upsert-Distinct m (x ∷ xs) d = ground (arith, upsert-Distinct m xs, has-ids-upsert m x.id xs)

pub without-Distinct : (i : ℕ) (q : List Message) → Distinct (ids q) → Distinct (ids (without i q))
unfolding without ids
without-Distinct i [] d = tt
without-Distinct i (x ∷ xs) d = ground (arith, without-Distinct i xs, has-ids-without i x.id xs)

pub upsert_idem : (m : Message) (q : List Message) → upsert m (upsert m q) ≡ upsert m q
unfolding upsert
upsert_idem m [] = ground arith
upsert_idem m (x ∷ xs) = ground (arith, upsert_idem m xs)

pub holds-eq-has : (id : ℕ) (q : List Message) → holds id q ≡ has id (ids q)
unfolding holds ids has
holds-eq-has id [] = refl
holds-eq-has id (x ∷ xs) = ground (arith, holds-eq-has id xs)

pub without_absent : (id : ℕ) (q : List Message) → holds id q ≡ false → without id q ≡ q
unfolding holds without
without_absent id [] h = refl
without_absent id (x ∷ xs) h = ground (arith, without_absent id xs)
