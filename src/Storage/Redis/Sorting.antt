-- ===== src/Storage/Redis/Sorting.antt =====
-- The sorting by date keeps a queue's messages.
use goctopus.Storage.Redis.{insert_by_date, sort_by_date}
use goctopus.Storage.Queue.{find, ids}
use goctopus.Message.{Message}
use goctopus.Prelude.{
  decide, has, Distinct, ℕ, ◌≤◌, ◌≡◌, refl, ite, false, ◌||◌, some, List, [], ◌∷◌, arith,
  ℕ_discrete, text_key, nat_key,
}

-- The dates of a queue do not fall, from a first one.
abbrev pub InDateOrder : ℕ → List Message → Type 0
InDateOrder t [] = Unit
InDateOrder t (m ∷ q) = (t ≤ m.date) × InDateOrder m.date q

insert_by_date-InDateOrder :
    (t : ℕ) (m : Message) (q : List Message)
    → t ≤ m.date
    → InDateOrder t q
    → InDateOrder t (insert_by_date m q)
unfolding insert_by_date
insert_by_date-InDateOrder t m [] le o = (le, tt)
insert_by_date-InDateOrder t m (x ∷ q) le o = ground (arith, insert_by_date-InDateOrder x.date m q)

pub sort_by_date-InDateOrder : (q : List Message) → InDateOrder 0 (sort_by_date q)
unfolding sort_by_date
sort_by_date-InDateOrder [] = tt
sort_by_date-InDateOrder (m ∷ q) =
    insert_by_date-InDateOrder 0 m (sort_by_date q) (omega arith) (sort_by_date-InDateOrder q)

find-insert_by_date :
    (id : ℕ) (m : Message) (q : List Message)
    → has m.id (ids q) ≡ false
    → find id (insert_by_date m q) ≡ ite (ℕ_discrete m.id id) (some m) (find id q)
unfolding find ids has insert_by_date
find-insert_by_date id m [] h = refl
find-insert_by_date id m (x ∷ q) h = ground (arith, find-insert_by_date id m q)

has-ids-insert_by_date :
    (id : ℕ) (m : Message) (q : List Message)
    → has id (ids (insert_by_date m q)) ≡ (decide (ℕ_discrete m.id id) || has id (ids q))
unfolding ids has insert_by_date
has-ids-insert_by_date id m [] = ground arith
has-ids-insert_by_date id m (x ∷ q) = ground (arith, has-ids-insert_by_date id m q)

has-ids-sort_by_date : (id : ℕ) (q : List Message) → has id (ids (sort_by_date q)) ≡ has id (ids q)
unfolding ids has sort_by_date
has-ids-sort_by_date id [] = refl
has-ids-sort_by_date id (m ∷ q) =
    ground (arith, has-ids-insert_by_date id m (sort_by_date q), has-ids-sort_by_date id q)

pub find-sort_by_date :
    (id : ℕ) (q : List Message) → Distinct (ids q) → find id (sort_by_date q) ≡ find id q
unfolding ids find sort_by_date
find-sort_by_date id [] d = refl
find-sort_by_date id (m ∷ q) d = ground (
  arith,
  find-insert_by_date id m (sort_by_date q),
  has-ids-sort_by_date m.id q,
  find-sort_by_date id q,
)
