-- ===== src/Message/Targets.antt =====
-- What `targets` computes.
use goctopus.Prelude.{Text, has, Distinct, ◌≡◌, not, ◌&&◌, ◌||◌, List, [], ◌∷◌, arith, text_key}
use goctopus.Prelude.Collect.{
  collect-IsCollected, has-collect, nothing_collected, nothing_collected-IsCollected, Collected,
  IsCollected,
}
use goctopus.Message.{is_empty, add_target, add_targets, targets, Message}

add_target-IsCollected :
    (c : Collected Text) (k : Text) → IsCollected c → IsCollected (add_target c k)
unfolding add_target
add_target-IsCollected c [] v = v
add_target-IsCollected c (x ∷ k) v = collect-IsCollected c (x ∷ k) v

add_targets-IsCollected :
    (c : Collected Text) (ks : List Text) → IsCollected c → IsCollected (add_targets c ks)
unfolding add_targets
add_targets-IsCollected c [] v = v
add_targets-IsCollected c (k ∷ ks) v =
    add_targets-IsCollected (add_target c k) ks (add_target-IsCollected c k v)

has-add_target :
    (c : Collected Text) (k j : Text)
    → IsCollected c
    → has j (add_target c k).out ≡ (has j c.out || not (is_empty j) && has j (k ∷ []))
unfolding add_target has
has-add_target c [] j v = ground arith
has-add_target c (x ∷ k) j v = ground (arith, has-collect c (x ∷ k) j v)

has-add_targets :
    (c : Collected Text) (ks : List Text) (j : Text)
    → IsCollected c
    → has j (add_targets c ks).out ≡ (has j c.out || not (is_empty j) && has j ks)
unfolding add_targets has
has-add_targets c [] j v = ground arith
has-add_targets c (k ∷ ks) j v = ground (
  arith,
  has-add_target c k j v,
  has-add_targets (add_target c k) ks j (add_target-IsCollected c k v),
)

-- A message is delivered to exactly the keys that it names in `key` or `keys`, the empty text left
-- out, and to none of them twice.
pub has-targets :
    (m : Message)
    → ((k : Text) → has k (targets m) ≡ (not (is_empty k) && has k (m.key ∷ m.keys)))
      × Distinct (targets m)
unfolding targets has nothing_collected
has-targets m =
    let first = add_target-IsCollected nothing_collected m.key nothing_collected-IsCollected in
    (
      (λ k. ground (
        arith,
        has-add_target nothing_collected m.key k nothing_collected-IsCollected,
        has-add_targets (add_target nothing_collected m.key) m.keys k first,
      )),
      (add_targets-IsCollected _ m.keys first).distinct,
    )
