-- ===== src/Health/Gauges.antt =====
-- What the gauge of the connections counts.
use goctopus.Registry.{save_key, save_keys, register}
use goctopus.Engine.{conns_of, Goctopus}
use goctopus.Prelude.GoMap.{Map, lookup, insert}
use goctopus.Health.{connections}
use goctopus.Prelude.{
  length, length-append, Text, ℕ, ◌+◌, ◌≡◌, Bool, List, [], ◌∷◌, ◌++◌, arith, text_key,
}

connections-insert :
    (k : Text) (c : List ℕ) (conns : Map Text (List ℕ))
    → connections (insert k c conns) + length (conns_of conns k) ≡ connections conns + length c
unfolding connections insert conns_of lookup
connections-insert k c [] = omega arith
connections-insert k c ((j, d) ∷ conns) = ground (arith, connections-insert k c conns)

module _ {S : Type 0} where
  connections-save_keys :
      (cid : ℕ) (keys : List Text) (g : Goctopus S)
      → connections (save_keys cid keys g).conns ≡ connections g.conns + length keys
  unfolding save_keys save_key
  connections-save_keys cid [] g = omega arith
  connections-save_keys cid (k ∷ keys) g =
      let old = conns_of g.conns k in
      omega (
        arith,
        connections-save_keys cid keys (save_key cid k g),
        connections-insert k (old ++ cid ∷ []) g.conns,
        length-append old (cid ∷ []),
      )

  -- The gauge counts a new connection once for each key that it has, not once.
  pub connections-register :
      (keys : List Text) (compress : Bool) (g : Goctopus S)
      → connections (register keys compress g).conns ≡ connections g.conns + length keys
  unfolding register
  connections-register keys compress g = connections-save_keys g.next keys _
