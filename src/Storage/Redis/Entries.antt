-- ===== src/Storage/Redis/Entries.antt =====
-- The messages that the entries of a hash decode to.
use goctopus.Storage.Redis.Server.{fields}
use goctopus.Storage.Queue.{find, ids}
use goctopus.Message.Stored.{IsCodec}
use goctopus.Message.{decode_message, Message, Platform}
use goctopus.Prelude.GoMap.{Map, lookup}
use goctopus.Prelude.{
  Option-cases, Text, has, Distinct, ℕ, ◌≡◌, refl, inl, inr, false, none, some, List, [], ◌∷◌,
  arith, text_key, nat_key,
}

pub lookup_absent :
    (f : Text) (entries : Map Text Text) → has f (fields entries) ≡ false → lookup f entries ≡ none
unfolding fields has lookup
lookup_absent f [] h = refl
lookup_absent f ((g, v) ∷ entries) h = ground (arith, lookup_absent f entries)

module _ (p : Platform) where
  -- The messages that decode, in the order of the entries.
  unfoldable pub decoded : Map Text Text → List Message
  decoded [] = []
  decoded ((f, v) ∷ entries) =
      let rest = decoded entries in elim (decode_message p v) [ none ↦ rest | some m ↦ m ∷ rest ]

  abbrev pub AllOwn : Map Text Text → Type 0
  AllOwn [] = Unit
  AllOwn ((f, v) ∷ entries) =
      ((m : Message) → decode_message p v ≡ some m → f ≡ p.uuid_text m.id) × AllOwn entries

  absent_field :
      (entries : Map Text Text) (id : ℕ)
      → AllOwn entries
      → has (p.uuid_text id) (fields entries) ≡ false
      → has id (ids (decoded entries)) ≡ false
  unfolding decoded fields has ids
  absent_field [] id own h = refl
  absent_field ((f, v) ∷ entries) id own h = elim (Option-cases (decode_message p v)) [
    | inl e ↦ ground (arith, absent_field entries id own.1)
    | inr (m, e) ↦ ground (arith, own.0 m e, absent_field entries id own.1)
  ]

  pub decoded-Distinct :
      (entries : Map Text Text)
      → AllOwn entries
      → Distinct (fields entries)
      → Distinct (ids (decoded entries))
  unfolding decoded fields has ids
  decoded-Distinct [] own d = tt
  decoded-Distinct ((f, v) ∷ entries) own d = elim (Option-cases (decode_message p v)) [
    | inl e ↦ ground (arith, decoded-Distinct entries own.1)
    | inr (m, e) ↦
        ground (arith, own.0 m e, decoded-Distinct entries own.1, absent_field entries m.id own.1)
  ]

  pub find-decoded :
      (codec : IsCodec p) (entries : Map Text Text) (id : ℕ)
      → AllOwn entries
      → Distinct (fields entries)
      → find id (decoded entries)
        ≡ elim (lookup (p.uuid_text id) entries) [ none ↦ none | some v ↦ decode_message p v ]
  unfolding decoded fields has lookup find
  find-decoded codec [] id own d = refl
  find-decoded codec ((f, v) ∷ entries) id own d = elim (Option-cases (decode_message p v)) [
    | inl e ↦ ground (arith, find-decoded codec entries id own.1, lookup_absent f entries)
    | inr (m, e) ↦
        ground (arith, own.0 m e, codec.one_id m.id id, find-decoded codec entries id own.1)
  ]
