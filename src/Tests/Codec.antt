-- ===== src/Tests/Codec.antt =====
-- The sample platform reads back the stored messages that it writes.
use goctopus.Message.{Value, StoredMessage, null, boolean, number, array, object}
use goctopus.Tests.{alice, stored_hi, says_hi, is_hi, platform}
use goctopus.Message.Stored.{IsCodec}
use goctopus.Prelude.{
  Bool-cases, decide, Text, codes, Text-discrete, ◌≡◌, sym, ap, ◌∙◌, inl, inr, true, some, [], ◌∷◌,
  arith, text_key, nat_key,
}

equal : {A : Type 0} {x y : A} (d : Dec (x ≡ y)) → decide d ≡ true → x ≡ y
equal (yes e) h = e
equal (no e) h = cc

says_hi_lem : (v : Value) → says_hi v ≡ true → v ≡ Value.text (codes "hi")
says_hi_lem (Value.text t) h = elim (Text-discrete t (codes "hi")) [
  | yes e ↦ ap Value.text e
  | no e ↦ absurd (ground arith)
]
says_hi_lem null h = cc
says_hi_lem (boolean b) h = cc
says_hi_lem (number n) h = cc
says_hi_lem (array items) h = cc
says_hi_lem (object entries) h = cc

is_hi_lem : (s : StoredMessage) → is_hi s ≡ true → s ≡ stored_hi s.id s.date
is_hi_lem s h =
    let at_value : s.value ≡ Value.text (codes "hi") = says_hi_lem s.value (ground arith) in
    let at_key : s.key ≡ alice = equal (Text-discrete s.key alice) (ground arith) in
    let at_expire : s.expire ≡ codes "1m" =
      equal (Text-discrete s.expire (codes "1m")) (ground arith) in
    λ i. record {
      id = s.id;
      key = at_key i;
      value = at_value i;
      expire = at_expire i;
      date = s.date;
    }

reads_back :
    (s : StoredMessage) (b : Text)
    → platform.marshal_stored s ≡ some b
    → platform.unmarshal_stored b ≡ some s
reads_back s b e = elim (Bool-cases (is_hi s)) [
  | inr failed ↦ absurd (ground arith)
  | inl h ↦
      let is : s.id ∷ s.date ∷ [] ≡ b = ground arith in
      sym (ap platform.unmarshal_stored is) ∙ ap some (sym (is_hi_lem s h))
]

pub platform-IsCodec : IsCodec platform
platform-IsCodec = record { reads_back = reads_back; one_id = λ i j e. ground arith }
