-- ===== src/Storage/Redis/Server.antt =====
-- What the storage relies on of a Redis server: the effect of each command on the hashes.
use goctopus.Storage.Redis.{Command, RedisClient, hset, hdel, del, expire}
use goctopus.Prelude.GoMap.{Map, lookup}
use goctopus.Prelude.{
  if◌then◌else◌, decide, Text, Text-discrete, Distinct, ◌≡◌, ◌⊎◌, inl, inr, true, false, ◌&&◌,
  Option, none, some, List, [], ◌∷◌, arith, text_key,
}

-- The value under a key and a field.
abbrev pub Hashes : Type 0
Hashes = Text → Text → Option Text

-- EXPIRE takes no key away at once.
abbrev pub apply : Command → Hashes → Hashes
apply (hset k f v) h j g =
    if decide (Text-discrete k j) && decide (Text-discrete f g) then some v else h j g
apply (hdel k f) h j g =
    if decide (Text-discrete k j) && decide (Text-discrete f g) then none else h j g
apply (del k) h j g = if decide (Text-discrete k j) then none else h j g
apply (expire k ttl) h j g = h j g

abbrev pub apply_all : List Command → Hashes → Hashes
apply_all [] h = h
apply_all (c ∷ commands) h = apply_all commands (apply c h)

unfoldable pub fields : Map Text Text → List Text
fields [] = []
fields ((f, v) ∷ entries) = f ∷ fields entries

-- A command, or a transaction, takes effect wholly or not at all, and did so if it succeeded.
-- HGETALL gives the whole hash, each field once.
pub record IsRedis {R : Type 0} (rc : RedisClient R) (hashes : R → Hashes) : Type 0 where
  pub run_effect :
      (c : Command) (r : R)
      → ((j f : Text) → hashes (rc.run c r).1 j f ≡ apply c (hashes r) j f)
        ⊎ (((rc.run c r).0 ≡ false) × ((j f : Text) → hashes (rc.run c r).1 j f ≡ hashes r j f))
  pub exec_effect :
      (commands : List Command) (r : R)
      → ((j f : Text) → hashes (rc.exec commands r).1 j f ≡ apply_all commands (hashes r) j f)
        ⊎ (((rc.exec commands r).0 ≡ false)
            × ((j f : Text) → hashes (rc.exec commands r).1 j f ≡ hashes r j f))
  pub hgetall_effect :
      (k : Text) (r : R) (j f : Text) → hashes (rc.hgetall k r).1 j f ≡ hashes r j f
  pub hgetall_result :
      (k : Text) (r : R) (entries : Map Text Text)
      → (rc.hgetall k r).0 ≡ some entries
      → Distinct (fields entries) × ((f : Text) → lookup f entries ≡ hashes r k f)

module _ {R : Type 0} (rc : RedisClient R) (hashes : R → Hashes) (law : IsRedis rc hashes) where
  pub run_succeeded :
      (c : Command) (r : R) (j f : Text)
      → (rc.run c r).0 ≡ true
      → hashes (rc.run c r).1 j f ≡ apply c (hashes r) j f
  run_succeeded c r j f h = elim (law.run_effect c r) [
    | inl e ↦ e j f
    | inr (failed, _) ↦ absurd (ground arith)
  ]

  pub exec_succeeded :
      (commands : List Command) (r : R) (j f : Text)
      → (rc.exec commands r).0 ≡ true
      → hashes (rc.exec commands r).1 j f ≡ apply_all commands (hashes r) j f
  exec_succeeded commands r j f h = elim (law.exec_effect commands r) [
    | inl e ↦ e j f
    | inr (failed, _) ↦ absurd (ground arith)
  ]
