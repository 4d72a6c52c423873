-- ===== src/Storage/Redis/Scanning.antt =====
-- The loop of `GetKeys` over the batches of SCAN.
use goctopus.Storage.Redis.Server.{Hashes}
use goctopus.Storage.Redis.Contents.{redis_contents, trim_prefix-append}
use goctopus.Message.{complete, Platform}
use goctopus.Storage.Redis.{
  queue_prefix, queue_key, trim_prefix, trim_all, scan_keys, get_keys, RedisClient,
}
use goctopus.Prelude.{
  ℤ, Text, codes, Text-discrete, has, ℕ, zero, suc, ◌≤◌, ◌≡◌, refl, sym, ap, ◌∙◌, ◌≢◌, true, none,
  some, List, [], ◌∷◌, ◌++◌, append_assoc, arith, text_key,
}

module _ {R : Type 0} (rc : RedisClient R) (p : Platform) (key_ttl : ℤ) where
  abbrev pub pattern_text : Text
  pattern_text = queue_prefix ++ codes "*"

  -- An iteration of SCAN that the server ends, with all that it lists.
  pub data Scan : ℕ → R → List Text → R → Type 0 where
    finishes :
        {cursor : ℕ} {r r' : R} {batch : List Text}
        → (rc.scan cursor pattern_text r).0 ≡ some (batch, 0)
        → (rc.scan cursor pattern_text r).1 ≡ r'
        → Scan cursor r batch r'
    continues :
        {cursor next : ℕ} {r r' r'' : R} {batch found : List Text}
        → (rc.scan cursor pattern_text r).0 ≡ some (batch, suc next)
        → (rc.scan cursor pattern_text r).1 ≡ r'
        → Scan (suc next) r' found r''
        → Scan cursor r (batch ++ found) r''

  -- The number of its batches.
  abbrev pub batches : {cursor : ℕ} {r r' : R} {found : List Text} → Scan cursor r found r' → ℕ
  batches (finishes e left) = 1
  batches (continues e left s) = suc (batches s)

  -- What holds before and after each of its batches.
  abbrev pub Throughout :
      (R → Type 0) → {cursor : ℕ} {r r' : R} {found : List Text} → Scan cursor r found r' → Type 0
  Throughout P (finishes {r = r} {r' = r'} e left) = P r × P r'
  Throughout P (continues {r = r} e left s) = P r × Throughout P s

  Throughout-mono :
      (P Q : R → Type 0) {cursor : ℕ} {r r' : R} {found : List Text} (s : Scan cursor r found r')
      → ((x : R) → P x → Q x)
      → Throughout P s
      → Throughout Q s
  Throughout-mono P Q (finishes e left) f (a, b) = (f _ a, f _ b)
  Throughout-mono P Q (continues e left s) f (a, rest) = (f _ a, Throughout-mono P Q s f rest)

  trim_all-append : (xs ys : List Text) → trim_all (xs ++ ys) ≡ trim_all xs ++ trim_all ys
  unfolding trim_all
  trim_all-append [] ys = refl
  trim_all-append (x ∷ xs) ys = rw (trim_all-append xs ys) refl

  scan_keys-Scan :
      {cursor : ℕ} {r r' : R} {found : List Text} (s : Scan cursor r found r') (fuel : ℕ)
      (keys : List Text)
      → batches s ≤ fuel
      → scan_keys rc p key_ttl fuel cursor keys r ≡ some (some (keys ++ trim_all found), r')
  unfolding scan_keys
  scan_keys-Scan (finishes e left) zero keys le = absurd (omega arith)
  scan_keys-Scan (continues e left s) zero keys le = absurd (omega arith)
  scan_keys-Scan (finishes {batch = batch} e left) (suc fuel) keys le =
      rw (e, scan_keys) (ap (λ x. some (some (keys ++ trim_all batch), x)) left)
  scan_keys-Scan (continues {next = next} {r'' = last} {batch = batch} {found = found} e left s)
        (suc fuel) keys le =
      rw (e, scan_keys)
        (ap (scan_keys rc p key_ttl fuel (suc next) (keys ++ trim_all batch)) left
          ∙ scan_keys-Scan s fuel (keys ++ trim_all batch) (omega arith)
          ∙ ap (λ (x : List Text). some (some x, last))
              (append_assoc keys (trim_all batch) (trim_all found)
                ∙ ap (λ x. keys ++ x) (sym (trim_all-append batch found))))

has-trim_all :
    (key : Text) (found : List Text)
    → has (queue_key key) found ≡ true
    → has key (trim_all found) ≡ true
unfolding has trim_all queue_key
has-trim_all key [] h = cc
has-trim_all key (x ∷ found) h = elim (Text-discrete x (queue_key key)) [
  | yes e ↦ ground (arith, ap (trim_prefix queue_prefix) e, trim_prefix-append queue_prefix key)
  | no e ↦ ground (arith, has-trim_all key found)
]

module _ {R : Type 0} (rc : RedisClient R) (hashes : R → Hashes) (p : Platform) (key_ttl : ℤ) where
  -- SCAN with MATCH `queue_prefix*` lists every key of that form that has a field throughout the
  -- iteration.
  abbrev pub IsComplete : Type 0
  IsComplete =
      (r r' : R) (found : List Text) (key f : Text) (s : Scan rc p key_ttl 0 r found r')
      → Throughout rc p key_ttl (λ x. hashes x (queue_prefix ++ key) f ≢ none) s
      → has (queue_prefix ++ key) found ≡ true

  abbrev pub IsStored : Text → ℕ → R → Type 0
  IsStored key id r = redis_contents hashes p r key id ≢ none

  -- If the server ends the iteration of SCAN, and SCAN is complete for the keys that match its
  -- pattern, then the loop of `GetKeys` ends after as many rounds as there are batches, with what
  -- they listed, less the prefix; and any key under which a message stays stored throughout is
  -- among it.
  pub get_keys_lem :
      {r r' : R} {found : List Text} (s : Scan rc p key_ttl 0 r found r') (fuel : ℕ) (key : Text)
      (id : ℕ)
      → IsComplete
      → batches rc p key_ttl s ≤ fuel
      → Throughout rc p key_ttl (IsStored key id) s
      → (get_keys rc p key_ttl fuel r ≡ some (some (trim_all found), r'))
        × (has key (trim_all found) ≡ true)
  unfolding get_keys queue_key
  get_keys_lem {r} {r'} {found} s fuel key id complete le stored =
      let f = p.uuid_text id in
      (
        scan_keys-Scan rc p key_ttl s fuel [] le,
        has-trim_all key found (
            complete r r' found key f s (
              Throughout-mono rc p key_ttl (IsStored key id)
                (λ x. hashes x (queue_prefix ++ key) f ≢ none) s (λ x n e. n (ground arith))
                stored)),
      )
