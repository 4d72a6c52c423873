-- ===== src/Tests/Redis.antt =====
-- A Redis server in memory, and the theorems on the Redis storage over it.
use goctopus.Storage.Redis.Setting.{kept_of, get-set_queue}
use goctopus.Tests.Codec.{platform-IsCodec}
use goctopus.Storage.Queue.{find, ids}
use goctopus.Storage.Memory.Tidy.{Call, adds, deletes, clears}
use goctopus.Storage.Memory.Refinement.{act_all}
use goctopus.Storage.Redis.Sorting.{InDateOrder}
use goctopus.Storage.Redis.Scanning.{IsComplete, get_keys_lem, Scan, finishes, continues}
use goctopus.Storage.Redis.Contents.{
  redis_contents, OwnFields, kept_call, run_calls, run_calls-act_all,
}
use goctopus.Message.{is_empty, encode, decode_message, Message}
use mathlib.Core.Path.{fun_ext}
use goctopus.Tests.{alice, topic, hello, platform}
use goctopus.Storage.Redis.Server.{Hashes, apply, apply_all, fields, IsRedis}
use goctopus.Storage.Redis.{
  queue_prefix, queue_key, trim_all, set_queue, get_queue, delete_queue, add_message,
  delete_message, get_keys, Command, RedisClient, hset, hdel, del, expire,
}
use goctopus.Prelude.GoMap.{Map, lookup, insert, delete, lookup-insert, lookup-delete}
use goctopus.Prelude.{
  ◌==◌, if◌then◌else◌, decide, pos, Text, codes, Text-discrete, has, Distinct, ℕ, ◌≡◌, refl, sym,
  ap, subst, ◌∙◌, ◌≢◌, inl, Bool, true, ◌&&◌, ◌||◌, none, some, List, [], ◌∷◌, ◌++◌, map, arith,
  ℕ_discrete, text_key, nat_key,
}

abbrev Server : Type 0
Server = Map Text (Map Text Text)

hash_of : Server → Text → Map Text Text
hash_of r k = elim (lookup k r) [ none ↦ [] | some h ↦ h ]

hashes : Server → Hashes
hashes r k f = lookup f (hash_of r k)

step : Command → Server → Server
step (hset k f v) r = insert k (insert f v (hash_of r k)) r
step (hdel k f) r = insert k (delete f (hash_of r k)) r
step (del k) r = delete k r
step (expire k ttl) r = r

step_all : List Command → Server → Server
step_all [] r = r
step_all (c ∷ commands) r = step_all commands (step c r)

-- Each field once.
rebuilt : Map Text Text → Map Text Text
rebuilt [] = []
rebuilt ((f, v) ∷ h) = insert f v (rebuilt h)

keys_of : Server → List Text
keys_of [] = []
keys_of ((k, h) ∷ r) = k ∷ keys_of r

-- A glob pattern whose only special character is a `*` at its end.
matches_glob : Text → Text → Bool
matches_glob [] k = is_empty k
matches_glob (c ∷ pattern_key) [] = c == b'*' && is_empty pattern_key
matches_glob (c ∷ pattern_key) (d ∷ k) =
    let rest = matches_glob pattern_key k in
    if c == b'*' && is_empty pattern_key then true else c == d && rest

matching_keys : Text → List Text → List Text
matching_keys pattern_key [] = []
matching_keys pattern_key (k ∷ keys) =
    let rest = matching_keys pattern_key keys in
    if matches_glob pattern_key k then k ∷ rest else rest

client : RedisClient Server
unfolding step step_all rebuilt keys_of hash_of matching_keys
client = record {
  run = λ c r. (true, step c r);
  exec = λ commands r. (true, step_all commands r);
  hgetall = λ k r. (some (rebuilt (hash_of r k)), r);
  scan = λ cursor pattern_key r. (some (matching_keys pattern_key (keys_of r), 0), r);
  publish = λ channel payload r. (true, r);
  ping = λ r. true;
}

hash_of-insert :
    (k j : Text) (h : Map Text Text) (r : Server)
    → hash_of (insert k h r) j ≡ (if decide (Text-discrete k j) then h else hash_of r j)
unfolding hash_of
hash_of-insert k j h r = ground (arith, lookup-insert k j h r)

hash_of-delete :
    (k j : Text) (r : Server)
    → hash_of (delete k r) j ≡ (if decide (Text-discrete k j) then [] else hash_of r j)
unfolding hash_of
hash_of-delete k j r = ground (arith, lookup-delete k j r)

step_lem : (c : Command) (r : Server) (j g : Text) → hashes (step c r) j g ≡ apply c (hashes r) j g
unfolding hashes step lookup
step_lem (hset k f v) r j g =
    ground
      (arith, hash_of-insert k j (insert f v (hash_of r k)) r, lookup-insert f g v (hash_of r k))
step_lem (hdel k f) r j g =
    ground (arith, hash_of-insert k j (delete f (hash_of r k)) r, lookup-delete f g (hash_of r k))
step_lem (del k) r j g = ground (arith, hash_of-delete k j r)
step_lem (expire k ttl) r j g = refl

step_all_lem :
    (commands : List Command) (r : Server) (j g : Text)
    → hashes (step_all commands r) j g ≡ apply_all commands (hashes r) j g
unfolding step_all
step_all_lem [] r j g = refl
step_all_lem (c ∷ commands) r j g =
    step_all_lem commands (step c r) j g
    ∙ ap (λ h. apply_all commands h j g) (fun_ext λ k. fun_ext λ f. step_lem c r k f)

lookup-rebuilt : (h : Map Text Text) (f : Text) → lookup f (rebuilt h) ≡ lookup f h
unfolding rebuilt lookup
lookup-rebuilt [] f = refl
lookup-rebuilt ((g, v) ∷ h) f = ground (arith, lookup-insert g f v (rebuilt h), lookup-rebuilt h f)

has-fields-insert :
    (f g v : Text) (h : Map Text Text)
    → has g (fields (insert f v h)) ≡ (decide (Text-discrete f g) || has g (fields h))
unfolding has fields insert
has-fields-insert f g v [] = ground arith
has-fields-insert f g v ((i, w) ∷ h) = ground (arith, has-fields-insert f g v h)

insert-Distinct :
    (f v : Text) (h : Map Text Text) → Distinct (fields h) → Distinct (fields (insert f v h))
unfolding has fields insert
insert-Distinct f v [] d = ground arith
insert-Distinct f v ((i, w) ∷ h) d =
    ground (arith, insert-Distinct f v h, has-fields-insert f i v h)

rebuilt-Distinct : (h : Map Text Text) → Distinct (fields (rebuilt h))
unfolding rebuilt fields
rebuilt-Distinct [] = tt
rebuilt-Distinct ((f, v) ∷ h) = insert-Distinct f v (rebuilt h) (rebuilt-Distinct h)

hgetall_result :
    (k : Text) (r : Server) (entries : Map Text Text)
    → (client.hgetall k r).0 ≡ some entries
    → Distinct (fields entries) × ((f : Text) → lookup f entries ≡ hashes r k f)
unfolding client hashes
hgetall_result k r entries e =
    let same : rebuilt (hash_of r k) ≡ entries = ground arith in
    (
      subst (λ h. Distinct (fields h)) same (rebuilt-Distinct (hash_of r k)),
      λ f. ap (lookup f) (sym same) ∙ lookup-rebuilt (hash_of r k) f,
    )

client-IsRedis : IsRedis client hashes
unfolding client
client-IsRedis = record {
  run_effect = λ c r. inl (step_lem c r);
  exec_effect = λ commands r. inl (step_all_lem commands r);
  hgetall_effect = λ k r j f. refl;
  hgetall_result = hgetall_result;
}

empty-OwnFields : OwnFields hashes platform []
unfolding hashes hash_of lookup
empty-OwnFields k f v m e d = cc

abbrev calls : List Call
calls = adds alice hello ∷ adds topic hello ∷ deletes topic 7 ∷ clears topic ∷ []

abbrev stored : Server
stored = (queue_key alice, (7 ∷ [], 7 ∷ 10 ∷ []) ∷ []) ∷ []

calls_run :
    run_calls client hashes client-IsRedis platform platform-IsCodec (pos 60) calls [] ≡ some stored
unfolding run_calls add_message encode Text-discrete ℕ_discrete client delete_message delete_queue
    delete insert queue_key lookup
calls_run = refl

run_calls-act_all_example :
    (redis_contents hashes platform stored
      ≡ act_all (map kept_call calls) (redis_contents hashes platform []))
    × OwnFields hashes platform stored
run_calls-act_all_example =
    run_calls-act_all client hashes client-IsRedis platform platform-IsCodec (pos 60) calls []
      stored calls_run empty-OwnFields

stored_answered : (client.hgetall (queue_key alice) stored).0 ≢ none
unfolding client
stored_answered = λ e. ground arith

stored_in_hash : (r : Server) (k f : Text) → hashes r k f ≢ none → has k (keys_of r) ≡ true
unfolding hashes hash_of lookup has keys_of
stored_in_hash [] k f n = absurd (n refl)
stored_in_hash ((j, h) ∷ r) k f n = ground (arith, stored_in_hash r k f)

queue_prefix_matches :
    (key : Text) → matches_glob (queue_prefix ++ codes "*") (queue_prefix ++ key) ≡ true
unfolding matches_glob
queue_prefix_matches [] = refl
queue_prefix_matches (c ∷ key) = refl

has-matching_keys :
    (pattern_key k : Text) (keys : List Text)
    → matches_glob pattern_key k ≡ true
    → has k keys ≡ true
    → has k (matching_keys pattern_key keys) ≡ true
unfolding matching_keys has
has-matching_keys pattern_key k [] m h = cc
has-matching_keys pattern_key k (j ∷ keys) m h =
    ground (arith, has-matching_keys pattern_key k keys m)

scan_finishes : Scan client platform (pos 60) 0 stored (queue_key alice ∷ []) stored
unfolding client matches_glob queue_key
scan_finishes = finishes refl refl

scan-IsComplete : IsComplete client hashes platform (pos 60)
unfolding client
scan-IsComplete r r' found key f (finishes e left) (n, _) =
    let k = queue_prefix ++ key in
    let listed : matching_keys (queue_prefix ++ codes "*") (keys_of r) ≡ found = ground arith in
    subst (λ x. has k x ≡ true) listed
      (has-matching_keys (queue_prefix ++ codes "*") k (keys_of r) (queue_prefix_matches key)
        (stored_in_hash r k f n))
scan-IsComplete r r' found key f (continues e left s) n = absurd (ground arith)

stored_hello : redis_contents hashes platform stored alice 7 ≢ none
unfolding hashes hash_of lookup queue_key Text-discrete ℕ_discrete decode_message
stored_hello e = ground arith

get_keys_lem_example :
    (get_keys client platform (pos 60) 1 stored
      ≡ some (some (trim_all (queue_key alice ∷ [])), stored))
    × (has alice (trim_all (queue_key alice ∷ [])) ≡ true)
unfolding scan_finishes
get_keys_lem_example =
    get_keys_lem client hashes platform (pos 60) scan_finishes 1 alice 7 scan-IsComplete
      (omega arith) (stored_hello, stored_hello)

abbrev after_set : Server
after_set = (set_queue client platform (pos 60) alice (hello ∷ []) []).1

set_succeeds : (set_queue client platform (pos 60) alice (hello ∷ []) []).0 ≡ true
unfolding set_queue client encode Text-discrete ℕ_discrete
set_succeeds = refl

set_answered : (client.hgetall (queue_key alice) after_set).0 ≢ none
unfolding client
set_answered e = ground arith

one_hello : Distinct (ids (hello ∷ []))
unfolding ids has
one_hello = (refl, tt)

get-set_queue_example :
    (q : List Message) × ((get_queue client platform (pos 60) alice after_set).0 ≡ some q)
    × InDateOrder 0 q
    × ((id : ℕ) → find id q ≡ kept_of (find id (hello ∷ [])))
get-set_queue_example =
    get-set_queue client hashes client-IsRedis platform platform-IsCodec (pos 60) alice (hello ∷ [])
      [] set_succeeds set_answered one_hello empty-OwnFields
