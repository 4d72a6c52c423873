-- ===== src/Storage/Memory/Refinement.antt =====
-- The memory storage implements a map from a key and an id to a message.
use goctopus.Prelude.{
  if◌then◌else◌, decide, Text, Text-discrete, ℕ, ◌≡◌, refl, ap, ◌∙◌, ite, true, Option, none, some,
  List, [], ◌∷◌, arith, ℕ_discrete, text_key, nat_key,
}
use goctopus.Message.{Message}
use mathlib.Core.Path.{fun_ext}
use goctopus.Storage.Queue.{upsert, find, find-upsert, find-without}
use goctopus.Storage.Memory.{MemoryStorage, queue_of, delete_queue, add_message, delete_message}
use goctopus.Storage.Memory.Laws.{queue_of-insert, queue_of-delete, delete_message_view}
use goctopus.Storage.Memory.Tidy.{
  queue_of-Distinct, add_message-IsTidy, delete_message-IsTidy, delete_queue-IsTidy, run, IsTidy,
  Call, adds, deletes, clears,
}

-- The abstract storage: the message under a key and an id.
abbrev pub Contents : Type 0
Contents = Text → ℕ → Option Message

abbrev pub contents : MemoryStorage → Contents
contents s k id = find id (queue_of s k)

abbrev pub act : Call → Contents → Contents
act (adds k m) c j i =
    if decide (Text-discrete k j) then ite (ℕ_discrete m.id i) (some m) (c j i) else c j i
act (deletes k id) c j i =
    if decide (Text-discrete k j) then ite (ℕ_discrete id i) none (c j i) else c j i
act (clears k) c j i = if decide (Text-discrete k j) then none else c j i

abbrev pub act_all : List Call → Contents → Contents
act_all [] c = c
act_all (call ∷ calls) c = act_all calls (act call c)

add_contents :
    (k j : Text) (m : Message) (i : ℕ) (s : MemoryStorage)
    → contents (add_message k m s).1 j i ≡ act (adds k m) (contents s) j i
unfolding add_message
add_contents k j m i s =
    ground (arith, queue_of-insert k j (upsert m (queue_of s k)) s, find-upsert m i (queue_of s k))

deletes_always : (k : Text) (id : ℕ) (s : MemoryStorage) → (delete_message k id s).0 ≡ true
unfolding delete_message
deletes_always k id s = refl

delete_contents :
    (k j : Text) (id i : ℕ) (s : MemoryStorage)
    → IsTidy s
    → contents (delete_message k id s).1 j i ≡ act (deletes k id) (contents s) j i
delete_contents k j id i s v = ground (
  arith,
  deletes_always k id s,
  delete_message_view k j id s,
  find-without id i (queue_of s k) (queue_of-Distinct k s v.tidy),
)

clear_contents :
    (k j : Text) (i : ℕ) (s : MemoryStorage)
    → contents (delete_queue k s).1 j i ≡ act (clears k) (contents s) j i
unfolding delete_queue find
clear_contents k j i s = ground (arith, queue_of-delete k j s)

-- Whatever calls are made on a storage in which no key and no id of a queue stands twice and no
-- queue is empty, it holds what the abstract map holds after the same calls.
pub run-act_all :
    (calls : List Call) (s : MemoryStorage)
    → IsTidy s
    → contents (run s calls) ≡ act_all calls (contents s)
unfolding run
run-act_all [] s v = refl
run-act_all (adds k m ∷ calls) s v =
    run-act_all calls (add_message k m s).1 (add_message-IsTidy k m s v)
    ∙ ap (act_all calls) (fun_ext λ j. fun_ext λ i. add_contents k j m i s)
run-act_all (deletes k id ∷ calls) s v =
    run-act_all calls (delete_message k id s).1 (delete_message-IsTidy k id s v)
    ∙ ap (act_all calls) (fun_ext λ j. fun_ext λ i. delete_contents k j id i s v)
run-act_all (clears k ∷ calls) s v =
    run-act_all calls (delete_queue k s).1 (delete_queue-IsTidy k s v)
    ∙ ap (act_all calls) (fun_ext λ j. fun_ext λ i. clear_contents k j i s)
