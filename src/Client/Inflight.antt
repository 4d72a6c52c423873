-- ===== src/Client/Inflight.antt =====
-- The in-flight set of a client, and its closing.
use goctopus.Prelude.{
  if◌then◌else◌, Text, ℕ, ◌≡◌, Bool, true, false, not, ◌||◌, none, some, arith, nat_key,
}
use goctopus.Prelude.GoMap.{lookup, insert, lookup-insert, lookup-delete}
use goctopus.Client.{mark_inflight, take_inflight, close, Client}

-- Whether a message with this id would be written to the client no more.
unfoldable pub refuses : ℕ → Client → Bool
refuses id c = c.closed || elim (lookup id c.inflight) [ none ↦ false | some key ↦ true ]

-- A message is marked exactly where it is not refused, and from then on it is.
pub mark_inflight-refuses :
    (id : ℕ) (key : Text) (c : Client)
    → ((mark_inflight id key c).0 ≡ not (refuses id c))
      × (refuses id (mark_inflight id key c).1 ≡ true)
unfolding mark_inflight refuses
mark_inflight-refuses id key c = ground (arith, lookup-insert id id key c.inflight)

-- If a client does not refuse a message, then after it was marked, its first `ACK` gives back
-- the key under which it was marked, a second one gives none, and the client does not refuse
-- it.
pub take-mark_inflight :
    (id : ℕ) (key : Text) (c : Client)
    → refuses id c ≡ false
    → let (taken, c') = take_inflight id (mark_inflight id key c).1 in
      (taken ≡ some key) × ((take_inflight id c').0 ≡ none) × (refuses id c' ≡ false)
unfolding take_inflight mark_inflight refuses
take-mark_inflight id key c h =
    ground
      (arith, lookup-insert id id key c.inflight, lookup-delete id id (insert id key c.inflight))

-- The channel `done` of a client is closed at most once, and exactly when the client is.
abbrev pub IsClosedOnce : Client → Type 0
IsClosedOnce c = c.done ≡ (if c.closed then 1 else 0)

pub close-IsClosedOnce :
    (c : Client) → IsClosedOnce c → IsClosedOnce (close c) × ((close c).closed ≡ true)
unfolding close
close-IsClosedOnce c h = ground arith
