-- ===== src/Frames/Reading.antt =====
-- What of a frame's body `readLoop` hands on.
use goctopus.Frames.{
  read_limited, read_limit, deflate_tail, inflate, bounded, inflated, payload_of, Stream, Incoming,
}
use goctopus.Prelude.{
  if◌then◌else◌, Option-cases, length, take, Text, ℕ, zero, suc, ◌+◌, ◌^◌, ◌≤◌, ◌<◌, ◌≡◌, refl, ◌↔◌,
  inl, inr, Bool, true, false, ◌&&◌, some, [], ◌∷◌, ◌++◌, arith, dec_le,
}

length-take_le : (n : ℕ) (xs : Text) → n ≤ length xs → length (take n xs) ≡ n
length-take_le zero xs le = refl
length-take_le (suc n) [] le = absurd (omega arith)
length-take_le (suc n) (x ∷ xs) le = omega (arith, length-take_le n xs (omega arith))

read_limit_lem : (max : ℕ) → max + 1 < 2 ^ 63 → read_limit max ≡ max + 1
unfolding read_limit
read_limit_lem max h = ground arith

-- At the largest int64 the limit wraps, and nothing of a frame's body is read.
payload_of_wrapped :
    (flate : Text → Stream) (max : ℕ) (i : Incoming)
    → max + 1 ≡ 2 ^ 63
    → payload_of flate max false i ≡ some []
unfolding payload_of inflated bounded read_limited read_limit
payload_of_wrapped flate max i e = ground arith

-- A read bounded by one more than the limit, and then tested, is whole.
read-whole :
    (flate : Text → Stream) (max : ℕ) (r : Stream) (b : Text)
    → bounded flate max (read_limited (max + 1) r) ≡ some b
    → (b ≡ r.bytes) × (r.ends ≡ true) × (length b ≤ max)
unfolding bounded read_limited
read-whole flate max r b e = elim (dec_le (max + 1) (length r.bytes)) [
  | yes le ↦ absurd (ground (arith, length-take_le (max + 1) r.bytes le))
  | no gt ↦ ground arith
]

-- What reads whole, within the limit, is handed on.
whole-read :
    (flate : Text → Stream) (max : ℕ) (r : Stream)
    → r.ends ≡ true
    → length r.bytes ≤ max
    → bounded flate max (read_limited (max + 1) r) ≡ some r.bytes
unfolding bounded read_limited
whole-read flate max r ends le = ground arith

-- The loop hands on the whole body of a frame, or, of a compressed frame on a connection with
-- compression, the whole of what its body inflates to, and never a part of either. It does so
-- exactly if the body was read without an error and is within the limit, and, of such a compressed
-- frame, so is what it inflates to. The limit must be below the largest int64, where adding one to
-- it wraps.
pub payload_of_iff :
    (flate : Text → Stream) (max : ℕ) (compress : Bool) (i : Incoming) (b : Text)
    → max + 1 < 2 ^ 63
    → (payload_of flate max compress i ≡ some b) ↔ (
        (i.body.ends ≡ true)
        × (length i.body.bytes ≤ max)
        × (if compress && i.compressed
            then ((flate (i.body.bytes ++ deflate_tail)).ends ≡ true)
              × (length (flate (i.body.bytes ++ deflate_tail)).bytes ≤ max)
              × ((flate (i.body.bytes ++ deflate_tail)).bytes ≡ b)
            else (i.body.bytes ≡ b)))
unfolding payload_of inflated inflate
payload_of_iff flate max compress i b small =
    let wraps = read_limit_lem max small in
    let body = i.body in
    let inner = flate (body.bytes ++ deflate_tail) in
    (
      λ e. elim (Option-cases (bounded flate max (read_limited (read_limit max) body))) [
        | inl failed ↦ absurd (ground arith)
        | inr (whole, read) ↦
            let facts = read-whole flate max body whole (ground arith) in
            ground (arith, facts, read-whole flate max inner b)
      ],
      λ h. ground (arith, whole-read flate max body h.0 h.1, whole-read flate max inner),
    )
