-- ===== src/Auth.antt =====
-- Who may call: `authorizeBackend` of src/server.go, and `allow` and `clientIP` of
-- src/ratelimit.go.
pub mod Backend
use goctopus.Prelude.{
  leb, ◌==◌, if◌then◌else◌, decide, get_or, Text, codes, Text-discrete, ℕ, zero, suc, ◌+◌, ◌-◌,
  Bool, true, not, ◌&&◌, ◌||◌, Option, none, some, [], ◌∷◌, text_key,
}
use mathlib.Core.List.{reverse}
use goctopus.Message.{is_empty, Platform}
use goctopus.Config.{Config}
use goctopus.Request.{get_text, Request}
use goctopus.RateLimit.{RateLimiter}
use goctopus.RateLimit
use goctopus.Engine.{Goctopus}

-- unicode.IsSpace on a character in UTF-8: of one byte, of two, of three.
unfoldable pub is_space : ℕ → Bool
is_space a = leb 9 a && leb a 13 || a == 32

unfoldable pub is_space_2 : ℕ → ℕ → Bool
is_space_2 a b = a == 0xC2 && (b == 0x85 || b == 0xA0)

unfoldable pub is_space_3 : ℕ → ℕ → ℕ → Bool
is_space_3 a b c =
    a == 0xE1 && b == 0x9A && c == 0x80
    || a == 0xE2 && b == 0x80 && (leb 0x80 c && leb c 0x8A || c == 0xA8 || c == 0xA9 || c == 0xAF)
    || a == 0xE2 && b == 0x81 && c == 0x9F
    || a == 0xE3 && b == 0x80 && c == 0x80

-- The number of bytes of a space whose first byte is the first one, and of one whose last byte is
-- the first one of a text that is reversed.
unfoldable pub space_width : ℕ → Text → ℕ
unfolding is_space is_space_2 is_space_3
space_width a s =
    if is_space a
    then 1
    else if is_space_2 a (get_or s 0 0)
    then 2
    else if is_space_3 a (get_or s 0 0) (get_or s 1 0)
    then 3
    else 0

unfoldable pub space_width_back : ℕ → Text → ℕ
unfolding is_space is_space_2 is_space_3
space_width_back a s =
    if is_space a
    then 1
    else if is_space_2 (get_or s 0 0) a
    then 2
    else if is_space_3 (get_or s 1 0) (get_or s 0 0) a
    then 3
    else 0

-- Drops the spaces that a text begins with; the first argument counts the bytes that are left of
-- the one that is being dropped.
unfoldable pub trim_by : (ℕ → Text → ℕ) → ℕ → Text → Text
trim_by width left [] = []
trim_by width (suc left) (a ∷ s) = trim_by width left s
trim_by width zero (a ∷ s) =
    let rest = trim_by width (width a s - 1) s in if width a s == 0 then a ∷ s else rest

-- strings.TrimSpace.
unfoldable pub trim_space : Text → Text
unfolding trim_by space_width space_width_back
trim_space s = reverse (trim_by space_width_back 0 (reverse (trim_by space_width 0 s)))

-- `xff[:i]` where `i` is the first comma, or all of it.
unfoldable pub before_comma : Text → Text
before_comma [] = []
before_comma (c ∷ s) = if c == b',' then [] else c ∷ before_comma s

unfoldable pub host_of : Platform → Request → Text
host_of p r = elim (p.split_host_port r.remote_addr) [ none ↦ r.remote_addr | some host ↦ host ]

unfoldable pub client_ip : Platform → Config → Request → Text
unfolding trim_space before_comma host_of get_text
client_ip p cfg r =
    let forwarded = get_text (codes "X-Forwarded-For") r.headers in
    let real = get_text (codes "X-Real-IP") r.headers in
    if not cfg.trust_proxy_headers
    then host_of p r
    else if not (is_empty forwarded)
    then trim_space (before_comma forwarded)
    else if not (is_empty real)
    then trim_space real
    else host_of p r

module _ {S : Type 0} where
  unfoldable pub allow_reply : Option RateLimiter → Text → ℕ → Goctopus S → Bool × Goctopus S
  allow_reply none ip now g = (true, g)
  allow_reply (some rl) ip now g =
      let (allowed, rl') = RateLimit.allow ip now rl in (allowed, record g { limiter = some rl' })

  unfoldable pub allow : Platform → Config → Request → ℕ → Goctopus S → Bool × Goctopus S
  unfolding allow_reply client_ip
  allow p cfg r now g = allow_reply g.limiter (client_ip p cfg r) now g

  unfoldable pub count_auth_fail : Goctopus S → Goctopus S
  count_auth_fail g = record g {
    metrics = record g.metrics { auth_fail = g.metrics.auth_fail + 1 };
  }

  -- The comparison of the credentials: 403 if they differ.
  unfoldable pub compare_credentials :
      Config → Option (Text × Text) → Goctopus S → Option ℕ × Goctopus S
  unfolding count_auth_fail
  compare_credentials cfg none g = (some 401, count_auth_fail g)
  compare_credentials cfg (some (username, password)) g =
      if decide (Text-discrete username cfg.login) && decide (Text-discrete password cfg.password)
      then (none, g)
      else (some 403, count_auth_fail g)

  -- `none` lets the request through; otherwise it is the status that was written.
  unfoldable pub authorize_backend : Config → Request → Goctopus S → Option ℕ × Goctopus S
  unfolding compare_credentials
  authorize_backend cfg r g =
      if cfg.insecure_no_auth
      then (none, g)
      else if is_empty cfg.login || is_empty cfg.password
      then (some 401, count_auth_fail g)
      else compare_credentials cfg r.basic_auth g
