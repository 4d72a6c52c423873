-- ===== src/Settings/Limits.antt =====
-- The settings with which the program serves.
use goctopus.Message.Outcomes.{bind_ok}
use goctopus.Prelude.GoMap.{Map}
use goctopus.Message.{is_empty, ok}
use goctopus.Config.{Config}
use goctopus.Settings.Launch.{value_of, make_config, load_config, configure, launch, serves}
use goctopus.Settings.{parse_duration_or, max_message, second, Parsers, FileValue, Flags}
use goctopus.Prelude.{
  if◌then◌else◌, Option-cases, pos_part, leb_ℤ, ◌<ℤ◌, ℤ, pos, negsuc, Text, codes, ℕ, ◌*◌, ◌^◌, ◌<◌,
  ◌≡◌, sym, inl, inr, false, Option, List, arith, text_key,
}

positive : (ps : Parsers) (s : Text) (d : ℕ) → 0 < d → pos 0 <ℤ parse_duration_or ps s (pos d)
unfolding parse_duration_or
positive ps s d h = ground arith

or_default_positive : (n : ℤ) (d : ℕ) → 0 < d → 0 < (if leb_ℤ n (pos 0) then d else pos_part n)
or_default_positive (pos n) d h = ground arith
or_default_positive (negsuc n) d h = ground arith

max_message_positive : (ps : Parsers) (s : Text) → 0 < max_message ps s
unfolding max_message
max_message_positive ps s = elim (Option-cases (ps.parse_int s)) [
  | inl e ↦ rw (e, max_message) (omega arith)
  | inr (n, e) ↦ rw (e, max_message) (or_default_positive n (2 ^ 20) (omega arith))
]

configure_lem :
    (ps : Parsers) (load : Text → Option (Map Text FileValue)) (flags : Flags) (cfg : Config)
    → configure ps load flags ≡ ok (serves cfg)
    → (n : ℤ) × (make_config ps flags n ≡ cfg) × (is_empty (value_of flags (codes "auth")) ≡ false)
unfolding configure
configure_lem ps load flags cfg e =
    ((ps.atoi (value_of flags (codes "workers"))).0, ground arith, ground arith)

-- When the program comes to serve: the limit on messages, the intervals of the sweep and of the pings
-- and the timeouts of reads and writes are positive, and the URL for authorizing is not empty.
pub launch_positive :
    (ps : Parsers) (load : Text → Option (Map Text FileValue)) (explicit : List Text)
    (flags : Flags) (cfg : Config)
    → launch ps load explicit flags ≡ ok (serves cfg)
    → (0 < cfg.max_message_bytes)
      × (pos 0 <ℤ cfg.sweep_interval)
      × (pos 0 <ℤ cfg.ping_interval)
      × (pos 0 <ℤ cfg.read_timeout)
      × (pos 0 <ℤ cfg.write_timeout)
      × (is_empty cfg.auth_url ≡ false)
unfolding launch make_config
launch_positive ps load explicit flags cfg e =
    let (loaded, _, e') = bind_ok (load_config ps load explicit flags) _ _ e in
    let (n, same, url) = configure_lem ps load loaded cfg e' in
    let v = value_of loaded in
    rw (sym same) (
      max_message_positive ps (v (codes "max-message-size")),
      positive ps (v (codes "sweep-interval")) (60 * second) (omega arith),
      positive ps (v (codes "ping-interval")) (30 * second) (omega arith),
      positive ps (v (codes "read-timeout")) (70 * second) (omega arith),
      positive ps (v (codes "write-timeout")) (10 * second) (omega arith),
      url,
    )
