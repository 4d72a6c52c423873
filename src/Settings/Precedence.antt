-- ===== src/Settings/Precedence.antt =====
-- Which of its sources gives a flag its value.
use goctopus.Request.{get_text}
use goctopus.Settings.Launch.{value_of}
use goctopus.Prelude.GoMap.{Map, lookup}
use goctopus.Settings.{
  Environment, env_or, flag_table, parse_texts, file_values, chosen, overlay, apply_config_file,
  Parsers, FileValue, Flag,
}
use goctopus.Prelude.{
  Text, Text-discrete, has, Distinct, ◌≡◌, refl, ap, Bool, true, false, not, ◌&&◌, Option, none,
  some, List, [], ◌∷◌, arith, ℕ_discrete, text_key,
}

abbrev names : List Flag → List Text
names [] = []
names (f ∷ flags) = f.name ∷ names flags

-- The first source that has a value: the command line, the file, the environment, the default.
abbrev pub first_source : Option Text → Option Text → Option Text → Text → Text
first_source (some v) file env fallback = v
first_source none (some v) env fallback = v
first_source none none (some v) fallback = v
first_source none none none fallback = fallback

abbrev pub keys_given : Map Text Text → List Text
keys_given [] = []
keys_given ((k, v) ∷ given) = k ∷ keys_given given

lookup-overlay :
    (explicit : List Text) (file texts : Map Text Text) (k : Text)
    → lookup k (overlay explicit file texts)
      ≡ (elim (lookup k texts) [ none ↦ none | some v ↦ some (chosen explicit file k v) ])
unfolding overlay lookup
lookup-overlay explicit file [] k = refl
lookup-overlay explicit file ((j, v) ∷ texts) k = elim (Text-discrete j k) [
  | yes e ↦ ground (arith, ap (λ i. chosen explicit file i v) e)
  | no e ↦ ground (arith, lookup-overlay explicit file texts k)
]

has-keys_given :
    (given : Map Text Text) (k : Text)
    → has k (keys_given given) ≡ (elim (lookup k given) [ none ↦ false | some v ↦ true ])
unfolding has lookup
has-keys_given [] k = refl
has-keys_given ((j, v) ∷ given) k = ground (arith, has-keys_given given k)

-- What a flag of the table has.
pub data Listed (f : Flag) : List Flag → Type 0 where
  here : {flags : List Flag} → Listed f (f ∷ flags)
  later : {g : Flag} {flags : List Flag} → Listed f flags → Listed f (g ∷ flags)

Listed-names : (f : Flag) (flags : List Flag) → Listed f flags → has f.name (names flags) ≡ true
unfolding has
Listed-names f flags here = ground (arith, Text-discrete f.name f.name)
Listed-names f (g ∷ flags) (later l) = ground (arith, Listed-names f flags l)

lookup-parse_texts :
    (env : Environment) (given : Map Text Text) (f : Flag) (flags : List Flag)
    → Distinct (names flags)
    → Listed f flags
    → lookup f.name (parse_texts env given flags)
      ≡ some (first_source (lookup f.name given) none (env f.variable) f.fallback)
unfolding lookup parse_texts env_or
lookup-parse_texts env given f flags d here = ground arith
lookup-parse_texts env given f (g ∷ flags) d (later l) =
    ground (arith, lookup-parse_texts env given f flags d.1 l, Listed-names f flags l)

distinct : List Text → Bool
distinct [] = true
distinct (x ∷ xs) = not (has x xs) && distinct xs

distinct-Distinct : (xs : List Text) → distinct xs ≡ true → Distinct xs
unfolding distinct
distinct-Distinct [] h = tt
distinct-Distinct (x ∷ xs) h = (ground arith, distinct-Distinct xs (ground arith))

flag_table-Distinct : Distinct (names flag_table)
unfolding distinct flag_table has Text-discrete ℕ_discrete
flag_table-Distinct = distinct-Distinct (names flag_table) refl

-- Behind the configuration file, a flag of `main`, other than that of the health check, has the
-- value of the command line if it stands there, or else that of the file, or else that of its
-- environment variable, or else its default.
pub value_of_first :
    (ps : Parsers) (env : Environment) (given : Map Text Text) (raw : Map Text FileValue)
    (healthcheck : Bool) (f : Flag)
    → Listed f flag_table
    → value_of
        (apply_config_file ps
          (keys_given given)
          raw
          (record { texts = parse_texts env given flag_table; healthcheck = healthcheck }))
        f.name
      ≡ first_source
          (lookup f.name given)
          (lookup f.name (file_values raw))
          (env f.variable)
          f.fallback
unfolding value_of get_text apply_config_file chosen
value_of_first ps env given raw healthcheck f l = ground (
  arith,
  lookup-overlay (keys_given given) (file_values raw) (parse_texts env given flag_table) f.name,
  lookup-parse_texts env given f flag_table flag_table-Distinct l,
  has-keys_given given f.name,
)
