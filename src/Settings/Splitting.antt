-- ===== src/Settings/Splitting.antt =====
-- The list of a configuration file and the list that `splitCSV` makes of it.
use goctopus.Message.{is_empty}
use goctopus.Auth.{trim_space}
use goctopus.Settings.{join_commas, split_commas, trim_parts, split_csv}
use goctopus.Prelude.{
  ◌==◌, Text, ◌≡◌, refl, ap, ◌∙◌, Bool, true, false, not, ◌&&◌, List, [], ◌∷◌, ◌++◌, arith, nat_key,
}

abbrev pub no_comma : Text → Bool
no_comma [] = true
no_comma (c ∷ s) = not (c == b',') && no_comma s

-- What a part must be to come back: not empty, no comma in it, no space around it.
abbrev pub AllPlain : List Text → Type 0
AllPlain [] = Unit
AllPlain (x ∷ parts) =
    ((is_empty x ≡ false) × (no_comma x ≡ true) × (trim_space x ≡ x)) × AllPlain parts

split_commas-alone : (x : Text) → no_comma x ≡ true → split_commas x ≡ x ∷ []
unfolding split_commas
split_commas-alone [] h = refl
split_commas-alone (c ∷ x) h = ground (arith, split_commas-alone x)

split_commas-append :
    (x s : Text) → no_comma x ≡ true → split_commas (x ++ b',' ∷ s) ≡ x ∷ split_commas s
unfolding split_commas
split_commas-append [] s h = ground arith
split_commas-append (c ∷ x) s h = ground (arith, split_commas-append x s)

split_commas-join :
    (x : Text) (parts : List Text)
    → AllPlain (x ∷ parts)
    → split_commas (join_commas (x ∷ parts)) ≡ x ∷ parts
unfolding join_commas
split_commas-join x [] h = split_commas-alone x h.0.1
split_commas-join x (y ∷ parts) h =
    split_commas-append x (join_commas (y ∷ parts)) h.0.1
    ∙ ap (λ l. x ∷ l) (split_commas-join y parts h.1)

trim_parts-AllPlain : (parts : List Text) → AllPlain parts → trim_parts parts ≡ parts
unfolding trim_parts
trim_parts-AllPlain [] h = refl
trim_parts-AllPlain (x ∷ parts) h = ground (arith, trim_parts-AllPlain parts)

-- A list of parts, none of them empty, none with a comma in it or a space at an end, that the
-- configuration file joins by commas is the list that is split off the value of the flag.
pub split_csv-join_commas :
    (parts : List Text) → AllPlain parts → split_csv (join_commas parts) ≡ parts
unfolding split_csv split_commas join_commas trim_parts trim_space
split_csv-join_commas [] h = refl
split_csv-join_commas (x ∷ parts) h =
    ap trim_parts (split_commas-join x parts h) ∙ trim_parts-AllPlain (x ∷ parts) h
