-- ===== src/Request.antt =====
-- A request and its answer, as the handlers of src/server.go see them.
use goctopus.Prelude.{Text, ℕ, Bool, true, false, Option, none, some, [], text_key}
use goctopus.Prelude.GoMap.{Map, lookup}

pub data Method : Type 0 where
  post get delete other : Method

-- `query` has the first value of each parameter, `headers` that of each header; `body` is what
-- reading the body gives, `none` if that fails.
pub record Request : Type 0 where
  pub path : Text
  pub method : Method
  pub query : Map Text Text
  pub headers : Map Text Text
  pub basic_auth : Option (Text × Text)
  pub remote_addr : Text
  pub body : Option Text

-- `r.Header.Get(name)` and `q.Get(name)`: the empty text where there is none.
unfoldable pub get_text : Text → Map Text Text → Text
get_text name values = elim (lookup name values) [ none ↦ [] | some v ↦ v ]

-- `q.Has(name)`
unfoldable pub has_text : Text → Map Text Text → Bool
has_text name values = elim (lookup name values) [ none ↦ false | some v ↦ true ]

-- What a handler answers; `panicked` is a panic that leaves the handler, which net/http recovers.
pub data Response : Type 0 where
  status : ℕ → Response
  written : Text → Response
  panicked : Response
