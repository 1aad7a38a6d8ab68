-- ===== src/Popcache/Http.antt =====
-- What popcache/internal uses of Go's net/http: headers, requests and responses. A header is the list
-- of its entries under their canonical names, a name once.
use Prim.Native.String.{String}
use Prim.Native.String
use text.Mathlib.Text.{◌==◌ as str_eq}
use text.Mathlib.TextEquality.{eq_iff}
use ncdn.Base.{ℕ, ◌≡◌, refl, List, [], ◌∷◌, ◌++◌, arith, if◌then◌else◌}

abbrev pub Header : Type 0
Header = List (String × List String)

-- `h[k]`, with nil for an absent name.
unfoldable pub values : Header → String → List String
values [] k = []
values ((j, vs) ∷ h) k = if str_eq j k then vs else values h k

abbrev pub first_value : List String → String
first_value [] = ""
first_value (v ∷ _) = v

-- `h.Get(k)`
unfoldable pub get : Header → String → String
get h k = first_value (values h k)

-- `h.Set(k, v)`
unfoldable pub set : Header → String → String → Header
set [] k v = (k, v ∷ []) ∷ []
set ((j, vs) ∷ h) k v = if str_eq j k then (j, v ∷ []) ∷ h else (j, vs) ∷ set h k v

-- `h.Add(k, v)`
unfoldable pub add : Header → String → String → Header
add [] k v = (k, v ∷ []) ∷ []
add ((j, vs) ∷ h) k v = if str_eq j k then (j, vs ++ v ∷ []) ∷ h else (j, vs) ∷ add h k v

-- `h.Del(k)`
unfoldable pub del : Header → String → Header
del [] k = []
del ((j, vs) ∷ h) k = let rest = del h k in if str_eq j k then rest else (j, vs) ∷ rest

pub values-set :
    (h : Header) (k j v : String)
    → values (set h k v) j ≡ (if str_eq k j then v ∷ [] else values h j)
unfolding values set
values-set [] k j v = refl
values-set ((i, vs) ∷ h) k j v =
    ground (arith, eq_iff k j, eq_iff i k, eq_iff i j, values-set h k j v)

pub values-add :
    (h : Header) (k j v : String)
    → values (add h k v) j ≡ (if str_eq k j then values h j ++ v ∷ [] else values h j)
unfolding values add
values-add [] k j v = refl
values-add ((i, vs) ∷ h) k j v =
    ground (arith, eq_iff k j, eq_iff i k, eq_iff i j, values-add h k j v)

pub values-del :
    (h : Header) (k j : String) → values (del h k) j ≡ (if str_eq k j then [] else values h j)
unfolding values del
values-del [] k j = ground arith
values-del ((i, vs) ∷ h) k j = ground (arith, eq_iff k j, eq_iff i k, eq_iff i j, values-del h k j)

-- A request as a server gets it: `port` is `URL.Port()` and `uri` is `URL.RequestURI()`.
pub record Request : Type 0 where
  pub method : String
  pub host : String
  pub port : String
  pub uri : String
  pub header : Header
  pub body : String

-- A response, or `Object` of popcache/internal/types.go, with the body read.
pub record Object : Type 0 where
  pub status_code : ℕ
  pub header : Header
  pub body : String

-- How a call ends: with a response, with an error, with a nil dereference, or with the process.
pub data Outcome (A : Type 0) : Type 0 where
  ok : A → Outcome A
  err : String → Outcome A
  panic : Outcome A
  fatal : Outcome A

-- `http.Error`
abbrev pub http_error : Header → String → ℕ → Object
http_error w message code = record {
  status_code = code;
  header =
      set (set w "Content-Type" "text/plain; charset=utf-8") "X-Content-Type-Options" "nosniff";
  body = String.◌++◌ message "\n";
}
