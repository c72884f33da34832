-- ===== src/Webhook/Http.antt =====
-- What the webhook parsers read of Go's `net/http`: a request with its headers, its query and its
-- body, and what is known of a `time.Time`.
use Prim.Native.Char.{code}
use froggit_go.Base.{
  ℕ, ◌+◌, ℤ, String, Bool, true, false, ◌&&◌, Option, none, some, List, [], ◌∷◌, Error, Result,
  panic, leb, nat_eq, if◌then◌else◌, ◌==◌,
}

-- A body that is read to its end gives its bytes or an error, and `Close` gives an error or nil.
pub record Body : Type 0 where
  pub content : Result String
  pub close : Option Error

pub record Request : Type 0 where
  pub headers : List (String × String)
  pub query : List (String × String)
  pub body : Option Body

lower : ℕ → ℕ
lower c = if leb b'A' c && leb c b'Z' then c + 32 else c

-- Two header names are one if they differ in the case of ASCII letters only.
same_header : String → String → Bool
unfolding lower
same_header String.[] String.[] = true
same_header (String.◌∷◌ c s) (String.◌∷◌ d t) =
    nat_eq (lower (code c)) (lower (code d)) && same_header s t
same_header _ _ = false

-- `Header.Get(name)`: the first value, and the empty text if there is none.
unfoldable pub header_get : List (String × String) → String → String
unfolding same_header
header_get [] name = ""
header_get ((k, v) ∷ h) name = if same_header k name then v else header_get h name

-- `URL.Query()[key]`: all values of the key, in order. The key is there if the list is not empty.
unfoldable pub query_values : List (String × String) → String → List String
query_values [] key = []
query_values ((k, v) ∷ q) key = let rest = query_values q key in if k == key then v ∷ rest else rest

-- `new(bytes.Buffer).ReadFrom(request.Body)`
unfoldable pub read_body : Request → Result String
read_body r = elim r.body [ none ↦ panic "nil pointer dereference" | some b ↦ b.content ]

-- An instant: seconds since 1970 and nanoseconds. `UTC` and `Local` change the zone in which it is
-- shown, and not the instant.
pub record Time : Type 0 where
  pub unix : ℤ
  pub nanos : ℕ
