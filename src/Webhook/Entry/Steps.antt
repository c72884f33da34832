-- ===== src/Webhook/Entry/Steps.antt =====
-- The result of the two methods of a parser, and which of them are called.
use froggit_go.Base.{
  String, ◌≡◌, refl, Option, none, some, List, [], ◌∷◌, Result, ok, err, panic, ◌>>=◌,
}
use froggit_go.Calls.{continue, send}
use froggit_go.Webhook.Info.{WebhookInfo}
use froggit_go.Webhook.Http.{Request}
use froggit_go.Webhook.Parser.{Parser}
use froggit_go.Webhook.Entry.{Step, validates, parses, validate_then_parse}

-- What the methods of the parser give one after the other.
abbrev pub parser_result : Option Parser → String → Request → Result (Option WebhookInfo)
parser_result none token request = panic "nil pointer dereference"
parser_result (some p) token request =
    p.validate_payload request token >>= λ payload. p.parse_incoming_webhook request payload

-- The payload is parsed only if it was validated.
abbrev steps_after : Result String → List Step
steps_after (ok payload) = parses ∷ validates ∷ []
steps_after (err e) = validates ∷ []
steps_after (panic m) = validates ∷ []

-- The methods that are called, the last one first.
abbrev pub parser_steps : Option Parser → String → Request → List Step
parser_steps none token request = []
parser_steps (some p) token request = steps_after (p.validate_payload request token)

validated_lem :
    (v : Result String) (f : String → Result (Option WebhookInfo))
    → continue v (λ payload. send (λ _ _. f payload) parses) (validates ∷ [])
      ≡ (v >>= f, steps_after v)
unfolding send
validated_lem (ok payload) f = refl
validated_lem (err e) f = refl
validated_lem (panic m) f = refl

pub validate_then_parse_lem :
    (parser : Option Parser) (token : String) (request : Request)
    → validate_then_parse parser token request []
      ≡ (parser_result parser token request, parser_steps parser token request)
unfolding validate_then_parse
validate_then_parse_lem none token request = refl
validate_then_parse_lem (some p) token request =
    validated_lem (p.validate_payload request token) (p.parse_incoming_webhook request)
