-- ===== src/Workers/ReviewEnvelope.antt =====
-- `_parse` of workers/architect.py: the review in a model's answer.
use hookclose.Prelude.{
  ℕ, min, String, take_chars, Bool, true, false, Option, none, some, List, [], ◌∷◌, Result, ok, err,
}
use hookclose.Workers.Envelope.{
  ℤ, JsonValue, JsonValues, JsonFields, get_value, JsonReader, object_in,
}

-- `_Parsed`
pub record ParsedReview : Type 0 where
  pub score : ℕ
  pub summary : String
  pub findings : List String
  pub sections : List String
  pub degraded : Bool

-- What `int` of a float that is no number raises.
pub data ParseError : Type 0 where
  not_an_integer : String → ParseError

-- `max(0, min(100, score))`
abbrev pub clamp_score : ℤ → ℕ
clamp_score (ℤ.pos n) = min 100 n
clamp_score (ℤ.negsuc n) = 0

-- `int(raw) if isinstance(raw, (int, float)) else 0`; `bool` is a class of `int`.
abbrev pub int_of_score : Option JsonValue → Result ParseError ℤ
int_of_score (some (JsonValue.boolean true)) = ok (ℤ.pos 1)
int_of_score (some (JsonValue.boolean false)) = ok (ℤ.pos 0)
int_of_score (some (JsonValue.integer n)) = ok n
int_of_score (some (JsonValue.floating written (some n))) = ok n
int_of_score (some (JsonValue.floating written none)) = err (not_an_integer written)
int_of_score _ = ok (ℤ.pos 0)

module _ (json : JsonReader) where
  abbrev pub texts_of : JsonValues → List String
  texts_of JsonValues.no_values = []
  texts_of (JsonValues.value v rest) = json.str_of v ∷ texts_of rest

  -- `tuple(str(f) for f in raw) if isinstance(raw, list) else ()`, with `[]` for a missing key.
  abbrev pub list_texts : Option JsonValue → List String
  list_texts (some (JsonValue.array vs)) = texts_of vs
  list_texts _ = []

  abbrev pub text_or_empty : Option JsonValue → String
  text_or_empty none = json.str_of (JsonValue.text "")
  text_or_empty (some v) = json.str_of v

  -- `_parse` of an object, once its score is an integer.
  abbrev pub parsed_object : JsonFields → Result ParseError ℤ → Result ParseError ParsedReview
  parsed_object found (err e) = err e
  parsed_object found (ok score) = ok (record {
    score = clamp_score score;
    summary = text_or_empty (get_value "summary" found);
    findings = list_texts (get_value "findings" found);
    sections = list_texts (get_value "sections" found);
    degraded = false;
  })

  abbrev pub parsed_review : String → Option JsonFields → Result ParseError ParsedReview
  parsed_review content none = ok (record {
    score = 0;
    summary = take_chars 200 content;
    findings = [];
    sections = [];
    degraded = true;
  })
  parsed_review content (some found) = parsed_object found (int_of_score (get_value "score" found))

  -- `_parse`
  unfoldable pub parse_review : String → Result ParseError ParsedReview
  parse_review content = parsed_review content (object_in (json.loads content))
