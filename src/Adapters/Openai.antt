-- ===== src/Adapters/Openai.antt =====
-- adapters/llm/openai.py: the adapter to OpenAI's client. The client is a parameter: for each call it
-- returns a response of the SDK or raises. Timeouts and temperatures are in thousandths.
pub mod Classified
mod Examples
use hookclose.Prelude.{
  ℕ, String, format, Bool, true, false, not, ◌&&◌, ◌||◌, Option, none, some, List, [], ◌∷◌, Result,
  ok, err, if◌then◌else◌, ◌==◌, or_default, str_eq, contains, is_in,
}
use hookclose.Contracts.{LlmMessage, LlmRequest, LlmUsage, LlmResponse}
use hookclose.Providers.State.{ErrorKind, ProviderError}
use hookclose.Providers.Base.{AdapterAnswer, responded, provider_raised, other_raised}

-- What `openai.AsyncOpenAI` is given.
pub record ClientOptions : Type 0 where
  pub api_key : String
  pub base_url : Option String
  pub timeout : ℕ
  pub default_headers : Option (List (String × String))

pub record OpenAiAdapter : Type 0 where
  pub client : ClientOptions
  pub default_model : String
  pub timeout : ℕ

-- The keyword arguments of `chat.completions.create`; `none` is an absent one.
pub record ChatArguments : Type 0 where
  pub model : String
  pub messages : List LlmMessage
  pub max_tokens : Option ℕ
  pub temperature : Option ℕ
  pub top_p : Option ℕ
  pub stop : Option (List String)
  pub response_format : Option String  -- the value of its key `type`

-- `none` is an attribute that is absent, or `None`.
pub record Choice : Type 0 where
  pub content : Option String
  pub finish_reason : Option String

pub record SdkUsage : Type 0 where
  pub prompt_tokens : Option ℕ
  pub completion_tokens : Option ℕ
  pub total_tokens : Option ℕ

pub record SdkResponse : Type 0 where
  pub model : Option String
  pub choices : List Choice
  pub usage : Option SdkUsage

pub record SdkException : Type 0 where
  pub status_code : Option ℕ
  pub class_name : String
  pub message : String  -- str(exc)

-- The client, and `str.lower`.
pub record Sdk : Type 0 where
  pub create : ℕ → ClientOptions → ChatArguments → Result SdkException SdkResponse
  pub lower : String → String

-- `ConfigurationError`, or what `from_api_key` raises where the package of the client cannot be imported
-- or does not take the settings.
pub data SetupError : Type 0 where
  configuration_error : String → SetupError
  not_connected : SetupError

-- Whether `from_api_key` returns this adapter.
abbrev pub Connects : Type 0
Connects = OpenAiAdapter → Bool

-- The adapter that `from_api_key` returns, where it does.
unfoldable pub from_api_key :
    String → String → Option String → ℕ → Option (List (String × String)) → OpenAiAdapter
from_api_key api_key default_model base_url timeout default_headers = record {
  client = record {
    api_key = api_key;
    base_url = base_url;
    timeout = timeout;
    default_headers = default_headers;
  };
  default_model = default_model;
  timeout = timeout;
}

-- `if not s` on an optional text: neither `None` nor empty.
abbrev pub is_set : Option String → Bool
is_set none = false
is_set (some s) = not (str_eq s "")

-- `from_env()`, without keyword arguments.
unfoldable pub from_env : Connects → (String → Option String) → Result SetupError OpenAiAdapter
unfolding from_api_key
from_env connects environ =
    let key = environ "OPENAI_API_KEY" in
    let adapter = from_api_key (or_default key "") "gpt-4o-mini" none 60000 none in
    if is_set key
    then if connects adapter then ok adapter else err not_connected
    else err (configuration_error "OPENAI_API_KEY is not set")

-- `_model`
unfoldable pub model_of : OpenAiAdapter → LlmRequest → String
model_of self request =
    if not (str_eq request.model "") && not (str_eq request.model "auto")
    then request.model
    else self.default_model

abbrev pub json_format : Option String → Option String
json_format none = none
json_format (some s) = if str_eq s "json" then some "json_object" else none

-- `_build_kwargs`
unfoldable pub build_kwargs : OpenAiAdapter → LlmRequest → ChatArguments
unfolding model_of
build_kwargs self request = record {
  model = model_of self request;
  messages = request.messages;
  max_tokens = request.max_tokens;
  temperature = request.temperature;
  top_p = request.top_p;
  stop = request.stop;
  response_format = json_format request.response_format;
}

-- `status == code`, where the status may be `None`.
abbrev pub has_status : ℕ → Option ℕ → Bool
has_status code none = false
has_status code (some status) = status == code

-- `status == 429 or name == "RateLimitError"`
unfoldable pub is_throttled : SdkException → Bool
is_throttled exc = has_status 429 exc.status_code || str_eq exc.class_name "RateLimitError"

-- `"insufficient_quota" in lowered or "exceeded your current quota" in lowered`
unfoldable pub names_quota : String → Bool
names_quota lowered =
    is_in "insufficient_quota" lowered || is_in "exceeded your current quota" lowered

-- The test for a timeout.
unfoldable pub is_timed_out : SdkException → String → Bool
is_timed_out exc lowered =
    contains exc.class_name ("APITimeoutError" ∷ "TimeoutError" ∷ [])
    || has_status 408 exc.status_code
    || is_in "timed out" lowered

-- `status in _AUTH_STATUS`
unfoldable pub is_auth : SdkException → Bool
is_auth exc = has_status 401 exc.status_code || has_status 403 exc.status_code

abbrev pub provider_error : ErrorKind → String → ProviderError
provider_error kind message = record { kind = kind; message = message }

unfoldable pub map_error : (String → String) → SdkException → ProviderError
map_error lower exc =
    let lowered = lower exc.message in
    if is_throttled exc
    then (if names_quota lowered
        then provider_error ErrorKind.credit_exhausted exc.message
        else provider_error ErrorKind.rate_limit exc.message)
    else if is_timed_out exc lowered
    then provider_error ErrorKind.timeout exc.message
    else if is_auth exc
    then provider_error ErrorKind.generic
        (format ("openai auth/permission error: " ∷ exc.message ∷ []))
    else provider_error ErrorKind.generic (format ("openai error: " ∷ exc.message ∷ []))

-- `s or d` on a text that may be `None`.
abbrev pub text_or : Option String → String → String
text_or none d = d
text_or (some s) d = if str_eq s "" then d else s

abbrev pub usage_of : Option SdkUsage → LlmUsage
usage_of none = record { prompt_tokens = 0; completion_tokens = 0; total_tokens = 0 }
usage_of (some usage) = record {
  prompt_tokens = or_default usage.prompt_tokens 0;
  completion_tokens = or_default usage.completion_tokens 0;
  total_tokens = or_default usage.total_tokens 0;
}

-- What follows the call; without a choice, `response.choices[0]` raises outside the `try`.
unfoldable pub read_response : OpenAiAdapter → SdkResponse → List Choice → AdapterAnswer
read_response self response [] = other_raised "list index out of range"
read_response self response (choice ∷ _) = responded (record {
  model = or_default response.model self.default_model;
  content = text_or choice.content "";
  finish_reason = text_or choice.finish_reason "stop";
  usage = usage_of response.usage;
})

-- `complete`, given what the client did.
unfoldable pub answer_of :
    (String → String) → OpenAiAdapter → Result SdkException SdkResponse → AdapterAnswer
unfolding read_response map_error
answer_of lower self (ok response) = read_response self response response.choices
answer_of lower self (err exc) = provider_raised (map_error lower exc)

module _ (sdk : Sdk) (self : OpenAiAdapter) where
  -- `complete`, as the given call of the client.
  unfoldable pub adapter_complete : ℕ → LlmRequest → AdapterAnswer
  unfolding answer_of build_kwargs
  adapter_complete n request =
      answer_of sdk.lower self (sdk.create n self.client (build_kwargs self request))

-- What a stream of the SDK gives: for each chunk the `delta.content` of its choices, and at the end an
-- exception or none.
pub record SdkStream : Type 0 where
  pub chunks : List (List (Option String))
  pub ending : Option SdkException

abbrev pub no_choice : SdkException
no_choice = record {
  status_code = none;
  class_name = "IndexError";
  message = "list index out of range";
}

-- The `async for` of `_stream`: the texts that it yields, and the error that ends it.
unfoldable pub stream_from :
    (String → String)
    → List (List (Option String))
    → Option SdkException
    → List String × Option ProviderError
unfolding map_error
stream_from lower [] none = ([], none)
stream_from lower [] (some exc) = ([], some (map_error lower exc))
stream_from lower ([] ∷ chunks) ending = ([], some (map_error lower no_choice))
stream_from lower ((delta ∷ _) ∷ chunks) ending =
    let (texts, error) = stream_from lower chunks ending in
    (if is_set delta then or_default delta "" ∷ texts else texts, error)

-- `_stream`, given what the client did.
unfoldable pub stream :
    (String → String) → Result SdkException SdkStream → List String × Option ProviderError
unfolding stream_from map_error
stream lower (ok s) = stream_from lower s.chunks s.ending
stream lower (err exc) = ([], some (map_error lower exc))

-- `embed`, given what the client did: the vectors of its items.
unfoldable pub embed :
    {V : Type 0} → (String → String) → Result SdkException (List V) → Result ProviderError (List V)
unfolding map_error
embed lower (ok vectors) = ok vectors
embed lower (err exc) = err (map_error lower exc)
