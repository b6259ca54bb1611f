-- ===== src/Orchestration/Failures.antt =====
-- orchestration/self_healing.py, first half: from the output of a failed run to a stable signature. The
-- regular expressions, the text methods of Python and `hashlib` are parameters.
use hookclose.Prelude.{
  ℕ, String, format, take_chars, str_eq, Bool, true, false, ◌&&◌, ◌||◌, Option, none, some, List,
  [], ◌∷◌, ◌++◌, if◌then◌else◌, or_default, Dict, lookup, last?,
}

pub data FailureCategory : Type 0 where
  syntax import_ dependency assertion timeout lint runtime unknown : FailureCategory

unfoldable pub category_value : FailureCategory → String
category_value FailureCategory.syntax = "syntax"
category_value FailureCategory.import_ = "import"
category_value FailureCategory.dependency = "dependency"
category_value FailureCategory.assertion = "assertion"
category_value FailureCategory.timeout = "timeout"
category_value FailureCategory.lint = "lint"
category_value FailureCategory.runtime = "runtime"
category_value FailureCategory.unknown = "unknown"

-- `category in _DETERMINISTIC`
abbrev pub is_deterministic : FailureCategory → Bool
is_deterministic FailureCategory.lint = true
is_deterministic FailureCategory.dependency = true
is_deterministic _ = false

pub record Frame : Type 0 where
  pub file : String
  pub line : ℕ
  pub func : String

pub record ParsedTraceback : Type 0 where
  pub exception_type : String
  pub message : String
  pub frames : List Frame

unfoldable pub last_frame : ParsedTraceback → Option Frame
last_frame tb = last? tb.frames

pub record FailureSignature : Type 0 where
  pub category : FailureCategory
  pub exception_type : String
  pub location : String
  pub normalized_message : String

pub record FailureAnalysis : Type 0 where
  pub signature : FailureSignature
  pub summary : String
  pub deterministic_fixable : Bool
  pub traceback : ParsedTraceback

-- What the module takes from Python's libraries.
pub record TextTools : Type 0 where
  pub find_frames : String → List Frame  -- the matches of `_FRAME_RE`
  pub match_exception : String → Option (String × String)  -- `_EXC_RE.match`: type and msg
  pub mentions_rule : String → Bool  -- `re.search(r"\b[EWFB]\d{3}\b", output)`
  pub without_numbers : String → String  -- `_NUM_RE.sub("N", message)`
  pub strip : String → String
  pub splitlines : String → List String
  pub lower : String → String
  pub within : String → String → Bool  -- `part in text`
  pub decimal : ℕ → String
  pub sha1_hex : String → String

-- `_EXC_CATEGORY`
abbrev pub exc_category : Dict FailureCategory
exc_category =
    ("SyntaxError", FailureCategory.syntax)
    ∷ ("IndentationError", FailureCategory.syntax)
    ∷ ("ModuleNotFoundError", FailureCategory.dependency)
    ∷ ("ImportError", FailureCategory.import_)
    ∷ ("AssertionError", FailureCategory.assertion)
    ∷ ("TimeoutError", FailureCategory.timeout)
    ∷ []

abbrev pub reversed : List String → List String
reversed [] = []
reversed (line ∷ rest) = reversed rest ++ line ∷ []

module _ (py : TextTools) where
  -- `FailureSignature.key`
  unfoldable pub key : FailureSignature → String
  key signature = take_chars 16 (
      py.sha1_hex (
        format (
          category_value signature.category
          ∷ "|"
          ∷ signature.exception_type
          ∷ "|"
          ∷ signature.location
          ∷ "|"
          ∷ signature.normalized_message
          ∷ [])))

  -- The loop over the reversed lines: the last line that names an exception, if any.
  abbrev pub find_exception : List String → String × String → String × String
  find_exception [] unmatched = unmatched
  find_exception (line ∷ rest) unmatched = elim (py.match_exception (py.strip line)) [
    | some found ↦ (found.0, py.strip found.1)
    | none ↦ find_exception rest unmatched
  ]

  -- `text.strip().splitlines()[-1] if text.strip() else ""`: only the empty text has no lines.
  unfoldable pub parse : String → ParsedTraceback
  parse text =
      let lines = py.splitlines (py.strip text) in
      let (exc_type, message) = find_exception (reversed lines) ("", or_default (last? lines) "") in
      record { exception_type = exc_type; message = message; frames = py.find_frames text }

  unfoldable pub categorize_by_content : String → String → FailureCategory
  categorize_by_content exc output =
      let lowered = py.lower output in
      if py.within "timed out" lowered
      then FailureCategory.timeout
      else if py.within "assert" lowered && py.within "failed" lowered
      then FailureCategory.assertion
      else if py.within "ruff" lowered || py.mentions_rule output
      then FailureCategory.lint
      else if str_eq exc ""
      then FailureCategory.unknown
      else FailureCategory.runtime

  unfoldable pub categorize : ParsedTraceback → String → FailureCategory
  unfolding categorize_by_content
  categorize tb output =
      or_default (lookup tb.exception_type exc_category)
        (categorize_by_content tb.exception_type output)

  unfoldable pub normalize : String → String
  normalize message = take_chars 160 (py.strip (py.without_numbers message))

  abbrev pub location_of : Option Frame → String
  location_of none = ""
  location_of (some frame) = format (frame.file ∷ ":" ∷ py.decimal frame.line ∷ [])

  -- `text or other`
  abbrev pub text_or : String → String → String
  text_or text other = if str_eq text "" then other else text

  unfoldable pub analyze : String → FailureAnalysis
  unfolding parse categorize normalize last_frame
  analyze output =
      let tb = parse output in
      let category = categorize tb output in
      record {
        signature = record {
          category = category;
          exception_type = text_or tb.exception_type (category_value category);
          location = location_of (last_frame tb);
          normalized_message = normalize tb.message;
        };
        summary = take_chars 300 (
            py.strip (
              format (
                category_value category
                ∷ ": "
                ∷ text_or tb.exception_type "failure"
                ∷ " "
                ∷ tb.message
                ∷ [])));
        deterministic_fixable = is_deterministic category;
        traceback = tb;
      }
