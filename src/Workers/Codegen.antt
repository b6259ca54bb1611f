-- ===== src/Workers/Codegen.antt =====
-- workers/codegen.py: files from a model's answer.
pub mod Entries
pub mod Usable
pub mod Keyless
pub mod Examples
use hookclose.Prelude.{
  ℕ, String, format, take_chars, Bool, true, false, not, ◌&&◌, Option, none, some, List, [], ◌∷◌,
  Result, ok, err, if◌then◌else◌, str_eq, is_empty,
}
use hookclose.Contracts.{Role, LlmRequest}
use hookclose.Tasks
use hookclose.Providers.State.{Capability, ProviderInvocation, NoProviderAvailable}
use hookclose.Providers.Base.{Platform}
use hookclose.Providers.Manager.{ProviderManager, manager_complete}
use hookclose.Workers.Contracts.{FilePatch, GenerationResult}
use hookclose.Workers.Envelope.{JsonValue, JsonValues, JsonFields, get_value, JsonReader, object_in}

pub record CodeGenerator : Type 0 where
  pub manager : ProviderManager
  pub capability : Capability
  pub max_tokens : ℕ

-- `_SYSTEM`
abbrev pub system_prompt : String
system_prompt = format (
    "You are an expert software engineer working inside an automated build runtime. "
    ∷ "Generate the COMPLETE files needed to accomplish the goal. "
    ∷ "Respond with ONLY a JSON object, no prose, matching this schema: "
    ∷ "{\"files\": [{\"path\": \"<relative/path>\", \"content\": \"<full file contents>\"}], "
    ∷ "\"notes\": \"<short summary>\"}. "
    ∷ "Paths are relative to the project root and must not start with '/' or contain '..'. "
    ∷ "Return complete, runnable files — never elide with '...'." ∷ [])

abbrev pub user_prompt : String → String → String
user_prompt goal context = format (
    "Goal:\n"
    ∷ goal
    ∷ "\n"
    ∷ (if str_eq context ""
        then ""
        else format ("\nContext / constraints:\n" ∷ context ∷ "\n" ∷ []))
    ∷ "\nReturn the JSON object now."
    ∷ [])

unfoldable pub build_request : CodeGenerator → String → String → LlmRequest
build_request self goal context = record {
  model = "auto";
  messages =
      record { role = Role.system; content = system_prompt }
      ∷ record { role = Role.user; content = user_prompt goal context }
      ∷ [];
  max_tokens = some self.max_tokens;
  temperature = some 0;
  top_p = none;
  stop = none;
  response_format = some "json";
}

abbrev pub file_patch : String → String → FilePatch
file_patch path content = record { path = Tasks.Json.text path; content = Tasks.Json.text content }

-- The text of a value that `isinstance(value, str)` accepts.
abbrev pub text_in : Option JsonValue → Option String
text_in (some (JsonValue.text s)) = some s
text_in _ = none

-- `if isinstance(path, str) and isinstance(body, str) and path: patches.append(...)`, before the
-- patches of the later files.
abbrev pub patch_from : Option String → Option String → List FilePatch → List FilePatch
patch_from (some path) (some body) patches =
    if str_eq path "" then patches else file_patch path body ∷ patches
patch_from _ _ patches = patches

-- One turn of the loop over the files, before the later ones.
abbrev pub patch_in : JsonValue → List FilePatch → List FilePatch
patch_in (JsonValue.object found) patches =
    patch_from (text_in (get_value "path" found)) (text_in (get_value "content" found)) patches
patch_in _ patches = patches

-- The loop over `raw_files`.
unfoldable pub patches_in : JsonValues → List FilePatch
patches_in JsonValues.no_values = []
patches_in (JsonValues.value entry rest) = patch_in entry (patches_in rest)

-- The patches, the notes, and whether the answer is degraded.
pub record ParsedCode : Type 0 where
  pub patches : List FilePatch
  pub notes : String
  pub degraded : Bool

module _ (json : JsonReader) where
  abbrev pub notes_in : JsonFields → String
  notes_in found = elim (get_value "notes" found) [
    | none ↦ json.str_of (JsonValue.text "")
    | some v ↦ json.str_of v
  ]

  -- `_parse` of an object, given its `files`; `[]` stands for a missing key.
  unfoldable pub parsed_files : String → Option JsonValue → ParsedCode
  unfolding patches_in
  parsed_files notes (some (JsonValue.array entries)) =
      let patches = patches_in entries in
      record { patches = patches; notes = notes; degraded = is_empty patches }
  parsed_files notes none = record { patches = []; notes = notes; degraded = true }
  parsed_files notes (some _) = record { patches = []; notes = notes; degraded = true }

  unfoldable pub parsed_code : String → Option JsonFields → ParsedCode
  unfolding parsed_files
  parsed_code content none = record {
    patches = [];
    notes = take_chars 200 content;
    degraded = true;
  }
  parsed_code content (some found) = parsed_files (notes_in found) (get_value "files" found)

  -- `_parse`
  unfoldable pub parse_code : String → ParsedCode
  unfolding parsed_code
  parse_code content = parsed_code content (object_in (json.loads content))

  unfoldable pub generation_of : ProviderInvocation → GenerationResult
  unfolding parse_code
  generation_of invocation =
      let parsed = parse_code invocation.content in
      record {
        provider = invocation.provider;
        patches = parsed.patches;
        notes = parsed.notes;
        total_tokens = invocation.total_tokens;
        degraded = parsed.degraded;
      }

  -- What follows the call of the manager, which may raise `NoProviderAvailable`.
  abbrev pub generated_from :
      Result NoProviderAvailable ProviderInvocation → Result NoProviderAvailable GenerationResult
  generated_from (err e) = err e
  generated_from (ok invocation) = ok (generation_of invocation)

module _ (os : Platform) (json : JsonReader) where
  unfoldable pub generate :
      String → String → CodeGenerator → Result NoProviderAvailable GenerationResult × CodeGenerator
  unfolding generation_of build_request
  generate goal context self =
      let (answer, manager') =
        manager_complete os (build_request self goal context) self.capability none self.manager in
      (generated_from json answer, record self { manager = manager' })
