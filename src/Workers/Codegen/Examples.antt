-- ===== src/Workers/Codegen/Examples.antt =====
-- Code generation in a runtime with no key of a vendor.
use hookclose.Prelude.{
  format, String, ◌≡◌, refl, false, none, some, [], ◌∷◌, if◌then◌else◌, startswith,
}
use Prim.Native.String
use Prim.Native.String.append
use hookclose.Providers.State.{Capability}
use hookclose.Providers.Base.{Platform, responded}
use hookclose.Providers.Manager.{manager_complete}
use hookclose.Runtime.Composition.{default_config}
use hookclose.Runtime.Composition.Examples.{down, asked}
use hookclose.Runtime.Composition.Unserved.{manager_after}
use hookclose.Workers.Envelope.{JsonValue, JsonValues, JsonFields, JsonReader}
use hookclose.Workers.Codegen.{CodeGenerator, build_request, patches_in, file_patch, generate}
use hookclose.Workers.Codegen.Usable.{Generated, generate_exact}

abbrev entry_of : JsonValue → JsonValue → JsonValue
entry_of path body =
    JsonValue.object
      (JsonFields.field "path" path (JsonFields.field "content" body JsonFields.no_fields))

-- A file, a file without a path, and a number.
abbrev files : JsonValues
files = JsonValues.value (entry_of (JsonValue.text "a.py") (JsonValue.text "x = 1")) (
    JsonValues.value (entry_of (JsonValue.text "") (JsonValue.text "y"))
      (JsonValues.value JsonValue.null JsonValues.no_values))

-- Of the texts that start with a brace.
abbrev pub json : JsonReader
unfolding startswith
json = record {
  loads = λ s.
      if startswith "{" s
      then some
          (JsonValue.object (JsonFields.field "files" (JsonValue.array files) JsonFields.no_fields))
      else none;
  str_of = λ v. "";
}

patches_of_files : patches_in files ≡ file_patch "a.py" "x = 1" ∷ []
unfolding patches_in
patches_of_files = refl

abbrev self : CodeGenerator
self = record {
  manager = manager_after down default_config none [] (asked ∷ []);
  capability = Capability.code_generation;
  max_tokens = 4096;
}

-- A vendor that answers with the files.
abbrev answering : Platform
answering = record down {
  adapter = λ n name request. responded (record {
    model = "gpt-4o-mini";
    content = "{\"files\": []}";
    finish_reason = "stop";
    usage = record { prompt_tokens = 1; completion_tokens = 1; total_tokens = 2 };
  });
}

abbrev served : CodeGenerator
served = record self {
  manager =
      manager_after answering (record default_config { openai_api_key = some "sk-1" }) none [] [];
}

generate_exact_example :
    let request = build_request served "a page" "" in
    Generated json
      (manager_complete answering request Capability.code_generation none served.manager).0
      (generate answering json "a page" "" served).0
generate_exact_example = generate_exact answering json "a page" "" served

-- A text that starts with a bracket does not start with a brace.
not_an_object : (s : String) → startswith "{" (String.◌++◌ "[local-fallback] " s) ≡ false
unfolding startswith
not_an_object s = rw (append.cons "[" "local-fallback] " s) refl

-- The answer of the local provider is no JSON.
pub json_rejects :
    (s : String) → json.loads (down.strip (format ("[local-fallback] " ∷ s ∷ []))) ≡ none
unfolding json
json_rejects s = rw (not_an_object (String.◌++◌ s "")) refl
