-- ===== src/Workers/Codegen/Usable.antt =====
-- Which files of an answer become patches.
use hookclose.Prelude.{
  String, ◌≡◌, refl, sym, ap, subst, ◌∙◌, ◌↔◌, Option, none, some, arith, Result, ok, err, is_empty,
}
use hookclose.Providers.State.{ProviderInvocation, NoProviderAvailable}
use hookclose.Providers.Base.{Platform}
use hookclose.Providers.Manager.{manager_complete}
use hookclose.Workers.Contracts.{FilePatch, GenerationResult}
use hookclose.Workers.Envelope.{JsonValue, JsonValues, JsonFields, get_value, JsonReader, object_in}
use hookclose.Workers.Codegen.Entries.{Has, InValues, IsFile, patches_in-Has}
use hookclose.Workers.Codegen.{
  CodeGenerator, build_request, parsed_files, parsed_code, parse_code, notes_in, generation_of,
  generated_from, generate,
}

-- The files of an answer: those of the entries of its list `files`.
pub record Offers (read : Option JsonValue) (f : FilePatch) : Type 0 where
  pub top : JsonFields
  pub entries : JsonValues
  pub entry : JsonValue
  pub is_object : read ≡ some (JsonValue.object top)
  pub has_files : get_value "files" top ≡ some (JsonValue.array entries)
  pub inside : InValues entry entries
  pub file : IsFile entry f

parsed_files-Has :
    (json : JsonReader) (notes : String) (files : Option JsonValue) (f : FilePatch)
    → Has f (parsed_files json notes files).patches ↔ (
        (entries : JsonValues) × (files ≡ some (JsonValue.array entries))
        × ((entry : JsonValue) × InValues entry entries × IsFile entry f))
unfolding parsed_files
parsed_files-Has json notes (some (JsonValue.array entries)) f =
    let (to, back) = patches_in-Has f entries in
    (
      λ h. (entries, refl, to h),
      λ (es, e, inside).
          let same : es ≡ entries = ground (arith, e) in
          back (subst (λ vs. (entry : JsonValue) × InValues entry vs × IsFile entry f) same inside),
    )
parsed_files-Has json notes none f = (λ h. absurd h, λ (entries, e, _). cc)
parsed_files-Has json notes (some JsonValue.null) f = (λ h. absurd h, λ (entries, e, _). cc)
parsed_files-Has json notes (some (JsonValue.boolean b)) f = (λ h. absurd h, λ (entries, e, _). cc)
parsed_files-Has json notes (some (JsonValue.integer n)) f = (λ h. absurd h, λ (entries, e, _). cc)
parsed_files-Has json notes (some (JsonValue.floating s n)) f =
    (λ h. absurd h, λ (entries, e, _). cc)
parsed_files-Has json notes (some (JsonValue.text s)) f = (λ h. absurd h, λ (entries, e, _). cc)
parsed_files-Has json notes (some (JsonValue.object d)) f = (λ h. absurd h, λ (entries, e, _). cc)

object_in_sound :
    (read : Option JsonValue) (top : JsonFields)
    → object_in read ≡ some top
    → read ≡ some (JsonValue.object top)
object_in_sound read top h = ground arith

parsed_code-Has :
    (json : JsonReader) (content : String) (read : Option JsonValue) (found : Option JsonFields)
    (f : FilePatch)
    → object_in read ≡ found
    → Has f (parsed_code json content found).patches ↔ Offers read f
unfolding parsed_code
parsed_code-Has json content read none f e =
    (λ h. absurd h, λ o. let e' = ap object_in o.is_object in cc)
parsed_code-Has json content read (some top) f e =
    let (to, back) = parsed_files-Has json (notes_in json top) (get_value "files" top) f in
    (
      λ h.
          let (entries, at, (entry, inside, file)) = to h in
          record {
            top = top;
            entries = entries;
            entry = entry;
            is_object = object_in_sound read top e;
            has_files = at;
            inside = inside;
            file = file;
          },
      λ o.
          let same : o.top ≡ top = ground (arith, e, ap object_in o.is_object) in
          back (
            o.entries,
            ap (get_value "files") (sym same) ∙ o.has_files,
            (o.entry, o.inside, o.file),
          ),
    )

parsed_files-degraded :
    (json : JsonReader) (notes : String) (files : Option JsonValue)
    → let parsed = parsed_files json notes files in parsed.degraded ≡ is_empty parsed.patches
unfolding parsed_files
parsed_files-degraded json notes files = ground arith

parsed_code-degraded :
    (json : JsonReader) (content : String) (found : Option JsonFields)
    → let parsed = parsed_code json content found in parsed.degraded ≡ is_empty parsed.patches
unfolding parsed_code
parsed_code-degraded json content none = refl
parsed_code-degraded json content (some top) =
    parsed_files-degraded json (notes_in json top) (get_value "files" top)

-- What is made of the manager's answer.
abbrev pub Generated :
    JsonReader
    → Result NoProviderAvailable ProviderInvocation
    → Result NoProviderAvailable GenerationResult
    → Type 0
Generated json (err e) given = given ≡ err e
Generated json (ok inv) given =
    (result : GenerationResult) × (given ≡ ok result)
    × (result.provider ≡ inv.provider)
    × (result.total_tokens ≡ inv.total_tokens)
    × (result.degraded ≡ is_empty result.patches)
    × ((f : FilePatch) → Has f result.patches ↔ Offers (json.loads inv.content) f)

generated_from-Generated :
    (json : JsonReader) (answer : Result NoProviderAvailable ProviderInvocation)
    → Generated json answer (generated_from json answer)
unfolding generation_of parse_code
generated_from-Generated json (err e) = refl
generated_from-Generated json (ok inv) =
    let read = json.loads inv.content in
    (
      generation_of json inv,
      refl,
      refl,
      refl,
      parsed_code-degraded json inv.content (object_in read),
      λ f. parsed_code-Has json inv.content read (object_in read) f refl,
    )

-- `generate` raises what the manager raises. Otherwise it returns a result with the provider and the
-- tokens of the answer. A patch is among its patches exactly when the answer offers that file: as an
-- entry of the list `files` of a JSON object which is an object with a text as content and a text that
-- is not empty as path. The result is degraded exactly when it has no patch.
pub generate_exact :
    (os : Platform) (json : JsonReader) (goal context : String) (self : CodeGenerator)
    → let request = build_request self goal context in
      Generated json
        (manager_complete os request self.capability none self.manager).0
        (generate os json goal context self).0
unfolding generate
generate_exact os json goal context self =
    let request = build_request self goal context in
    generated_from-Generated json (manager_complete os request self.capability none self.manager).0
