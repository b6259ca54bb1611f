-- ===== src/Workers/Codegen/Entries.antt =====
-- Which entries of a list of files become patches.
use hookclose.Prelude.{
  String, ◌≡◌, refl, sym, ap, subst, ◌∙◌, ◌⊎◌, ◌↔◌, inl, inr, false, Option, none, some, List, [],
  ◌∷◌, arith, str_eq, Bool-cases,
}
use hookclose.Workers.Contracts.{FilePatch}
use hookclose.Workers.Envelope.{JsonValue, JsonValues, JsonFields, get_value}
use hookclose.Workers.Codegen.{file_patch, text_in, patch_from, patch_in, patches_in}

abbrev pub Has : FilePatch → List FilePatch → Type 0
Has f [] = ⊥
Has f (p ∷ ps) = (p ≡ f) ⊎ Has f ps

abbrev pub InValues : JsonValue → JsonValues → Type 0
InValues v JsonValues.no_values = ⊥
InValues v (JsonValues.value w rest) = (w ≡ v) ⊎ InValues v rest

-- The entry is an object with a path that is a text and not empty, and with a content that is a text.
pub record IsFile (entry : JsonValue) (f : FilePatch) : Type 0 where
  pub found : JsonFields
  pub path : String
  pub body : String
  pub is_object : entry ≡ JsonValue.object found
  pub has_path : get_value "path" found ≡ some (JsonValue.text path)
  pub has_body : get_value "content" found ≡ some (JsonValue.text body)
  pub nonempty : str_eq path "" ≡ false
  pub patch : file_patch path body ≡ f

text_in_sound :
    (o : Option JsonValue) (s : String) → text_in o ≡ some s → o ≡ some (JsonValue.text s)
text_in_sound o s h = ground arith

-- The texts make a patch.
abbrev Makes : Option String → Option String → FilePatch → Type 0
Makes o b f =
    (path : String) × (body : String) × (o ≡ some path)
    × (b ≡ some body)
    × (str_eq path "" ≡ false)
    × (file_patch path body ≡ f)

patch_from-Has :
    (f : FilePatch) (o b : Option String) (ps : List FilePatch)
    → Has f (patch_from o b ps) ↔ (Makes o b f ⊎ Has f ps)
patch_from-Has f none b ps =
    (λ h. inr h, λ h. elim h [ inl (p, c, e, _, _, _) ↦ cc | inr later ↦ later ])
patch_from-Has f (some path) none ps =
    (λ h. inr h, λ h. elim h [ inl (p, c, _, e, _, _) ↦ cc | inr later ↦ later ])
patch_from-Has f (some path) (some body) ps = elim (Bool-cases (str_eq path "")) [
  | inl empty ↦ (
    λ h. inr (rw empty at h),
    λ h. elim h [ inl (p, c, e, _, named, _) ↦ ground arith | inr later ↦ rw empty later ],
  )
  | inr named ↦ (
    λ h. elim (rw named at h) [
      | inl same ↦ inl (path, body, refl, refl, named, same)
      | inr later ↦ inr later
    ],
    λ h. elim h [
      | inl (p, c, e, e', _, same) ↦ rw named (inl (ground (arith, same)))
      | inr later ↦ rw named (inr later)
    ],
  )
]

-- An object's entry is a file exactly when its texts make a patch.
IsFile-object :
    (found : JsonFields) (f : FilePatch)
    → Makes (text_in (get_value "path" found)) (text_in (get_value "content" found)) f
      ↔ IsFile (JsonValue.object found) f
IsFile-object found f = (
  λ (path, body, e, e', named, same). record {
    found = found;
    path = path;
    body = body;
    is_object = refl;
    has_path = text_in_sound (get_value "path" found) path e;
    has_body = text_in_sound (get_value "content" found) body e';
    nonempty = named;
    patch = same;
  },
  λ h.
      let same : h.found ≡ found = ground (arith, h.is_object) in
      (
        h.path,
        h.body,
        ap (λ d. text_in (get_value "path" d)) (sym same) ∙ ap text_in h.has_path,
        ap (λ d. text_in (get_value "content" d)) (sym same) ∙ ap text_in h.has_body,
        h.nonempty,
        h.patch,
      ),
)

not-IsFile :
    (f : FilePatch) (entry : JsonValue) (ps : List FilePatch)
    → ((found : JsonFields) → entry ≡ JsonValue.object found → ⊥)
    → Has f ps ↔ (IsFile entry f ⊎ Has f ps)
not-IsFile f entry ps none_of =
    (λ h. inr h, λ h. elim h [ inl m ↦ absurd (none_of m.found m.is_object) | inr later ↦ later ])

-- One entry adds its file, if it is one.
patch_in-Has :
    (f : FilePatch) (entry : JsonValue) (ps : List FilePatch)
    → Has f (patch_in entry ps) ↔ (IsFile entry f ⊎ Has f ps)
patch_in-Has f (JsonValue.object found) ps =
    let (to, back) =
      patch_from-Has f (text_in (get_value "path" found)) (text_in (get_value "content" found))
        ps in
    let (makes, made) = IsFile-object found f in
    (
      λ h. elim (to h) [ inl m ↦ inl (makes m) | inr later ↦ inr later ],
      λ h. elim h [ inl m ↦ back (inl (made m)) | inr later ↦ back (inr later) ],
    )
patch_in-Has f JsonValue.null ps = not-IsFile f JsonValue.null ps (λ d e. cc)
patch_in-Has f (JsonValue.boolean b) ps = not-IsFile f (JsonValue.boolean b) ps (λ d e. cc)
patch_in-Has f (JsonValue.integer n) ps = not-IsFile f (JsonValue.integer n) ps (λ d e. cc)
patch_in-Has f (JsonValue.floating s n) ps = not-IsFile f (JsonValue.floating s n) ps (λ d e. cc)
patch_in-Has f (JsonValue.text s) ps = not-IsFile f (JsonValue.text s) ps (λ d e. cc)
patch_in-Has f (JsonValue.array vs) ps = not-IsFile f (JsonValue.array vs) ps (λ d e. cc)

-- The patches are the files of the entries.
pub patches_in-Has :
    (f : FilePatch) (entries : JsonValues)
    → Has f (patches_in entries) ↔ ((entry : JsonValue) × InValues entry entries × IsFile entry f)
unfolding patches_in
patches_in-Has f JsonValues.no_values = (λ h. absurd h, λ (entry, h, _). absurd h)
patches_in-Has f (JsonValues.value v rest) =
    let (to, back) = patch_in-Has f v (patches_in rest) in
    let (later, before) = patches_in-Has f rest in
    (
      λ h. elim (to h) [
        | inl file ↦ (v, inl refl, file)
        | inr h' ↦ let (entry, inside, file) = later h' in (entry, inr inside, file)
      ],
      λ (entry, inside, file). elim inside [
        | inl same ↦ back (inl (subst (λ w. IsFile w f) (sym same) file))
        | inr inside' ↦ back (inr (before (entry, inside', file)))
      ],
    )
