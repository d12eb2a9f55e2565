-- ===== src/SourceScans/OpenApi.antt =====
-- backend/app/modules/source_scans/openapi_parser.py: the operations of a registered document, and
-- their comparison with the source. A document is a list of bytes.
pub mod Compare
use ai_test.Base.{
  ℕ, zero, suc, ◌+◌, String, ◌<>◌, Bool, true, false, not, ◌&&◌, ◌||◌, Option, none, some, List, [],
  ◌∷◌, ◌++◌, length, any, all, map, ltb, ◌==◌, str_eq, if◌then◌else◌, is_some,
}
use ai_test.Base.Int.{pos}
use ai_test.Base.Text
use ai_test.Base.Text.{is_empty, starts_with, strip, split_char, join}
use ai_test.Base.Dict.{Dict, mem}
use ai_test.Base.Outcome.{Outcome, done, failed, ◌>>=◌, ◌>>◌, fail_if, map_error}
use ai_test.Json.{
  Value, null, bool, int, float, str, list, dict, Items, nil, cons, Fields, end, field, get_field,
  entries, to_list, of_list,
}
use ai_test.Json.Equality.{Floats}
use ai_test.Runtime.{Runtime}
use ai_test.Template.{as_text}
use ai_test.Network.{ApprovedHttpTarget, Lookup, approve_http_target, validate_stable_dns}
use ai_test.SourceScans.Reader.{FileSystem, relative_to}

-- An error that the worker reports with its code, or any other exception.
pub data ScanError : Type 0 where
  reported : String → String → ScanError
  unexpected : ScanError

abbrev pub Scanning : Type 0 → Type 0
Scanning A = Outcome ScanError A

pub data OpenApiSourceType : Type 0 where
  url file : OpenApiSourceType

pub record OpenApiOperation (F : Type 0) : Type 0 where
  pub method : String
  pub normalized_path : String
  pub operation_id : Option String
  pub request_definition : Fields F
  pub response_definition : Fields F
  pub security_definition : Fields F
  pub openapi_definition : Fields F

-- A response body: its chunks, and whether it ended without an `httpx.HTTPError`.
pub record Download : Type 0 where
  pub chunks : List (List ℕ)
  pub ended : Bool

-- `json.loads` of bytes
pub data Loaded (F : Type 0) : Type 0 where
  loaded : Value F → Loaded F
  no_json : Loaded F
  no_text : Loaded F

pub record OpenApiSettings : Type 0 where
  pub openapi_host_allowlist : List String
  pub source_upload_root : String
  pub max_openapi_document_bytes : ℕ

-- What the parser takes from other libraries. `yaml` is `yaml.safe_load` behind the conversion to JSON,
-- with `none` for a `YAMLError`.
pub record Sources (F : Type 0) : Type 0 where
  pub upper : String → String
  pub loads : List ℕ → Loaded F
  pub yaml : List ℕ → Option (Value F)
  pub download : String → Download
  -- the name lookups of the approval, and the later ones
  pub first_lookup : Lookup
  pub second_lookup : Lookup
  pub files : FileSystem (List ℕ)

abbrev unavailable : ScanError
unavailable = reported "OPENAPI_URL_UNAVAILABLE" "OpenAPI 地址不可访问"

abbrev too_large : ScanError
too_large = reported "OPENAPI_DOCUMENT_TOO_LARGE" "OpenAPI 文档超过大小限制"

-- The loop over the chunks.
unfoldable pub read_chunks : ℕ → List ℕ → List (List ℕ) → Scanning (List ℕ)
read_chunks limit content [] = done content
read_chunks limit content (chunk ∷ rest) =
    let more = read_chunks limit (content ++ chunk) rest in
    if ltb limit (length (content ++ chunk)) then failed too_large else more

abbrev pub segments : List String → List String
segments [] = []
segments (s ∷ rest) = let others = segments rest in if is_empty s then others else s ∷ others

-- `_normalize_path`
unfoldable pub normalize_path : String → String
unfolding split_char join
normalize_path path = "/" <> join "/" (segments (split_char "/" path))

module _ {F : Type 0} where
  abbrev pub or_null : Option (Value F) → Value F
  or_null none = null
  or_null (some v) = v

  -- `d.get(k)`, `None` being `null`
  abbrev pub get_value : Fields F → String → Value F
  get_value d k = or_null (get_field d k)

  -- `_as_list`
  abbrev pub as_list : Value F → List (Value F)
  as_list (list vs) = to_list vs
  as_list _ = []

  -- `_as_string`
  abbrev pub as_string : Value F → Option String
  as_string (str s) = some s
  as_string _ = none

  abbrev dict_fields : Value F → Option (Fields F)
  dict_fields (dict fs) = some fs
  dict_fields _ = none

module _ {F : Type 0} (py : Runtime F) where
  -- `bool(value)`
  unfoldable pub truthy : Value F → Bool
  truthy null = false
  truthy (bool b) = b
  truthy (int (pos zero)) = false
  truthy (int n) = true
  truthy (float x) = not (py.floats.eq_int x (pos 0))
  truthy (str s) = not (is_empty s)
  truthy (list nil) = false
  truthy (list (cons v vs)) = true
  truthy (dict end) = false
  truthy (dict (field k v fs)) = true

  -- `value or other`
  abbrev pub or_else : Value F → Value F → Value F
  or_else v w = if truthy v then v else w

  module _ (upper : String → String) where
    abbrev http_methods : List String
    http_methods = "get" ∷ "post" ∷ "put" ∷ "patch" ∷ "delete" ∷ []

    -- An operation of a path, whose common parameters are given.
    abbrev pub operation_of :
        Value F → String → List (Value F) → String → Fields F → OpenApiOperation F
    operation_of default_security path common method operation = record {
      method = upper method;
      normalized_path = normalize_path path;
      operation_id = as_string (get_value operation "operationId");
      request_definition =
          field "parameters" (list (of_list (common ++ as_list (get_value operation "parameters"))))
            (field "requestBody" (or_else (get_value operation "requestBody") (dict end)) end);
      response_definition =
          field "responses" (or_else (get_value operation "responses") (dict end)) end;
      security_definition =
          field "security"
            (elim (get_field operation "security") [ none ↦ default_security | some v ↦ v ]) end;
      openapi_definition = field "path" (str path) (field "operation" (dict operation) end);
    }

    -- The loop over the entries of a path item.
    unfoldable pub path_operations :
        Value F → String → List (Value F) → Dict (Value F) → List (OpenApiOperation F)
    path_operations default_security path common [] = []
    path_operations default_security path common ((method, v) ∷ rest) =
        let others = path_operations default_security path common rest in
        if mem (py.lower method) http_methods
        then elim (dict_fields v) [
          | none ↦ others
          | some operation ↦ operation_of default_security path common method operation ∷ others
        ]
        else others

    -- The loop over the paths.
    unfoldable pub document_operations : Value F → Dict (Value F) → List (OpenApiOperation F)
    unfolding path_operations
    document_operations default_security [] = []
    document_operations default_security ((path, v) ∷ rest) =
        let others = document_operations default_security rest in
        elim (dict_fields v) [
          | none ↦ others
          | some item ↦
              path_operations default_security path (as_list (get_value item "parameters"))
                (entries item)
              ++ others
        ]

  abbrev or_default : Option (Value F) → Value F → Value F
  or_default none v = v
  or_default (some v) _ = v

  abbrev is_supported : Fields F → Bool
  is_supported d =
      let version = as_text py.repr (or_default (get_field d "openapi") (str "")) in
      starts_with version "3.0" || starts_with version "3.1"

  abbrev some_or_raise : {A : Type 0} → ScanError → Option A → Scanning A
  some_or_raise e none = failed e
  some_or_raise e (some a) = done a

  module _ (sources : Sources F) where
    -- `json.loads`, and `yaml.safe_load` of what is no JSON
    abbrev load : List ℕ → Loaded F → Scanning (Value F)
    load content (loaded v) = done v
    load content no_text = failed unexpected
    load content no_json =
        some_or_raise (reported "OPENAPI_DOCUMENT_INVALID" "OpenAPI 文档格式无效") (sources.yaml content)

    -- `_parse_document`
    unfoldable pub parse_document : List ℕ → Scanning (List (OpenApiOperation F))
    unfolding document_operations
    parse_document content = do
      parsed ← load content (sources.loads content)
      document ←
          some_or_raise (reported "OPENAPI_VERSION_UNSUPPORTED" "仅支持 OpenAPI 3.0 和 3.1")
            (dict_fields parsed)
      fail_if (not (is_supported document))
          (reported "OPENAPI_VERSION_UNSUPPORTED" "仅支持 OpenAPI 3.0 和 3.1")
      paths ←
          some_or_raise (reported "OPENAPI_DOCUMENT_INVALID" "OpenAPI 文档缺少 paths")
            (dict_fields (get_value document "paths"))
      let security = or_default (get_field document "security") (list nil)
      done (document_operations sources.upper security (entries paths))

    -- `_read_url`; an item of spaces is left out of the allowlist
    unfoldable pub read_url : OpenApiSettings → String → Scanning (List ℕ)
    unfolding read_chunks approve_http_target validate_stable_dns
    read_url settings location = do
      target ←
          map_error (λ e. unavailable)
            (approve_http_target py sources.first_lookup location
              (kept settings.openapi_host_allowlist))
      map_error (λ e. unavailable) (validate_stable_dns py.is_global sources.second_lookup target)
      let body = sources.download location
      content ← read_chunks settings.max_openapi_document_bytes [] body.chunks
      fail_if (not body.ended) unavailable
      done content
      where
        kept : List String → List String
        kept [] = []
        kept (item ∷ items) = if is_empty (strip item) then kept items else item ∷ kept items

    abbrev not_found : ScanError
    not_found = reported "OPENAPI_FILE_NOT_FOUND" "OpenAPI 文件不可访问"

    -- `_read_file`
    unfoldable pub read_document_file : OpenApiSettings → String → Scanning (List ℕ)
    unfolding relative_to
    read_document_file settings location = do
      let files = sources.files
      path ← some_or_raise not_found (files.resolve (files.parts location))
      let uploads = files.resolve_lax (files.parts settings.source_upload_root)
      let root = files.resolve_lax (uploads ++ ("openapi" ∷ []))
      fail_if (not (files.is_file path) || not (is_some (relative_to root path)))
          (reported "OPENAPI_FILE_NOT_ALLOWED" "OpenAPI 文件不在允许范围内")
      size ← some_or_raise unexpected (files.file_size path)
      fail_if (ltb settings.max_openapi_document_bytes size) too_large
      some_or_raise not_found (files.read_bytes path)

    abbrev read_source : OpenApiSettings → OpenApiSourceType → String → Scanning (List ℕ)
    read_source settings OpenApiSourceType.url location = read_url settings location
    read_source settings OpenApiSourceType.file location = read_document_file settings location

    -- `load_openapi_operations`
    unfoldable pub load_openapi_operations :
        OpenApiSettings
        → Option OpenApiSourceType
        → Option String
        → Scanning (List (OpenApiOperation F))
    unfolding parse_document read_url read_document_file
    load_openapi_operations settings (some source_type) (some location) = do
      content ← read_source settings source_type location
      parse_document content
    load_openapi_operations settings _ _ = done []
