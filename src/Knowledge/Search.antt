-- ===== src/Knowledge/Search.antt =====
-- backend/app/modules/knowledge/search.py: a search with ripgrep in a registered directory.
pub mod Hits
use ai_test.Base.{
  ℕ, zero, suc, ◌+◌, String, Char, code, Bool, true, false, not, ◌&&◌, ◌||◌, Option, none, some,
  List, [], ◌∷◌, length, ltb, leb, ◌==◌, str_eq, if◌then◌else◌,
}
use ai_test.Base.Int.{ℤ, pos, eqb_ℤ}
use ai_test.Base.Text
use ai_test.Base.Text.{strip, take}
use ai_test.Base.Outcome.{Outcome, done, failed, ◌>>=◌, ◌>>◌, map_error}
use ai_test.Json.{Value, bool, int, str, dict, Fields, get_field}
use ai_test.Runtime.{Runtime}
use ai_test.SourceScans.Reader.{
  SourceType, SourceArtifact, ReadError, Reading, ReadSettings, FileSystem, relative_to, as_posix,
  other,
}
use ai_test.SourceScans.Reader.Discover.{validate_local_root}

pub record KeywordSearchHit : Type 0 where
  pub relative_path : String
  pub line_number : ℤ
  pub line_content : String

abbrev pub max_keyword_length : ℕ
max_keyword_length = 128

abbrev pub max_search_results : ℕ
max_search_results = 20

abbrev every : (Char → Bool) → String → Bool
every p String.[] = true
every p (String.◌∷◌ c s) = p c && every p s

-- `_is_safe_keyword`; `is_alnum` is `str.isalnum`
unfoldable pub is_safe_keyword : (Char → Bool) → String → Bool
is_safe_keyword is_alnum keyword =
    ltb 0 (Text.length keyword)
    && leb (Text.length keyword) max_keyword_length
    && every (λ c. is_alnum c || (code c == b'.' || (code c == b'_' || code c == b'$'))) keyword

-- A process that ended, with its return code and its lines; `none` for an `OSError` or a timeout.
abbrev pub Process : Type 0
Process = Option (ℤ × List String)

abbrev pub when_some : {A B : Type 0} → Option A → (A → Option B) → Option B
when_some none f = none
when_some (some a) f = f a

module _ {F B : Type 0} (py : Runtime F) (fs : FileSystem B) where
  -- `_nested_text`
  abbrev pub nested_text : Option (Value F) → Option String
  nested_text (some (dict fs)) = text_of (get_field fs "text")
    where
      text_of : Option (Value F) → Option String
      text_of (some (str s)) = some s
      text_of _ = none
  nested_text _ = none

  -- A `bool` is an `int`, too.
  abbrev pub line_number : Option (Value F) → Option ℤ
  line_number (some (int n)) = some n
  line_number (some (bool true)) = some (pos 1)
  line_number (some (bool false)) = some (pos 0)
  line_number _ = none

  abbrev pub data_of : Option (Value F) → Option (Fields F)
  data_of (some (dict fs)) = some fs
  data_of _ = none

  abbrev pub is_match : Option (Value F) → Bool
  is_match (some (str s)) = str_eq s "match"
  is_match _ = false

  -- The hit at a path, which must be below the root; `none` where the loop goes on.
  unfoldable pub hit_at : List String → String → ℤ → String → Option KeywordSearchHit
  unfolding relative_to as_posix strip take
  hit_at root path number content = when_some (fs.resolve (fs.parts path)) λ resolved.
      when_some (relative_to root resolved) λ relative. some (record {
        relative_path = as_posix relative;
        line_number = number;
        line_content = take 500 (strip content);
      })

  -- The hit of a message of the process.
  unfoldable pub hit_of : List String → Fields F → Option KeywordSearchHit
  unfolding hit_at
  hit_of root payload =
      when_some (if is_match (get_field payload "type") then some tt else none) λ u.
        when_some (data_of (get_field payload "data")) λ d.
          when_some (nested_text (get_field d "path")) λ path.
            when_some (nested_text (get_field d "lines")) λ content.
              when_some (line_number (get_field d "line_number"))
                λ number. hit_at root path number content

  abbrev pub payload_of : Value F → Reading (Fields F)
  payload_of (dict fields) = done fields
  payload_of _ = failed other

  -- The loop over the lines, with the number of hits that are still taken; a message that is no
  -- object has no `get`.
  unfoldable pub parse_ripgrep_matches :
      ℕ → List String → List String → Reading (List KeywordSearchHit)
  unfolding hit_of
  parse_ripgrep_matches zero root lines = done []
  parse_ripgrep_matches (suc n) root [] = done []
  parse_ripgrep_matches (suc n) root (line ∷ lines) = elim (py.loads line) [
    | none ↦ parse_ripgrep_matches (suc n) root lines
    | some v ↦ do
      payload ← payload_of v
      elim (hit_of root payload) [
        | none ↦ parse_ripgrep_matches (suc n) root lines
        | some hit ↦ do rest ← parse_ripgrep_matches n root lines; done (hit ∷ rest)
      ]
  ]

  -- `search_with_ripgrep`; `rg` is the executable, if there is one, run on a keyword and a root.
  unfoldable pub search_with_ripgrep :
      ReadSettings
      → (Char → Bool)
      → Option (String → List String → Process)
      → Option SourceArtifact
      → String
      → Reading (List KeywordSearchHit)
  unfolding is_safe_keyword parse_ripgrep_matches validate_local_root
  search_with_ripgrep settings is_alnum rg none keyword = done []
  search_with_ripgrep settings is_alnum rg (some artifact) keyword = elim artifact.source_type [
    | SourceType.zip_upload ↦ done []
    | SourceType.local_path ↦
        if is_safe_keyword is_alnum keyword
        then elim rg [
          | none ↦ done []
          | some run ↦ do
            root ← validate_local_root fs settings (fs.parts artifact.storage_location)
            elim (run keyword root) [
              | none ↦ done []
              | some (return_code, lines) ↦
                  if eqb_ℤ return_code (pos 0) || eqb_ℤ return_code (pos 1)
                  then parse_ripgrep_matches max_search_results root lines
                  else done []
            ]
        ]
        else done []
  ]
