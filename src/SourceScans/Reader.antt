-- ===== src/SourceScans/Reader.antt =====
-- backend/app/modules/source_scans/reader.py: Java sources of a registered directory or an uploaded
-- archive. A resolved path is the list of its parts. `B` stands for the type `bytes`.
pub mod Discover
pub mod Limits
pub mod Bounded
use ai_test.Base.{
  ℕ, zero, suc, ◌+◌, ◌-◌, String, ◌<>◌, Char, code, Bool, true, false, not, ◌&&◌, ◌||◌, Option,
  none, some, List, [], ◌∷◌, ◌++◌, any, ltb, leb, ◌==◌, str_eq, if◌then◌else◌, is_some,
}
use ai_test.Base.Text
use ai_test.Base.Text.{is_empty, strip, replace_char, starts_with, split_char, join}
use ai_test.Base.Dict.{mem}
use ai_test.Base.Outcome.{Outcome, done, failed, ◌>>=◌, ◌>>◌, fail_if}

pub data SourceType : Type 0 where
  local_path zip_upload : SourceType

pub record SourceArtifact : Type 0 where
  pub source_type : SourceType
  pub storage_location : String

-- A `SourceReadError`, the two exceptions that are caught around an archive, or any other one.
pub data ReadError : Type 0 where
  source_error : String → String → ReadError
  bad_zip : ReadError
  os_error : ReadError
  other : ReadError

abbrev pub Reading : Type 0 → Type 0
Reading A = Outcome ReadError A

pub record DiscoveredSourceFile : Type 0 where
  pub relative_path : String
  pub content : String
  pub content_sha256 : String
  pub size_bytes : ℕ

pub record SourceDiscoveryResult : Type 0 where
  pub files : List DiscoveredSourceFile
  pub ignored_file_count : ℕ
  pub total_bytes : ℕ

-- The `Settings` that a reader uses; the allowlist is split at its commas.
pub record ReadSettings : Type 0 where
  pub source_root_allowlist : List String
  pub source_upload_root : String
  pub max_source_file_count : ℕ
  pub max_source_file_bytes : ℕ
  pub max_source_total_bytes : ℕ

-- What the directories of a file system hold, as `os.walk` meets it.
mutual
  pub data Directory : Type 0 where
    directory : List String → Directories → Directory

  pub data Directories : Type 0 where
    leaf : Directories
    child : String → Directory → Directories → Directories

pub record ZipEntry (B : Type 0) : Type 0 where
  pub filename : String
  pub is_dir : Bool
  pub file_size : ℕ
  pub read : Reading B

pub record FileSystem (B : Type 0) : Type 0 where
  -- `resolve(strict=True)`, with `none` for an `OSError`, and `resolve()`
  pub resolve : List String → Option (List String)
  pub resolve_lax : List String → List String
  -- the parts of `Path(text)`
  pub parts : String → List String
  pub is_dir : List String → Bool
  pub is_file : List String → Bool
  pub file_size : List String → Option ℕ
  pub read_bytes : List String → Option B
  pub tree : List String → Directory
  pub infolist : List String → Reading (List (ZipEntry B))
  pub byte_count : B → ℕ
  -- `content_bytes.decode("utf-8-sig")`, with `none` for a `UnicodeDecodeError`
  pub decode : B → Option String
  pub sha256 : B → String
  pub lower : String → String

-- `path.relative_to(root)`, if the path is below the root
unfoldable pub relative_to : List String → List String → Option (List String)
relative_to [] path = some path
relative_to (p ∷ root) [] = none
relative_to (p ∷ root) (q ∷ path) =
    let rest = relative_to root path in if str_eq p q then rest else none

-- `path.as_posix()` of a relative path.
unfoldable pub as_posix : List String → String
unfolding join
as_posix [] = "."
as_posix (p ∷ path) = join "/" (p ∷ path)

-- `path.name`
abbrev name : List String → String
name [] = ""
name (p ∷ []) = p
name (p ∷ q ∷ path) = name (q ∷ path)

-- `path.parts[:-1]`
abbrev parents : List String → List String
parents [] = []
parents (p ∷ []) = []
parents (p ∷ q ∷ path) = p ∷ parents (q ∷ path)

-- The text from the last dot on, if there is one.
unfoldable from_last_dot : String → Option String
from_last_dot String.[] = none
from_last_dot (String.◌∷◌ c s) = elim (from_last_dot s) [
  | some t ↦ some t
  | none ↦ if code c == b'.' then some (String.◌∷◌ c s) else none
]

abbrev not_dot_alone : Option String → String
not_dot_alone none = ""
not_dot_alone (some s) = if str_eq s "." then "" else s

-- `path.suffix`: neither a dot at the beginning of the name nor one at its end begins a suffix.
unfoldable suffix : String → String
unfolding from_last_dot
suffix String.[] = ""
suffix (String.◌∷◌ c s) = not_dot_alone (from_last_dot s)

abbrev pub ignored_directories : List String
ignored_directories =
    ".git" ∷ ".gradle" ∷ ".hg" ∷ ".idea" ∷ ".svn" ∷ "build" ∷ "node_modules" ∷ "out" ∷ "target" ∷ []

abbrev sensitive_file_names : List String
sensitive_file_names = "credentials" ∷ "id_rsa" ∷ "keystore" ∷ "secrets" ∷ []

abbrev sensitive_suffixes : List String
sensitive_suffixes = ".cer" ∷ ".crt" ∷ ".key" ∷ ".p12" ∷ ".pem" ∷ ".pfx" ∷ ".jks" ∷ []

-- `_should_ignore`
unfoldable pub should_ignore : (String → String) → List String → Bool
unfolding suffix
should_ignore lower path =
    let file = lower (name path) in
    let ending = lower (suffix (name path)) in
    any (λ part. mem (lower part) ignored_directories) (parents path)
    || (starts_with file ".env" || mem file sensitive_file_names || mem ending sensitive_suffixes)
    || not (str_eq ending ".java")

abbrev real_parts : List String → List String
real_parts [] = []
real_parts (part ∷ parts) =
    let rest = real_parts parts in if is_empty part || str_eq part "." then rest else part ∷ rest

-- The parts of a `PurePosixPath`: neither empty ones nor dots.
unfoldable pub posix_parts : String → List String
unfolding split_char
posix_parts s = real_parts (split_char "/" s)

-- `_validate_zip_entry_path`
unfoldable pub validate_zip_entry_path : String → Reading (List String)
unfolding posix_parts
validate_zip_entry_path value = do
  let posix = replace_char "\\" "/" value
  fail_if (starts_with posix "/" || mem ".." (posix_parts posix))
      (source_error "SOURCE_ARCHIVE_INVALID" "源码压缩包包含非法路径")
  done (posix_parts posix)

-- What the loop over the files has gathered.
pub record Progress : Type 0 where
  pub files : List DiscoveredSourceFile
  pub ignored_file_count : ℕ
  pub total_bytes : ℕ
  pub processed_file_count : ℕ

abbrev pub no_progress : Progress
no_progress = record {
  files = [];
  ignored_file_count = 0;
  total_bytes = 0;
  processed_file_count = 0;
}

abbrev pub ignore_file : Progress → Progress
ignore_file p = record {
  files = p.files;
  ignored_file_count = p.ignored_file_count + 1;
  total_bytes = p.total_bytes;
  processed_file_count = p.processed_file_count;
}

-- `_validate_file_size`
unfoldable pub validate_file_size : ReadSettings → ℕ → Reading (Unit {0})
validate_file_size settings size =
    fail_if (ltb settings.max_source_file_bytes size)
      (source_error "SOURCE_FILE_TOO_LARGE" "源码文件超过大小限制")

-- `_validate_limits`
unfoldable pub validate_limits : ReadSettings → ℕ → ℕ → ℕ → Reading ℕ
validate_limits settings processed_file_count total_bytes file_size = do
  fail_if (leb settings.max_source_file_count processed_file_count)
      (source_error "SOURCE_FILE_COUNT_EXCEEDED" "源码文件数量超过限制")
  fail_if (ltb settings.max_source_total_bytes (total_bytes + file_size))
      (source_error "SOURCE_TOTAL_SIZE_EXCEEDED" "源码总大小超过限制")
  done (total_bytes + file_size)

abbrev pub or_raise : {A : Type 0} → ReadError → Option A → Reading A
or_raise e none = failed e
or_raise e (some a) = done a

abbrev pub read_failed : ReadError
read_failed = source_error "SOURCE_FILE_READ_FAILED" "源码文件读取失败"

abbrev pub not_allowed : String → ReadError
not_allowed message = source_error "SOURCE_PATH_NOT_ALLOWED" message

module _ {B : Type 0} (fs : FileSystem B) (settings : ReadSettings) where
  -- `_read_java_file`
  unfoldable pub read_java_file : B → ℕ → Reading (Option String)
  read_java_file content size =
      if fs.byte_count content == size
      then done (fs.decode content)
      else failed (source_error "SOURCE_FILE_READ_FAILED" "源码文件读取不完整")

  -- The progress once a file is read; one that is no text is ignored.
  abbrev pub add_read : Progress → ℕ → List String → ℕ → B → Option String → Progress
  add_read p total path size content none = record {
    files = p.files;
    ignored_file_count = p.ignored_file_count + 1;
    total_bytes = total;
    processed_file_count = p.processed_file_count + 1;
  }
  add_read p total path size content (some text) = record {
    files =
        p.files
        ++ (record {
          relative_path = as_posix path;
          content = text;
          content_sha256 = fs.sha256 content;
          size_bytes = size;
        }
            ∷ []);
    ignored_file_count = p.ignored_file_count;
    total_bytes = total;
    processed_file_count = p.processed_file_count + 1;
  }

  -- The part that both loops have in common: the limits, the reading and the result.
  unfoldable pub read_file : List String → ℕ → Reading B → Progress → Reading Progress
  unfolding validate_file_size validate_limits read_java_file as_posix
  read_file path size read p = do
    validate_file_size settings size
    total ← validate_limits settings p.processed_file_count p.total_bytes size
    content ← read
    text ← read_java_file content size
    done (add_read p total path size content text)
