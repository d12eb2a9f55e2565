-- ===== src/SourceScans/Reader/Discover.antt =====
-- `discover_java_files` of backend/app/modules/source_scans/reader.py with its two sources.
use ai_test.Base.{
  String, not, ◌||◌, Option, none, some, List, [], ◌∷◌, ◌++◌, any, if◌then◌else◌, is_some,
}
use ai_test.Base.Text.{is_empty, strip}
use ai_test.Base.Dict.{mem}
use ai_test.Base.Outcome.{done, ◌>>=◌, ◌>>◌, fail_if, map_error}
use ai_test.SourceScans.Reader.{
  SourceType, SourceArtifact, ReadError, source_error, bad_zip, os_error, Reading,
  SourceDiscoveryResult, ReadSettings, Directory, directory, Directories, leaf, child, ZipEntry,
  FileSystem, relative_to, should_ignore, validate_zip_entry_path, Progress, no_progress,
  ignore_file, read_file, or_raise, read_failed, not_allowed, ignored_directories,
}

abbrev pub result_of : Progress → SourceDiscoveryResult
result_of p = record {
  files = p.files;
  ignored_file_count = p.ignored_file_count;
  total_bytes = p.total_bytes;
}

module _ {B : Type 0} (fs : FileSystem B) (settings : ReadSettings) where
  -- The allowed roots, resolved; an item of spaces is left out.
  unfoldable allowed_roots : List String → Option (List (List String))
  allowed_roots [] = some []
  allowed_roots (item ∷ items) =
      let rest = allowed_roots items in
      if is_empty (strip item) then rest else elim (fs.resolve (fs.parts (strip item))) [
        | none ↦ none
        | some root ↦ elim rest [ none ↦ none | some roots ↦ some (root ∷ roots) ]
      ]

  -- `_validate_local_root`
  unfoldable pub validate_local_root : List String → Reading (List String)
  unfolding allowed_roots relative_to
  validate_local_root path = do
    root ← or_raise (not_allowed "源码目录不可访问") (fs.resolve path)
    roots ← or_raise (not_allowed "源码目录不可访问") (allowed_roots settings.source_root_allowlist)
    fail_if (not (fs.is_dir root) || not (any (λ r. is_some (relative_to r root)) roots))
        (not_allowed "源码目录不在允许范围内")
    done root

  -- A file of the directory, by its path from the root.
  unfoldable pub local_file : List String → List String → Progress → Reading Progress
  unfolding should_ignore relative_to read_file
  local_file root path p = if should_ignore fs.lower path then done (ignore_file p) else (do
    resolved ← or_raise read_failed (fs.resolve (root ++ path))
    fail_if (not (is_some (relative_to root resolved))) (not_allowed "源码文件不在登记目录内")
    if not (fs.is_file resolved) then done (ignore_file p) else (do
      size ← or_raise read_failed (fs.file_size resolved)
      read_file fs settings path size (or_raise read_failed (fs.read_bytes resolved)) p))

  -- The files of one directory.
  unfoldable pub local_files : List String → List String → List String → Progress → Reading Progress
  unfolding local_file
  local_files root here [] p = done p
  local_files root here (file ∷ files) p =
      local_file root (here ++ (file ∷ [])) p >>= local_files root here files

  unfoldable mutual
    -- `os.walk`, top down: the files of a directory, then the directories that are not ignored.
    pub walk_directory : List String → List String → Directory → Progress → Reading Progress
    walk_directory root here (directory files children) p =
        local_files root here files p >>= walk_directories root here children

    pub walk_directories : List String → List String → Directories → Progress → Reading Progress
    walk_directories root here leaf p = done p
    walk_directories root here (child name below rest) p =
        (if mem (fs.lower name) ignored_directories
          then done p
          else walk_directory root (here ++ (name ∷ [])) below p)
        >>= walk_directories root here rest

  -- `_discover_local_java_files`
  unfoldable pub discover_local_java_files : List String → Reading SourceDiscoveryResult
  unfolding validate_local_root walk_directory
  discover_local_java_files path = do
    root ← validate_local_root path
    p ← walk_directory root [] (fs.tree root) no_progress
    done (result_of p)

  -- `_validate_uploaded_archive`
  unfoldable pub validate_uploaded_archive : List String → Reading (List String)
  unfolding relative_to
  validate_uploaded_archive path = do
    archive ← or_raise (source_error "SOURCE_ARCHIVE_NOT_FOUND" "源码压缩包不可访问") (fs.resolve path)
    fail_if
        (not (fs.is_file archive)
          || not (
              is_some
                (relative_to (fs.resolve_lax (fs.parts settings.source_upload_root)) archive)))
        (not_allowed "源码压缩包不在允许范围内")
    done archive

  -- An entry of the archive.
  unfoldable pub zip_file : ZipEntry B → Progress → Reading Progress
  unfolding validate_zip_entry_path should_ignore read_file
  zip_file entry p = if entry.is_dir then done p else (do
    path ← validate_zip_entry_path entry.filename
    if should_ignore fs.lower path
        then done (ignore_file p)
        else read_file fs settings path entry.file_size entry.read p)

  unfoldable pub zip_files : List (ZipEntry B) → Progress → Reading Progress
  unfolding zip_file
  zip_files [] p = done p
  zip_files (entry ∷ entries) p = zip_file entry p >>= zip_files entries

  -- The `except` clauses around the archive.
  abbrev pub archive_error : ReadError → ReadError
  archive_error bad_zip = source_error "SOURCE_ARCHIVE_INVALID" "源码压缩包格式无效"
  archive_error os_error = source_error "SOURCE_ARCHIVE_NOT_FOUND" "源码压缩包不可访问"
  archive_error e = e

  -- `_discover_zip_java_files`
  unfoldable pub discover_zip_java_files : List String → Reading SourceDiscoveryResult
  unfolding validate_uploaded_archive zip_files
  discover_zip_java_files path = do
    archive ← validate_uploaded_archive path
    p ← map_error archive_error (fs.infolist archive >>= λ entries. zip_files entries no_progress)
    done (result_of p)

  -- `discover_java_files`
  unfoldable pub discover_java_files : SourceArtifact → Reading SourceDiscoveryResult
  unfolding discover_local_java_files discover_zip_java_files
  discover_java_files artifact = elim artifact.source_type [
    | SourceType.local_path ↦ discover_local_java_files (fs.parts artifact.storage_location)
    | SourceType.zip_upload ↦ discover_zip_java_files (fs.parts artifact.storage_location)
  ]
