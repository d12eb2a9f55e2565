-- ===== src/SourceScans/Reader/Bounded.antt =====
-- Both sources keep to the limits of the settings and to acceptable paths.
use ai_test.Base.{
  ◌≤◌, ◌≡◌, refl, subst, String, Bool, true, not, ◌||◌, List, [], ◌∷◌, ◌++◌, length, is_some, All,
  arith, inl, inr, Bool-cases,
}
use ai_test.Base.Dict.{mem}
use ai_test.Base.Text.{starts_with, replace_char}
use ai_test.Base.Outcome.{
  done, ◌>>=◌, map_error, >>=-eq-done, fail_if-eq-done, done-injective, map_error-eq-done,
}
use ai_test.SourceScans.Reader.{
  SourceType, SourceArtifact, SourceDiscoveryResult, ReadSettings, Directory, directory,
  Directories, leaf, child, ZipEntry, FileSystem, should_ignore, relative_to, posix_parts,
  validate_zip_entry_path, Progress, no_progress, or_raise, read_failed, ignored_directories,
}
use ai_test.SourceScans.Reader.Discover.{
  result_of, validate_local_root, local_file, local_files, walk_directory, walk_directories,
  discover_local_java_files, validate_uploaded_archive, zip_file, zip_files, archive_error,
  discover_zip_java_files, discover_java_files,
}
use ai_test.SourceScans.Reader.Limits.{
  bytes_of, IsReadable, Fits, no_progress-Fits, ignore_file-Fits, read_file-Fits,
}

abbrev anywhere : List String → Bool
anywhere path = true

module _ {B : Type 0} (fs : FileSystem B) (settings : ReadSettings) where
  local_file-Fits :
      (root path : List String) (p q : Progress)
      → Fits fs.lower settings anywhere p
      → local_file fs settings root path p ≡ done q
      → Fits fs.lower settings anywhere q
  unfolding local_file
  local_file-Fits root path p q holds h = elim (Bool-cases (should_ignore fs.lower path)) [
    | inl k ↦
        subst (Fits fs.lower settings anywhere) (done-injective (rw k at h))
          (ignore_file-Fits fs settings anywhere p holds)
    | inr k ↦
        let (resolved, e, h1) =
          >>=-eq-done (or_raise read_failed (fs.resolve (root ++ path))) _ (rw k at h) in
        let (b, h2) = fail_if-eq-done (not (is_some (relative_to root resolved))) _ _ h1 in
        elim (Bool-cases (not (fs.is_file resolved))) [
          | inl f ↦
              subst (Fits fs.lower settings anywhere) (done-injective (rw f at h2))
                (ignore_file-Fits fs settings anywhere p holds)
          | inr f ↦
              let (size, z, h3) =
                >>=-eq-done (or_raise read_failed (fs.file_size resolved)) _ (rw f at h2) in
              read_file-Fits fs settings anywhere path size _ p q k refl holds h3
        ]
  ]

  local_files-Fits :
      (root here files : List String) (p q : Progress)
      → Fits fs.lower settings anywhere p
      → local_files fs settings root here files p ≡ done q
      → Fits fs.lower settings anywhere q
  unfolding local_files
  local_files-Fits root here [] p q holds h =
      subst (Fits fs.lower settings anywhere) (done-injective h) holds
  local_files-Fits root here (file ∷ files) p q holds h =
      let (p', e, h1) = >>=-eq-done (local_file fs settings root (here ++ (file ∷ [])) p) _ h in
      local_files-Fits root here files p' q (local_file-Fits root _ p p' holds e) h1

  mutual
    unfolding walk_directory

    walk_directory-Fits :
        (root here : List String) (d : Directory) (p q : Progress)
        → Fits fs.lower settings anywhere p
        → walk_directory fs settings root here d p ≡ done q
        → Fits fs.lower settings anywhere q
    walk_directory-Fits root here (directory files children) p q holds h =
        let (p', e, h1) = >>=-eq-done (local_files fs settings root here files p) _ h in
        walk_directories-Fits root here children p' q
          (local_files-Fits root here files p p' holds e) h1

    walk_directories-Fits :
        (root here : List String) (ds : Directories) (p q : Progress)
        → Fits fs.lower settings anywhere p
        → walk_directories fs settings root here ds p ≡ done q
        → Fits fs.lower settings anywhere q
    walk_directories-Fits root here leaf p q holds h =
        subst (Fits fs.lower settings anywhere) (done-injective h) holds
    walk_directories-Fits root here (child name below rest) p q holds h =
        elim (Bool-cases (mem (fs.lower name) ignored_directories)) [
          | inl k ↦ walk_directories-Fits root here rest p q holds (rw k at h)
          | inr k ↦
              let (p', e, h1) =
                >>=-eq-done (walk_directory fs settings root (here ++ (name ∷ [])) below p) _
                  (rw k at h) in
              walk_directories-Fits root here rest p' q
                (walk_directory-Fits root _ below p p' holds e) h1
        ]

-- No part of a path is `..`.
abbrev pub without_dots : List String → Bool
without_dots path = not (mem ".." path)

module _ {B : Type 0} (fs : FileSystem B) (settings : ReadSettings) where
  validate_zip_entry_path-without_dots :
      (value : String) (path : List String)
      → validate_zip_entry_path value ≡ done path
      → without_dots path ≡ true
  unfolding validate_zip_entry_path
  validate_zip_entry_path-without_dots value path h =
      let posix = replace_char "\\" "/" value in
      let (t, h1) =
        fail_if-eq-done (starts_with posix "/" || mem ".." (posix_parts posix)) _
          (done (posix_parts posix)) h in
      subst (λ path. without_dots path ≡ true) (done-injective h1) (ground (arith, t))

  zip_file-Fits :
      (entry : ZipEntry B) (p q : Progress)
      → Fits fs.lower settings without_dots p
      → zip_file fs settings entry p ≡ done q
      → Fits fs.lower settings without_dots q
  unfolding zip_file
  zip_file-Fits entry p q holds h = elim (Bool-cases entry.is_dir) [
    | inl d ↦ subst (Fits fs.lower settings without_dots) (done-injective (rw d at h)) holds
    | inr d ↦
        let (path, e, h1) = >>=-eq-done (validate_zip_entry_path entry.filename) _ (rw d at h) in
        elim (Bool-cases (should_ignore fs.lower path)) [
          | inl k ↦
              subst (Fits fs.lower settings without_dots) (done-injective (rw k at h1))
                (ignore_file-Fits fs settings without_dots p holds)
          | inr k ↦
              read_file-Fits fs settings without_dots path entry.file_size entry.read p q k
                (validate_zip_entry_path-without_dots entry.filename path e) holds (rw k at h1)
        ]
  ]

  zip_files-Fits :
      (entries : List (ZipEntry B)) (p q : Progress)
      → Fits fs.lower settings without_dots p
      → zip_files fs settings entries p ≡ done q
      → Fits fs.lower settings without_dots q
  unfolding zip_files
  zip_files-Fits [] p q holds h =
      subst (Fits fs.lower settings without_dots) (done-injective h) holds
  zip_files-Fits (entry ∷ entries) p q holds h =
      let (p', e, h1) = >>=-eq-done (zip_file fs settings entry p) _ h in
      zip_files-Fits entries p' q (zip_file-Fits entry p p' holds e) h1

-- The paths that a source may give.
abbrev pub accepts : SourceType → List String → Bool
accepts SourceType.local_path = anywhere
accepts SourceType.zip_upload = without_dots

pub record IsWithinLimits (lower : String → String) (settings : ReadSettings)
    (accepted : List String → Bool) (r : SourceDiscoveryResult) : Type 0 where
  pub total : r.total_bytes ≤ settings.max_source_total_bytes
  pub bytes : bytes_of r.files ≤ r.total_bytes
  pub count : length r.files ≤ settings.max_source_file_count
  pub files : All (IsReadable lower settings accepted) r.files

module _ {B : Type 0} (fs : FileSystem B) (settings : ReadSettings) where
  result_of-IsWithinLimits :
      (accepted : List String → Bool) (p : Progress)
      → Fits fs.lower settings accepted p
      → IsWithinLimits fs.lower settings accepted (result_of p)
  result_of-IsWithinLimits accepted p h = record {
    total = h.total;
    bytes = h.bytes;
    count = omega (arith, h.count, h.processed);
    files = h.files;
  }

  discover-IsWithinLimits :
      (source_type : SourceType) (location : String) (r : SourceDiscoveryResult)
      → discover_java_files fs settings
          (record { source_type = source_type; storage_location = location })
        ≡ done r
      → IsWithinLimits fs.lower settings (accepts source_type) r
  unfolding discover_java_files discover_local_java_files discover_zip_java_files
  discover-IsWithinLimits SourceType.local_path location r h =
      let (root, e, h1) = >>=-eq-done (validate_local_root fs settings (fs.parts location)) _ h in
      let (p, e1, h2) =
        >>=-eq-done (walk_directory fs settings root [] (fs.tree root) no_progress) _ h1 in
      subst (IsWithinLimits fs.lower settings anywhere) (done-injective h2) (
        result_of-IsWithinLimits anywhere p (
          walk_directory-Fits fs settings root [] _ no_progress p
            (no_progress-Fits fs settings anywhere) e1))
  discover-IsWithinLimits SourceType.zip_upload location r h =
      let (archive, e, h1) =
        >>=-eq-done (validate_uploaded_archive fs settings (fs.parts location)) _ h in
      let (p, e1, h2) =
        >>=-eq-done
          (map_error (archive_error fs settings)
            (fs.infolist archive >>= λ entries. zip_files fs settings entries no_progress))
          _ h1 in
      let (entries, e2, h3) =
        >>=-eq-done (fs.infolist archive) _ (map_error-eq-done (archive_error fs settings) _ e1) in
      subst (IsWithinLimits fs.lower settings without_dots) (done-injective h2) (
        result_of-IsWithinLimits without_dots p (
          zip_files-Fits fs settings entries no_progress p
            (no_progress-Fits fs settings without_dots) h3))

  -- Whatever the directory or the archive holds, what is read has at most the allowed number of files
  -- and bytes in total, each file at most the allowed size, a path that is not to be ignored, and, from
  -- an archive, one without `..`.
  pub discover_java_files-IsWithinLimits :
      (artifact : SourceArtifact) (r : SourceDiscoveryResult)
      → discover_java_files fs settings artifact ≡ done r
      → IsWithinLimits fs.lower settings (accepts artifact.source_type) r
  discover_java_files-IsWithinLimits artifact r h =
      discover-IsWithinLimits artifact.source_type artifact.storage_location r h
