-- ===== src/SourceScans/Reader/Limits.antt =====
-- What a reader has read: the limits of the settings, and the paths.
use ai_test.Base.{
  ℕ, suc, ◌+◌, ◌≤◌, ◌≡◌, refl, sym, subst, String, Bool, true, false, Option, none, some, List, [],
  ◌∷◌, ◌++◌, length, length-append, ltb, leb, All, All-append, arith,
}
use ai_test.Base.Outcome.{done, >>=-eq-done, fail_if-eq-done, done-injective}
use ai_test.SourceScans.Reader.{
  Reading, DiscoveredSourceFile, ReadSettings, FileSystem, as_posix, should_ignore, Progress,
  no_progress, ignore_file, validate_file_size, validate_limits, read_java_file, add_read,
  read_file,
}

abbrev pub bytes_of : List DiscoveredSourceFile → ℕ
bytes_of [] = 0
bytes_of (f ∷ files) = f.size_bytes + bytes_of files

bytes_of-append :
    (fs gs : List DiscoveredSourceFile) → bytes_of (fs ++ gs) ≡ bytes_of fs + bytes_of gs
bytes_of-append [] gs = omega arith
bytes_of-append (f ∷ fs) gs = omega (arith, bytes_of-append fs gs)

-- A file of at most the allowed size, below an accepted path that is not to be ignored.
pub record IsReadable (lower : String → String) (settings : ReadSettings)
    (accepted : List String → Bool) (file : DiscoveredSourceFile) : Type 0 where
  pub size : file.size_bytes ≤ settings.max_source_file_bytes
  pub path : List String
  pub relative : file.relative_path ≡ as_posix path
  pub kept : should_ignore lower path ≡ false
  pub accepts : accepted path ≡ true

pub record Fits (lower : String → String) (settings : ReadSettings) (accepted : List String → Bool)
    (p : Progress) : Type 0 where
  pub total : p.total_bytes ≤ settings.max_source_total_bytes
  pub bytes : bytes_of p.files ≤ p.total_bytes
  pub processed : p.processed_file_count ≤ settings.max_source_file_count
  pub count : length p.files ≤ p.processed_file_count
  pub files : All (IsReadable lower settings accepted) p.files

module _ {B : Type 0} (fs : FileSystem B) (settings : ReadSettings)
    (accepted : List String → Bool) where
  abbrev Holds : Progress → Type 0
  Holds = Fits fs.lower settings accepted

  pub no_progress-Fits : Holds no_progress
  no_progress-Fits = record {
    total = omega arith;
    bytes = omega arith;
    processed = omega arith;
    count = omega arith;
    files = tt;
  }

  pub ignore_file-Fits : (p : Progress) → Holds p → Holds (ignore_file p)
  ignore_file-Fits p h = record {
    total = h.total;
    bytes = h.bytes;
    processed = h.processed;
    count = h.count;
    files = h.files;
  }

  add_read-Fits :
      (p : Progress) (total : ℕ) (path : List String) (size : ℕ) (content : B)
      (text : Option String)
      → Holds p
      → should_ignore fs.lower path ≡ false
      → accepted path ≡ true
      → size ≤ settings.max_source_file_bytes
      → suc p.processed_file_count ≤ settings.max_source_file_count
      → total ≤ settings.max_source_total_bytes
      → total ≡ p.total_bytes + size
      → Holds (add_read fs settings p total path size content text)
  add_read-Fits p total path size content none h k a s c t e = record {
    total = t;
    bytes = omega (arith, h.bytes, e);
    processed = omega (arith, c);
    count = omega (arith, h.count);
    files = h.files;
  }
  add_read-Fits p total path size content (some text) h k a s c t e = record {
    total = t;
    bytes = omega (arith, h.bytes, e, bytes_of-append p.files _);
    processed = omega (arith, c);
    count = omega (arith, h.count, length-append p.files _);
    files =
        All-append _ p.files _ h.files
          (record { size = s; path = path; relative = refl; kept = k; accepts = a }, tt);
  }

  pub read_file-Fits :
      (path : List String) (size : ℕ) (read : Reading B) (p q : Progress)
      → should_ignore fs.lower path ≡ false
      → accepted path ≡ true
      → Holds p
      → read_file fs settings path size read p ≡ done q
      → Holds q
  unfolding read_file validate_file_size validate_limits
  read_file-Fits path size read p q k a holds h =
      let (s, h1) = fail_if-eq-done (ltb settings.max_source_file_bytes size) _ _ h in
      let (total, v, h2) =
        >>=-eq-done (validate_limits settings p.processed_file_count p.total_bytes size) _ h1 in
      let (c, v1) =
        fail_if-eq-done (leb settings.max_source_file_count p.processed_file_count) _ _ v in
      let (t, v2) =
        fail_if-eq-done (ltb settings.max_source_total_bytes (p.total_bytes + size)) _
          (done (p.total_bytes + size)) v1 in
      let e = done-injective v2 in
      let (content, r, h3) = >>=-eq-done read _ h2 in
      let (text, d, h4) = >>=-eq-done (read_java_file fs settings content size) _ h3 in
      subst Holds (done-injective h4) (
        add_read-Fits p total path size content text holds k a (ground (arith, s))
          (ground (arith, c)) (ground (arith, t, e)) (sym e))
