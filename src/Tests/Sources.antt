-- ===== src/Tests/Sources.antt =====
-- An archive of one source file, and its chunks.
use ai_test.Base.{ℕ, String, true, false, none, some, List, [], ◌∷◌, refl, All, suc, arith}
use ai_test.Base.Text
use ai_test.Base.Outcome.{done}
use ai_test.Json.{end}
use ai_test.SourceScans.Models.{SourceFile, CodeSymbol, SymbolType}
use ai_test.SourceScans.Reader.{
  SourceType, SourceArtifact, SourceDiscoveryResult, ReadSettings, directory, leaf, ZipEntry,
  FileSystem,
}
use ai_test.SourceScans.Reader.Discover.{discover_java_files}
use ai_test.SourceScans.Reader.Bounded.{IsWithinLimits, accepts, discover_java_files-IsWithinLimits}
use ai_test.Knowledge.Chunker.{annotation_end, build_knowledge_chunks}
use ai_test.Knowledge.Chunker.Annotations.{Ends, open_parentheses, annotation_end_lem}
use ai_test.Knowledge.Chunker.Rows.{IsStorable, build_knowledge_chunks-IsStorable}
use ai_test.Tests.{same_text}

-- Three bytes, which stand for the text of a class.
abbrev class_bytes : List ℕ
class_bytes = 1 ∷ 2 ∷ 3 ∷ []

abbrev class_text : String
class_text = "class A {\n}"

abbrev count : List ℕ → ℕ
count [] = 0
count (b ∷ bs) = suc (count bs)

abbrev java_entry : String → ZipEntry (List ℕ)
java_entry name = record { filename = name; is_dir = false; file_size = 3; read = done class_bytes }

abbrev pub file_system : FileSystem (List ℕ)
file_system = record {
  resolve = λ p. some p;
  resolve_lax = λ p. p;
  parts = λ s. s ∷ [];
  is_dir = λ p. true;
  is_file = λ p. true;
  file_size = λ p. some 3;
  read_bytes = λ p. some class_bytes;
  tree = λ p. directory ("A.java" ∷ []) leaf;
  infolist = λ p. done (java_entry "src/A.java" ∷ java_entry "notes.txt" ∷ []);
  byte_count = count;
  decode = λ b. some class_text;
  sha256 = λ b. "digest";
  lower = same_text;
}

abbrev pub read_settings : ReadSettings
read_settings = record {
  source_root_allowlist = "/src" ∷ [];
  source_upload_root = "archive.zip";
  max_source_file_count = 2;
  max_source_file_bytes = 10;
  max_source_total_bytes = 10;
}

abbrev pub archive : SourceArtifact
archive = record { source_type = SourceType.zip_upload; storage_location = "archive.zip" }

abbrev discovered : SourceDiscoveryResult
discovered = record {
  files =
      record {
        relative_path = "src/A.java";
        content = class_text;
        content_sha256 = "digest";
        size_bytes = 3;
      }
      ∷ [];
  ignored_file_count = 1;
  total_bytes = 3;
}

discover_java_files-IsWithinLimits_example :
    IsWithinLimits same_text read_settings (accepts SourceType.zip_upload) discovered
unfolding discover_java_files Text.starts_with Text.replace_char
discover_java_files-IsWithinLimits_example =
    discover_java_files-IsWithinLimits file_system read_settings archive discovered refl

annotation_end_lem_example : Ends open_parentheses "(a(\")\"))b" 1 (some 8)
unfolding annotation_end
annotation_end_lem_example = annotation_end_lem "a(\")\"))b"

abbrev source_file : SourceFile
source_file = record {
  id = 1;
  relative_path = "A.java";
  content = "class A {\n@Select (\"x\")\n}";
  content_sha256 = "";
  size_bytes = 25;
}

abbrev class_symbol : CodeSymbol ⊥
class_symbol = record {
  id = 7;
  source_file_id = 1;
  parent_symbol_id = none;
  symbol_type = SymbolType.class;
  name = "A";
  qualified_name = "A";
  signature = none;
  start_line = 1;
  end_line = 3;
  annotations = [];
  metadata = end;
}

build_knowledge_chunks-IsStorable_example :
    All
      (IsStorable (source_file ∷ []) same_text)
      (build_knowledge_chunks same_text 1 (source_file ∷ []) (class_symbol ∷ []))
build_knowledge_chunks-IsStorable_example =
    build_knowledge_chunks-IsStorable same_text 1 (source_file ∷ []) (class_symbol ∷ [])
      ((omega arith, omega arith), tt)
