-- ===== src/Detection/Match.antt =====
-- plagiarism_core/models.py: the regions and matches that every stage of the detection passes on, and
-- sets of line numbers.
use rest_api_plagiarism.Prelude.{
  ℕ, zero, suc, ◌+◌, String, Bool, true, false, Option, List, ltb, leb, ◌==◌, if◌then◌else◌,
}

-- The values of the IntEnum are 0 to 4 in this order.
pub data PlagiarismType : Type 0 where
  no_match exact renamed reordered semantic : PlagiarismType

abbrev pub type_value : PlagiarismType → ℕ
type_value no_match = 0
type_value exact = 1
type_value renamed = 2
type_value reordered = 3
type_value semantic = 4

-- An IntEnum is compared by its value.
abbrev pub same_type : PlagiarismType → PlagiarismType → Bool
same_type p q = type_value p == type_value q

pub record SourceRegion : Type 0 where
  pub start_line : ℕ
  pub start_col : ℕ
  pub end_line : ℕ
  pub end_col : ℕ

-- A similarity is a quotient of two counts; the source rounds it to a float.
pub record Ratio : Type 0 where
  pub num : ℕ
  pub den : ℕ

abbrev pub whole : Ratio
whole = record { num = 1; den = 1 }

-- One entry of a "renames" list.
pub record Rename : Type 0 where
  pub original : String
  pub renamed_to : String
  pub line : ℕ

-- The values that the details dict of a match holds.
pub data Detail : Type 0 where
  renames : List Rename → Detail
  word : String → Detail
  flag : Bool → Detail

abbrev pub Details : Type 0
Details = List (String × Detail)

pub record Match : Type 0 where
  pub file1 : SourceRegion
  pub file2 : SourceRegion
  pub kgram_count : ℕ
  pub plagiarism_type : PlagiarismType
  pub similarity : Ratio
  pub details : Option Details
  pub description : Option String

-- A Python set of line numbers, by its membership test.
abbrev pub LineSet : Type 0
LineSet = ℕ → Bool

abbrev pub no_lines : LineSet
no_lines line = false

-- `line in range(start, start + length)`
abbrev pub in_range : ℕ → ℕ → ℕ → Bool
in_range start length line = if leb start line then ltb line (start + length) else false

-- `lines.update(range(start, start + length))`
abbrev pub add_range : ℕ → ℕ → LineSet → LineSet
add_range start length lines line = if in_range start length line then true else lines line

-- `set(range(start, start + length)) & lines` is not empty
unfoldable pub meets : ℕ → ℕ → LineSet → Bool
meets start zero lines = false
meets start (suc length) lines = if lines start then true else meets (start + 1) length lines
