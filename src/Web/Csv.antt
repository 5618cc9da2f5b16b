-- ===== src/Web/Csv.antt =====
-- csv.ts. A text is the list of its code units.
pub mod Reader
pub mod RoundTrip
use clickup_sync.Common.{ℕ, Bool, true, false, ◌||◌, List, [], ◌∷◌, ◌++◌, map, ◌==◌, if◌then◌else◌}

abbrev pub Text : Type 0
Text = List ℕ

abbrev pub quote : ℕ
quote = 34

abbrev pub comma : ℕ
comma = 44

abbrev pub carriage_return : ℕ
carriage_return = 13

abbrev pub line_feed : ℕ
line_feed = 10

-- A value of a row: null or undefined, a date by its instant, or another by its String(v).
pub data Cell : Type 0 where
  absent : Cell
  date : ℕ → Cell
  value : Text → Cell

-- `value` of a column, a field name or a function, is the function.
pub record CsvColumn (Row : Type 0) : Type 0 where
  pub header : Text
  pub value_of : Row → Cell

-- `/[",\r\n]/`
abbrev pub is_special : ℕ → Bool
is_special c = (c == quote) || (c == comma) || (c == carriage_return) || (c == line_feed)

abbrev pub has_special : Text → Bool
has_special [] = false
has_special (c ∷ s) = is_special c || has_special s

-- `s.replace(/"/g, '""')`
abbrev pub double_quotes : Text → Text
double_quotes [] = []
double_quotes (c ∷ s) =
    let rest = double_quotes s in if c == quote then quote ∷ quote ∷ rest else c ∷ rest

abbrev pub quoted_if_special : Text → Text
quoted_if_special s = if has_special s then quote ∷ (double_quotes s ++ (quote ∷ [])) else s

abbrev pub join : Text → List Text → Text
join separator [] = []
join separator (x ∷ []) = x
join separator (x ∷ (y ∷ rest)) = x ++ (separator ++ join separator (y ∷ rest))

module _ {Row : Type 0} where
  abbrev pub header_cells : List (CsvColumn Row) → List Cell
  header_cells columns = map (λ c. value c.header) columns

  abbrev pub row_cells : List (CsvColumn Row) → Row → List Cell
  row_cells columns row = map (λ c. c.value_of row) columns

-- `iso` is toISOString.
module _ (iso : ℕ → Text) where
  abbrev pub csv_escape : Cell → Text
  csv_escape absent = []
  csv_escape (date t) = iso t
  csv_escape (value s) = quoted_if_special s

  abbrev pub csv_line : List Cell → Text
  csv_line cells = join (comma ∷ []) (map csv_escape cells)

  unfoldable pub to_csv : {Row : Type 0} → List Row → List (CsvColumn Row) → Text
  to_csv rows columns =
      join (carriage_return ∷ line_feed ∷ [])
        (csv_line (header_cells columns) ∷ map (λ row. csv_line (row_cells columns row)) rows)
