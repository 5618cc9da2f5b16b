-- ===== src/Web/Csv/RoundTrip.antt =====
-- What csv.ts writes reads back as the texts of its cells.
use mathlib.Core.List.{append_assoc, append-nil}
use clickup_sync.Common.{
  ℕ, ◌≡◌, refl, sym, ap, ◌∙◌, false, some, List, [], ◌∷◌, ◌++◌, map, ◌==◌, arith, Bool-cases, inl,
  inr,
}
use clickup_sync.Web.Csv.{
  Text, quote, comma, carriage_return, line_feed, Cell, absent, date, value, CsvColumn, has_special,
  double_quotes, quoted_if_special, join, csv_escape, csv_line, header_cells, row_cells, to_csv,
}
use clickup_sync.Web.Csv.Reader.{
  start, unquoted, quoted, closed, Records, push, end_field, end_record, read,
}

-- A text in front of the field that comes next.
abbrev prepend : Text → Records → Records
prepend [] rest = rest
prepend (c ∷ s) rest = push c (prepend s rest)

-- What a field can end before: the end, a comma, a line's end.
abbrev EndsField : Text → Type 0
EndsField rest = (read unquoted rest ≡ read start rest) × (read closed rest ≡ read start rest)

read-plain :
    (s rest : Text)
    → has_special s ≡ false
    → read unquoted (s ++ rest) ≡ prepend s (read unquoted rest)
unfolding read
read-plain [] rest h = refl
read-plain (c ∷ s) rest h = ground (arith, read-plain s rest, h)

read-double_quotes :
    (s rest : Text) → read quoted (double_quotes s ++ (quote ∷ rest)) ≡ prepend s (read closed rest)
unfolding read
read-double_quotes [] rest = refl
read-double_quotes (c ∷ s) rest = elim (Bool-cases (c == quote)) [
  | inl q ↦
      let same : c ≡ quote = ground (arith, q) in
      rw q (rw same (ap (push quote) (read-double_quotes s rest)))
  | inr other ↦ rw (other, other) (ap (push c) (read-double_quotes s rest))
]

read-start_plain :
    (c : ℕ) (s rest : Text)
    → has_special (c ∷ s) ≡ false
    → read start (c ∷ (s ++ rest)) ≡ push c (read unquoted (s ++ rest))
unfolding read
read-start_plain c s rest h = ground (arith, h)

read-unquoted :
    (s rest : Text)
    → has_special s ≡ false
    → EndsField rest
    → read start (s ++ rest) ≡ prepend s (read start rest)
read-unquoted [] rest h ends = refl
read-unquoted (c ∷ s) rest h ends =
    let tail : has_special s ≡ false = ground (arith, h) in
    read-start_plain c s rest h ∙ ap (push c) (read-plain s rest tail ∙ ap (prepend s) ends.0)

read-quoted_if_special :
    (s rest : Text)
    → EndsField rest
    → read start (quoted_if_special s ++ rest) ≡ prepend s (read start rest)
unfolding read
read-quoted_if_special s rest ends = elim (Bool-cases (has_special s)) [
  | inr plain ↦ rw plain (read-unquoted s rest plain ends)
  | inl special ↦ rw special (
      ap (read quoted) (append_assoc (double_quotes s) (quote ∷ []) rest)
      ∙ read-double_quotes s rest
      ∙ ap (prepend s) ends.1)
]

-- The records of a text whose fields are put in front of what comes next.
abbrev fields : List Text → Records → Records
fields [] rest = rest
fields (s ∷ []) rest = prepend s rest
fields (s ∷ (t ∷ more)) rest = prepend s (end_field (fields (t ∷ more) rest))

prepend-some :
    (s g : Text) (record_read : List Text) (records : List (List Text))
    → prepend s (some ((g ∷ record_read) ∷ records)) ≡ some (((s ++ g) ∷ record_read) ∷ records)
prepend-some [] g record_read records = refl
prepend-some (c ∷ s) g record_read records = ap (push c) (prepend-some s g record_read records)

prepend-field :
    (s : Text) (record_read : List Text) (records : List (List Text))
    → prepend s (some (([] ∷ record_read) ∷ records)) ≡ some ((s ∷ record_read) ∷ records)
prepend-field s record_read records =
    prepend-some s [] record_read records
    ∙ ap (λ f. some ((f ∷ record_read) ∷ records)) (append-nil s)

fields-some :
    (s : Text) (more : List Text) (records : List (List Text))
    → fields (s ∷ more) (some (([] ∷ []) ∷ records)) ≡ some ((s ∷ more) ∷ records)
fields-some s [] records = prepend-field s [] records
fields-some s (t ∷ more) records =
    ap (λ r. prepend s (end_field r)) (fields-some t more records)
    ∙ prepend-field s (t ∷ more) records

module _ (iso : ℕ → Text) where
  -- The text that stands in a cell.
  abbrev pub text_of : Cell → Text
  text_of absent = []
  text_of (date t) = iso t
  text_of (value s) = s

  abbrev pub texts : List Cell → List Text
  texts cells = map text_of cells

module _ (iso : ℕ → Text) (plain : (t : ℕ) → has_special (iso t) ≡ false) where
  read-csv_escape :
      (c : Cell) (rest : Text)
      → EndsField rest
      → read start (csv_escape iso c ++ rest) ≡ prepend (text_of iso c) (read start rest)
  read-csv_escape absent rest ends = refl
  read-csv_escape (date t) rest ends = read-unquoted (iso t) rest (plain t) ends
  read-csv_escape (value s) rest ends = read-quoted_if_special s rest ends

  read-csv_line :
      (c : Cell) (cells : List Cell) (rest : Text)
      → EndsField rest
      → read start (csv_line iso (c ∷ cells) ++ rest)
        ≡ fields (texts iso (c ∷ cells)) (read start rest)
  unfolding read
  read-csv_line c [] rest ends = read-csv_escape c rest ends
  read-csv_line c (d ∷ cells) rest ends =
      ap (read start) (append_assoc (csv_escape iso c) (comma ∷ csv_line iso (d ∷ cells)) rest)
      ∙ read-csv_escape c (comma ∷ (csv_line iso (d ∷ cells) ++ rest)) (refl, refl)
      ∙ ap (λ r. prepend (text_of iso c) (end_field r)) (read-csv_line d cells rest ends)

  module _ {Row : Type 0} (first : Row → Cell) (others : Row → List Cell) where
    abbrev line_of : Row → Text
    line_of row = csv_line iso (first row ∷ others row)

    read-lines :
        (c : Cell) (cells : List Cell) (rows : List Row)
        → read start
            (join (carriage_return ∷ line_feed ∷ []) (csv_line iso (c ∷ cells) ∷ map line_of rows))
          ≡ some (texts iso (c ∷ cells) ∷ map (λ row. texts iso (first row ∷ others row)) rows)
    unfolding read
    read-lines c cells [] =
        ap (read start) (sym (append-nil (csv_line iso (c ∷ cells))))
        ∙ read-csv_line c cells [] (refl, refl)
        ∙ fields-some (text_of iso c) (texts iso cells) []
    read-lines c cells (row ∷ rows) =
        read-csv_line c cells _ (refl, refl)
        ∙ ap (λ r. fields (texts iso (c ∷ cells)) (end_record r))
            (read-lines (first row) (others row) rows)
        ∙ fields-some (text_of iso c) (texts iso cells) _

  -- A file of one column at least reads back as the header and the rows, cell by cell, if no date
  -- prints with a quote, a comma or a line's end.
  pub read-to_csv :
      {Row : Type 0} (column : CsvColumn Row) (columns : List (CsvColumn Row)) (rows : List Row)
      → read start (to_csv iso rows (column ∷ columns))
        ≡ some (
            texts iso (header_cells (column ∷ columns))
            ∷ map (λ row. texts iso (row_cells (column ∷ columns) row)) rows)
  unfolding to_csv
  read-to_csv column columns rows =
      read-lines column.value_of (row_cells columns) (value column.header) (header_cells columns)
        rows
