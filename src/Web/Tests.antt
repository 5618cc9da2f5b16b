-- ===== src/Web/Tests.antt =====
-- A file of two columns with a comma, a quote and a date.
use clickup_sync.Common.{ℕ, ◌≡◌, refl, some, [], ◌∷◌, map}
use clickup_sync.Web.Csv.{Text, date, value, CsvColumn, header_cells, row_cells, to_csv}
use clickup_sync.Web.Csv.Reader.{read, start}
use clickup_sync.Web.Csv.RoundTrip.{texts, read-to_csv}

-- In place of toISOString.
abbrev iso : ℕ → Text
iso t = 49 ∷ 57 ∷ []

-- `a,"b`
abbrev name : Text
name = 97 ∷ 44 ∷ 34 ∷ 98 ∷ []

abbrev names : CsvColumn ℕ
names = record { header = 110 ∷ []; value_of = λ row. value name }

abbrev dates : CsvColumn ℕ
dates = record { header = 44 ∷ []; value_of = date }

to_csv_run :
    to_csv iso (5 ∷ []) (names ∷ dates ∷ [])
    ≡ 110 ∷ 44 ∷ 34 ∷ 44 ∷ 34 ∷ 13 ∷ 10 ∷ 34 ∷ 97 ∷ 44 ∷ 34 ∷ 34 ∷ 98 ∷ 34 ∷ 44 ∷ 49 ∷ 57 ∷ []
unfolding to_csv
to_csv_run = refl

read-to_csv_example :
    read start (to_csv iso (5 ∷ []) (names ∷ dates ∷ []))
    ≡ some (
        texts iso (header_cells (names ∷ dates ∷ []))
        ∷ map (λ row. texts iso (row_cells (names ∷ dates ∷ []) row)) (5 ∷ []))
read-to_csv_example = read-to_csv iso (λ t. refl) names (dates ∷ []) (5 ∷ [])
