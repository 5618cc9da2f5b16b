-- ===== src/Web/Csv/Reader.antt =====
-- A reader of RFC 4180, one code unit at a time, to read what csv.ts writes.
use clickup_sync.Common.{ℕ, Option, none, some, List, [], ◌∷◌, ◌==◌, if◌then◌else◌}
use clickup_sync.Web.Csv.{Text, quote, comma, carriage_return, line_feed}

-- Before a field, in one without quotes, in one with quotes, behind a quote in such a field, and
-- behind a carriage return.
pub data Position : Type 0 where
  start unquoted quoted closed after_return : Position

-- What is read from a unit on: the rest of the field, of its record, and of the records.
abbrev pub Records : Type 0
Records = Option (List (List Text))

abbrev pub push : ℕ → Records → Records
push c none = none
push c (some []) = none
push c (some ([] ∷ records)) = none
push c (some ((f ∷ fields) ∷ records)) = some (((c ∷ f) ∷ fields) ∷ records)

abbrev pub end_field : Records → Records
end_field none = none
end_field (some []) = none
end_field (some (record_read ∷ records)) = some (([] ∷ record_read) ∷ records)

abbrev pub end_record : Records → Records
end_record none = none
end_record (some records) = some (([] ∷ []) ∷ records)

abbrev pub next : Position → ℕ → Position
next start c =
    if c == quote
    then quoted
    else if c == comma
    then start
    else if c == carriage_return
    then after_return
    else unquoted
next unquoted c =
    if c == comma then start else if c == carriage_return then after_return else unquoted
next quoted c = if c == quote then closed else quoted
next closed c = if c == quote then quoted else if c == comma then start else after_return
next after_return c = start

abbrev pub act : Position → ℕ → Records → Records
act start c rest =
    if c == quote
    then rest
    else if c == comma
    then end_field rest
    else if c == carriage_return
    then rest
    else if c == line_feed
    then none
    else push c rest
act unquoted c rest =
    if c == quote
    then none
    else if c == comma
    then end_field rest
    else if c == carriage_return
    then rest
    else if c == line_feed
    then none
    else push c rest
act quoted c rest = if c == quote then rest else push c rest
act closed c rest =
    if c == quote
    then push c rest
    else if c == comma
    then end_field rest
    else if c == carriage_return
    then rest
    else none
act after_return c rest = if c == line_feed then end_record rest else none

abbrev at_end : Position → Records
at_end start = some (([] ∷ []) ∷ [])
at_end unquoted = some (([] ∷ []) ∷ [])
at_end quoted = none
at_end closed = some (([] ∷ []) ∷ [])
at_end after_return = none

unfoldable pub read : Position → Text → Records
read p [] = at_end p
read p (c ∷ s) = act p c (read (next p c) s)
