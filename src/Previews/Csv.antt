-- ===== src/Previews/Csv.antt =====
-- detectCSVDelimiter of backend/internal/http/files.go.
use personal_space.Prelude.{
  ℕ, suc, List, [], ◌∷◌, ltb, ◌==◌, if◌then◌else◌, take, Text, ◌≤◌, ◌≡◌, ◌⊎◌, arith,
}

-- Up to the first line feed.
unfoldable pub first_line : Text → Text
first_line [] = []
first_line (c ∷ s) = let rest = first_line s in if c == 10 then [] else c ∷ rest

-- strings.Count of one character
unfoldable pub count : ℕ → Text → ℕ
count d [] = 0
count d (c ∷ s) = let rest = count d s in if c == d then suc rest else rest

-- The loop over the candidates: a later one is taken where it is more frequent. The source starts
-- from a count of -1, so that the first candidate is always taken.
unfoldable pub best_of : Text → ℕ → List ℕ → ℕ
best_of line best [] = best
best_of line best (c ∷ cs) =
    best_of line (if ltb (count best line) (count c line) then c else best) cs

abbrev pub other_delimiters : List ℕ
other_delimiters = b';' ∷ 9 ∷ b'|' ∷ []

unfoldable pub detect_csv_delimiter : Text → ℕ
detect_csv_delimiter content = best_of (first_line (take 4096 content)) b',' other_delimiters

-- The delimiter is one of the four candidates, and none of them is more frequent on the first line
-- of the first 4096 bytes.
pub detect_csv_delimiter-best :
    (content : Text)
    → ((detect_csv_delimiter content ≡ b',')
        ⊎ (detect_csv_delimiter content ≡ b';')
        ⊎ (detect_csv_delimiter content ≡ 9)
        ⊎ (detect_csv_delimiter content ≡ b'|'))
      × (count b',' (first_line (take 4096 content))
          ≤ count (detect_csv_delimiter content) (first_line (take 4096 content)))
      × (count b';' (first_line (take 4096 content))
          ≤ count (detect_csv_delimiter content) (first_line (take 4096 content)))
      × (count 9 (first_line (take 4096 content))
          ≤ count (detect_csv_delimiter content) (first_line (take 4096 content)))
      × (count b'|' (first_line (take 4096 content))
          ≤ count (detect_csv_delimiter content) (first_line (take 4096 content)))
unfolding detect_csv_delimiter best_of
detect_csv_delimiter-best content = ground arith
