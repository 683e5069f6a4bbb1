-- ===== src/Lines.antt =====
-- The lines of a text, as the editors of configuration files under linux/raofflineproxy take them apart
-- and put them together: `splitlines`, `split("\n")`, `"\n".join`, `endswith("\n")` and `rstrip("\n")`.
pub mod Laws
use raoffline_proxy.Prelude.{
  ℕ, Bool, true, false, ◌&&◌, ◌||◌, List, [], ◌∷◌, ◌++◌, Text, leb, ◌==◌, if◌then◌else◌,
}

-- What `splitlines` breaks at: \n, \v, \f, \r, \x1c to \x1e, \x85, and two separators of Unicode.
unfoldable pub is_break : ℕ → Bool
is_break c =
    (leb 10 c && leb c 13) || ((leb 28 c && leb c 30) || ((c == 133) || (leb 8232 c && leb c 8233)))

-- A character in front of the first line.
unfoldable pub cons_code : ℕ → List Text → List Text
cons_code c [] = (c ∷ []) ∷ []
cons_code c (l ∷ ls) = (c ∷ l) ∷ ls

-- After a \r, a \n belongs to the same break.
unfoldable pub lines_from : Bool → Text → List Text
unfolding is_break cons_code
lines_from after_cr [] = []
lines_from after_cr (c ∷ s) =
    let rest = lines_from (c == 13) s in
    if after_cr && (c == 10) then rest else if is_break c then [] ∷ rest else cons_code c rest

unfoldable pub splitlines : Text → List Text
unfolding lines_from
splitlines s = lines_from false s

-- `s.split("\n")`
unfoldable pub split_lines : Text → List Text
unfolding cons_code
split_lines [] = [] ∷ []
split_lines (c ∷ s) = let rest = split_lines s in if c == 10 then [] ∷ rest else cons_code c rest

-- `"\n".join(lines)`
unfoldable pub join_lines : List Text → Text
join_lines [] = []
join_lines (l ∷ []) = l
join_lines (l ∷ m ∷ ls) = l ++ (10 ∷ join_lines (m ∷ ls))

unfoldable pub ends_with_newline : Text → Bool
ends_with_newline [] = false
ends_with_newline (c ∷ []) = c == 10
ends_with_newline (c ∷ d ∷ s) = ends_with_newline (d ∷ s)

-- `s.rstrip("\n")`
unfoldable pub strip_newlines : Text → Text
strip_newlines [] = []
strip_newlines (c ∷ s) = elim (strip_newlines s) [
  | [] ↦ if c == 10 then [] else c ∷ []
  | d ∷ t ↦ c ∷ d ∷ t
]
