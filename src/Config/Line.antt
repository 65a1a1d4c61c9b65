-- ===== src/Config/Line.antt =====
-- How `parse_args` of src/config.c takes a line apart.
use cik.Prelude.{[], ◌∷◌, ◌==◌, if◌then◌else◌}
use cik.Bytes.{Bytes}
use cik.Config.Text.{isspace, c_string, skip_spaces, trim_end}

-- A line that says nothing, the two that are reported and skipped, and `name = value`.
pub data LineResult : Type 0 where
  ignored missing_assignment empty_value : LineResult
  assignment : Bytes → Bytes → LineResult

-- `while (!isspace (*c) && !(*c == '=') && !(*c == '\0')) ++c`: the name, and where `c` stops.
unfoldable pub scan_name : Bytes → Bytes × Bytes
scan_name [] = ([], [])
scan_name (c ∷ cs) =
    let rest = scan_name cs in
    if isspace c then ([], c ∷ cs) else if c == b'=' then ([], c ∷ cs) else (c ∷ rest.0, rest.1)

-- From `while (isspace (*c))` behind the assignment on.
unfoldable pub parse_value : Bytes → Bytes → LineResult
parse_value name [] = empty_value
parse_value name (c ∷ cs) = assignment name (trim_end (c ∷ cs))

-- The test for the assignment.
unfoldable pub parse_assignment : Bytes → Bytes → LineResult
unfolding parse_value
parse_assignment name [] = missing_assignment
parse_assignment name (c ∷ cs) =
    if c == b'=' then parse_value name (skip_spaces cs) else missing_assignment

-- From the scan of the name on. The byte that ends the name is overwritten and passed by.
unfoldable pub parse_name : Bytes × Bytes → LineResult
unfolding parse_assignment
parse_name (name, []) = ignored
parse_name (name, delimiter ∷ rest) = parse_assignment name (skip_spaces rest)

unfoldable pub parse_text : Bytes → LineResult
unfolding parse_name scan_name
parse_text [] = parse_name (scan_name [])
parse_text (c ∷ cs) = if c == b'#' then ignored else parse_name (scan_name (c ∷ cs))

-- The body of the loop up to `parse_variable`, on the buffer that fgets has filled.
unfoldable pub parse_line : Bytes → LineResult
unfolding parse_text
parse_line line = parse_text (skip_spaces (c_string line))
