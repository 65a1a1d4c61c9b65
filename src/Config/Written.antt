-- ===== src/Config/Written.antt =====
-- What `parse_args` of src/config.c makes of a line by the way it is written.
use cik.Prelude.{ℕ, ◌≡◌, ◌⊎◌, inl, inr, refl, ◌∙◌, ap, true, false, [], ◌∷◌, ◌++◌, ◌==◌, arith}
use cik.Bytes.{Bytes}
use cik.Config.Text.{isspace, c_string, skip_spaces, trim_end}
use cik.Config.Line.{
  assignment, parse_value, missing_assignment, parse_name, parse_assignment, parse_line, parse_text,
  scan_name,
}

-- Bytes without a NUL, bytes that are all spaces, and the bytes of a name.
abbrev pub IsText : Bytes → Type 0
IsText [] = Unit
IsText (c ∷ cs) = ((c == 0) ≡ false) × IsText cs

abbrev pub IsBlank : Bytes → Type 0
IsBlank [] = Unit
IsBlank (c ∷ cs) = (isspace c ≡ true) × IsBlank cs

abbrev pub IsName : Bytes → Type 0
IsName [] = Unit
IsName (c ∷ cs) = (isspace c ≡ false) × ((c == b'=') ≡ false) × ((c == 0) ≡ false) × IsName cs

append-IsText : (cs ds : Bytes) → IsText cs → IsText ds → IsText (cs ++ ds)
append-IsText [] ds h k = k
append-IsText (c ∷ cs) ds (p, h) k = (p, append-IsText cs ds h k)

blank-IsText : (cs : Bytes) → IsBlank cs → IsText cs
blank-IsText [] h = tt
blank-IsText (c ∷ cs) (p, h) = (ground arith, blank-IsText cs h)

name-IsText : (cs : Bytes) → IsName cs → IsText cs
name-IsText [] h = tt
name-IsText (c ∷ cs) (p, q, r, h) = (r, name-IsText cs h)

c_string-IsText : (cs : Bytes) → IsText cs → c_string cs ≡ cs
unfolding c_string
c_string-IsText [] h = refl
c_string-IsText (c ∷ cs) (p, h) = ground (arith, c_string-IsText cs h)

skip_spaces-append : (cs ds : Bytes) → IsBlank cs → skip_spaces (cs ++ ds) ≡ skip_spaces ds
unfolding skip_spaces
skip_spaces-append [] ds h = refl
skip_spaces-append (c ∷ cs) ds (p, h) = ground (arith, skip_spaces-append cs ds h)

trim_end-IsBlank : (cs : Bytes) → IsBlank cs → trim_end cs ≡ []
unfolding trim_end
trim_end-IsBlank [] h = refl
trim_end-IsBlank (c ∷ cs) (p, h) = ground (arith, trim_end-IsBlank cs h)

trim_end-append : (cs ds : Bytes) → IsBlank ds → trim_end (cs ++ ds) ≡ trim_end cs
unfolding trim_end
trim_end-append [] ds h = trim_end-IsBlank ds h
trim_end-append (c ∷ cs) ds h = rw (trim_end-append cs ds h, trim_end) refl

-- The scan stops at the byte behind the name.
scan_name-append :
    (name : Bytes) (d : ℕ) (rest : Bytes)
    → IsName name
    → (isspace d ≡ true) ⊎ ((d == b'=') ≡ true)
    → scan_name (name ++ (d ∷ rest)) ≡ (name, d ∷ rest)
unfolding scan_name
scan_name-append [] d rest h stop = ground (arith, stop)
scan_name-append (c ∷ cs) d rest (p, q, r, h) stop =
    ground (arith, p, q, scan_name-append cs d rest h stop)

-- Up to the byte behind the name, which is passed by unseen.
parse_text-name :
    (before : Bytes) (c : ℕ) (cs : Bytes) (d : ℕ) (rest : Bytes)
    → IsBlank before
    → IsName (c ∷ cs)
    → (c == b'#') ≡ false
    → (isspace d ≡ true) ⊎ ((d == b'=') ≡ true)
    → parse_text (skip_spaces (before ++ ((c ∷ cs) ++ (d ∷ rest))))
      ≡ parse_assignment (c ∷ cs) (skip_spaces rest)
unfolding parse_text parse_name skip_spaces
parse_text-name before c cs d rest blank name hash stop =
    let scanned = scan_name-append (c ∷ cs) d rest name stop in
    rw (skip_spaces-append before ((c ∷ cs) ++ (d ∷ rest)) blank)
      (ground (arith, name.0, hash, scanned))

skip_to :
    (cs : Bytes) (c : ℕ) (rest : Bytes)
    → IsBlank cs
    → isspace c ≡ false
    → skip_spaces (cs ++ (c ∷ rest)) ≡ c ∷ rest
unfolding skip_spaces
skip_to cs c rest h p = skip_spaces-append cs (c ∷ rest) h ∙ ground (arith, p)

-- A line `name = value`, with any spaces before, behind and around the two and at least one space
-- before the `=`, is the assignment of that value to that name. The name is not empty, has no
-- space, `=` or NUL in it and does not start with `#`; the value has no NUL and no space at its
-- ends.
pub parse_line-written :
    (before : Bytes) (c : ℕ) (cs : Bytes) (space : ℕ) (gap after : Bytes) (v : ℕ) (vs end : Bytes)
    → IsBlank before
    → IsName (c ∷ cs)
    → (c == b'#') ≡ false
    → IsBlank (space ∷ gap)
    → IsBlank after
    → IsText (v ∷ vs)
    → isspace v ≡ false
    → trim_end (v ∷ vs) ≡ v ∷ vs
    → IsBlank end
    → parse_line (before ++ ((c ∷ cs) ++ (space ∷ (gap ++ (b'=' ∷ (after ++ ((v ∷ vs) ++ end)))))))
      ≡ assignment (c ∷ cs) (v ∷ vs)
unfolding parse_line parse_assignment parse_value
parse_line-written before c cs space gap after v vs end blank name hash gaps blank' text start stop
      blank'' =
    let value_end = (v ∷ vs) ++ end in
    let behind = after ++ value_end in
    let line = before ++ ((c ∷ cs) ++ (space ∷ (gap ++ (b'=' ∷ behind)))) in
    let behind-IsText =
      append-IsText after value_end (blank-IsText after blank')
        (append-IsText (v ∷ vs) end text (blank-IsText end blank'')) in
    let line-IsText : IsText line = append-IsText before _ (blank-IsText before blank) (
      append-IsText (c ∷ cs) _ (name-IsText (c ∷ cs) name) (
        append-IsText (space ∷ gap) (b'=' ∷ behind) (blank-IsText (space ∷ gap) gaps)
          (refl, behind-IsText))) in
    ap (λ t. parse_text (skip_spaces t)) (c_string-IsText line line-IsText)
    ∙ parse_text-name before c cs space (gap ++ (b'=' ∷ behind)) blank name hash (inl (gaps.0))
    ∙ ap (parse_assignment (c ∷ cs)) (skip_to gap b'=' behind (gaps.1) refl)
    ∙ ap (parse_value (c ∷ cs)) (skip_to after v (vs ++ end) blank' start)
    ∙ ap (assignment (c ∷ cs)) (trim_end-append (v ∷ vs) end blank'' ∙ stop)

-- The same line with no space before the `=` is reported as a missing assignment, whatever stands
-- behind it, if that has no NUL and its first byte other than a space is not another `=`.
pub parse_line-tight :
    (before : Bytes) (c : ℕ) (cs after : Bytes) (v : ℕ) (rest : Bytes)
    → IsBlank before
    → IsName (c ∷ cs)
    → (c == b'#') ≡ false
    → IsBlank after
    → IsText (v ∷ rest)
    → isspace v ≡ false
    → (v == b'=') ≡ false
    → parse_line (before ++ ((c ∷ cs) ++ (b'=' ∷ (after ++ (v ∷ rest))))) ≡ missing_assignment
unfolding parse_line parse_assignment
parse_line-tight before c cs after v rest blank name hash blank' text start no_sign =
    let line = before ++ ((c ∷ cs) ++ (b'=' ∷ (after ++ (v ∷ rest)))) in
    let line-IsText : IsText line = append-IsText before _ (blank-IsText before blank) (
      append-IsText (c ∷ cs) _ (name-IsText (c ∷ cs) name)
        (refl, append-IsText after (v ∷ rest) (blank-IsText after blank') text)) in
    ap (λ t. parse_text (skip_spaces t)) (c_string-IsText line line-IsText)
    ∙ parse_text-name before c cs b'=' (after ++ (v ∷ rest)) blank name hash (inr refl)
    ∙ ap (parse_assignment (c ∷ cs)) (skip_to after v rest blank' start)
    ∙ rw (no_sign, parse_assignment) refl
