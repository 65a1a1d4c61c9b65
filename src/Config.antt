-- ===== src/Config.antt =====
-- The configuration of src/config.c: `parse_args`.
pub mod Text
pub mod Line
pub mod Written
pub mod Bounds
pub mod Settings
use cik.Prelude.{
  ℕ, zero, suc, ◌+◌, ◌-◌, ◌*◌, ◌/◌, ◌%◌, ◌^◌, ◌≤◌, ◌<◌, min, ◌≡◌, ◌≢◌, ◌↔◌, ◌⊎◌, inl, inr, refl,
  sym, ◌∙◌, ap, subst, Bool, true, false, Option, none, some, List, [], ◌∷◌, ◌++◌, append-nil,
  append_assoc, length, length-set, length-append, length-take, get_elem?, get_elem?-set_self,
  get_elem?-set_ne, lt_of_get_elem?, set, take, drop, take-append, drop-append, replicate, ltb, leb,
  ◌==◌, ==_iff, if◌then◌else◌, arith, Bool-cases, Option-cases,
}
use cik.Bytes.{Bytes}
use Text.{file_lines}
use Line.{LineResult, ignored, missing_assignment, empty_value, assignment, parse_line}
use Settings.{
  RuntimeConfig, runtime_config, Message, could_not_open, missing_assignment_on, empty_value_on,
  AddrInfo, Parsed, rejected, accepted, parse_variable,
}

-- The static settings, whether NULL is returned for them, what was printed, and whether no file is
-- left open.
pub record Outcome : Type 0 where
  pub config : RuntimeConfig
  pub is_null : Bool
  pub messages : List Message
  pub is_closed : Bool

abbrev pub report : Message → Outcome → Outcome
report message o = record o { messages = message ∷ o.messages }

module _ (getaddrinfo : Bytes → Option (List AddrInfo)) where
  -- `while ((line = fgets (…)))`, behind it fclose. Only a variable that is rejected ends it early.
  unfoldable pub parse_lines : ℕ → List Bytes → RuntimeConfig → Outcome
  unfolding parse_line parse_variable
  parse_lines lineno [] config = record {
    config = config;
    is_null = false;
    messages = [];
    is_closed = true;
  }
  parse_lines lineno (line ∷ lines) config = elim (parse_line line) [
    | ignored ↦ parse_lines (suc lineno) lines config
    | missing_assignment ↦
        report (missing_assignment_on lineno) (parse_lines (suc lineno) lines config)
    | empty_value ↦ report (empty_value_on lineno) (parse_lines (suc lineno) lines config)
    | assignment name value ↦ elim (parse_variable getaddrinfo lineno name value config) [
      | rejected message ↦ record {
        config = config;
        is_null = true;
        messages = message ∷ [];
        is_closed = false;
      }
      | accepted config' ↦ parse_lines (suc lineno) lines config'
    ]
  ]

  -- `fopen` gives the bytes of a file, or fails; `argv` is not empty.
  unfoldable pub parse_args : (Bytes → Option Bytes) → List Bytes → Outcome
  unfolding parse_lines file_lines
  parse_args fopen (program ∷ (filename ∷ others)) = elim (fopen filename) [
    | none ↦ record {
      config = runtime_config;
      is_null = true;
      messages = could_not_open filename ∷ [];
      is_closed = true;
    }
    | some content ↦ parse_lines 1 (file_lines content) runtime_config
  ]
  parse_args fopen _ = record {
    config = runtime_config;
    is_null = false;
    messages = [];
    is_closed = true;
  }
