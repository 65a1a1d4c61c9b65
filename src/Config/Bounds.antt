-- ===== src/Config/Bounds.antt =====
-- What src/config.c lets into the settings.
use cik.Prelude.{
  ◌⊎◌, ◌+◌, ◌*◌, ◌/◌, ◌%◌, get_elem?, refl, ℕ, suc, ◌^◌, ◌≤◌, ◌<◌, ◌≡◌, inl, inr, subst, Bool, true,
  false, Option, none, some, List, [], ◌∷◌, length, length-take, ltb, if◌then◌else◌, arith,
  Bool-cases, Option-cases,
}
use cik.Bytes.{Bytes}
use cik.Config.Text.{file_lines, strtol}
use cik.Config.{parse_args, Outcome, parse_lines, parse_args, report}
use cik.Config.Line.{ignored, missing_assignment, empty_value, assignment, parse_line}
use cik.Config.Settings.{
  runtime_config, variable_of, assign, Variable, unknown, set_listen_address, set_listen_port,
  set_pid_filename, set_log_filename, set_persistence_filename, set_entry_stats_filename,
  set_tag_stats_filename, set_memory_stats_filename, set_client_stats_filename,
  set_worker_stats_filename, missing_assignment_on, empty_value_on, rejected, Parsed, first_address,
  parse_variable, parse_address, AddrInfo, RuntimeConfig, accepted, copy_filename, htons,
  parse_port,
}

-- A file name that fits its static buffer with the NUL.
abbrev pub FitsBuffer : Option Bytes → Type 0
FitsBuffer none = Unit
FitsBuffer (some name) = length name < 0x400

-- The port as it is set at the start, or a number from 0 to 0xFFFF that strtol reads from a value that
-- was given for it, with its two bytes swapped.
abbrev pub IsPort : (Bytes → Type 0) → ℕ → Type 0
IsPort Given listen_port =
    (listen_port ≡ runtime_config.listen_port)
    ⊎ ((value : Bytes) × (negative : Bool) × (port : ℕ) × Given value
        × (strtol value ≡ some (negative, port))
        × (port ≤ 0xFFFF)
        × (negative ≡ true → port ≡ 0)
        × (listen_port ≡ port % 2 ^ 8 * 2 ^ 8 + port / 2 ^ 8))

-- A port that is such a number, and file names that fit.
unfoldable pub IsBounded : (Bytes → Type 0) → RuntimeConfig → Type 0
IsBounded Given config =
    IsPort Given config.listen_port
    × (length config.pid_filename < 0x400)
    × (length config.log_filename < 0x400)
    × (length config.persistence_filename < 0x400)
    × FitsBuffer config.entry_stats_filename
    × FitsBuffer config.tag_stats_filename
    × FitsBuffer config.memory_stats_filename
    × FitsBuffer config.client_stats_filename
    × FitsBuffer config.worker_stats_filename

copied : (value : Bytes) → length (copy_filename value) < 0x400
unfolding copy_filename
copied value = omega (arith, length-take 0x3FF value)

-- A port that is accepted is a number that strtol found in the value, from 0 to 0xFFFF, and the
-- setting is that number with its two bytes swapped.
pub parse_port_in_range :
    (lineno : ℕ) (value : Bytes) (config config' : RuntimeConfig)
    → parse_port lineno value config ≡ accepted config'
    → (negative : Bool) × (port : ℕ) × (strtol value ≡ some (negative, port))
      × (port ≤ 0xFFFF)
      × (htons config'.listen_port ≡ port)
unfolding parse_port htons
parse_port_in_range lineno value config config' h = elim (Option-cases (strtol value)) [
  | inl e ↦ ground (arith, e)
  | inr ((negative, port), e) ↦
      elim (Bool-cases (if negative then ltb 0 port else ltb 0xFFFF port)) [
        | inl out ↦ ground (arith, e, out)
        | inr inside ↦
            let le : port ≤ 0xFFFF = ground (arith, inside) in
            let same : record config { listen_port = htons port } ≡ config' =
              ground (arith, e, inside) in
            (
              negative,
              port,
              e,
              le,
              subst (λ c. htons c.listen_port ≡ port) same (omega (arith, le)),
            )
      ]
]

-- A variable that is accepted leaves the settings so.
abbrev Allowed : (Bytes → Type 0) → Parsed → Type 0
Allowed Given (rejected message) = Unit
Allowed Given (accepted config) = IsBounded Given config

module _ (Given : Bytes → Type 0) where
  IsBounded-IsPort :
      (config : RuntimeConfig) → IsBounded Given config → IsPort Given config.listen_port
  unfolding IsBounded
  IsBounded-IsPort config b = b.0

  same_rest :
      (config : RuntimeConfig) (address port : ℕ)
      → IsPort Given port
      → IsBounded Given config
      → IsBounded Given (record config { listen_address = address; listen_port = port })
  unfolding IsBounded
  same_rest config address port p b = (p, b.1, b.2, b.3, b.4, b.5, b.6, b.7, b.8)

  parse_port-Allowed :
      (lineno : ℕ) (value : Bytes) (config : RuntimeConfig)
      → Given value
      → IsBounded Given config
      → Allowed Given (parse_port lineno value config)
  unfolding parse_port htons
  parse_port-Allowed lineno value config given b = elim (Option-cases (strtol value)) [
    | inl e ↦ rw (e, parse_port) tt
    | inr ((negative, port), e) ↦
        elim (Bool-cases (if negative then ltb 0 port else ltb 0xFFFF port)) [
          | inl out ↦ rw (e, parse_port) (rw out tt)
          | inr inside ↦
              let le : port ≤ 0xFFFF = ground (arith, inside) in
              let none_below : negative ≡ true → port ≡ 0 = λ n. ground (arith, inside, n) in
              rw (e, parse_port)
                (rw inside (
                  same_rest config config.listen_address (htons port)
                    (inr (value, negative, port, given, e, le, none_below, omega (arith, le))) b))
        ]
  ]

  runtime_config-IsBounded : IsBounded Given runtime_config
  unfolding IsBounded
  runtime_config-IsBounded = (inl refl, omega arith, omega arith, omega arith, tt, tt, tt, tt, tt)

module _ (getaddrinfo : Bytes → Option (List AddrInfo)) (Given : Bytes → Type 0) where
  parse_address-Allowed :
      (value : Bytes) (config : RuntimeConfig)
      → IsBounded Given config
      → Allowed Given (parse_address getaddrinfo value config)
  unfolding parse_address
  parse_address-Allowed value config b = elim (Option-cases (getaddrinfo value)) [
    | inl e ↦ rw (e, parse_address) tt
    | inr (infos, e) ↦ elim (Option-cases (first_address infos)) [
      | inl e' ↦ rw (e, parse_address) (rw e' tt)
      | inr (address, e') ↦
          rw (e, parse_address)
            (rw e' (
              same_rest Given config address config.listen_port (IsBounded-IsPort Given config b)
                b))
    ]
  ]

  assign-Allowed :
      (variable : Variable) (lineno : ℕ) (name value : Bytes) (config : RuntimeConfig)
      → (variable ≡ set_listen_port → Given value)
      → IsBounded Given config
      → Allowed Given (assign getaddrinfo variable lineno name value config)
  unfolding assign IsBounded
  assign-Allowed set_listen_address lineno name value config given b =
      parse_address-Allowed value config b
  assign-Allowed set_listen_port lineno name value config given b =
      parse_port-Allowed Given lineno value config (given refl) b
  assign-Allowed set_pid_filename lineno name value config given b =
      (b.0, copied value, b.2, b.3, b.4, b.5, b.6, b.7, b.8)
  assign-Allowed set_log_filename lineno name value config given b =
      (b.0, b.1, copied value, b.3, b.4, b.5, b.6, b.7, b.8)
  assign-Allowed set_persistence_filename lineno name value config given b =
      (b.0, b.1, b.2, copied value, b.4, b.5, b.6, b.7, b.8)
  assign-Allowed set_entry_stats_filename lineno name value config given b =
      (b.0, b.1, b.2, b.3, copied value, b.5, b.6, b.7, b.8)
  assign-Allowed set_tag_stats_filename lineno name value config given b =
      (b.0, b.1, b.2, b.3, b.4, copied value, b.6, b.7, b.8)
  assign-Allowed set_memory_stats_filename lineno name value config given b =
      (b.0, b.1, b.2, b.3, b.4, b.5, copied value, b.7, b.8)
  assign-Allowed set_client_stats_filename lineno name value config given b =
      (b.0, b.1, b.2, b.3, b.4, b.5, b.6, copied value, b.8)
  assign-Allowed set_worker_stats_filename lineno name value config given b =
      (b.0, b.1, b.2, b.3, b.4, b.5, b.6, b.7, copied value)
  assign-Allowed unknown lineno name value config given b = tt

  parse_lines-IsBounded :
      (lineno : ℕ) (lines : List Bytes) (config : RuntimeConfig)
      → ((k : ℕ) (line name value : Bytes)
          → get_elem? lines k ≡ some line
          → parse_line line ≡ assignment name value
          → variable_of name ≡ set_listen_port
          → Given value)
      → IsBounded Given config
      → IsBounded Given (parse_lines getaddrinfo lineno lines config).config
  unfolding parse_lines parse_variable
  parse_lines-IsBounded lineno [] config given b = b
  parse_lines-IsBounded lineno (line ∷ lines) config given b =
      let given' = λ (k : ℕ). given (suc k) in
      let next = parse_lines-IsBounded (suc lineno) lines config given' b in
      elim (parse_line line)
          as (λ r.
            (parse_line line ≡ r)
            → IsBounded Given
                (elim r as (λ x. Outcome) [
                  | ignored ↦ parse_lines getaddrinfo (suc lineno) lines config
                  | missing_assignment ↦
                      report (missing_assignment_on lineno)
                        (parse_lines getaddrinfo (suc lineno) lines config)
                  | empty_value ↦
                      report (empty_value_on lineno)
                        (parse_lines getaddrinfo (suc lineno) lines config)
                  | assignment name value ↦
                      elim (parse_variable getaddrinfo lineno name value config) as (λ x. Outcome) [
                        | rejected message ↦ record {
                          config = config;
                          is_null = true;
                          messages = message ∷ [];
                          is_closed = false;
                        }
                        | accepted config' ↦ parse_lines getaddrinfo (suc lineno) lines config'
                      ]
                ]).config) [
                  | ignored ↦ λ e. next
                  | missing_assignment ↦ λ e. next
                  | empty_value ↦ λ e. next
                  | assignment name value ↦ λ e.
                      let after : Parsed → Outcome = λ k. elim k as (λ x. Outcome) [
                        | rejected message ↦ record {
                          config = config;
                          is_null = true;
                          messages = message ∷ [];
                          is_closed = false;
                        }
                        | accepted config' ↦ parse_lines getaddrinfo (suc lineno) lines config'
                      ] in
                      let p = parse_variable getaddrinfo lineno name value config in
                      elim p as (λ k. Allowed Given k → IsBounded Given (after k).config) [
                        | rejected message ↦ λ a. b
                        | accepted config' ↦
                            λ a. parse_lines-IsBounded (suc lineno) lines config' given' a
                      ]
                        (assign-Allowed (variable_of name) lineno name value config
                          (given 0 line name value refl e) b)
                ]
        refl

-- The value is given for the port in a line of the file that the first argument names.
abbrev pub IsGiven : (Bytes → Option Bytes) → List Bytes → Bytes → Type 0
IsGiven fopen argv value =
    (program filename content line name : Bytes) × (others : List Bytes) × (k : ℕ) × (argv
      ≡ program ∷ filename ∷ others)
    × (fopen filename ≡ some content)
    × (get_elem? (file_lines content) k ≡ some line)
    × (parse_line line ≡ assignment name value)
    × (variable_of name ≡ set_listen_port)

-- Whatever the file says, and also where it ends the program, the port in the settings is as it was at
-- the start, or a number from 0 to 0xFFFF that a line of the file gives for it, with its two bytes
-- swapped; and every file name is shorter than its static buffer of 0x400 bytes.
pub parse_args-IsBounded :
    (getaddrinfo : Bytes → Option (List AddrInfo)) (fopen : Bytes → Option Bytes)
    (argv : List Bytes)
    → IsBounded (IsGiven fopen argv) (parse_args getaddrinfo fopen argv).config
unfolding parse_args
parse_args-IsBounded getaddrinfo fopen [] = runtime_config-IsBounded (IsGiven fopen [])
parse_args-IsBounded getaddrinfo fopen (program ∷ []) =
    runtime_config-IsBounded (IsGiven fopen (program ∷ []))
parse_args-IsBounded getaddrinfo fopen (program ∷ (filename ∷ others)) =
    let Given = IsGiven fopen (program ∷ (filename ∷ others)) in
    elim (Option-cases (fopen filename)) [
      | inl e ↦ rw (e, parse_args) (runtime_config-IsBounded Given)
      | inr (content, e) ↦
          rw (e, parse_args)
            (parse_lines-IsBounded getaddrinfo Given 1 (file_lines content) runtime_config
              (λ k line name value at parsed port.
                (program, filename, content, line, name, others, k, refl, e, at, parsed, port))
              (runtime_config-IsBounded Given))
    ]
