-- ===== src/Config/Settings.antt =====
-- The settings of src/types.h, their defaults, and `parse_variable` of src/config.c.
use cik.Prelude.{
  ℕ, ◌+◌, ◌*◌, ◌/◌, ◌%◌, ◌^◌, Bool, false, Option, none, some, List, [], ◌∷◌, take, ltb, ◌==◌,
  if◌then◌else◌,
}
use cik.Bytes.{Bytes}
use cik.Config.Text.{codes, str_eq, strtol}

-- `RuntimeConfig`: an address and a port in network byte order. A file name is the string in its
-- static buffer; one that may be NULL is `none` until the pointer is set.
pub record RuntimeConfig : Type 0 where
  pub listen_address : ℕ
  pub listen_port : ℕ
  pub pid_filename : Bytes
  pub log_filename : Bytes
  pub persistence_filename : Bytes
  pub entry_stats_filename : Option Bytes
  pub tag_stats_filename : Option Bytes
  pub memory_stats_filename : Option Bytes
  pub client_stats_filename : Option Bytes
  pub worker_stats_filename : Option Bytes

-- INADDR_ANY is 0; the port is 20274, big endian.
abbrev pub runtime_config : RuntimeConfig
runtime_config = record {
  listen_address = 0;
  listen_port = 0x32 * 2 ^ 8 + 0x4F;
  pid_filename = codes "/tmp/cik-server.pid";
  log_filename = codes "/tmp/cik-server.log";
  persistence_filename = codes "/tmp/cik-server.persistent-data";
  entry_stats_filename = none;
  tag_stats_filename = none;
  memory_stats_filename = none;
  client_stats_filename = none;
  worker_stats_filename = none;
}

-- What err_print is called for.
pub data Message : Type 0 where
  could_not_open : Bytes → Message
  missing_assignment_on empty_value_on could_not_parse_port : ℕ → Message
  failed_to_parse_address failed_to_lookup : Bytes → Message
  port_out_of_range : Bool × ℕ → ℕ → Message
  unknown_variable : Bytes → ℕ → Message

-- `struct addrinfo`, with the `s_addr` that lies in `ai_addr`.
pub record AddrInfo : Type 0 where
  pub ai_family : ℕ
  pub ai_socktype : ℕ
  pub ai_protocol : ℕ
  pub ai_addrlen : ℕ
  pub s_addr : ℕ

-- AF_INET, SOCK_STREAM, IPPROTO_TCP and sizeof (sockaddr_in_t).
is_tcp_address : AddrInfo → Bool
is_tcp_address info =
    if info.ai_family == 2
    then (if info.ai_socktype == 1
        then (if info.ai_protocol == 6 then info.ai_addrlen == 16 else false)
        else false)
    else false

-- `for (rp = result; rp != NULL; rp = rp->ai_next)`.
unfoldable pub first_address : List AddrInfo → Option ℕ
unfolding is_tcp_address
first_address [] = none
first_address (info ∷ infos) =
    let rest = first_address infos in if is_tcp_address info then some info.s_addr else rest

-- `strncpy` into a static buffer of 0x400 bytes, whose last byte is then set to NUL.
unfoldable pub copy_filename : Bytes → Bytes
copy_filename value = take 0x3FF value

-- `htons` on a little-endian machine.
unfoldable pub htons : ℕ → ℕ
htons port = port % 2 ^ 8 * 2 ^ 8 + port / 2 ^ 8 % 2 ^ 8

-- The result of a variable: `false` with the message, or the settings.
pub data Parsed : Type 0 where
  rejected : Message → Parsed
  accepted : RuntimeConfig → Parsed

-- The branch of the port: `port < 0 || port > 0xFFFF`.
unfoldable pub parse_port : ℕ → Bytes → RuntimeConfig → Parsed
unfolding htons
parse_port lineno value config = elim (strtol value) [
  | none ↦ rejected (could_not_parse_port lineno)
  | some (negative, port) ↦
      if (if negative then ltb 0 port else ltb 0xFFFF port)
      then rejected (port_out_of_range (negative, port) lineno)
      else accepted (record config { listen_port = htons port })
]

-- The variables by their names, and any other name.
pub data Variable : Type 0 where
  set_listen_address set_listen_port set_pid_filename set_log_filename set_persistence_filename :
      Variable
  set_entry_stats_filename set_tag_stats_filename set_memory_stats_filename
        set_client_stats_filename set_worker_stats_filename :
      Variable
  unknown : Variable

-- The chain of `0 == strcmp (name, …)`.
unfoldable pub variable_of : Bytes → Variable
unfolding str_eq
variable_of name =
    if str_eq name (codes "listen_address")
    then set_listen_address
    else if str_eq name (codes "listen_port")
    then set_listen_port
    else if str_eq name (codes "pid_filename")
    then set_pid_filename
    else if str_eq name (codes "log_filename")
    then set_log_filename
    else if str_eq name (codes "persistence_filename")
    then set_persistence_filename
    else if str_eq name (codes "entry_stats_filename")
    then set_entry_stats_filename
    else if str_eq name (codes "tag_stats_filename")
    then set_tag_stats_filename
    else if str_eq name (codes "memory_stats_filename")
    then set_memory_stats_filename
    else if str_eq name (codes "client_stats_filename")
    then set_client_stats_filename
    else if str_eq name (codes "worker_stats_filename")
    then set_worker_stats_filename
    else unknown

-- The lookup of a name is the system's: `none` is an error code, else the list of results.
module _ (getaddrinfo : Bytes → Option (List AddrInfo)) where
  unfoldable pub parse_address : Bytes → RuntimeConfig → Parsed
  unfolding first_address
  parse_address value config = elim (getaddrinfo value) [
    | none ↦ rejected (failed_to_parse_address value)
    | some infos ↦ elim (first_address infos) [
      | none ↦ rejected (failed_to_lookup value)
      | some address ↦ accepted (record config { listen_address = address })
    ]
  ]

  -- The branches of the chain.
  unfoldable pub assign : Variable → ℕ → Bytes → Bytes → RuntimeConfig → Parsed
  unfolding parse_address parse_port copy_filename
  assign set_listen_address lineno name value config = parse_address value config
  assign set_listen_port lineno name value config = parse_port lineno value config
  assign set_pid_filename lineno name value config =
      accepted (record config { pid_filename = copy_filename value })
  assign set_log_filename lineno name value config =
      accepted (record config { log_filename = copy_filename value })
  assign set_persistence_filename lineno name value config =
      accepted (record config { persistence_filename = copy_filename value })
  assign set_entry_stats_filename lineno name value config =
      accepted (record config { entry_stats_filename = some (copy_filename value) })
  assign set_tag_stats_filename lineno name value config =
      accepted (record config { tag_stats_filename = some (copy_filename value) })
  assign set_memory_stats_filename lineno name value config =
      accepted (record config { memory_stats_filename = some (copy_filename value) })
  assign set_client_stats_filename lineno name value config =
      accepted (record config { client_stats_filename = some (copy_filename value) })
  assign set_worker_stats_filename lineno name value config =
      accepted (record config { worker_stats_filename = some (copy_filename value) })
  assign unknown lineno name value config = rejected (unknown_variable name lineno)

  unfoldable pub parse_variable : ℕ → Bytes → Bytes → RuntimeConfig → Parsed
  unfolding variable_of assign
  parse_variable lineno name value config = assign (variable_of name) lineno name value config
