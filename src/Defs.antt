-- ===== src/Defs.antt =====
-- The structures of _eSSP/inc/SSPComs.h and the constants of _eSSP/inc/ssp_defines.h.
use e_ssp.Base.{ℕ, Array, Bool}

abbrev pub ssp_stx : ℕ
ssp_stx = 0x7F

abbrev pub ssp_stex : ℕ
ssp_stex = 0x7E

abbrev pub max_ssp_port : ℕ
max_ssp_port = 200

-- Commands.
abbrev pub ssp_cmd_sync : ℕ
ssp_cmd_sync = 0x11

-- `SSP_RESPONSE_ENUM`: the code casts any byte to it.
abbrev pub ssp_response_ok : ℕ
ssp_response_ok = 0xF0

abbrev pub ssp_response_timeout : ℕ
ssp_response_timeout = 0xFF

-- `PORT_STATUS`.
pub data PortStatus : Type 0 where
  port_closed port_open port_error ssp_reply_ok ssp_packet_error ssp_cmd_timeout : PortStatus

-- `SSP_FULL_KEY`.
pub record FullKey : Type 0 where
  pub fixed_key : ℕ
  pub encrypt_key : ℕ

-- `SSP_COMMAND`. `port_number`, `baud_rate` and `ignore_error` are read nowhere.
pub record Command : Type 0 where
  pub key : FullKey
  pub timeout : ℕ
  pub ssp_address : ℕ
  pub retry_level : ℕ
  pub encryption_status : Bool
  pub command_data_length : ℕ
  pub command_data : Array
  pub response_status : PortStatus
  pub response_data_length : ℕ
  pub response_data : Array

-- `SSP_TX_RX_PACKET`.
pub record Packet : Type 0 where
  pub tx_data : Array
  pub tx_ptr : ℕ
  pub rx_data : Array
  pub rx_ptr : ℕ
  pub tx_buffer_length : ℕ
  pub rx_buffer_length : ℕ
  pub ssp_address : ℕ
  pub new_response : Bool
  pub check_stuff : Bool
