-- ===== src/Variables.antt =====
-- src/lora_multihop/variables.py: the constants, those that nothing reads too. `MY_ADDRESS`, which the
-- program assigns when it starts, is a field of the node's state.
use lora_multihop.Prelude.{ℕ, List, [], ◌∷◌, Text, codes}

abbrev module_config : Text
module_config = codes "AT+CFG=433500000,20,9,7,1,1,0,0,0,0,3000,8,4"

abbrev module_config_distributed_nodes : Text
module_config_distributed_nodes = codes "AT+CFG=433500000,5,9,7,1,1,0,0,0,0,3000,8,4"

abbrev config_command_list : List Text
config_command_list =
    module_config ∷ codes "AT+ADDR=0137" ∷ codes "AT+DEST=FFFF" ∷ codes "AT+RX" ∷ []

abbrev save_command : Text
save_command = codes "AT+SAVE"

abbrev pub status_ok : Text
status_ok = codes "AT,OK"

-- `MY_ADDRESS` until the program assigns it
abbrev source_address : Text
source_address = codes "0137"

abbrev pub get_addr : Text
get_addr = codes "AT+ADDR?"

abbrev encoding : Text
encoding = codes "utf-8"

abbrev terminator : Text
terminator = codes "\r\n"

unfoldable pub available_nodes : List Text
available_nodes =
    codes "0131"
    ∷ codes "0132"
    ∷ codes "0133"
    ∷ codes "0134"
    ∷ codes "0135"
    ∷ codes "0136"
    ∷ codes "0137"
    ∷ codes "0138"
    ∷ codes "0139"
    ∷ codes "0140"
    ∷ codes "FFFF"
    ∷ codes "0200"
    ∷ codes "0201"
    ∷ codes "0202"
    ∷ []

-- Times are whole microseconds.
abbrev route_request_timeout : ℕ
route_request_timeout = 6000000

abbrev pub processed_route_request_timeout : ℕ
processed_route_request_timeout = 10000000

abbrev pub default_ttl : ℕ
default_ttl = 5

abbrev pub ttl_start_value : ℕ
ttl_start_value = 5

abbrev pub header_delimiter : ℕ
header_delimiter = b'|'

abbrev pub lora_module_delimiter : ℕ
lora_module_delimiter = b','

abbrev pub java_ipc_message_values_delimiter : ℕ
java_ipc_message_values_delimiter = b','

abbrev command_verification_timeout : ℕ
command_verification_timeout = 25000000

abbrev pub max_sleep_time : ℕ
max_sleep_time = 0
