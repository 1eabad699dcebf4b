-- ===== src/ModuleConfig.antt =====
-- src/lora_multihop/module_config.py: the commands that configure the modem, and, from src/main.py, the
-- calls before the application is started.
mod Tests
pub mod Startup
use lora_multihop.Prelude.{
  Text, codes, text_eq, if◌then◌else◌, Bool, true, false, ◌∷◌, [], ◌++◌, Option, none, some,
  value_error, at, raised, not,
}
use lora_multihop.Variables.{status_ok, get_addr, lora_module_delimiter}
use lora_multihop.Python.Split.{split}
use lora_multihop.Python.Number.{strip}
use lora_multihop.SerialConnection.{of_str, of_bytes}
use lora_multihop.SerialConnection.Answer.{str_to_bytes}
use lora_multihop.SerialConnection.Device.{
  Device, give, attempt, execute_command, get_response, decoded, ◌>>=◌,
}

-- `None` counts as false.
abbrev pub holds : Option Bool → Bool
holds none = false
holds (some b) = b

unfoldable pub config_module : Text → Device Bool
config_module configuration = do
  done ← execute_command (of_str configuration) (status_ok ∷ [])
  if holds done
      then (do
        _ ← execute_command (of_str (codes "AT+SEND=1")) (status_ok ∷ [])
        _ ← execute_command (of_str (codes "a")) (codes "AT,SENDING" ∷ codes "AT,SENDED" ∷ [])
        give true)
      else give false

unfoldable pub set_address : Text → Device Bool
set_address address = do
  cmd ← attempt (str_to_bytes (codes "AT+ADDR=" ++ address))
  done ← execute_command (of_bytes cmd) (status_ok ∷ [])
  give (holds done)

-- The answer `AT,<address>,OK`, cut at its commas.
unfoldable pub address_in : Text → Device Text
address_in addr = do
  first ← attempt (at (split lora_module_delimiter addr) 0)
  if not (text_eq (strip first) (codes "AT")) then attempt (raised value_error) else (do
    third ← attempt (at (split lora_module_delimiter addr) 2)
    if not (text_eq (strip third) (codes "OK"))
        then attempt (raised value_error)
        else attempt (at (split lora_module_delimiter addr) 1))

-- `behind` is that of the call of `response_q.get`.
unfoldable pub get_current_address : Bool → Device Text
get_current_address behind = do
  cmd ← attempt (str_to_bytes get_addr)
  _ ← execute_command (of_bytes cmd) []
  response ← get_response behind
  addr ← attempt (decoded (of_str response))
  address_in addr

-- `main`: the configuration, the address of the modem, and the address that `IPC` asks for.
unfoldable pub prepare : Bool → Device Text
prepare behind = do
  _ ← config_module (codes "AT+CFG=433500000,20,9,7,1,1,0,0,0,0,3000,8,4")
  _ ← set_address (codes "0200")
  get_current_address behind
