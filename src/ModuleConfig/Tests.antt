-- ===== src/ModuleConfig/Tests.antt =====
-- A modem that answers the configuration.
use lora_multihop.Prelude.{
  true, codes, List, [], ◌∷◌, queue_empty, attribute_error, ◌≡◌, refl, if◌then◌else◌,
}
use lora_multihop.SerialConnection.Answer.{Line}
use lora_multihop.SerialConnection.{Connection, connected, is_empty}
use lora_multihop.SerialConnection.Threads.{IsStuck}
use lora_multihop.SerialConnection.Device.{raises, waits}
use lora_multihop.ModuleConfig.{prepare, get_current_address}
use lora_multihop.ModuleConfig.Startup.{prepare-raises, get_current_address-fails, dead}
use lora_multihop.SerialConnection.Heard.{heard}

abbrev modem : List Line
modem =
    codes "AT,OK\r\n"
    ∷ codes "AT,OK\r\n"
    ∷ codes "AT,SENDING\r\n"
    ∷ codes "AT,SENDED\r\n"
    ∷ codes "AT,OK\r\n"
    ∷ []

prepare-raises_example : (prepare true (connected modem)).0 ≡ raises queue_empty
prepare-raises_example = prepare-raises true modem

-- nothing is received, a message of another node waits, and the reading thread is behind its condition
abbrev watching : Connection
watching = record (connected []) { port = codes "LR,0136,10,|0|" ∷ [] }

get_current_address-fails_example :
    ((get_current_address true watching).0 ≡ (
      if is_empty (heard true (dead watching)).response_q then waits else raises attribute_error))
    × IsStuck (get_current_address true watching).1
get_current_address-fails_example = get_current_address-fails true watching refl refl
