-- ===== src/IntegrationTest/Tests.antt =====
-- An environment without a port for the sockets.
use lora_multihop.Prelude.{
  codes, text_eq, if◌then◌else◌, false, none, some, [], ◌∷◌, pos, ok, ◌≡◌, refl,
}
use lora_multihop.Python.Number.{int, signed, magnitude, strip, strip_start, strip_end, is_space}
use lora_multihop.Python.Find.{lower}
use lora_multihop.IntegrationTest.{
  Environment, int_of, server_flag, network, network_started, sockets, sockets_started, ◌>>=◌, read,
  did, main,
}

abbrev without_sockets : Environment
without_sockets name =
    if text_eq name (codes "MODULE_COMMUNICATION_PORT")
    then some (codes "7000")
    else if text_eq name (codes "IS_SERVER")
    then some (codes "True")
    else none

abbrev complete : Environment
complete name =
    if text_eq name (codes "IS_SERVER") then some (codes "false") else some (codes "6000")

starts : main complete [] ≡ (
  ok tt,
  network (some (codes "6000")) (pos 6000) (some (codes "6000"))
      ∷ network_started false
      ∷ sockets (pos 6000) (pos 6000) (some (codes "6000"))
      ∷ sockets_started
      ∷ [],
)
unfolding main ◌>>=◌ read did int_of server_flag lower text_eq int signed magnitude strip
    strip_start strip_end is_space
starts = refl
