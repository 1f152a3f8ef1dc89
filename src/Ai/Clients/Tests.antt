-- ===== src/Ai/Clients/Tests.antt =====
-- Examples of the theorems on the clients.
use xiaozhi_esp32_golang_ser.Config.Tests.{parse_two, config, config_passes}
use xiaozhi_esp32_golang_ser.Ai.Clients.Ready.{AreReady, validate-AreReady}

validate-AreReady_example : AreReady parse_two config
validate-AreReady_example = validate-AreReady parse_two config config_passes
