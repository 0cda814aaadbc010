-- ===== src/Module/Message/Kind.antt =====
-- The message types of de_databus/messages.hpp that the modelled code names.
use droneengage_common.Common.{ℕ}

abbrev pub id : ℕ
id = 1004

abbrev pub remote_execute : ℕ
remote_execute = 1005

abbrev pub error : ℕ
error = 1008

abbrev pub sync_event_fire : ℕ
sync_event_fire = 1061

abbrev pub config_action : ℕ
config_action = 6525

abbrev pub config_status : ℕ
config_status = 6526

abbrev pub module_health_status : ℕ
module_health_status = 6535

abbrev pub module_capabilities : ℕ
module_capabilities = 6542

abbrev pub capability_invoke : ℕ
capability_invoke = 6543

abbrev pub capability_result : ℕ
capability_result = 6544

abbrev pub module_state : ℕ
module_state = 6545

abbrev pub module_cpu_status : ℕ
module_cpu_status = 6547

abbrev pub module_id : ℕ
module_id = 9100

abbrev pub module_remote_execute : ℕ
module_remote_execute = 9101
