-- ===== src/Mirror/Publication/Destination.antt =====
-- The publisher serves one channel.
use study_os_agent_gateway.Common.{string_eq, bool_eq, nat_eq, option_eq, list_eq}
use study_os_agent_gateway.Mirror.Record.{item_kind_eq, item_state_eq, Mirror}
