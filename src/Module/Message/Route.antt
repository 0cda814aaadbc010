-- ===== src/Module/Message/Route.antt =====
-- The routing types of de_databus/messages.hpp.
use droneengage_common.Common.{String}

abbrev pub intermodule : String
intermodule = "uv"

abbrev pub group : String
group = "g"

abbrev pub individual : String
individual = "i"

abbrev pub system : String
system = "s"
