-- ===== src/NameServer/Queries.antt =====
-- The answers of the name server, src/cps_ns.cpp, to queries.
use opx_cps.Common.{List, [], ◌∷◌, Option, none, some}
use opx_cps.Key.{Key}
use opx_cps.NameServer.{ClientReg, Reply, outside, results, return_code}

-- The answer that a list of registrations gives.
abbrev first_reply : {D : Type 0} → Option (List (ClientReg D)) → Reply D
first_reply none = return_code
first_reply (some []) = outside
first_reply (some (r ∷ rs)) = results r.details
