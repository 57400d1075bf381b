-- ===== src/AcmeErrors.antt =====
-- src/jackdaw/acme_errors.py.
use jackdaw.Base.{String, ◌<>◌}

abbrev pub prefix : String
prefix = "urn:ietf:params:acme:error:"

abbrev pub account_does_not_exist : String
account_does_not_exist = prefix <> "accountDoesNotExist"

abbrev pub connection : String
connection = prefix <> "connection"

abbrev pub dns : String
dns = prefix <> "dns"

abbrev pub malformed : String
malformed = prefix <> "malformed"

abbrev pub order_not_ready : String
order_not_ready = prefix <> "orderNotReady"

abbrev pub rate_limited : String
rate_limited = prefix <> "rateLimited"

abbrev pub rejected_identifier : String
rejected_identifier = prefix <> "rejectedIdentifier"

abbrev pub server_internal : String
server_internal = prefix <> "serverInternal"

abbrev pub unauthorized : String
unauthorized = prefix <> "unauthorized"
