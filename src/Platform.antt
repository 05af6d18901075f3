-- ===== src/Platform.antt =====
-- What packages/typescript/src takes from its platform: the parts of a URL that the class URL
-- parses. Parsing itself is an argument of the functions that use it.
use ja3proxy.Base.{String}

pub record Url : Type 0 where
  pub href : String
  pub origin : String
  -- Without the colon that JavaScript keeps at its end.
  pub protocol : String
  pub username : String
  pub password : String
  pub hostname : String
  pub pathname : String
  pub search : String
  pub hash : String
