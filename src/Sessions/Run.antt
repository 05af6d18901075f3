-- ===== src/Sessions/Run.antt =====
-- packages/typescript/src/sessions.ts: createSession, and sequences of what happens to a session. Each
-- operation of a managed session runs alone; a completion of a stream, which only marks the session
-- as lost, counts before or after it.
pub mod Triples
pub mod Operations
pub mod Accounts
pub mod Opening
pub mod Leaks
pub mod Safety
pub mod Closing
pub mod Changes
pub mod Rebinding
pub mod Revisions
pub mod Exact
mod Tests
use ja3proxy.Base.{ℕ, Bool, true, false, String, List, [], ◌∷◌, Option, none, some}
use ja3proxy.Platform.{Url}
use ja3proxy.Errors.{TransportError, Outcome, returned, threw}
use ja3proxy.Wire.Value.{Value, undefined}
use ja3proxy.Sessions.{Service, Settings, World, Session, Info, Exec}
use ja3proxy.Sessions.Cookies.{get_cookies, set_cookies, export_cookies, import_cookies}
use ja3proxy.Sessions.Rebind.{rebind_identity, RebindOutcome}
use ja3proxy.Sessions.Rebind.Open.{open_context}
use ja3proxy.Sessions.Close.{close, stopped}
use ja3proxy.Sessions.Streams.{Exchange, accept, failed}

-- Before `info` is set there is no session; nothing reads this one.
abbrev blank : World
blank = record {
  session = record {
    info = record {
      context_id = "";
      partition = "";
      expires_at_ms = 0;
      revision = 0;
      cookie_mode = "";
      identity = undefined;
    };
    connection = undefined;
    cleanup = [];
    lost = false;
    accepting = true;
  };
  sent = [];
}

abbrev pub new_session : Value → Info → Session
new_session connection info = record {
  info = info;
  connection = connection;
  cleanup = info.context_id ∷ [];
  lost = false;
  accepting = true;
}

opened : Value → Outcome Info × World → Outcome World
opened connection (returned info, w) = returned (record w { session = new_session connection info })
opened connection (threw e, w) = threw e

-- createSession, behind its tests of the options.
pub create : (String → Option Url) → Service → Settings → Value → Outcome World
unfolding opened
create parse service settings connection =
    opened connection (open_context parse service settings connection blank)

pub data Event : Type 0 where
  got_cookies : Outcome (Unit {0}) → Value → Event
  did_set : Outcome (Unit {0}) → (url values : Value) → Event
  exported : Outcome (Unit {0}) → Event
  imported : Outcome (Unit {0}) → Value → Event
  rebound : Outcome (Unit {0}) → Value → Event
  streamed : Info → Exchange → Event
  stream_failed : TransportError → Info → Event
  stopped_accepting : Event
  closed : Option TransportError → Event

module _ (parse : String → Option Url) (service : Service) (settings : Settings) where
  pub step : Event → World → World
  step (got_cookies turn url) w = (get_cookies service settings turn url w).1
  step (did_set turn url values) w = (set_cookies service settings turn url values w).1
  step (exported turn) w = (export_cookies service settings turn w).1
  step (imported turn snapshot) w = (import_cookies service settings turn snapshot w).1
  step (rebound turn identity) w = (rebind_identity parse service settings turn identity w).1
  step (streamed current x) w = (accept settings.managed current x w).1
  step (stream_failed e current) w = failed e current w
  step stopped_accepting w = record w { session = stopped w.session }
  step (closed late) w = (close service late w).1

  -- The latest event stands first.
  pub run : List Event → World → World
  run [] w = w
  run (e ∷ es) w = step e (run es w)
