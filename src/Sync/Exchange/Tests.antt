-- ===== src/Sync/Exchange/Tests.antt =====
-- A call of packages/typescript/src/sync that its worker serves, and the theorem at it.
use ja3proxy.Base.{◌≡◌, refl, true, false, [], ◌∷◌, some, none, arith}
use ja3proxy.Errors.{returned}
use ja3proxy.Wire.Value.{null, string}
use ja3proxy.Sync.Calls.{other, SyncClient, call}
use ja3proxy.Sync.Worker.{Reply, Worker}
use ja3proxy.Sync.Exchange.{reply_value}
use ja3proxy.Sync.Exchange.Served.{serve, call-serve}

abbrev client : SyncClient
client = record {
  operation_timeout_ms = 500;
  sequence = 0;
  closing = false;
  closed = false;
  cleanup_complete = false;
  failure = none;
  posted = [];
}

abbrev worker : Worker
worker = record {
  active_id = 0;
  stopped = false;
  busy = false;
  closing = false;
  accepted = [];
  replies = record { id = 0; content = returned null } ∷ [];
}

abbrev first_reply : Reply
first_reply = record { id = 1; content = returned (string "pong") }

call-serve_example :
    ((serve (other "capabilities") null 50 (returned (string "pong")) client worker).replies
      ≡ first_reply ∷ worker.replies)
    × ((call true
          (other "capabilities")
          null
          50
          (record { message = some (reply_value first_reply); stopped = false } ∷ [])
          client).0
        ≡ returned (string "pong"))
call-serve_example =
    call-serve (other "capabilities") null 50 (returned (string "pong")) false client worker
      (record {
        usable = refl;
        not_closing = refl;
        known = refl;
        safe = omega arith;
        positive = omega arith;
        fits = omega arith;
        running = refl;
        idle = refl;
      })
      tt
