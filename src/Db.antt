-- ===== src/Db.antt =====
-- db/influx.go: the queue of measurements in front of the influx database.
-- The client library is a parameter of each call, since it answers differently each time. What other
-- goroutines add while `write` does not hold the mutex are arguments too.
pub mod Queue
pub mod Conserved
pub mod Package
mod Tests
use bitmarkd_broadcast_monit.Common.{
  ℕ, Bool, true, false, ◌||◌, Option, none, some, List, [], ◌∷◌, ◌++◌, if◌then◌else◌, length, take,
  not, Bytes, codes, is_empty_string, has_prefix,
}
use bitmarkd_broadcast_monit.Clock.{Time}
use bitmarkd_broadcast_monit.Recorder.{Ratio}
use bitmarkd_broadcast_monit.Configuration.{InfluxDbConfig}

pub record InfluxData : Type 0 where
  pub fields : List (Bytes × Ratio)
  pub measurement : Bytes
  pub tags : List (Bytes × Bytes)
  pub timing : Time

-- How `dbClient` answers during one call of `write` or `Close`: whether a batch for the database is
-- made, what point a measurement makes, whether the batch is written without an error, what the
-- database has taken of a batch whose write gives an error, and whether `Close` works.
pub record InfluxClient (Point : Type 0) : Type 0 where
  pub new_batch_points : Bytes → Bool
  pub new_point : InfluxData → Option Point
  pub write_batch : List Point → Bool
  pub taken_on_error : List Point → List Point
  pub close : Bool

-- `Influx`, less the mutex, the client and the log. `queue` is the slice `Data`.
pub record Influx : Type 0 where
  pub database : Bytes
  pub queue : List InfluxData
  pub is_ok : Bool

unfoldable pub add : Influx → InfluxData → Influx
add i d = if i.is_ok then record i { queue = i.queue ++ d ∷ [] } else i

-- What `write` returns: whether it succeeded, and the batch that the database took.
pub record Written (Point : Type 0) : Type 0 where
  pub ok : Bool
  pub batch : List Point
  pub after : Influx

-- What `select` sees in `Loop`, with the answers and the additions during its `write` or the last
-- one of `Close`, and what is added while it waits.
pub data LoopEvent (Point : Type 0) : Type 0 where
  shutdown : InfluxClient Point → List InfluxData → List InfluxData → LoopEvent Point
  timer : InfluxClient Point → List InfluxData → List InfluxData → LoopEvent Point
  added : InfluxData → LoopEvent Point

module _ {Point : Type 0} where
  -- The points of the batch, unless one cannot be made.
  unfoldable pub new_points : InfluxClient Point → List InfluxData → Option (List Point)
  new_points c [] = some []
  new_points c (d ∷ ds) = elim (c.new_point d) [
    | none ↦ none
    | some pt ↦ elim (new_points c ds) [ none ↦ none | some pts ↦ some (pt ∷ pts) ]
  ]

  -- The batch is sent; `i` is the queue as the other goroutines have left it by then.
  send_batch : InfluxClient Point → List InfluxData → Influx → Option (List Point) → Written Point
  send_batch c points i none = record {
    ok = false;
    batch = [];
    after = record i { queue = i.queue ++ points };
  }
  send_batch c points i (some pts) =
      if c.write_batch pts then record { ok = true; batch = pts; after = i } else record {
        ok = false;
        batch = c.taken_on_error pts;
        after = record i { queue = i.queue ++ points };
      }

  send_taken : InfluxClient Point → List InfluxData → Influx → Written Point
  unfolding send_batch
  send_taken c points i = send_batch c points i (new_points c points)

  -- The call, at the queue that it finds. `before` is added between `make`, which fixes the number
  -- of points, and the lock; `during` between the unlock and the end of the call.
  unfoldable pub write_queue :
      InfluxClient Point
      → List InfluxData
      → List InfluxData
      → Influx
      → List InfluxData
      → Written Point
  unfolding send_taken
  write_queue c before during i [] = record {
    ok = true;
    batch = [];
    after = record i { queue = before ++ during };
  }
  write_queue c before during i (d ∷ ds) =
      if c.new_batch_points i.database
      then send_taken c (take (length (d ∷ ds)) ((d ∷ ds) ++ before)) (record i { queue = during })
      else record {
        ok = false;
        batch = [];
        after = record i { queue = (d ∷ ds) ++ before ++ during };
      }

  unfoldable pub write :
      InfluxClient Point → List InfluxData → List InfluxData → Influx → Written Point
  unfolding write_queue
  write c before during i = write_queue c before during i i.queue

  -- `Close` writes what is queued; its result is that of closing the client.
  unfoldable pub close :
      InfluxClient Point → List InfluxData → List InfluxData → Influx → Bool × Influx
  close c before during i =
      if i.is_ok then (c.close, (write c before during i).after) else (true, i)

  loop_events : List (LoopEvent Point) → Influx → Influx
  loop_events [] i = i
  loop_events (shutdown c before during ∷ es) i = (close c before during i).1
  loop_events (timer c before during ∷ es) i = loop_events es (write c before during i).after
  loop_events (added d ∷ es) i = loop_events es (add i d)

  -- The timer is started anew after each `write`.
  unfoldable pub loop : List (LoopEvent Point) → Influx → Influx
  unfolding loop_events
  loop es i = if i.is_ok then loop_events es i else i

-- The address of the database.
unfoldable pub connection : Bytes → Bytes → Bytes
connection addr port =
    if has_prefix addr (codes "http://") || has_prefix addr (codes "https://")
    then addr ++ codes ":" ++ port
    else codes "http://" ++ addr ++ codes ":" ++ port

-- `new_http_client` is whether the library makes a client for an address, a user and a password.
unfoldable pub initialise : (Bytes → Bytes → Bytes → Bool) → InfluxDbConfig → Option Influx
unfolding connection
initialise new_http_client config =
    if new_http_client (connection config.ip config.port) config.user config.password
    then some (record {
      database = config.database;
      queue = [];
      is_ok = not (is_empty_string config.ip || is_empty_string config.port);
    })
    else none
