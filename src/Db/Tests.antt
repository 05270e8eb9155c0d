-- ===== src/Db/Tests.antt =====
-- db/influx.go with a concrete client.
use bitmarkd_broadcast_monit.Common.{
  ℕ, ◌≡◌, refl, Bool, true, false, none, some, List, [], ◌∷◌, ◌++◌, map, codes, take, ◌==◌,
  if◌then◌else◌,
}
use bitmarkd_broadcast_monit.Recorder.{no_drop}
use bitmarkd_broadcast_monit.Db.{
  InfluxData, InfluxClient, Influx, LoopEvent, add, timer, added, shutdown, loop, write, new_points,
  connection,
}
use bitmarkd_broadcast_monit.Db.Conserved.{delivered, repeated, offered, loop-Perm}
use mathlib.Core.List.{Perm}

abbrev sample : ℕ → InfluxData
sample t = record {
  fields = (codes "value", no_drop) ∷ [];
  measurement = codes "transaction-droprate";
  tags = (codes "name", codes "node") ∷ [];
  timing = t;
}

-- A client whose points are times, and which makes none of time 0. A write that gives an error has
-- written the first point all the same.
abbrev picky : Bool → InfluxClient ℕ
picky up = record {
  new_batch_points = λ _. true;
  new_point = λ d. if d.timing == 0 then none else some d.timing;
  write_batch = λ _. up;
  taken_on_error = take 1;
  close = true;
}

abbrev queued : Influx
queued = record { database = codes "db"; queue = sample 1 ∷ sample 2 ∷ []; is_ok = true }

write_test : (write (picky true) [] (sample 3 ∷ []) queued).batch ≡ 1 ∷ 2 ∷ []
unfolding write new_points
write_test = refl

connection_test : connection (codes "https://db") (codes "80") ≡ codes "https://db:80"
unfolding connection
connection_test = refl

abbrev stuck : Influx
stuck = record { database = codes "db"; queue = sample 1 ∷ sample 0 ∷ []; is_ok = true }

-- A client whose points are times.
abbrev plain : Bool → InfluxClient ℕ
plain up = record (picky up) { new_point = λ d. some d.timing }

-- A write that fails, one that succeeds, and the last one, with an addition during it.
abbrev run : List (LoopEvent ℕ)
run =
    timer (plain false) [] (sample 3 ∷ [])
    ∷ added (sample 4)
    ∷ timer (plain true) [] []
    ∷ added (sample 5)
    ∷ shutdown (plain true) [] (sample 6 ∷ [])
    ∷ []

delivered_test : delivered (λ d. d.timing) run queued ≡ 1 ∷ 3 ∷ 1 ∷ 2 ∷ 4 ∷ 5 ∷ []
unfolding delivered loop write add new_points
delivered_test = refl

repeated_test : repeated (λ d. d.timing) run queued ≡ 1 ∷ []
unfolding repeated loop write add new_points
repeated_test = refl

loop-Perm_example :
    Perm (delivered (λ d. d.timing) run queued ++ map (λ d. d.timing) (loop run queued).queue) (
      map (λ d. d.timing) (queued.queue ++ offered (λ d. d.timing) run)
      ++ repeated (λ d. d.timing) run queued)
loop-Perm_example =
    loop-Perm (λ d. d.timing) run queued refl
      ((λ d. refl), refl, ((λ d. refl), refl, ((λ d. refl), refl)))
