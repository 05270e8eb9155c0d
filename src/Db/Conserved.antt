-- ===== src/Db/Conserved.antt =====
-- db/influx.go: what `Loop` as a whole does with the measurements.
use bitmarkd_broadcast_monit.Common.{
  ◌≡◌, refl, sym, ap, ap₂, ◌∙◌, inl, inr, Bool, true, false, some, List, [], ◌∷◌, ◌++◌, arith, map,
  if◌then◌else◌, Bool-cases, append-nil, append_assoc, subst,
}
use mathlib.Core.Option.{some-injective}
use mathlib.Core.List.Perm
use mathlib.Core.List.{Perm, perm_append_comm, map-append}
use bitmarkd_broadcast_monit.Db.{
  InfluxData, InfluxClient, Influx, Written, LoopEvent, shutdown, timer, added, write, write_queue,
  send_taken, send_batch, add, close, loop_events, loop,
}
use bitmarkd_broadcast_monit.Db.Queue.{Points, Outcome, write-Outcome}

module _ {Point : Type 0} (point : InfluxData → Point) where
  -- A client that makes a point of every measurement.
  abbrev pub MakesPoints : InfluxClient Point → Type 0
  MakesPoints c = (d : InfluxData) → c.new_point d ≡ some (point d)

  -- Nothing is added between the count of the points and the lock of a `write`.
  abbrev pub Undisturbed : List (LoopEvent Point) → Type 0
  Undisturbed [] = Unit {0}
  Undisturbed (shutdown c before during ∷ es) = MakesPoints c × (before ≡ [])
  Undisturbed (timer c before during ∷ es) = MakesPoints c × (before ≡ []) × Undisturbed es
  Undisturbed (added d ∷ es) = Undisturbed es

  -- What is added up to the end of the last `write`.
  abbrev pub offered : List (LoopEvent Point) → List InfluxData
  offered [] = []
  offered (shutdown c before during ∷ es) = during
  offered (timer c before during ∷ es) = during ++ offered es
  offered (added d ∷ es) = d ∷ offered es

  -- The points that the database takes, in their order.
  unfoldable pub delivered : List (LoopEvent Point) → Influx → List Point
  delivered [] i = []
  delivered (shutdown c before during ∷ es) i = (write c before during i).batch
  delivered (timer c before during ∷ es) i =
      let w = write c before during i in w.batch ++ delivered es w.after
  delivered (added d ∷ es) i = delivered es (add i d)

  -- The points that the database takes from a `write` that gives an error.
  abbrev unconfirmed : Written Point → List Point
  unconfirmed w = if w.ok then [] else w.batch

  -- Those of all writes, in their order.
  unfoldable pub repeated : List (LoopEvent Point) → Influx → List Point
  repeated [] i = []
  repeated (shutdown c before during ∷ es) i = unconfirmed (write c before during i)
  repeated (timer c before during ∷ es) i =
      let w = write c before during i in unconfirmed w ++ repeated es w.after
  repeated (added d ∷ es) i = repeated es (add i d)

  Points-map :
      (c : InfluxClient Point) (ds : List InfluxData) (ps : List Point)
      → MakesPoints c
      → Points c ds ps
      → ps ≡ map point ds
  Points-map c [] [] makes h = refl
  Points-map c [] (p ∷ ps) makes h = elim h [ ]
  Points-map c (d ∷ ds) [] makes h = elim h [ ]
  Points-map c (d ∷ ds) (p ∷ ps) makes h =
      ap₂ ◌∷◌ (some-injective _ _ (sym h.0 ∙ makes d)) (Points-map c ds ps makes h.1)

  -- A `write` keeps all that is queued or takes it, and may take some of what it keeps.
  abbrev Kept : List InfluxData → List InfluxData → Written Point → Type 0
  Kept q during w =
      Perm (w.batch ++ map point w.after.queue) (map point (q ++ during) ++ unconfirmed w)

  equal : {xs ys : List Point} → xs ≡ ys → Perm xs ys
  equal {xs} e = subst (Perm xs) e (Perm.refl _)

  unconfirmed_if :
      (q during : List InfluxData) (w : Written Point) (b : Bool)
      → w.ok ≡ b
      → map point (q ++ during) ++ (if b then [] else w.batch)
        ≡ map point (q ++ during) ++ unconfirmed w
  unconfirmed_if q during w b e =
      ap (λ (b : Bool). map point (q ++ during) ++ (if b then [] else w.batch)) (sym e)

  taken-Kept :
      (c : InfluxClient Point) (q during : List InfluxData) (w : Written Point)
      → MakesPoints c
      → Outcome c q during w
      → Kept q during w
  unfolding Outcome
  taken-Kept c q during w makes o =
      let all = map point (q ++ during) in
      elim o [
        | inl (ok, points, _, left) ↦ equal (
            ap₂ ◌++◌ (Points-map c q w.batch makes points) (ap (map point) left)
            ∙ sym (map-append point q during)
            ∙ sym (append-nil all)
            ∙ unconfirmed_if q during w true ok)
        | inr (failed, _, left) ↦
            Perm.trans
              (Perm.append_left w.batch (
                Perm.trans (equal (ap (map point) left))
                  (Perm.map point (perm_append_comm during q))))
              (Perm.trans (perm_append_comm w.batch all)
                (equal (unconfirmed_if q during w false failed)))
      ]

  write_queue-Kept :
      (c : InfluxClient Point) (during : List InfluxData) (i : Influx) (q : List InfluxData)
      → MakesPoints c
      → Kept q during (write_queue c [] during i q)
  unfolding write write_queue
  write_queue-Kept c during i [] makes = equal (sym (append-nil _))
  write_queue-Kept c during i (d ∷ ds) makes = elim (Bool-cases (c.new_batch_points i.database)) [
    | inl batch ↦
        taken-Kept c (d ∷ ds) during _ makes
          (write-Outcome c [] during (record i { queue = d ∷ ds }) (λ e. cc) batch)
    | inr none_made ↦
        rw (write_queue, none_made)
          (equal (
            ap (λ l. map point (l ++ during)) (append-nil (d ∷ ds))
            ∙ sym (append-nil (map point ((d ∷ ds) ++ during)))))
  ]

  write_queue-is_ok :
      (c : InfluxClient Point) (before during : List InfluxData) (i : Influx) (q : List InfluxData)
      → (write_queue c before during i q).after.is_ok ≡ i.is_ok
  unfolding write_queue send_taken send_batch
  write_queue-is_ok c before during i [] = refl
  write_queue-is_ok c before during i (d ∷ ds) = ground arith

  swap_middle : (a b c d : List Point) → Perm ((a ++ b) ++ (c ++ d)) ((a ++ c) ++ (b ++ d))
  swap_middle a b c d = Perm.trans (equal (append_assoc a b (c ++ d))) (
      Perm.trans
        (Perm.append_left a (
          Perm.trans (equal (sym (append_assoc b c d)))
            (Perm.trans (Perm.append_right d (perm_append_comm b c)) (equal (append_assoc c b d)))))
        (equal (sym (append_assoc a c (b ++ d)))))

  -- What a `write` keeps or takes, and what the rest of the loop does with what it has kept.
  then_rest :
      (batch ps twice twice_later : List Point) (q during left rest : List InfluxData)
      → Perm (batch ++ map point left) (map point (q ++ during) ++ twice)
      → Perm ps (map point (left ++ rest) ++ twice_later)
      → Perm (batch ++ ps) (map point (q ++ (during ++ rest)) ++ (twice ++ twice_later))
  then_rest batch ps twice twice_later q during left rest kept later =
      Perm.trans (Perm.append_left batch later) (
        Perm.trans
          (equal (
            ap (λ l. batch ++ (l ++ twice_later)) (map-append point left rest)
            ∙ ap (λ l. batch ++ l) (append_assoc (map point left) (map point rest) twice_later)
            ∙ sym (append_assoc batch (map point left) (map point rest ++ twice_later))))
          (Perm.trans (Perm.append_right (map point rest ++ twice_later) kept) (
            Perm.trans (swap_middle (map point (q ++ during)) twice (map point rest) twice_later) (
              equal (
                ap (λ l. l ++ (twice ++ twice_later))
                  (sym (map-append point (q ++ during) rest)
                    ∙ ap (map point) (append_assoc q during rest)))))))

  -- The points taken and those still queued are those of what was to be written, and those that
  -- were taken without being confirmed once more.
  abbrev Accounted : List (LoopEvent Point) → Influx → Influx → Type 0
  Accounted es i after =
      Perm (delivered es i ++ map point after.queue)
        (map point (i.queue ++ offered es) ++ repeated es i)

  loop_events-Perm :
      (es : List (LoopEvent Point)) (i : Influx)
      → i.is_ok ≡ true
      → Undisturbed es
      → Accounted es i (loop_events es i)
  unfolding delivered repeated loop_events close write add
  loop_events-Perm [] i up u =
      equal (ap (map point) (sym (append-nil i.queue)) ∙ sym (append-nil _))
  loop_events-Perm (shutdown c before during ∷ es) i up u = rw u.1 (
      let w = write c [] during i in
      let left : (close c [] during i).1.queue ≡ w.after.queue =
        ap
          (λ (b : Bool).
            let r : Bool × Influx = if b then (c.close, w.after) else (true, i) in r.1.queue)
          up in
      subst (λ l. Perm (w.batch ++ map point l) (map point (i.queue ++ during) ++ unconfirmed w))
        (sym left) (write_queue-Kept c during i i.queue u.0))
  loop_events-Perm (timer c before during ∷ es) i up u = rw u.1 (
      let w = write c [] during i in
      Perm.trans (equal (append_assoc w.batch _ _)) (
        then_rest w.batch _ (unconfirmed w) (repeated es w.after) i.queue during w.after.queue
          (offered es) (write_queue-Kept c during i i.queue u.0)
          (loop_events-Perm es w.after (write_queue-is_ok c [] during i i.queue ∙ up) u.2)))
  loop_events-Perm (added d ∷ es) i up u =
      let j : Influx = record i { queue = i.queue ++ d ∷ [] } in
      let same : j ≡ add i d = sym (ap (λ (b : Bool). if b then j else i) up) in
      subst
        (λ k.
          Perm (delivered es k ++ map point (loop_events es k).queue)
            (map point (i.queue ++ d ∷ offered es) ++ repeated es k))
        same
        (Perm.trans (loop_events-Perm es j up u) (
          equal
            (ap (λ l. map point l ++ repeated es j) (append_assoc i.queue (d ∷ []) (offered es)))))

  -- While the database is in use, its client makes a point of each measurement, and nothing is added
  -- between the count of the points and the lock of a `write`, the points that the database has
  -- taken and those that are queued at the end are together, in some order, those of what was queued
  -- and of what was added up to the end of the last `write`, and once more those that writes have
  -- taken which gave an error: none is lost, whichever writes fail, and only those of such a write
  -- come twice.
  pub loop-Perm :
      (es : List (LoopEvent Point)) (i : Influx)
      → i.is_ok ≡ true
      → Undisturbed es
      → Perm
          (delivered es i ++ map point (loop es i).queue)
          (map point (i.queue ++ offered es) ++ repeated es i)
  unfolding loop
  loop-Perm es i up u =
      subst
        (λ l.
          Perm (delivered es i ++ map point l) (map point (i.queue ++ offered es) ++ repeated es i))
        (sym (ap (λ (b : Bool). (if b then loop_events es i else i).queue) up))
        (loop_events-Perm es i up u)
