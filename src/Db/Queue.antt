-- ===== src/Db/Queue.antt =====
-- db/influx.go: what `write` sends, keeps and loses.
use bitmarkd_broadcast_monit.Common.{
  ◌≡◌, ◌≢◌, refl, ap, sym, ◌∙◌, ◌⊎◌, inl, inr, true, false, Option, none, some, List, [], ◌∷◌, ◌++◌,
  arith, length, take, Bool-cases, Option-cases, subst,
}
use bitmarkd_broadcast_monit.Db.{
  InfluxData, InfluxClient, Influx, Written, new_points, send_batch, send_taken, write_queue, write,
}

take-append : (xs ys : List InfluxData) → take (length xs) (xs ++ ys) ≡ xs
take-append [] ys = refl
take-append (x ∷ xs) ys = ap (λ l. x ∷ l) (take-append xs ys)

not-nil : (xs : List InfluxData) (d : InfluxData) (ys : List InfluxData) → xs ++ d ∷ ys ≢ []
not-nil [] d ys e = cc
not-nil (x ∷ xs) d ys e = cc

module _ {Point : Type 0} where
  -- The measurements and their points, one for one.
  abbrev pub Points : InfluxClient Point → List InfluxData → List Point → Type 0
  Points c [] [] = Unit {0}
  Points c [] (p ∷ ps) = ⊥
  Points c (d ∷ ds) [] = ⊥
  Points c (d ∷ ds) (p ∷ ps) = (c.new_point d ≡ some p) × Points c ds ps

  new_points-Points :
      (c : InfluxClient Point) (ds : List InfluxData) {ps : List Point}
      → new_points c ds ≡ some ps
      → Points c ds ps
  unfolding new_points
  new_points-Points c [] {ps} e = subst (Points c []) {x = []} {y = ps} (ground arith) tt
  new_points-Points c (d ∷ ds) {ps} e = elim (Option-cases (c.new_point d)) [
    | inl n ↦ absurd (ground arith)
    | inr (p, f) ↦ elim (Option-cases (new_points c ds)) [
      | inl n ↦ absurd (ground arith)
      | inr (qs, g) ↦
          subst (Points c (d ∷ ds)) {x = p ∷ qs} {y = ps} (ground arith)
            (f, new_points-Points c ds g)
    ]
  ]

  new_points-none :
      (c : InfluxClient Point) (xs : List InfluxData) (d : InfluxData) (ys : List InfluxData)
      → c.new_point d ≡ none
      → new_points c (xs ++ d ∷ ys) ≡ none
  unfolding new_points
  new_points-none c [] d ys e = rw e refl
  new_points-none c (x ∷ xs) d ys e = ground (arith, new_points-none c xs d ys e)

  -- Why a call fails that has taken `ds` off the queue, and what the database has of them.
  abbrev pub Failure : InfluxClient Point → List InfluxData → List Point → Type 0
  Failure c ds batch =
      ((new_points c ds ≡ none) × (batch ≡ []))
      ⊎ ((ps : List Point) × Points c ds ps
          × (c.write_batch ps ≡ false)
          × (batch ≡ c.taken_on_error ps))

  -- What the call leaves and returns when it has taken `ds` off the queue.
  unfoldable pub Outcome :
      InfluxClient Point → List InfluxData → List InfluxData → Written Point → Type 0
  Outcome c ds during w =
      ((w.ok ≡ true)
        × Points c ds w.batch
        × (c.write_batch w.batch ≡ true)
        × (w.after.queue ≡ during))
      ⊎ ((w.ok ≡ false) × Failure c ds w.batch × (w.after.queue ≡ during ++ ds))

  send_batch-Outcome :
      (c : InfluxClient Point) (ds during : List InfluxData) (i : Influx) (r : Option (List Point))
      → new_points c ds ≡ r
      → Outcome c ds during (send_batch c ds (record i { queue = during }) r)
  unfolding Outcome send_batch
  send_batch-Outcome c ds during i none e = inr (refl, inl (e, refl), refl)
  send_batch-Outcome c ds during i (some ps) e = elim (Bool-cases (c.write_batch ps)) [
    | inl y ↦ inl (rw y (refl, new_points-Points c ds e, y, refl))
    | inr n ↦ inr (rw n (refl, inr (ps, new_points-Points c ds e, n, refl), refl))
  ]

  taken :
      (c : InfluxClient Point) (before during : List InfluxData) (i : Influx) (q : List InfluxData)
      → q ≢ []
      → c.new_batch_points i.database ≡ true
      → write_queue c before during i q ≡ send_taken c q (record i { queue = during })
  unfolding write_queue
  taken c before during i [] h b = absurd (h refl)
  taken c before during i (d ∷ ds) h b =
      rw b (ap (λ q. send_taken c q (record i { queue = during })) (take-append (d ∷ ds) before))

  pub write-Outcome :
      (c : InfluxClient Point) (before during : List InfluxData) (i : Influx)
      → i.queue ≢ []
      → c.new_batch_points i.database ≡ true
      → Outcome c i.queue during (write c before during i)
  unfolding write send_taken
  write-Outcome c before during i h b =
      rw (taken c before during i i.queue h b)
        (send_batch-Outcome c i.queue during i (new_points c i.queue) refl)

  -- Where something is queued and a batch can be made, what other goroutines add between the count
  -- of the points and the lock leaves no trace: neither the batch nor the queue depends on it.
  pub write_loses :
      (c : InfluxClient Point) (before during : List InfluxData) (i : Influx)
      → i.queue ≢ []
      → c.new_batch_points i.database ≡ true
      → write c before during i ≡ write c [] during i
  unfolding write
  write_loses c before during i h b =
      taken c before during i i.queue h b ∙ sym (taken c [] during i i.queue h b)

  -- A measurement of which no point can be made stays in the queue and keeps all others there: each
  -- call fails and sends nothing.
  pub write_blocked :
      (c : InfluxClient Point) (before during : List InfluxData) (i : Influx) (xs : List InfluxData)
      (d : InfluxData) (ys : List InfluxData)
      → i.queue ≡ xs ++ d ∷ ys
      → c.new_batch_points i.database ≡ true
      → c.new_point d ≡ none
      → ((write c before during i).ok ≡ false)
        × ((write c before during i).batch ≡ [])
        × ((write c before during i).after.queue ≡ during ++ (xs ++ d ∷ ys))
  unfolding write send_taken send_batch
  write_blocked c before during i xs d ys e b n =
      rw (taken c before during i i.queue (λ f. not-nil xs d ys (sym e ∙ f)) b)
        (rw (e, new_points-none c xs d ys n) (refl, refl, refl))
