-- ===== src/Recorder/Heartbeat/Expiry.antt =====
-- recorder/heartbeat.go: which receipts the map holds.
use bitmarkd_broadcast_monit.Common.{
  suc, ◌+◌, ◌≡◌, refl, Bool, true, false, ◌&&◌, ◌||◌, List, [], ◌∷◌, arith, length, leb,
  if◌then◌else◌, ◌==◌,
}
use bitmarkd_broadcast_monit.Clock.{Time}
use bitmarkd_broadcast_monit.Recorder.{expired_time_interval}
use bitmarkd_broadcast_monit.Recorder.Heartbeat.{
  Heartbeat, insert, add, delete_expired, cleanup_expired_heartbeat,
}

-- Whether the map has an entry for a time.
abbrev pub has_key : Time → List (Time × Time) → Bool
has_key t [] = false
has_key t ((k, v) ∷ m) = k == t || has_key t m

-- Each time has one entry, which expires two hours later.
abbrev pub Entries : List (Time × Time) → Type 0
Entries [] = Unit {0}
Entries ((k, v) ∷ m) = (v ≡ k + expired_time_interval) × (has_key k m ≡ false) × Entries m

abbrev pub IsValid : Heartbeat → Type 0
IsValid h = Entries h.entries

has_key-insert :
    (t k v : Time) (m : List (Time × Time)) → has_key t (insert k v m) ≡ (k == t || has_key t m)
unfolding insert
has_key-insert t k v [] = refl
has_key-insert t k v ((j, w) ∷ m) = ground (arith, has_key-insert t k v m)

insert-Entries :
    (k : Time) (m : List (Time × Time))
    → Entries m
    → Entries (insert k (k + expired_time_interval) m)
unfolding insert
insert-Entries k [] e = (refl, refl, tt)
insert-Entries k ((j, w) ∷ m) e =
    ground (arith, insert-Entries k m e.2, has_key-insert j k (k + expired_time_interval) m)

length-insert :
    (k v : Time) (m : List (Time × Time))
    → length (insert k v m) ≡ (if has_key k m then length m else suc (length m))
unfolding insert
length-insert k v [] = refl
length-insert k v ((j, w) ∷ m) = ground (arith, length-insert k v m)

has_key-delete_expired :
    (t now : Time) (m : List (Time × Time))
    → Entries m
    → has_key t (delete_expired now m) ≡ (has_key t m && leb now (t + expired_time_interval))
unfolding delete_expired
has_key-delete_expired t now [] e = refl
has_key-delete_expired t now ((k, v) ∷ m) e = ground (arith, has_key-delete_expired t now m e.2)

delete_expired-Entries :
    (now : Time) (m : List (Time × Time)) → Entries m → Entries (delete_expired now m)
unfolding delete_expired
delete_expired-Entries now [] e = tt
delete_expired-Entries now ((k, v) ∷ m) e =
    ground (arith, delete_expired-Entries now m e.2, has_key-delete_expired k now m e.2)

-- `Add` keeps each time once with an expiry two hours later, adds the time of receipt, keeps all
-- others, and counts a time that is there already no second time.
pub add_lem :
    (h : Heartbeat) (t : Time)
    → IsValid h
    → IsValid (add h t)
      × ((u : Time) → has_key u (add h t).entries ≡ (t == u || has_key u h.entries))
      × (length (add h t).entries
          ≡ (if has_key t h.entries then length h.entries else suc (length h.entries)))
      × ((add h t).received ≡ true)
unfolding add
add_lem h t v = (
  insert-Entries t h.entries v,
  (λ u. has_key-insert u t (t + expired_time_interval) h.entries),
  length-insert t (t + expired_time_interval) h.entries,
  refl,
)

-- The clean-up keeps exactly the receipts of the last two hours, each once.
pub cleanup_lem :
    (h : Heartbeat) (now : Time)
    → IsValid h
    → IsValid (cleanup_expired_heartbeat h now)
      × ((u : Time)
          → has_key u (cleanup_expired_heartbeat h now).entries
            ≡ (has_key u h.entries && leb now (u + expired_time_interval)))
unfolding cleanup_expired_heartbeat
cleanup_lem h now v =
    (delete_expired-Entries now h.entries v, λ u. has_key-delete_expired u now h.entries v)
