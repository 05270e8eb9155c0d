-- ===== src/Node/Receiver/Cached.antt =====
-- nodes/node/receiver.go: what the cache of headers does to two blocks whose bytes begin alike.
use bitmarkd_broadcast_monit.Common.{
  ℕ, ◌+◌, ◌≤◌, ◌<◌, ◌≡◌, refl, arith, none, some, take, length, Bytes,
}
use bitmarkd_broadcast_monit.Clock.{Time}
use bitmarkd_broadcast_monit.Cache.{GoCache, Keeps, default_expire_time}
use bitmarkd_broadcast_monit.Node.Receiver.{
  Header, CacheValue, header, Bitmarkd, held, find_header, header_of, slice_to, key_length,
}

slice_to-fits : (bytes : Bytes) (n : ℕ) → n ≤ length bytes → slice_to bytes n ≡ some (take n bytes)
unfolding slice_to
slice_to-fits bytes n h = ground arith

module _ (bitmarkd : Bitmarkd) (cache : GoCache (CacheValue bitmarkd.Digest)) where
  open bitmarkd use {extract_header}

  -- A block that was decoded on a cache miss gives its header to every block whose first ten bytes
  -- are the same, for as long as the cache keeps it: the second block is not decoded.
  pub find_header-same_prefix :
      (keeps : Keeps cache) (store : cache.Store) (now later : Time) (first second : Bytes)
      (h : Header)
      → key_length ≤ length first
      → key_length ≤ length second
      → take key_length second ≡ take key_length first
      → cache.get store now (take key_length first) ≡ none
      → extract_header first ≡ some h
      → now ≤ later
      → later < now + default_expire_time
      → (kept : cache.Store) × (find_header bitmarkd cache store now first ≡ held kept h)
        × (find_header bitmarkd cache kept later second ≡ held kept h)
  unfolding find_header header_of
  find_header-same_prefix keeps store now later first second h l₁ l₂ same miss decoded after soon =
      let key = take key_length first in
      let kept = cache.set store now key (header h) in
      (
        kept,
        rw (find_header, slice_to-fits first key_length l₁, miss, header_of, decoded) refl,
        rw
            (
              find_header,
              slice_to-fits second key_length l₂,
              same,
              keeps.get-set store now later key (header h) after soon,
            )
            refl,
      )
