-- ===== src/Communication/Tests.antt =====
-- communication/ on concrete replies.
use bitmarkd_broadcast_monit.Common.{◌≡◌, refl, [], ◌∷◌, codes}
use bitmarkd_broadcast_monit.Communication.{panics, put_uint, decode_height}

put_uint_test : put_uint 8 70_000 ≡ 0 ∷ 0 ∷ 0 ∷ 0 ∷ 0 ∷ 1 ∷ 17 ∷ 112 ∷ []
unfolding put_uint
put_uint_test = refl

-- A reply of the command alone is read past its end.
short_reply_test : decode_height (codes "N" ∷ []) ≡ panics
unfolding decode_height
short_reply_test = refl
