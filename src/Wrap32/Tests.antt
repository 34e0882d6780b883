-- ===== src/Wrap32/Tests.antt =====
-- Runs of the sequence numbers, and their theorems at concrete numbers.
use cs_144_minnow_tcp.Base.{◌≡◌, ◌≤◌, ◌<◌, refl, arith, mod64}
use cs_144_minnow_tcp.Wrap32.{Wrap32, wrap, unwrap, distance, better_prev, better_next}
use cs_144_minnow_tcp.Wrap32.Nearest.{unwrap_nearest, unwrap-wrap, wrap-unwrap}

-- An initial sequence number shortly before the wrap-around.
abbrev isn : Wrap32
isn = record { raw_value = 4294967290 }

abbrev ten : Wrap32
ten = record { raw_value = 10 }

wraps_around : wrap 16 isn ≡ ten
unfolding wrap
wraps_around = refl

unwrap_next_round : unwrap ten isn 4294967000 ≡ 4294967312
unfolding unwrap better_prev better_next distance
unwrap_next_round = refl

unwrap_nearest_example : distance 4294967000 (unwrap ten isn 4294967000) ≤ distance 4294967000 16
unwrap_nearest_example =
    unwrap_nearest ten isn 4294967000 16 (omega arith) (omega arith) (omega arith) (omega arith)
      wraps_around

unwrap-wrap_example : unwrap (wrap 4294967312 isn) isn 4294967000 ≡ 4294967312
unfolding distance
unwrap-wrap_example =
    unwrap-wrap 4294967312 isn 4294967000 (omega arith) (omega arith) (omega arith) (omega arith)

wrap-unwrap_example : (wrap (unwrap ten isn 7) isn ≡ ten) × (unwrap ten isn 7 < mod64)
wrap-unwrap_example = wrap-unwrap ten isn 7 (omega arith) (omega arith) (omega arith)
