-- ===== src/Tests/Limits.antt =====
-- The limits of requests.
use goud_chain.Prelude.{
  ℕ, ◌+◌, ℤ, List, show, show_ℤ, pos, ◌-ℤ◌, rem, String, str_eq, [], ◌∷◌, Option, none, some, true,
  false, ◌≡◌, refl, arith, if◌then◌else◌,
}
use goud_chain.Errors.{ok}
use goud_chain.Storage.RateLimitStore.{RateLimitEntry, Limits, ban_key}
use goud_chain.Storage.RateLimitStore.Records.{HasViolations, HasBan}
use goud_chain.Storage.Bans.{complete_blacklist, new_violations, add_violation, new_ban}
use goud_chain.Crypto.Externals.{Bytes}
use goud_chain.Api.RateLimiter.{LimitClock, penalise, check_limit}
use goud_chain.Api.RateLimiter.Sentence.{sentence, IsPenalised}
use goud_chain.Api.RateLimiter.Penalties.{penalise_lem}
use goud_chain.Api.RateLimiter.Blacklist.{
  LimitRequest, IsBlockedUnlessFailed, after_checks, blacklisted_stays,
}
use goud_chain.Storage.RateLimitStore.{
  increment_request_count, current_window, count_from_db, read_key, write_one,
}
use goud_chain.Storage.RateLimitStore.Mixed.{
  requests_of, StaysCached, after_requests, increment_request_count-after_requests,
}
use goud_chain.Storage.RateLimitStore.{get_current_count}
use goud_chain.Storage.RateLimitStore.Current.{get_current_count-increment_request_count}
use goud_chain.Tests.Toy.{crates, disk, empty, empty_cache, lru}
use goud_chain.Tests.Laws.{disk_laws, lru_laws}
use goud_chain.Tests.Codecs.{violation_codec, ban_codec, violation_laws, ban_laws, disk-IsReliable}

abbrev at : ℕ → LimitClock
at now = record {
  on_bypass = pos now;
  on_ip = pos now;
  on_ban = pos now;
  on_retry = pos now;
  on_count = pos now;
  on_reset = pos now;
  on_violation = pos now;
  on_apply = pos now;
  on_ip_ban = pos now;
}

abbrev fresh : Limits (String → Option Bytes) (String → Option RateLimitEntry)
fresh = record { db = empty; cache = empty_cache }

fresh-HasViolations : HasViolations disk lru violation_codec ban_codec "k" new_violations fresh
fresh-HasViolations = record { stored = none; in_db = refl; decoded = refl }

penalise_lem_example :
    (s' : Limits (String → Option Bytes) (String → Option RateLimitEntry)) × (penalise crates disk
        lru violation_codec ban_codec "k" "ip"
        (at 9)
        10
        fresh
      ≡ (ok (sentence 10 0), s'))
    × HasViolations disk lru violation_codec ban_codec "k" (add_violation (pos 9) new_violations) s'
    × IsPenalised disk lru violation_codec ban_codec "k" "ip" (at 9) 0 fresh s'
penalise_lem_example =
    penalise_lem disk lru violation_codec ban_codec crates disk_laws disk-IsReliable violation_laws
      ban_laws "k" "ip" (at 9) 10 new_violations fresh (omega arith) fresh-HasViolations

abbrev barred : Limits (String → Option Bytes) (String → Option RateLimitEntry)
barred = record {
  db = λ j. if str_eq j (ban_key "k") then some (5 ∷ 0 ∷ 3 ∷ []) else none;
  cache = empty_cache;
}

barred-HasBan :
    HasBan disk lru violation_codec ban_codec "k" (new_ban (pos 3) complete_blacklist) barred
unfolding new_ban
barred-HasBan = record { stored = 5 ∷ 0 ∷ 3 ∷ []; in_db = refl; decoded = refl }

abbrev request : String → LimitRequest
request key = record { api_key_hash = key; client_ip = "1.2.3.4"; is_write = true; clock = at 8 }

blacklisted_stays_example :
    HasBan disk lru violation_codec ban_codec "k" (new_ban (pos 3) complete_blacklist) (
      after_checks crates disk lru violation_codec ban_codec
        ("b" ∷ [])
        (request "k" ∷ request "j" ∷ [])
        barred)
    × IsBlockedUnlessFailed 100
        (pos 9)
        (check_limit crates disk lru violation_codec ban_codec
          ("b" ∷ [])
          "k"
          "5.6.7.8"
          false
          (at 9)
          (after_checks crates disk lru violation_codec ban_codec
            ("b" ∷ [])
            (request "k" ∷ request "j" ∷ [])
            barred)).0
blacklisted_stays_example =
    blacklisted_stays crates disk lru violation_codec ban_codec disk_laws "k" (pos 3) ("b" ∷ [])
      (request "k" ∷ request "j" ∷ []) "5.6.7.8" false (at 9) 100 (pos 9) barred refl barred-HasBan

window_seven : current_window (pos 7) ≡ pos 7
unfolding current_window ◌-ℤ◌ rem
window_seven = refl

-- Two requests of one key, with one of another in between.
abbrev mixed : List (String × ℤ)
mixed = ("k", pos 7) ∷ ("j", pos 7) ∷ ("k", pos 7) ∷ []

stays : StaysCached disk lru violation_codec ban_codec "k:7" mixed fresh
unfolding increment_request_count count_from_db read_key write_one current_window ◌-ℤ◌ rem show_ℤ
    show
stays = (λ h e. cc, (λ h e. cc, (λ h e. cc, tt)))

increment_request_count-after_requests_example :
    (increment_request_count disk lru violation_codec ban_codec "k"
      (pos 7)
      (after_requests disk lru violation_codec ban_codec mixed fresh)).0
    ≡ ok (requests_of "k" mixed + 1)
unfolding show_ℤ show
increment_request_count-after_requests_example =
    increment_request_count-after_requests disk lru violation_codec ban_codec lru_laws disk_laws "k"
      (pos 7) disk-IsReliable violation_laws ban_laws (pos 7) mixed fresh window_seven
      (window_seven, (window_seven, (window_seven, tt))) (omega arith) refl refl stays

counted_once :
    (increment_request_count disk lru violation_codec ban_codec "k" (pos 7) fresh).0 ≡ ok 1
unfolding increment_request_count count_from_db read_key write_one current_window ◌-ℤ◌ rem
counted_once = refl

get_current_count-increment_request_count_example :
    (get_current_count disk lru violation_codec ban_codec "k"
      (pos 7)
      (increment_request_count disk lru violation_codec ban_codec "k" (pos 7) fresh).1).0
    ≡ ok 1
get_current_count-increment_request_count_example =
    get_current_count-increment_request_count disk lru violation_codec ban_codec lru_laws "k"
      (pos 7) (pos 7) 1 fresh refl counted_once
