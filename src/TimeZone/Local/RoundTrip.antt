-- ===== src/TimeZone/Local/RoundTrip.antt =====
-- `toLocalTime` and then `fromLocalTime`, both of base/TimeZone.cc.
use naive_net.Common.{
  ℕ, ◌≡◌, refl, ◌∙◌, List, ◌∷◌, ◌++◌, some, Bool, true, false, ◌&&◌, if◌then◌else◌, get_elem?,
}
use naive_net.Common.Int.{ℤ, pos, negsuc, ◌+ℤ◌, ◌-ℤ◌, ◌≤ℤ◌, ◌==ℤ◌, int_laws}
use naive_net.TimeZone.Utc.{Tm}
use naive_net.TimeZone.Data.{Transition, Localtime, Data, find_localtime, search_from}
use naive_net.TimeZone.Data.Search.{InForce, find_localtime-InForce}
use naive_net.TimeZone.Local.{
  fixed_zone, bool_int, at_gmt, at_local, local_tm, to_local_time, from_local_time,
}

-- The time an hour earlier is taken only in summer time, and only for a time out of it.
settled :
    (dst p q : Bool) (t u : ℤ)
    → (if bool_int dst ==ℤ pos 0
        then some t
        else some (if (bool_int dst ==ℤ pos 0) && p && q then u else t))
      ≡ some t
settled true p q t u = refl
settled false p q t u = refl

-- `timegm` gives the time of which `gmtime_r` made the date, whatever stands in the fields for the
-- zone. It is asked for the times from the year 0 on.
module _ (gmtime_r : ℤ → Tm) (timegm : Tm → ℤ)
    (timegm-gmtime_r : (t dst offset : ℤ) (zone : List ℕ)
      → negsuc 62167219199 ≤ℤ t
      → timegm (record (gmtime_r t) { tm_isdst = dst; tm_gmtoff = offset; tm_zone = zone })
        ≡ t) where
  back : (t o : ℤ) → t +ℤ o -ℤ o ≡ t
  back t o = omega int_laws

  round_trip :
      (d : Data) (local : Localtime) (t : ℤ)
      → negsuc 62167219199 ≤ℤ t +ℤ local.gmt_offset
      → find_localtime true (at_gmt t) d ≡ some local
      → find_localtime false (at_local (t +ℤ local.gmt_offset)) d ≡ some local
      → from_local_time gmtime_r timegm
          (record { zone = some d })
          (local_tm gmtime_r t d.abbreviation local)
        ≡ some t
  unfolding from_local_time local_tm
  round_trip d local t h e f =
      rw (timegm-gmtime_r _ _ _ _ h, f, back t local.gmt_offset, e) (settled local.is_dst _ _ t _)

  -- A zone with a fixed offset: the local time of a time gives back the time.
  pub from_local_time-fixed_zone :
      (east : ℤ) (name : List ℕ) (t : ℤ)
      → negsuc 62167219199 ≤ℤ t +ℤ east
      → (tm : Tm) × (to_local_time gmtime_r (fixed_zone east name) t ≡ some tm)
        × (from_local_time gmtime_r timegm (fixed_zone east name) tm ≡ some t)
  unfolding fixed_zone to_local_time find_localtime search_from
  from_local_time-fixed_zone east name t h = (_, refl, round_trip _ _ t h refl refl)

  -- A zone with transitions: the local time of a time gives back the time, in summer time and out
  -- of it, where one transition is in force both at the time and at its local time.
  pub from_local_time-InForce :
      (d : Data) (t : ℤ) (before : List Transition) (tr : Transition) (after : List Transition)
      (local : Localtime)
      → d.transitions ≡ before ++ tr ∷ after
      → get_elem? d.localtimes tr.localtime_idx ≡ some local
      → InForce true (at_gmt t) before tr after
      → InForce false (at_local (t +ℤ local.gmt_offset)) before tr after
      → negsuc 62167219199 ≤ℤ t +ℤ local.gmt_offset
      → (tm : Tm) × (to_local_time gmtime_r (record { zone = some d }) t ≡ some tm)
        × (from_local_time gmtime_r timegm (record { zone = some d }) tm ≡ some t)
  unfolding to_local_time
  from_local_time-InForce d t before tr after local e l f g h =
      let found = find_localtime-InForce true (at_gmt t) d before tr after e f ∙ l in
      let found' =
        find_localtime-InForce false (at_local (t +ℤ local.gmt_offset)) d before tr after e g ∙ l in
      (local_tm gmtime_r t d.abbreviation local, rw found, round_trip d local t h found found')
